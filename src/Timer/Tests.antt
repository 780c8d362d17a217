-- ===== src/Timer/Tests.antt =====
-- Timers on concrete values.
use mm_wave_tracker.Prelude.{
  Gives, ℕ, ◌+◌, ◌-◌, ◌*◌, ◌<◌, ◌≡◌, refl, List, [], ◌∷◌, ◌++◌, none, some, arith,
}
use mm_wave_tracker.Prelude.Int.{pos}
use mm_wave_tracker.Time.{
  IperfTime, IsNormal, iperf_time_add_usecs, iperf_time_compare, iperf_time_diff,
  iperf_time_in_usecs,
}
use mm_wave_tracker.Time.Order.{instant}
use mm_wave_tracker.Timer.{
  Timer, Timers, Callback, tmr_create, tmr_timeout, tmr_reset, tmr_cancel, tmr_run, run_from,
  cancels, act_on, act_all, reschedule, list_add, list_remove, list_resort, deref, next_of,
}
use mm_wave_tracker.Timer.Order.{IsOrdered}
use mm_wave_tracker.Timer.Count.{held}
use mm_wave_tracker.Timer.Calls.{allocated, earliest, tmr_create_lem, tmr_timeout_lem}
use mm_wave_tracker.Timer.Run.{Keeps, tmr_reset-Keeps, tmr_cancel-Keeps}

abbrev now : IperfTime
now = record { secs = 5; usecs = 0 }

-- A timer for each second, which is 100 ms late, and one that is due once in 1.2 s.
abbrev ticker : Timer
ticker = record {
  addr = 1;
  timer_proc = 10;
  client_data = 0;
  usecs = pos 1000000;
  periodic = pos 1;
  time = record { secs = 4; usecs = 900000 };
}

abbrev once : Timer
once = record {
  addr = 2;
  timer_proc = 20;
  client_data = 0;
  usecs = pos 3000000;
  periodic = pos 0;
  time = record { secs = 6; usecs = 200000 };
}

abbrev both : Timers
both = record { timers = ticker ∷ once ∷ []; free_timers = [] }

-- A callback that records the call and changes no timer.
abbrev log_call : Callback (List ℕ)
log_call proc data' t w = (w ++ (proc ∷ []), [])

now-IsNormal : IsNormal now
now-IsNormal = omega arith

both-IsOrdered : IsOrdered both.timers
both-IsOrdered = ground arith

ticked : Timers
ticked = record {
  timers = record ticker { time = record { secs = 5; usecs = 900000 } } ∷ once ∷ [];
  free_timers = [];
}

ticks : tmr_run log_call now 3 both [] ≡ some (some (ticked, 10 ∷ []))
unfolding tmr_run run_from act_all reschedule list_resort list_add list_remove deref next_of
    iperf_time_add_usecs iperf_time_compare ticked
ticks = refl

waits : tmr_timeout (some record { secs = 4; usecs = 0 }) now both ≡ some (0, 900000)
unfolding tmr_timeout iperf_time_diff iperf_time_compare iperf_time_in_usecs
waits = refl

tmr_create_lem_example :
    let s' = (tmr_create none now (some 3) 30 0 (pos 500000) (pos 0) both).0 in
    IsOrdered s'.timers × (held 3 s' ≡ held 3 both + allocated 3 (some 3) [])
tmr_create_lem_example =
    tmr_create_lem none now (some 3) 30 0 (pos 500000) (pos 0) both 3 now-IsNormal both-IsOrdered

tmr_timeout_lem_example :
    (sec : ℕ) × (usec : ℕ) × (tmr_timeout none now both ≡ some (sec, usec))
    × (usec < 1000000)
    × (sec * 1000000 + usec ≡ earliest ticker (once ∷ []) - instant now)
tmr_timeout_lem_example =
    tmr_timeout_lem none now both ticker (once ∷ []) now-IsNormal refl both-IsOrdered

finds : deref 1 both.timers ≡ some ticker
unfolding deref
finds = refl

finds_once : deref 2 both.timers ≡ some once
unfolding deref
finds_once = refl

-- A timer that is not active must not be reset.
not_active : tmr_reset none now 3 both ≡ none
unfolding tmr_reset deref
not_active = refl

tmr_reset-Keeps_example : Gives (λ s'. Keeps both s') (tmr_reset none now 1 both)
tmr_reset-Keeps_example = tmr_reset-Keeps none now 1 both now-IsNormal both-IsOrdered finds

tmr_cancel-Keeps_example :
    Gives (λ s'. Keeps both s' × (s'.free_timers ≡ once ∷ both.free_timers)) (tmr_cancel 2 both)
tmr_cancel-Keeps_example = tmr_cancel-Keeps 2 both both-IsOrdered finds_once

-- A callback that records the call and cancels the timer at an address.
abbrev cancel_call : ℕ → Callback (List ℕ)
cancel_call b proc data' t w = (w ++ (proc ∷ []), cancels b ∷ [])

-- The timer that is next is cancelled, and is not due.
cancels_next :
    tmr_run (cancel_call 2) now 3 both []
    ≡ some (
        some (
          record {
            timers = record ticker { time = record { secs = 5; usecs = 900000 } } ∷ [];
            free_timers = once ∷ [];
          },
          10 ∷ [],
        ))
unfolding tmr_run run_from act_all act_on reschedule list_resort list_add list_remove deref next_of
    iperf_time_add_usecs iperf_time_compare
cancels_next = refl

-- The timer that is called is cancelled.
cancels_called : tmr_run (cancel_call 1) now 3 both [] ≡ some none
unfolding tmr_run run_from act_all act_on deref next_of iperf_time_compare
cancels_called = refl

-- When both timers are due, the second may not be cancelled by the callback of the first.
cancels_due : tmr_run (cancel_call 2) (record { secs = 7; usecs = 0 }) 5 both [] ≡ some none
unfolding tmr_run run_from act_all act_on deref next_of iperf_time_compare
cancels_due = refl
