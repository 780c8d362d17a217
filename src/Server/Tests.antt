-- ===== src/Server/Tests.antt =====
-- The timers of a server for a test of 10 seconds, of which the first two are omitted.
use mathlib.Core.Option
use mm_wave_tracker.Prelude.{ℕ, List, ◌+◌, ◌*◌, ◌≤◌, ◌≡◌, refl, [], ◌∷◌, some, none, arith}
use mm_wave_tracker.Prelude.Int.{ℤ, pos}
use mm_wave_tracker.Prelude.Samples.{whole}
use mm_wave_tracker.Time.{IperfTime, IsNormal}
use mm_wave_tracker.Time.Order.{instant}
use mm_wave_tracker.Timer.{Timer, Timers, tmr_cancel, deref, list_remove}
use mm_wave_tracker.Timer.Count.{hit, occurs}
use mm_wave_tracker.Client.Timers.{Timing, Procs}
use mm_wave_tracker.Client.Timers.Due.{IsSingle, IsDue}
use mm_wave_tracker.Server.{
  Held, create_server_timers, server_timer_proc, cancel_send_timer, free_streams,
}
use mm_wave_tracker.Server.GivesUp.{IsRid, send_timers, server_timer_proc-IsRid}
use mm_wave_tracker.Server.Ends.{server_timers-IsDue}

abbrev begun : IperfTime
begun = record { secs = 100; usecs = 500000 }

abbrev server_procs : Procs
server_procs = record {
  test_timer_proc = 21;
  stats_timer_proc = 22;
  reporter_timer_proc = 23;
  omit_timer_proc = 24;
  test = 6;
}

abbrev server_timing : Timing ℤ
server_timing = record {
  duration = pos 10;
  omit = pos 2;
  stats_interval = pos 1;
  reporter_interval = pos 1;
  done = pos 0;
  omitting = pos 0;
  timer = none;
  stats_timer = none;
  reporter_timer = none;
  omit_timer = none;
  i_errno = pos 0;
}

-- A timer of an earlier test.
abbrev spare : Timer
spare = record {
  addr = 9;
  timer_proc = 24;
  client_data = 6;
  usecs = pos 5;
  periodic = pos 0;
  time = begun;
}

abbrev idle : Timers
idle = record { timers = []; free_timers = spare ∷ [] }

begun-IsNormal : IsNormal begun
begun-IsNormal = omega arith

idle-IsSingle : IsSingle (λ x. hit 1 x + (hit 2 x + hit 3 x)) idle
idle-IsSingle x = ground arith

-- The sockets of the streams are closed, then that of the control connection, and the send timer of
-- the second stream is spare.
gives_up :
    Option.map {B = Timers × List ℕ}
      (λ r. (r.1, r.3))
      (server_timer_proc 4
        (record { socket = 7; send_timer = none } ∷ record { socket = 8; send_timer = some 9 } ∷ [])
        server_timing
        (record { timers = spare ∷ []; free_timers = [] }))
    ≡ some (idle, 7 ∷ 8 ∷ 4 ∷ [])
unfolding server_timer_proc free_streams cancel_send_timer tmr_cancel deref list_remove
gives_up = refl

server_timers-IsDue_example : IsDue server_procs (instant begun + (10 + 2 + 40) * 1000000) (
    create_server_timers whole
      (some begun)
      (some 1)
      (some 2)
      (some 3)
      server_procs
      server_timing
      idle)
server_timers-IsDue_example =
    server_timers-IsDue whole begun begun-IsNormal 1 2 3 9 2 server_procs server_timing idle
      idle-IsSingle tt refl refl (omega arith)

abbrev held_streams : List Held
held_streams =
    record { socket = 7; send_timer = none } ∷ record { socket = 8; send_timer = some 9 } ∷ []

abbrev one_active : Timers
one_active = record { timers = spare ∷ []; free_timers = [] }

covered : (b : ℕ) → send_timers b held_streams ≤ occurs b one_active.timers
covered b = ground arith

server_timer_proc-IsRid_example :
    (s' : Timers) × (server_timer_proc 4 held_streams server_timing one_active
      ≡ some (record server_timing { timer = none; done = pos 1 }, s', [], 7 ∷ 8 ∷ 4 ∷ []))
    × IsRid held_streams one_active s'
server_timer_proc-IsRid_example =
    server_timer_proc-IsRid 4 held_streams server_timing one_active refl (begun-IsNormal, tt, tt)
      covered
