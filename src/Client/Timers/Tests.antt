-- ===== src/Client/Timers/Tests.antt =====
-- The timers of a test of 10 seconds, of which the first two are omitted.
use mm_wave_tracker.Prelude.{◌+◌, ◌*◌, refl, [], some, none, arith}
use mm_wave_tracker.Prelude.Int.{ℤ, pos}
use mm_wave_tracker.Prelude.Samples.{whole}
use mm_wave_tracker.Time.{IperfTime, IsNormal}
use mm_wave_tracker.Time.Order.{instant}
use mm_wave_tracker.Timer.{Timers}
use mm_wave_tracker.Client.Timers.{Timing, Procs, create_client_timers}
use mm_wave_tracker.Timer.Count.{hit}
use mm_wave_tracker.Client.Timers.Due.{IsSingle, IsDue}
use mm_wave_tracker.Client.Timers.Ends.{client_timers-IsDue}

abbrev start : IperfTime
start = record { secs = 100; usecs = 500000 }

abbrev procs : Procs
procs = record {
  test_timer_proc = 11;
  stats_timer_proc = 12;
  reporter_timer_proc = 13;
  omit_timer_proc = 14;
  test = 5;
}

abbrev timing : Timing ℤ
timing = record {
  duration = pos 10;
  omit = pos 2;
  stats_interval = pos 1;
  reporter_interval = pos 0;
  done = pos 1;
  omitting = pos 0;
  timer = none;
  stats_timer = none;
  reporter_timer = none;
  omit_timer = none;
  i_errno = pos 0;
}

abbrev no_timers : Timers
no_timers = record { timers = []; free_timers = [] }

start-IsNormal : IsNormal start
start-IsNormal = omega arith

single : IsSingle (λ x. hit 1 x + (hit 2 x + hit 3 x)) no_timers
single x = ground arith

client_timers-IsDue_example :
    IsDue procs
      (instant start + (10 + 2) * 1000000)
      (create_client_timers whole (some start) (some 1) (some 2) (some 3) procs timing no_timers)
client_timers-IsDue_example =
    client_timers-IsDue whole start start-IsNormal 1 2 3 9 2 procs timing no_timers single tt refl
      refl (omega arith)
