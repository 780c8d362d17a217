-- ===== src/Client/Timers.antt =====
-- iperfwrapperlib/iperf/src/iperf_client_api.c: the timers that a client makes when a test starts.
-- The clock's stamp and what each `malloc` gives are arguments.
pub mod Due
pub mod Ends
pub mod Tests
use mm_wave_tracker.Prelude.{ℕ, Bool, true, false, not, ◌&&◌, Option, none, some, if◌then◌else◌}
use mm_wave_tracker.Prelude.Int.{ℤ, pos, ◌+ℤ◌, ◌*ℤ◌, eqb_ℤ}
use mm_wave_tracker.Prelude.Double.{Double}
use mm_wave_tracker.Time.{IperfTime}
use mm_wave_tracker.Timer.{Timers, tmr_create}
use mm_wave_tracker.Config.Errno.{ieinittest}

-- The fields of `struct iperf_test` that are used here, and `i_errno`.
pub record Timing (D : Type 0) : Type 0 where
  pub duration : ℤ
  pub omit : ℤ
  pub stats_interval : D
  pub reporter_interval : D
  pub done : ℤ
  pub omitting : ℤ
  pub timer : Option ℕ
  pub stats_timer : Option ℕ
  pub reporter_timer : Option ℕ
  pub omit_timer : Option ℕ
  pub i_errno : ℤ

-- The addresses of the functions that the timers call, and of the test.
pub record Procs : Type 0 where
  pub test_timer_proc : ℕ
  pub stats_timer_proc : ℕ
  pub reporter_timer_proc : ℕ
  pub omit_timer_proc : ℕ
  pub test : ℕ

abbrev pub sec_to_us : ℤ
sec_to_us = pos 1000000

-- A call of `tmr_create` at a stamp.
abbrev pub create_at : IperfTime → Option ℕ → ℕ → ℕ → ℤ → ℤ → Timers → Timers × Option ℕ
create_at now malloc proc data' usecs periodic s =
    tmr_create (some now) now malloc proc data' usecs periodic s

module _ {D : Type 0} where
  abbrev pub init_failed : Timing D → Timing D
  init_failed t = record t { i_errno = ieinittest }

  -- The timer of the test, so many seconds from now, if the test has a duration. Whether the routine
  -- goes on.
  unfoldable pub create_test_timer :
      ℤ → IperfTime → Option ℕ → Procs → Timing D → Timers → Bool × Timing D × Timers
  create_test_timer seconds now malloc procs t s =
      if eqb_ℤ t.duration (pos 0)
      then (true, t, s)
      else (let (s', made) =
            create_at now malloc procs.test_timer_proc procs.test (seconds *ℤ sec_to_us) (pos 0)
              s in
          let t' = record t { done = pos 0; timer = made } in
          elim made [ none ↦ (false, init_failed t', s') | some a ↦ (true, t', s') ])

module _ {D : Type 0} (fp : Double D) where
  abbrev pub is_zero : D → Bool
  is_zero x = not (fp.lt x (fp.of_int (pos 0))) && not (fp.lt (fp.of_int (pos 0)) x)

  abbrev pub interval_usecs : D → ℤ
  interval_usecs x = fp.to_int (fp.mul x (fp.of_int sec_to_us))

  unfoldable pub create_stats_timer :
      IperfTime → Option ℕ → Procs → Timing D → Timers → Bool × Timing D × Timers
  create_stats_timer now malloc procs t s =
      if is_zero t.stats_interval
      then (true, t, s)
      else (let (s', made) =
            create_at now malloc procs.stats_timer_proc procs.test (interval_usecs t.stats_interval)
              (pos 1) s in
          let t' = record t { stats_timer = made } in
          elim made [ none ↦ (false, init_failed t', s') | some a ↦ (true, t', s') ])

  unfoldable pub create_reporter_timer :
      IperfTime → Option ℕ → Procs → Timing D → Timers → Bool × Timing D × Timers
  create_reporter_timer now malloc procs t s =
      if is_zero t.reporter_interval
      then (true, t, s)
      else (let (s', made) =
            create_at now malloc procs.reporter_timer_proc procs.test
              (interval_usecs t.reporter_interval) (pos 1) s in
          let t' = record t { reporter_timer = made } in
          elim made [ none ↦ (false, init_failed t', s') | some a ↦ (true, t', s') ])

  -- The body of `create_client_timers` and of `create_server_timers`, which differ in the seconds of
  -- the first timer: whether 0 is returned. The clock gives `none` if it fails.
  unfoldable pub create_timers :
      ℤ
      → Option IperfTime
      → Option ℕ
      → Option ℕ
      → Option ℕ
      → Procs
      → Timing D
      → Timers
      → Bool × Timing D × Timers
  create_timers seconds none m1 m2 m3 procs t s = (false, init_failed t, s)
  create_timers seconds (some now) m1 m2 m3 procs t s =
      let t0 = record t { timer = none; stats_timer = none; reporter_timer = none } in
      let (ok1, t1, s1) = create_test_timer seconds now m1 procs t0 s in
      if ok1
      then (let (ok2, t2, s2) = create_stats_timer now m2 procs t1 s1 in
          if ok2 then create_reporter_timer now m3 procs t2 s2 else (false, t2, s2))
      else (false, t1, s1)

  unfoldable pub client_seconds : Timing D → ℤ
  client_seconds t = t.duration +ℤ t.omit

  -- `create_client_timers`.
  unfoldable pub create_client_timers :
      Option IperfTime
      → Option ℕ
      → Option ℕ
      → Option ℕ
      → Procs
      → Timing D
      → Timers
      → Bool × Timing D × Timers
  create_client_timers clock m1 m2 m3 procs t s =
      create_timers (client_seconds t) clock m1 m2 m3 procs t s

module _ {D : Type 0} where
  -- `create_client_omit_timer`. Without a period to omit the clock is not read.
  unfoldable pub create_client_omit_timer :
      Option IperfTime → Option ℕ → Procs → Timing D → Timers → Bool × Timing D × Timers
  create_client_omit_timer clock malloc procs t s =
      if eqb_ℤ t.omit (pos 0)
      then (true, record t { omit_timer = none; omitting = pos 0 }, s)
      else elim clock [
        | none ↦ (false, init_failed t, s)
        | some now ↦
            let t1 = record t { omitting = pos 1 } in
            let (s', made) =
              create_at now malloc procs.omit_timer_proc procs.test (t.omit *ℤ sec_to_us) (pos 0)
                s in
            let t' = record t1 { omit_timer = made } in
            elim made [ none ↦ (false, init_failed t', s') | some a ↦ (true, t', s') ]
      ]
