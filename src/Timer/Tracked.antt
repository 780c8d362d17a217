-- ===== src/Timer/Tracked.antt =====
-- `tmr_run` of timer.c: what holds of the timer that was called while its callback runs, and how the
-- lag falls when it is scheduled again.
use mathlib.Core.Path.{subst}
use mm_wave_tracker.Prelude.{
  ℕ, ◌+◌, ◌≤◌, ◌<◌, ◌≡◌, not, ◌&&◌, ◌∙◌, inl, inr, List, [], ◌∷◌, Option, some, arith, ◌==◌, ==_iff,
  Bool-cases, Option-cases,
}
use mm_wave_tracker.Prelude.Int.{truthy}
use mm_wave_tracker.Prelude.Word.{to_u64}
use mm_wave_tracker.Time.{IperfTime, IsNormal, iperf_time_add_usecs}
use mm_wave_tracker.Time.Order.{instant}
use mm_wave_tracker.Time.Add.{add_usecs_lem}
use mm_wave_tracker.Timer.{
  Timer, Timers, list_remove, list_resort, deref, is_before, reset_active, cancel_active, Act,
  resets, cancels, is_next, act_on, act_all, reschedule,
}
use mm_wave_tracker.Timer.Run.{none≢some, some_inj}
use mm_wave_tracker.Timer.Count.{occurs-list_remove}
use mm_wave_tracker.Timer.Lag.{
  behind, lag, IsSteady, AllSteady, lag-list_remove, AllSteady-list_remove, deref-IsSteady,
  deref-list_remove_ne,
}
use mm_wave_tracker.Timer.Moved.{
  moved_lag, moved_steady, lag-reset_active, AllOnce, deref_moved, moved_once, deref_moved_ne,
}

module _ (now : IperfTime) (v : IsNormal now) where
  -- What the state has to be for `tmr_run` to get on.
  pub record CanRun (s : Timers) : Type 0 where
    pub steady : AllSteady (instant now) s.timers
    pub once : AllOnce s.timers

  -- The timer that was called is as it was, or was reset by its callback, and the lag fell.
  pub data Tracked (a : ℕ) (t : Timer) (bound : ℕ) (s : Timers) : Type 0 where
    same : deref a s.timers ≡ some t → lag (instant now) s.timers ≤ bound → Tracked a t bound s
    was_reset :
        (u : Timer)
        → deref a s.timers ≡ some u
        → instant u.time ≡ instant now + to_u64 u.usecs
        → lag (instant now) s.timers < bound
        → Tracked a t bound s

  reset_active-CanRun : (b : ℕ) (s : Timers) → CanRun s → CanRun (reset_active (some now) now b s)
  unfolding reset_active
  reset_active-CanRun b s c = record {
    steady = (lag-reset_active now v b s c.steady).0;
    once = single;
  }
    where
      single : AllOnce (reset_active (some now) now b s).timers
      single = elim (Option-cases (deref b s.timers)) [
        | inl e ↦ rw (e, reset_active) c.once
        | inr (t, e) ↦
            rw (e, reset_active)
              (moved_once b s.timers t (iperf_time_add_usecs now (to_u64 t.usecs)) c.once e)
      ]

  -- A change elsewhere that does not add to the lag.
  elsewhere-Tracked :
      (a bound : ℕ) (t : Timer) (s s' : Timers)
      → deref a s'.timers ≡ deref a s.timers
      → lag (instant now) s'.timers ≤ lag (instant now) s.timers
      → Tracked a t bound s
      → Tracked a t bound s'
  elsewhere-Tracked a bound t s s' still less (same q l) = same (still ∙ q) (omega arith)
  elsewhere-Tracked a bound t s s' still less (was_reset u' q i l) =
      was_reset u' (still ∙ q) i (omega arith)

  -- A reset, at whatever address, keeps track of the timer that was called.
  reset_active-Tracked :
      (a b bound : ℕ) (t : Timer) (s : Timers)
      → CanRun s
      → instant t.time ≤ instant now
      → Tracked a t bound s
      → Tracked a t bound (reset_active (some now) now b s)
  unfolding reset_active
  reset_active-Tracked a b bound t s c due k = elim (Option-cases (deref b s.timers)) [
    | inl e ↦ rw (e, reset_active) k
    | inr (u, e) ↦ elim (Bool-cases (b == a)) [
      | inl p ↦
          let eq = (==_iff b a).0 p in
          let e' = subst (λ x. deref x s.timers ≡ some u) eq e in
          rw (e, reset_active) (at_self u e' k)
      | inr p ↦
          let still = deref_moved_ne a b s.timers u (next u) p e in
          let less = rw (e, reset_active) at (lag-reset_active now v b s c.steady).1 in
          rw (e, reset_active) (elsewhere-Tracked a bound t s (moved u) still less k)
    ]
  ]
    where
      next : Timer → IperfTime
      next u = iperf_time_add_usecs now (to_u64 u.usecs)

      moved : Timer → Timers
      moved u = record s { timers = list_resort (record u { time = next u }) s.timers }

      at_self :
          (u : Timer)
          → deref a s.timers ≡ some u
          → Tracked a t bound s
          → Tracked a t bound (moved u)
      at_self u e k =
          let h = deref-IsSteady (instant now) a s.timers c.steady e in
          let (w, at') = add_usecs_lem now (to_u64 u.usecs) v (omega (arith, h.room)) in
          was_reset (record u { time = next u }) (deref_moved a s.timers u (next u) c.once e) at'
            (falls u e h at' k)
        where
          falls :
              (u : Timer)
              → deref a s.timers ≡ some u
              → IsSteady (instant now) u
              → instant (next u) ≡ instant now + to_u64 u.usecs
              → Tracked a t bound s
              → lag (instant now) (moved u).timers < bound
          falls u e h at' (same q l) =
              let l' = moved_lag (instant now) a s.timers u (next u) e in ground arith
          falls u e h at' (was_reset u' q i l) =
              let l' = moved_lag (instant now) a s.timers u (next u) e in ground arith

  act_on-Tracked :
      (a bound : ℕ) (next : Option ℕ) (t : Timer) (x : Act) (s : Timers) {s' : Timers}
      → CanRun s
      → instant t.time ≤ instant now
      → Tracked a t bound s
      → act_on now a next x s ≡ some s'
      → CanRun s' × Tracked a t bound s'
  unfolding act_on
  act_on-Tracked a bound next t (resets b) s c due k h =
      subst (λ z. CanRun z × Tracked a t bound z) (some_inj h)
        (reset_active-CanRun b s c, reset_active-Tracked a b bound t s c due k)
  act_on-Tracked a bound next t (cancels b) s c due k h = elim (Option-cases (deref b s.timers)) [
    | inl e ↦ absurd (none≢some (rw (act_on, e) at h))
    | inr (u, e) ↦ elim (Bool-cases (b == a)) [
      | inl p ↦ absurd (none≢some (rw (act_on, e, p) at h))
      | inr p ↦ elim (Bool-cases (is_next b next && not (is_before now u.time))) [
        | inl q ↦ absurd (none≢some (rw (act_on, e, p, q) at h))
        | inr q ↦
            let gone : Timers = record {
              timers = list_remove b s.timers;
              free_timers = u ∷ s.free_timers;
            } in
            subst (λ z. CanRun z × Tracked a t bound z) (some_inj (rw (act_on, e, p, q) at h))
              (
                record {
                  steady = AllSteady-list_remove (instant now) b s.timers c.steady;
                  once = λ d. omega (arith, c.once d, occurs-list_remove b d s.timers e);
                },
                elsewhere-Tracked a bound t s gone (deref-list_remove_ne a b s.timers p)
                    (omega (arith, lag-list_remove (instant now) b s.timers e)) k,
              )
      ]
    ]
  ]

  pub act_all-Tracked :
      (a bound : ℕ) (next : Option ℕ) (t : Timer) (xs : List Act) (s : Timers) {s' : Timers}
      → CanRun s
      → instant t.time ≤ instant now
      → Tracked a t bound s
      → act_all now a next xs s ≡ some s'
      → CanRun s' × Tracked a t bound s'
  unfolding act_all
  act_all-Tracked a bound next t [] s c due k h =
      subst (λ z. CanRun z × Tracked a t bound z) (some_inj h) (c, k)
  act_all-Tracked a bound next t (x ∷ xs) s c due k h =
      elim (Option-cases (act_on now a next x s)) [
        | inl e ↦ absurd (none≢some (rw (act_all, e) at h))
        | inr (s1, e) ↦
            let (c1, k1) = act_on-Tracked a bound next t x s c due k e in
            act_all-Tracked a bound next t xs s1 c1 due k1 (rw (act_all, e) at h)
      ]

  -- A periodic timer that is scheduled again, when it was due or was just reset.
  again :
      (a bound : ℕ) (u : Timer) (s : Timers)
      → CanRun s
      → deref a s.timers ≡ some u
      → instant u.time ≤ instant now + to_u64 u.usecs
      → lag (instant now) s.timers < bound + behind (instant now) u
      → lag (instant now) s.timers ≤ bound
      → let s' = record s {
        timers =
            list_resort (record u { time = iperf_time_add_usecs u.time (to_u64 u.usecs) }) s.timers;
      } in
        CanRun s' × (lag (instant now) s'.timers < bound)
  again a bound u s c e near less most =
      let h = deref-IsSteady (instant now) a s.timers c.steady e in
      let next = iperf_time_add_usecs u.time (to_u64 u.usecs) in
      let (w, at') = add_usecs_lem u.time (to_u64 u.usecs) h.normal (omega (arith, h.room)) in
      (
        record {
          steady = moved_steady (instant now) s.timers u next h w c.steady;
          once = moved_once a s.timers u next c.once e;
        },
        omega (arith, moved_lag (instant now) a s.timers u next e, at', h.period),
      )

  pub reschedule-CanRun :
      (a bound : ℕ) (t : Timer) (s : Timers)
      → CanRun s
      → instant t.time ≤ instant now
      → Tracked a t bound s
      → CanRun (reschedule a s) × (lag (instant now) (reschedule a s).timers < bound)
  unfolding reschedule cancel_active
  reschedule-CanRun a bound t s c due k = split k
    where
      gone :
          (u : Timer)
          → deref a s.timers ≡ some u
          → lag (instant now) s.timers < bound + behind (instant now) u
          → CanRun (record { timers = list_remove a s.timers; free_timers = u ∷ s.free_timers })
            × (lag (instant now) (list_remove a s.timers) < bound)
      gone u e less = (
        record {
          steady = AllSteady-list_remove (instant now) a s.timers c.steady;
          once = λ b. omega (arith, c.once b, occurs-list_remove a b s.timers e);
        },
        omega (arith, lag-list_remove (instant now) a s.timers e),
      )

      at_found :
          (u : Timer)
          → deref a s.timers ≡ some u
          → instant u.time ≤ instant now + to_u64 u.usecs
          → lag (instant now) s.timers < bound + behind (instant now) u
          → lag (instant now) s.timers ≤ bound
          → CanRun (reschedule a s) × (lag (instant now) (reschedule a s).timers < bound)
      at_found u e near less most = elim (Bool-cases (truthy u.periodic)) [
        | inl p ↦ rw (e, reschedule, p) (again a bound u s c e near less most)
        | inr p ↦ rw (e, reschedule, p) (rw (e, cancel_active) (gone u e less))
      ]

      split :
          Tracked a t bound s
          → CanRun (reschedule a s) × (lag (instant now) (reschedule a s).timers < bound)
      split (same q l) = at_found t q (omega arith) (omega arith) l
      split (was_reset u q i l) = at_found u q (omega arith) (omega arith) (omega arith)
