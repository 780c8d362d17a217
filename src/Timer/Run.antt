-- ===== src/Timer/Run.antt =====
-- `tmr_run` of timer.c, and the calls that change a timer that is on the list.
use mm_wave_tracker.Prelude.{
  ℕ, zero, suc, ◌≡◌, refl, sym, ◌∙◌, inl, inr, Gives, List, [], ◌∷◌, Option, none, some, arith,
  Bool-cases, Option-cases, not, ◌&&◌, ◌||◌, ◌==◌,
}
use mathlib.Core.Path.{subst}
use mm_wave_tracker.Prelude.Int.{truthy}
use mm_wave_tracker.Prelude.Word.{to_u64}
use mm_wave_tracker.Time.{IperfTime, IsNormal, iperf_time_add_usecs}
use mm_wave_tracker.Time.Add.{add_usecs-IsNormal}
use mm_wave_tracker.Timer.{
  Timer, Timers, Callback, is_before, getnow, list_resort, deref, next_of, tmr_reset, tmr_cancel,
  reset_active, cancel_active, reschedule, Act, resets, cancels, is_next, act_on, act_all, run_from,
}
use mm_wave_tracker.Timer.Order.{IsOrdered, list_remove-IsOrdered, list_resort-IsOrdered}
use mm_wave_tracker.Timer.Count.{held, occurs-list_remove, occurs-list_resort, deref-addr}
use mm_wave_tracker.Timer.Calls.{deref-IsNormal}

pub none≢some : {A : Type 0} {x : A} → ◌≡◌ {A = Option A} none (some x) → ⊥
none≢some h = cc

pub some_inj : {A : Type 0} {x y : A} → some x ≡ some y → x ≡ y
some_inj h = cc

-- A change that keeps the active timers in order, and each structure as often as it was held.
pub record Keeps (s s' : Timers) : Type 0 where
  pub ordered : IsOrdered s'.timers
  pub same_held : (b : ℕ) → held b s' ≡ held b s

Keeps-same : (s : Timers) → IsOrdered s.timers → Keeps s s
Keeps-same s o = record { ordered = o; same_held = λ b. refl }

Keeps-trans : {s t u : Timers} → Keeps s t → Keeps t u → Keeps s u
Keeps-trans p q = record { ordered = q.ordered; same_held = λ b. q.same_held b ∙ p.same_held b }

-- A timer of the list moved to another normal time.
moved-Keeps :
    (s : Timers) (a : ℕ) (t : Timer) (time : IperfTime)
    → IsOrdered s.timers
    → deref a s.timers ≡ some t
    → IsNormal time
    → Keeps s (record s { timers = list_resort (record t { time = time }) s.timers })
moved-Keeps s a t time o found v =
    let same = deref-addr a s.timers found in
    record {
      ordered = list_resort-IsOrdered (record t { time = time }) s.timers v o;
      same_held = λ b. omega (
        arith,
        occurs-list_resort b s.timers (record t { time = time }) {u = t}
            (subst (λ x. deref x s.timers ≡ some t) (sym same) found),
      );
    }

reset_active-Keeps :
    (nowP : Option IperfTime) (clock : IperfTime) (a : ℕ) (s : Timers)
    → IsNormal (getnow nowP clock)
    → IsOrdered s.timers
    → Keeps s (reset_active nowP clock a s)
unfolding reset_active
reset_active-Keeps nowP clock a s v o = elim (Option-cases (deref a s.timers)) [
  | inl e ↦ rw (e, reset_active) (Keeps-same s o)
  | inr (t, e) ↦
      rw (e, reset_active)
        (moved-Keeps s a t (iperf_time_add_usecs (getnow nowP clock) (to_u64 t.usecs)) o e
          (add_usecs-IsNormal (getnow nowP clock) (to_u64 t.usecs) v))
]

cancel_active-Keeps : (a : ℕ) (s : Timers) → IsOrdered s.timers → Keeps s (cancel_active a s)
unfolding cancel_active
cancel_active-Keeps a s o = elim (Option-cases (deref a s.timers)) [
  | inl e ↦ rw (e, cancel_active) (Keeps-same s o)
  | inr (t, e) ↦
      rw (e, cancel_active)
        (record {
          ordered = list_remove-IsOrdered a s.timers o;
          same_held = λ b. omega (arith, occurs-list_remove a b s.timers e);
        })
]

-- `tmr_reset` of an active timer at a normal stamp keeps the active timers in order, and each
-- structure is held as often as before.
pub tmr_reset-Keeps :
    (nowP : Option IperfTime) (clock : IperfTime) (a : ℕ) (s : Timers) {t : Timer}
    → IsNormal (getnow nowP clock)
    → IsOrdered s.timers
    → deref a s.timers ≡ some t
    → Gives (λ s'. Keeps s s') (tmr_reset nowP clock a s)
unfolding tmr_reset
tmr_reset-Keeps nowP clock a s {t} v o e =
    rw (tmr_reset, e)
      (moved-Keeps s a t (iperf_time_add_usecs (getnow nowP clock) (to_u64 t.usecs)) o e
        (add_usecs-IsNormal (getnow nowP clock) (to_u64 t.usecs) v))

-- `tmr_cancel` of an active timer keeps the active timers in order, and each structure is held as
-- often as before, the timer's now as the first spare one.
pub tmr_cancel-Keeps :
    (a : ℕ) (s : Timers) {t : Timer}
    → IsOrdered s.timers
    → deref a s.timers ≡ some t
    → Gives (λ s'. Keeps s s' × (s'.free_timers ≡ t ∷ s.free_timers)) (tmr_cancel a s)
unfolding tmr_cancel
tmr_cancel-Keeps a s {t} o e =
    rw (tmr_cancel, e)
      (
        record {
          ordered = list_remove-IsOrdered a s.timers o;
          same_held = λ b. omega (arith, occurs-list_remove a b s.timers e);
        },
        refl,
      )

act_on-Keeps :
    (now : IperfTime) (a : ℕ) (next : Option ℕ) (x : Act) (s : Timers) {s' : Timers}
    → IsNormal now
    → IsOrdered s.timers
    → act_on now a next x s ≡ some s'
    → Keeps s s'
unfolding act_on
act_on-Keeps now a next (resets b) s v o h =
    subst (λ z. Keeps s z) (some_inj h) (reset_active-Keeps (some now) now b s v o)
act_on-Keeps now a next (cancels b) s v o h = elim (Option-cases (deref b s.timers)) [
  | inl e ↦ absurd (none≢some (rw (act_on, e) at h))
  | inr (t, e) ↦ elim (Bool-cases ((b == a) || (is_next b next && not (is_before now t.time)))) [
    | inl p ↦ absurd (none≢some (rw (act_on, e, p) at h))
    | inr p ↦
        subst (λ z. Keeps s z) (some_inj (rw (act_on, e, p) at h))
          (record {
            ordered = list_remove-IsOrdered b s.timers o;
            same_held = λ c. omega (arith, occurs-list_remove b c s.timers e);
          })
  ]
]

act_all-Keeps :
    (now : IperfTime) (a : ℕ) (next : Option ℕ) (xs : List Act) (s : Timers) {s' : Timers}
    → IsNormal now
    → IsOrdered s.timers
    → act_all now a next xs s ≡ some s'
    → Keeps s s'
unfolding act_all
act_all-Keeps now a next [] s v o h = subst (λ z. Keeps s z) (some_inj h) (Keeps-same s o)
act_all-Keeps now a next (x ∷ xs) s v o h = elim (Option-cases (act_on now a next x s)) [
  | inl e ↦ absurd (none≢some (rw (act_all, e) at h))
  | inr (s1, e) ↦
      let first = act_on-Keeps now a next x s v o e in
      Keeps-trans first (act_all-Keeps now a next xs s1 v first.ordered (rw (act_all, e) at h))
]

reschedule-Keeps : (a : ℕ) (s : Timers) → IsOrdered s.timers → Keeps s (reschedule a s)
unfolding reschedule
reschedule-Keeps a s o = elim (Option-cases (deref a s.timers)) [
  | inl e ↦ rw (e, reschedule) (Keeps-same s o)
  | inr (t, e) ↦ elim (Bool-cases (truthy t.periodic)) [
    | inl p ↦
        rw (e, reschedule, p)
          (moved-Keeps s a t (iperf_time_add_usecs t.time (to_u64 t.usecs)) o e
            (add_usecs-IsNormal t.time (to_u64 t.usecs) (deref-IsNormal a s.timers o e)))
    | inr p ↦ rw (e, reschedule, p) (cancel_active-Keeps a s o)
  ]
]

module _ {W : Type 0} (call : Callback W) (now : IperfTime) (v : IsNormal now) where
  pub run_from-Keeps :
      (fuel : ℕ) (cur : Option ℕ) (s : Timers) (w : W) {s' : Timers} {w' : W}
      → IsOrdered s.timers
      → run_from call now fuel cur s w ≡ some (some (s', w'))
      → Keeps s s'
  unfolding run_from
  run_from-Keeps zero cur s w o h = cc
  run_from-Keeps (suc fuel) none s w o h = ground (arith, Keeps-same s o)
  run_from-Keeps (suc fuel) (some a) s w {s'} {w'} o h = elim (Option-cases (deref a s.timers)) [
    | inl e ↦ ground (arith, Keeps-same s o)
    | inr (t, e) ↦ elim (Bool-cases (is_before now t.time)) [
      | inl p ↦ ground (arith, Keeps-same s o)
      | inr p ↦
          let (w1, acts) = call t.timer_proc t.client_data now w in
          elim (Option-cases (act_all now a (next_of a s.timers) acts s)) [
            | inl q ↦ absurd (none≢some (some_inj (rw (e, run_from, p, q) at h)))
            | inr (s1, q) ↦
                let first = act_all-Keeps now a (next_of a s.timers) acts s v o q in
                let second = reschedule-Keeps a s1 first.ordered in
                Keeps-trans (Keeps-trans first second) (
                  run_from-Keeps fuel (next_of a s.timers) (reschedule a s1) w1 second.ordered
                    (rw (e, run_from, p, q) at h))
          ]
    ]
  ]
