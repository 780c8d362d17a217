-- ===== src/Timer/Moved.antt =====
-- What moving a timer on the list of timer.c does to the lag.
use mathlib.Core.Path.{subst}
use mm_wave_tracker.Prelude.{
  ℕ, ◌+◌, ◌≤◌, ◌≡◌, sym, ◌∙◌, inl, inr, false, List, some, arith, ◌==◌, Option-cases,
}
use mm_wave_tracker.Prelude.Word.{to_u64}
use mm_wave_tracker.Time.{IperfTime, IsNormal, iperf_time_add_usecs}
use mm_wave_tracker.Time.Order.{instant}
use mm_wave_tracker.Time.Add.{add_usecs_lem}
use mm_wave_tracker.Timer.{Timer, Timers, list_add, list_remove, list_resort, deref, reset_active}
use mm_wave_tracker.Timer.Count.{deref-addr, occurs, occurs-list_remove, occurs-list_resort}
use mm_wave_tracker.Timer.Lag.{
  behind, lag, IsSteady, AllSteady, lag-list_add, lag-list_remove, AllSteady-list_add,
  AllSteady-list_remove, deref-IsSteady, deref-list_add_ne, deref-list_add_self,
  deref_of_not_occurs, deref-list_remove_ne,
}

-- A timer of the list moved to another time: what this does to the lag.
pub moved_lag :
    (now a : ℕ) (l : List Timer) (t : Timer) (time : IperfTime)
    → deref a l ≡ some t
    → lag now (list_resort (record t { time = time }) l) + behind now t
      ≡ behind now (record t { time = time }) + lag now l
unfolding list_resort
moved_lag now a l t time e =
    let found = subst (λ x. deref x l ≡ some t) (sym (deref-addr a l e)) e in
    omega (
      arith,
      lag-list_add now (record t { time = time }) (list_remove t.addr l),
      lag-list_remove now t.addr l found,
    )

pub moved_steady :
    (now : ℕ) (l : List Timer) (t : Timer) (time : IperfTime)
    → IsSteady now t
    → IsNormal time
    → AllSteady now l
    → AllSteady now (list_resort (record t { time = time }) l)
unfolding list_resort
moved_steady now l t time h v hs =
    AllSteady-list_add now (record t { time = time }) (list_remove t.addr l)
      (record { normal = v; period = h.period; room = h.room })
      (AllSteady-list_remove now t.addr l hs)

module _ (now : IperfTime) (v : IsNormal now) where
  -- One reset: the lag does not grow.
  pub lag-reset_active :
      (a : ℕ) (s : Timers)
      → AllSteady (instant now) s.timers
      → AllSteady (instant now) (reset_active (some now) now a s).timers
        × (lag (instant now) (reset_active (some now) now a s).timers ≤ lag (instant now) s.timers)
  unfolding reset_active
  lag-reset_active a s hs = elim (Option-cases (deref a s.timers)) [
    | inl e ↦ rw (e, reset_active) (hs, omega arith)
    | inr (t, e) ↦
        let h = deref-IsSteady (instant now) a s.timers hs e in
        let next = iperf_time_add_usecs now (to_u64 t.usecs) in
        let (w, at') = add_usecs_lem now (to_u64 t.usecs) v (omega (arith, h.room)) in
        rw (e, reset_active)
          (
            moved_steady (instant now) s.timers t next h w hs,
            omega (arith, moved_lag (instant now) a s.timers t next e, at', h.period),
          )
  ]

-- Every address is that of one timer at most.
abbrev pub AllOnce : List Timer → Type 0
AllOnce l = (b : ℕ) → occurs b l ≤ 1

pub deref_moved :
    (a : ℕ) (l : List Timer) (t : Timer) (time : IperfTime)
    → AllOnce l
    → deref a l ≡ some t
    → deref a (list_resort (record t { time = time }) l) ≡ some (record t { time = time })
unfolding list_resort
deref_moved a l t time once e =
    let same = deref-addr a l e in
    let found = subst (λ x. deref x l ≡ some t) (sym same) e in
    subst (λ x. deref x (list_add t' (list_remove t.addr l)) ≡ some t') same
      (deref-list_add_self t' (list_remove t.addr l)
        (deref_of_not_occurs t.addr (list_remove t.addr l) (gone found)))
  where
    t' : Timer
    t' = record t { time = time }

    gone : deref t.addr l ≡ some t → occurs t.addr (list_remove t.addr l) ≡ 0
    gone f = ground (arith, once t.addr, occurs-list_remove t.addr t.addr l f)

pub moved_once :
    (a : ℕ) (l : List Timer) (t : Timer) (time : IperfTime)
    → AllOnce l
    → deref a l ≡ some t
    → AllOnce (list_resort (record t { time = time }) l)
moved_once a l t time once e b =
    let found = subst (λ x. deref x l ≡ some t) (sym (deref-addr a l e)) e in
    omega (arith, once b, occurs-list_resort b l (record t { time = time }) {u = t} found)

pub deref_moved_ne :
    (a b : ℕ) (l : List Timer) (t : Timer) (time : IperfTime)
    → (b == a) ≡ false
    → deref b l ≡ some t
    → deref a (list_resort (record t { time = time }) l) ≡ deref a l
unfolding list_resort
deref_moved_ne a b l t time ne e =
    let ne' = subst (λ x. (x == a) ≡ false) (sym (deref-addr b l e)) ne in
    deref-list_add_ne a (record t { time = time }) (list_remove t.addr l) ne'
    ∙ deref-list_remove_ne a t.addr l ne'
