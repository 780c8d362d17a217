-- ===== src/Timer/Lag.antt =====
-- How far the timers of timer.c are behind a stamp: the measure by which `tmr_run` ends.
use mm_wave_tracker.Prelude.{
  ℕ, ◌+◌, ◌-◌, ◌*◌, ◌<◌, ◌≡◌, refl, inl, inr, false, List, [], ◌∷◌, none, some, arith, ◌==◌,
  Bool-cases,
}
use mm_wave_tracker.Prelude.Word.{to_u64, u32_mod}
use mm_wave_tracker.Time.{IsNormal}
use mm_wave_tracker.Time.Order.{instant}
use mm_wave_tracker.Timer.{Timer, list_add, list_remove, deref, is_before}
use mm_wave_tracker.Timer.Count.{occurs}

-- The microseconds that a timer is overdue at an instant, and one more.
abbrev pub behind : ℕ → Timer → ℕ
behind now t = now + 1 - instant t.time

abbrev pub lag : ℕ → List Timer → ℕ
lag now [] = 0
lag now (t ∷ ts) = behind now t + lag now ts

-- A timer at a normal stamp with a period that is not 0 and does not reach the end of 32-bit time.
pub record IsSteady (now : ℕ) (t : Timer) : Type 0 where
  pub normal : IsNormal t.time
  pub period : 0 < to_u64 t.usecs
  pub room : now + 2 * to_u64 t.usecs < u32_mod * 1000000

abbrev pub AllSteady : ℕ → List Timer → Type 0
AllSteady now [] = Unit
AllSteady now (t ∷ ts) = IsSteady now t × AllSteady now ts

pub lag-list_add :
    (now : ℕ) (t : Timer) (l : List Timer) → lag now (list_add t l) ≡ behind now t + lag now l
unfolding list_add
lag-list_add now t [] = refl
lag-list_add now t (u ∷ us) = elim (Bool-cases (is_before t.time u.time)) [
  | inl e ↦ rw e refl
  | inr e ↦ rw e (omega (arith, lag-list_add now t us))
]

pub lag-list_remove :
    (now a : ℕ) (l : List Timer) {t : Timer}
    → deref a l ≡ some t
    → lag now (list_remove a l) + behind now t ≡ lag now l
unfolding list_remove deref
lag-list_remove now a [] h = cc
lag-list_remove now a (u ∷ us) {t} h = elim (Bool-cases (u.addr == a)) [
  | inl e ↦ ground arith
  | inr e ↦ rw e (omega (arith, lag-list_remove now a us (rw e at h)))
]

pub AllSteady-list_add :
    (now : ℕ) (t : Timer) (l : List Timer)
    → IsSteady now t
    → AllSteady now l
    → AllSteady now (list_add t l)
unfolding list_add
AllSteady-list_add now t [] h hs = (h, tt)
AllSteady-list_add now t (u ∷ us) h (hu, hs) = elim (Bool-cases (is_before t.time u.time)) [
  | inl e ↦ rw e (h, (hu, hs))
  | inr e ↦ rw e (hu, AllSteady-list_add now t us h hs)
]

pub AllSteady-list_remove :
    (now a : ℕ) (l : List Timer) → AllSteady now l → AllSteady now (list_remove a l)
unfolding list_remove
AllSteady-list_remove now a [] h = tt
AllSteady-list_remove now a (u ∷ us) (h, hs) = elim (Bool-cases (u.addr == a)) [
  | inl e ↦ rw e hs
  | inr e ↦ rw e (h, AllSteady-list_remove now a us hs)
]

pub deref-IsSteady :
    (now a : ℕ) (l : List Timer) {t : Timer} → AllSteady now l → deref a l ≡ some t → IsSteady now t
unfolding deref
deref-IsSteady now a [] h e = cc
deref-IsSteady now a (u ∷ us) {t} (h, hs) e = elim (Bool-cases (u.addr == a)) [
  | inl p ↦ ground arith
  | inr p ↦ deref-IsSteady now a us hs (rw p at e)
]

pub deref-list_add_self :
    (t : Timer) (l : List Timer) → deref t.addr l ≡ none → deref t.addr (list_add t l) ≡ some t
unfolding deref list_add
deref-list_add_self t [] h = ground arith
deref-list_add_self t (u ∷ us) h = elim (Bool-cases (u.addr == t.addr)) [
  | inl p ↦ absurd (some≢none (rw p at h))
  | inr p ↦ ground (arith, deref-list_add_self t us (rw p at h))
]
  where
    some≢none : some u ≡ none → ⊥
    some≢none q = cc

pub deref-list_add_ne :
    (a : ℕ) (t : Timer) (l : List Timer)
    → (t.addr == a) ≡ false
    → deref a (list_add t l) ≡ deref a l
unfolding deref list_add
deref-list_add_ne a t [] h = rw h refl
deref-list_add_ne a t (u ∷ us) h = elim (Bool-cases (is_before t.time u.time)) [
  | inl e ↦ rw (e, h) refl
  | inr e ↦ rw e (rw (deref-list_add_ne a t us h) refl)
]

pub deref-list_remove_ne :
    (a b : ℕ) (l : List Timer) → (b == a) ≡ false → deref a (list_remove b l) ≡ deref a l
unfolding deref list_remove
deref-list_remove_ne a b [] h = refl
deref-list_remove_ne a b (u ∷ us) h = elim (Bool-cases (u.addr == b)) [
  | inl e ↦ ground arith
  | inr e ↦ rw e (rw (deref-list_remove_ne a b us h) refl)
]

pub deref_of_not_occurs : (a : ℕ) (l : List Timer) → occurs a l ≡ 0 → deref a l ≡ none
unfolding deref
deref_of_not_occurs a [] h = refl
deref_of_not_occurs a (u ∷ us) h = elim (Bool-cases (u.addr == a)) [
  | inl e ↦ absurd (ground arith)
  | inr e ↦ rw e (deref_of_not_occurs a us (ground arith))
]
