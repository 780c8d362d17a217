-- ===== src/Timer/Count.antt =====
-- No operation of timer.c loses a timer structure or has one on the lists twice.
use mm_wave_tracker.Prelude.{
  ℕ, ◌+◌, ◌≡◌, refl, inl, inr, List, [], ◌∷◌, some, arith, ◌==◌, Bool-cases, if◌then◌else◌,
}
use mm_wave_tracker.Timer.{Timer, Timers, list_add, list_remove, list_resort, deref}

abbrev pub hit : ℕ → ℕ → ℕ
hit a b = if a == b then 1 else 0

-- How many timers of a list are at an address.
abbrev pub occurs : ℕ → List Timer → ℕ
occurs a [] = 0
occurs a (t ∷ ts) = hit t.addr a + occurs a ts

-- How often an address stands on the two lists.
abbrev pub held : ℕ → Timers → ℕ
held a s = occurs a s.timers + occurs a s.free_timers

pub occurs-list_add :
    (b : ℕ) (t : Timer) (l : List Timer) → occurs b (list_add t l) ≡ hit t.addr b + occurs b l
unfolding list_add
occurs-list_add b t [] = refl
occurs-list_add b t (u ∷ us) = ground (arith, occurs-list_add b t us)

pub occurs-list_remove :
    (a b : ℕ) (l : List Timer) {t : Timer}
    → deref a l ≡ some t
    → occurs b (list_remove a l) + hit t.addr b ≡ occurs b l
unfolding list_remove deref
occurs-list_remove a b [] h = cc
occurs-list_remove a b (u ∷ us) h = elim (Bool-cases (u.addr == a)) [
  | inl e ↦ ground arith
  | inr e ↦ ground (arith, occurs-list_remove a b us (rw e at h))
]

pub deref-addr : (a : ℕ) (l : List Timer) {t : Timer} → deref a l ≡ some t → t.addr ≡ a
unfolding deref
deref-addr a [] h = cc
deref-addr a (u ∷ us) h = elim (Bool-cases (u.addr == a)) [
  | inl e ↦ ground arith
  | inr e ↦ deref-addr a us (rw e at h)
]

pub occurs-list_resort :
    (b : ℕ) (l : List Timer) (t : Timer) {u : Timer}
    → deref t.addr l ≡ some u
    → occurs b (list_resort t l) ≡ occurs b l
unfolding list_resort
occurs-list_resort b l t {u} h = ground (
  arith,
  occurs-list_add b t (list_remove t.addr l),
  occurs-list_remove t.addr b l h,
  deref-addr t.addr l h,
)
