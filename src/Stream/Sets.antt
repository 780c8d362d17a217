-- ===== src/Stream/Sets.antt =====
-- Sets of descriptors.
use mm_wave_tracker.Prelude.{
  ℕ, ◌≡◌, ◌≢◌, refl, true, false, List, [], ◌∷◌, arith, ◌==◌, Bool-cases, inl, inr,
}
use mm_wave_tracker.Stream.{fd_isset, fd_set, fd_clr}

pub isset-set_self : (s : ℕ) (l : List ℕ) → fd_isset s (fd_set s l) ≡ true
unfolding fd_set fd_isset
isset-set_self s l = elim (Bool-cases (fd_isset s l)) [
  | inl e ↦ rw (e, fd_set) e
  | inr e ↦ rw (e, fd_set) (ground arith)
]

pub isset-set_ne : (r s : ℕ) (l : List ℕ) → r ≢ s → fd_isset r (fd_set s l) ≡ fd_isset r l
unfolding fd_set fd_isset
isset-set_ne r s l h = elim (Bool-cases (fd_isset s l)) [
  | inl e ↦ rw (e, fd_set) refl
  | inr e ↦ rw (e, fd_set) (ground arith)
]

pub isset-clr_self : (s : ℕ) (l : List ℕ) → fd_isset s (fd_clr s l) ≡ false
unfolding fd_clr fd_isset
isset-clr_self s [] = refl
isset-clr_self s (x ∷ l) = elim (Bool-cases (s == x)) [
  | inl e ↦ rw (e, fd_clr) (isset-clr_self s l)
  | inr e ↦ rw (e, fd_clr, e) (isset-clr_self s l)
]

pub isset-clr_ne : (r s : ℕ) (l : List ℕ) → r ≢ s → fd_isset r (fd_clr s l) ≡ fd_isset r l
unfolding fd_clr fd_isset
isset-clr_ne r s [] h = refl
isset-clr_ne r s (x ∷ l) h = ground (arith, isset-clr_ne r s l h)
