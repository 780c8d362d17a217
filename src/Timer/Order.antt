-- ===== src/Timer/Order.antt =====
-- The list of active timers of timer.c is kept in the order of their times.
use mm_wave_tracker.Prelude.{
  ℕ, ◌≤◌, ◌<◌, ◌≡◌, inl, inr, true, false, List, [], ◌∷◌, arith, ◌==◌, Bool-cases,
}
use mm_wave_tracker.Time.{IperfTime, IsNormal, iperf_time_compare}
use mm_wave_tracker.Time.Order.{instant}
use mm_wave_tracker.Timer.{Timer, is_before, list_add, list_remove, list_resort}

-- All timers are at normal stamps, none earlier than the bound.
abbrev pub NotBefore : ℕ → List Timer → Type 0
NotBefore n [] = Unit
NotBefore n (t ∷ ts) = IsNormal t.time × (n ≤ instant t.time) × NotBefore n ts

-- Normal stamps in ascending order.
abbrev pub IsOrdered : List Timer → Type 0
IsOrdered [] = Unit
IsOrdered (t ∷ ts) = IsNormal t.time × NotBefore (instant t.time) ts × IsOrdered ts

pub is_before→lt :
    (a b : IperfTime) → IsNormal a → IsNormal b → is_before a b ≡ true → instant a < instant b
unfolding iperf_time_compare
is_before→lt a b va vb h = ground arith

pub not_before→le :
    (a b : IperfTime) → IsNormal a → IsNormal b → is_before a b ≡ false → instant b ≤ instant a
unfolding iperf_time_compare
not_before→le a b va vb h = ground arith

pub NotBefore-mono : (m n : ℕ) (l : List Timer) → m ≤ n → NotBefore n l → NotBefore m l
NotBefore-mono m n [] h v = tt
NotBefore-mono m n (t ∷ ts) h (v, k, r) = (v, omega arith, NotBefore-mono m n ts h r)

list_add-NotBefore :
    (n : ℕ) (t : Timer) (l : List Timer)
    → IsNormal t.time
    → n ≤ instant t.time
    → NotBefore n l
    → NotBefore n (list_add t l)
unfolding list_add
list_add-NotBefore n t [] v h r = (v, h, tt)
list_add-NotBefore n t (u ∷ us) v h (vu, k, r) = elim (Bool-cases (is_before t.time u.time)) [
  | inl e ↦ rw e (v, h, (vu, k, r))
  | inr e ↦ rw e (vu, k, list_add-NotBefore n t us v h r)
]

-- Adding a timer keeps the order.
pub list_add-IsOrdered :
    (t : Timer) (l : List Timer) → IsNormal t.time → IsOrdered l → IsOrdered (list_add t l)
unfolding list_add
list_add-IsOrdered t [] v o = (v, tt, tt)
list_add-IsOrdered t (u ∷ us) v (vu, b, o) = elim (Bool-cases (is_before t.time u.time)) [
  | inl e ↦ rw e (
    v,
    (
      vu,
      omega (arith, is_before→lt t.time u.time v vu e),
      NotBefore-mono (instant t.time) (instant u.time) us
          (omega (arith, is_before→lt t.time u.time v vu e)) b,
    ),
    (vu, b, o),
  )
  | inr e ↦ rw e (
    vu,
    list_add-NotBefore (instant u.time) t us v (not_before→le t.time u.time v vu e) b,
    list_add-IsOrdered t us v o,
  )
]

list_remove-NotBefore : (n a : ℕ) (l : List Timer) → NotBefore n l → NotBefore n (list_remove a l)
unfolding list_remove
list_remove-NotBefore n a [] r = tt
list_remove-NotBefore n a (u ∷ us) (vu, k, r) = elim (Bool-cases (u.addr == a)) [
  | inl e ↦ rw e r
  | inr e ↦ rw e (vu, k, list_remove-NotBefore n a us r)
]

-- So does removing one.
pub list_remove-IsOrdered : (a : ℕ) (l : List Timer) → IsOrdered l → IsOrdered (list_remove a l)
unfolding list_remove
list_remove-IsOrdered a [] o = tt
list_remove-IsOrdered a (u ∷ us) (vu, b, o) = elim (Bool-cases (u.addr == a)) [
  | inl e ↦ rw e o
  | inr e ↦ rw e (vu, list_remove-NotBefore (instant u.time) a us b, list_remove-IsOrdered a us o)
]

pub list_resort-IsOrdered :
    (t : Timer) (l : List Timer) → IsNormal t.time → IsOrdered l → IsOrdered (list_resort t l)
unfolding list_resort
list_resort-IsOrdered t l v o =
    list_add-IsOrdered t (list_remove t.addr l) v (list_remove-IsOrdered t.addr l o)
