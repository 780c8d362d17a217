-- ===== src/Udp/Missing.antt =====
-- Which datagrams are missing, said of the list of the sequence numbers that have arrived.
use mm_wave_tracker.Prelude.{
  ℕ, zero, suc, ◌+◌, ◌≤◌, ◌<◌, ◌≡◌, refl, Bool, true, false, List, [], ◌∷◌, arith, ltb, ◌==◌,
  if◌then◌else◌, Bool-cases, inl, inr,
}

-- Whether a number is in a list.
abbrev pub seen : ℕ → List ℕ → Bool
seen n [] = false
seen n (x ∷ xs) = if n == x then true else seen n xs

-- The highest number that has arrived.
abbrev pub highest : List ℕ → ℕ
highest [] = 0
highest (x ∷ xs) = if ltb (highest xs) x then x else highest xs

-- How many of the numbers from 1 to `n` have not arrived.
abbrev pub missing : ℕ → List ℕ → ℕ
missing zero xs = 0
missing (suc n) xs = (if seen (suc n) xs then 0 else 1) + missing n xs

pub seen-highest : (n : ℕ) (xs : List ℕ) → highest xs < n → seen n xs ≡ false
seen-highest n [] h = refl
seen-highest n (x ∷ xs) h = ground (arith, seen-highest n xs)

plus_zero : (n : ℕ) → 0 + n ≡ n
plus_zero n = omega arith

suc_plus : (k n : ℕ) → suc k + n ≡ suc (k + n)
suc_plus k n = omega arith

pub missing-above : (k n : ℕ) (xs : List ℕ) → highest xs ≤ n → missing (k + n) xs ≡ k + missing n xs
missing-above zero n xs h = rw (plus_zero n) (omega arith)
missing-above (suc k) n xs h =
    (rw (suc_plus k n, seen-highest (suc (k + n)) xs (omega arith))
      (omega (arith, missing-above k n xs h)))

pub missing-cons_below_zero : (p n : ℕ) (xs : List ℕ) → n < p → missing n (p ∷ xs) ≡ missing n xs
missing-cons_below_zero p zero xs h = refl
missing-cons_below_zero p (suc n) xs h = ground (arith, missing-cons_below_zero p n xs)

pub missing-cons :
    (p n : ℕ) (xs : List ℕ)
    → 0 < p
    → p ≤ n
    → seen p xs ≡ false
    → missing n xs ≡ suc (missing n (p ∷ xs))
missing-cons p zero xs h l s = absurd (omega arith)
missing-cons p (suc n) xs h l s = elim (Bool-cases (suc n == p)) [
  | inl e ↦ ground (arith, missing-cons_below_zero p n xs)
  | inr e ↦ ground (arith, missing-cons p n xs)
]
