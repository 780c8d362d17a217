-- ===== src/Dscp/Names.antt =====
-- What `parse_qos` gives, and how it reads what `iptos2str` writes.
use mm_wave_tracker.Prelude.{
  ℕ, zero, suc, ◌+◌, ℕ_discrete, ◌≤◌, ◌<◌, ◌≡◌, ◌⊎◌, inl, inr, refl, Bool, true, false, ◌&&◌, List,
  [], ◌∷◌, Option, none, some, arith, ltb, leb, ◌||◌, not, if◌then◌else◌, Bool-cases, Option-cases,
}
use mm_wave_tracker.Prelude.Int.{ℤ, pos, negsuc, eqb_ℤ, ltb_ℤ}
use mm_wave_tracker.Prelude.Strtol.{strtol, same_text, codes}
use mm_wave_tracker.Dscp.{
  is_empty, shown, ipqos, find_name, parse_number, parse_qos, find_value, iptos2str,
}
use Prim.Native.String.{String}

abbrev AllBelow : ℕ → List (String × ℕ) → Type 0
AllBelow n [] = Unit
AllBelow n ((name, v) ∷ rows) = (v ≤ n) × AllBelow n rows

-- An octet, or -1.
abbrev pub IsOctet : ℤ → Type 0
IsOctet r = (r ≡ negsuc 0) ⊎ ((n : ℕ) × (r ≡ pos n) × (n ≤ 255))

find_name-le :
    (rows : List (String × ℕ)) (cp : List ℕ) {v : ℕ}
    → AllBelow 255 rows
    → find_name rows cp ≡ some v
    → v ≤ 255
unfolding find_name
find_name-le [] cp h e = cc
find_name-le ((name, w) ∷ rows) cp {v} h e = elim (Bool-cases (same_text cp (codes name))) [
  | inl q ↦ let found : some w ≡ some v = rw q at e in ground arith
  | inr q ↦ let later : find_name rows cp ≡ some v = rw q at e in find_name-le rows cp h.1 later
]

in_range :
    (a b : Bool) (v : ℤ)
    → IsOctet (if a || b || ltb_ℤ v (pos 0) || ltb_ℤ (pos 255) v then negsuc 0 else v)
in_range true b v = inl refl
in_range false true v = inl refl
in_range false false (negsuc n) = inl (ground arith)
in_range false false (pos n) = elim (Bool-cases (ltb 255 n)) [
  | inl big ↦ inl (ground arith)
  | inr small ↦ inr (n, ground arith, ground arith)
]

parse_number-IsOctet : (cp : List ℕ) → IsOctet (parse_number cp)
unfolding parse_number
parse_number-IsOctet cp = in_range (is_empty cp) (not (is_empty (strtol cp).rest)) (strtol cp).value

-- `parse_qos` gives -1 for no text (NULL), and an octet or -1 for any text.
pub parse_qos-IsOctet :
    (cp : Option (List ℕ)) → (parse_qos none ≡ negsuc 0) × IsOctet (parse_qos cp)
unfolding parse_qos
parse_qos-IsOctet none = (refl, inl refl)
parse_qos-IsOctet (some cp) = elim (Option-cases (find_name ipqos cp)) [
  | inl e ↦ (refl, rw (e, parse_qos) (parse_number-IsOctet cp))
  | inr (v, e) ↦ (refl, rw (e, parse_qos) (inr (v, refl, find_name-le ipqos cp (omega arith) e)))
]

agrees : ℕ → Bool
agrees v = eqb_ℤ (parse_qos (some (iptos2str (pos v)))) (pos v)

-- Every value from `first` on, `count` of them, is read back.
agree_from : ℕ → ℕ → Bool
agree_from first zero = true
agree_from first (suc count) = agrees first && agree_from (suc first) count

agree_from_lem :
    (count first v : ℕ)
    → agree_from first count ≡ true
    → first ≤ v
    → v < first + count
    → agrees v ≡ true
unfolding agree_from
agree_from_lem zero first v all low high = absurd (omega arith)
agree_from_lem (suc count) first v all low high = elim (ℕ_discrete first v) [
  | yes e ↦ rw (← e) (ground arith)
  | no ne ↦ agree_from_lem count (suc first) v (ground arith) (omega arith) (omega arith)
]

all_agree : agree_from 0 65 ≡ true
unfolding agree_from agrees parse_qos find_name parse_number is_empty strtol iptos2str shown
    find_value
all_agree = refl

eq_of_eqb : (a : ℤ) (n : ℕ) → eqb_ℤ a (pos n) ≡ true → a ≡ pos n
eq_of_eqb (pos m) n h = ground arith
eq_of_eqb (negsuc m) n h = ground arith

shown_zero : (v : ℕ) → 64 < v → shown (pos v) ≡ 0
unfolding shown
shown_zero v h = ground arith

kept : (v : ℕ) → v ≤ 64 → parse_qos (some (iptos2str (pos v))) ≡ pos v
unfolding agrees
kept v h = eq_of_eqb _ v (agree_from_lem 65 0 v all_agree (omega arith) (omega arith))

cs0 : parse_qos (some (codes "cs0")) ≡ pos 0
unfolding parse_qos find_name
cs0 = refl

above : (v : ℕ) → 64 < v → parse_qos (some (iptos2str (pos v))) ≡ pos 0
unfolding iptos2str find_value
above v h = rw (shown_zero v h, iptos2str) cs0

-- `parse_qos` reads what `iptos2str` writes for a type of service as the same up to 64, and as 0 above
-- that.
pub parse_qos-iptos2str :
    (v : ℕ) → parse_qos (some (iptos2str (pos v))) ≡ pos (if leb v 64 then v else 0)
parse_qos-iptos2str v = elim (Bool-cases (leb v 64)) [
  | inl low ↦ rw low (kept v (ground arith))
  | inr high ↦ rw high (above v (ground arith))
]
