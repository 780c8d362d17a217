-- ===== src/Prelude/Strtol.antt =====
-- `strtol`, `atoi` and `strcasecmp` of the C library over the codes of a text, with a `long` of 64
-- bits.
use mm_wave_tracker.Prelude.Tests.{ltb, leb, ◌==◌, if◌then◌else◌}
use mm_wave_tracker.Prelude.Int.{ℤ, pos, negsuc}
use mm_wave_tracker.Prelude.Word.{to_u64, to_int}
use Prim.Native.Nat.{ℕ, zero, suc, ◌+◌, ◌-◌, ◌*◌, ◌^◌}
use Prim.Native.String.{String}
use mathlib.Core.Bool.{Bool, true, false, ◌&&◌, ◌||◌}
use mathlib.Core.List.{List, [], ◌∷◌}
use Prim.Native.Char.{code}

abbrev pub codes : String → List ℕ
codes String.[] = []
codes (String.◌∷◌ c s) = code c ∷ codes s

abbrev pub is_space : ℕ → Bool
is_space c = c == b' ' || (leb 9 c && leb c 13)

abbrev pub skip_space : List ℕ → List ℕ
skip_space [] = []
skip_space (c ∷ s) = if is_space c then skip_space s else c ∷ s

-- The value of a digit, from 36 on for another character.
abbrev pub digit : ℕ → ℕ
digit c =
    if leb b'0' c && leb c b'9'
    then c - b'0'
    else if leb b'a' c && leb c b'z'
    then c - b'a' + 10
    else if leb b'A' c && leb c b'Z'
    then c - b'A' + 10
    else 36

abbrev pub starts : ℕ → List ℕ → Bool
starts base [] = false
starts base (c ∷ s) = ltb (digit c) base

-- The number that the digits in front make, and what follows.
abbrev pub digits : ℕ → ℕ → List ℕ → ℕ × List ℕ
digits base acc [] = (acc, [])
digits base acc (c ∷ s) =
    let rest = digits base (acc * base + digit c) s in
    if ltb (digit c) base then rest else (acc, c ∷ s)

abbrev pub sign : List ℕ → Bool × List ℕ
sign [] = (false, [])
sign (c ∷ s) = if c == b'-' then (true, s) else if c == b'+' then (false, s) else (false, c ∷ s)

-- The base 0 stands for 16 after 0x, 8 after 0 and 10 else.
abbrev pub prefix : List ℕ → ℕ × List ℕ
prefix [] = (10, [])
prefix (c ∷ []) = if c == b'0' then (8, c ∷ []) else (10, c ∷ [])
prefix (c ∷ x ∷ s) =
    if c == b'0'
    then if (x == b'x' || x == b'X') && starts 16 s then (16, s) else (8, c ∷ x ∷ s)
    else (10, c ∷ x ∷ s)

abbrev pub signed_long : Bool → ℕ → ℤ
signed_long false n = pos (if ltb n (2 ^ 63) then n else 2 ^ 63 - 1)
signed_long true zero = pos 0
signed_long true (suc n) = negsuc (if ltb n (2 ^ 63) then n else 2 ^ 63 - 1)

-- A call of `strtol`: the number, whether there was one, and where it ends.
pub record Number : Type 0 where
  pub value : ℤ
  pub found : Bool
  pub rest : List ℕ

abbrev pub number_in : ℕ → Bool → List ℕ → List ℕ → Number
number_in base negative s whole =
    if starts base s
    then (let (n, rest) = digits base 0 s in
        record { value = signed_long negative n; found = true; rest = rest })
    else record { value = pos 0; found = false; rest = whole }

unfoldable pub strtol : List ℕ → Number
strtol s =
    let (negative, s1) = sign (skip_space s) in
    let (base, s2) = prefix s1 in number_in base negative s2 s

unfoldable pub strtol_10 : List ℕ → Number
strtol_10 s = let (negative, s1) = sign (skip_space s) in number_in 10 negative s1 s

unfoldable pub atoi : String → ℤ
unfolding strtol_10
atoi s = to_int (to_u64 (strtol_10 (codes s)).value)

abbrev pub lower : ℕ → ℕ
lower c = if leb b'A' c && leb c b'Z' then c + 32 else c

-- Whether `strcasecmp` gives 0.
abbrev pub same_text : List ℕ → List ℕ → Bool
same_text [] [] = true
same_text (c ∷ s) (d ∷ t) = lower c == lower d && same_text s t
same_text _ _ = false
