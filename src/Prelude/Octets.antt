-- ===== src/Prelude/Octets.antt =====
-- The octets of an unsigned word in network byte order: `htonl` and `htobe64` before a `memcpy`, and
-- `ntohl` and `be64toh` after one.
use mm_wave_tracker.Prelude.Lists.{length, length-append}
use Prim.Native.Nat.{ℕ, zero, suc, ◌+◌, ◌*◌, ◌/◌, ◌%◌, ◌^◌, ◌<◌}
use mathlib.Core.Path.{◌≡◌, refl}
use mathlib.Core.List.{List, [], ◌∷◌, ◌++◌}
use native.Mathlib.Omega.{arith}

-- The low `k` octets of a number, the highest first.
abbrev pub be_encode : ℕ → ℕ → List ℕ
be_encode zero n = []
be_encode (suc k) n = be_encode k (n / 256) ++ (n % 256 ∷ [])

be_decode_from : ℕ → List ℕ → ℕ
be_decode_from acc [] = acc
be_decode_from acc (b ∷ bs) = be_decode_from (acc * 256 + b) bs

unfoldable pub be_decode : List ℕ → ℕ
unfolding be_decode_from
be_decode bs = be_decode_from 0 bs

pub length-be_encode : (k n : ℕ) → length (be_encode k n) ≡ k
length-be_encode zero n = refl
length-be_encode (suc k) n =
    omega
      (arith, length-append (be_encode k (n / 256)) (n % 256 ∷ []), length-be_encode k (n / 256))

decode_last :
    (acc b : ℕ) (bs : List ℕ)
    → be_decode_from acc (bs ++ (b ∷ [])) ≡ be_decode_from acc bs * 256 + b
unfolding be_decode_from
decode_last acc b [] = refl
decode_last acc b (x ∷ bs) = decode_last (acc * 256 + x) b bs

pub decode-encode : (k n : ℕ) → n < 256 ^ k → be_decode (be_encode k n) ≡ n
unfolding be_decode be_decode_from
decode-encode zero n h = omega arith
decode-encode (suc k) n h = omega (
  arith,
  decode_last 0 (n % 256) (be_encode k (n / 256)),
  decode-encode k (n / 256) (omega arith),
)
