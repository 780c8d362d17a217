-- ===== src/Udp/Header.antt =====
-- The header of a datagram, as one side lays it out and the other reads it.
use mm_wave_tracker.Prelude.{
  ℕ, ◌%◌, ◌<◌, ◌≡◌, refl, ◌∙◌, ap, List, [], ◌∷◌, ◌++◌, arith, length, take, drop, Bool-cases, inl,
  inr, take-append, drop-append,
}
use mm_wave_tracker.Prelude.Int.{ℤ, pos, truthy}
use mm_wave_tracker.Prelude.Word.{u32_mod, u64_mod}
use mm_wave_tracker.Prelude.Octets.{be_encode, be_decode, length-be_encode, decode-encode}
use mm_wave_tracker.Time.{IperfTime}
use mm_wave_tracker.Udp.{header, get_header, overwrite}
use mathlib.Core.List.{append_assoc}

drop_eight : {A : Type 0} (xs : List A) → drop 8 xs ≡ drop 4 (drop 4 xs)
drop_eight [] = refl
drop_eight (a ∷ []) = refl
drop_eight (a ∷ b ∷ []) = refl
drop_eight (a ∷ b ∷ c ∷ []) = refl
drop_eight (a ∷ b ∷ c ∷ d ∷ xs) = refl

-- Three fields of known widths at the front of a buffer.
fields :
    (k : ℕ) (a b c rest : List ℕ)
    → length a ≡ 4
    → length b ≡ 4
    → length c ≡ k
    → (take 4 ((a ++ (b ++ c)) ++ rest) ≡ a)
      × (take 4 (drop 4 ((a ++ (b ++ c)) ++ rest)) ≡ b)
      × (take k (drop 8 ((a ++ (b ++ c)) ++ rest)) ≡ c)
fields k a b c rest ha hb hc = (
  rw (split) (take-append a (b ++ (c ++ rest)) 4 ha),
  rw (split, drop-append a (b ++ (c ++ rest)) 4 ha) (take-append b (c ++ rest) 4 hb),
  rw
      (
        split,
        drop_eight (a ++ (b ++ (c ++ rest))),
        drop-append a (b ++ (c ++ rest)) 4 ha,
        drop-append b (c ++ rest) 4 hb,
      )
      (take-append c rest k hc),
)
  where
    split : (a ++ (b ++ c)) ++ rest ≡ a ++ (b ++ (c ++ rest))
    split = append_assoc a (b ++ c) rest ∙ ap (λ x. a ++ x) (append_assoc b c rest)

-- The three fields, decoded.
decoded :
    (t : IperfTime) (n k : ℕ) (c buf : List ℕ)
    → t.secs < u32_mod
    → t.usecs < u32_mod
    → length c ≡ k
    → be_decode c ≡ n
    → let b = overwrite (be_encode 4 t.secs ++ (be_encode 4 t.usecs ++ c)) buf in
      (be_decode (take 4 b) ≡ t.secs)
      × (be_decode (take 4 (drop 4 b)) ≡ t.usecs)
      × (be_decode (take k (drop 8 b)) ≡ n)
decoded t n k c buf hs hu hc e =
    let s = be_encode 4 t.secs in
    let u = be_encode 4 t.usecs in
    let (x, y, z) =
      fields k s u c (drop (length (s ++ (u ++ c))) buf) (length-be_encode 4 t.secs)
        (length-be_encode 4 t.usecs) hc in
    (
      ap be_decode x ∙ decode-encode 4 t.secs (omega arith),
      ap be_decode y ∙ decode-encode 4 t.usecs (omega arith),
      ap be_decode z ∙ e,
    )

mod_small : (n m : ℕ) → n < m → n % m ≡ n
mod_small n m h = grind arith

-- The receiver reads the time and the sequence number that the sender wrote, with counters of 32
-- bits and of 64 bits, whatever else the buffer held.
pub get_header-header :
    (wide : ℤ) (t : IperfTime) (n : ℕ) (buf : List ℕ)
    → t.secs < u32_mod
    → t.usecs < u32_mod
    → n < 2147483648
    → get_header wide (overwrite (header wide t (pos n)) buf) ≡ (t, n)
unfolding get_header header
get_header-header wide t n buf hs hu hn = elim (Bool-cases (truthy wide)) [
  | inl e ↦
      let (x, y, z) =
        decoded t n 8 (be_encode 8 n) buf hs hu (length-be_encode 8 n)
          (decode-encode 8 n (omega arith)) in
      rw (e, mod_small n u64_mod (omega arith), x, y, z) refl
  | inr e ↦
      let (x, y, z) =
        decoded t n 4 (be_encode 4 n) buf hs hu (length-be_encode 4 n)
          (decode-encode 4 n (omega arith)) in
      rw (e, mod_small n u32_mod (omega arith), x, y, z) refl
]
