-- ===== src/Udp/Arrival.antt =====
-- The counters of the receiver, from what arrived.
use mm_wave_tracker.Prelude.{
  ℕ, zero, suc, ◌+◌, ◌-◌, ◌≤◌, ◌<◌, ◌≡◌, sym, ◌∙◌, ap, false, List, [], ◌∷◌, arith, ltb,
  if◌then◌else◌, Bool-cases, inl, inr, length,
}
use mm_wave_tracker.Prelude.Int.{pos, ◌+ℤ◌, ◌-ℤ◌}
use mm_wave_tracker.Udp.{UdpStream, count_arrival}
use mm_wave_tracker.Udp.Missing.{
  seen, highest, missing, missing-above, missing-cons_below_zero, missing-cons,
}

-- How many arrived below a number that had already arrived.
abbrev pub late : List ℕ → ℕ
late [] = 0
late (x ∷ xs) = (if ltb (highest xs) x then 0 else 1) + late xs

-- A sequence number that the sender uses, and that did not arrive before.
pub record IsFresh (p : ℕ) (xs : List ℕ) : Type 0 where
  pub positive : 0 < p
  pub small : p < 2147483647
  pub new : seen p xs ≡ false

split_at : (q n : ℕ) → n ≤ q → (q - n) + n ≡ q
split_at q n h = omega arith

forward :
    (p : ℕ) (xs : List ℕ)
    → highest xs < p
    → missing p (p ∷ xs) ≡ (p - 1 - highest xs) + missing (highest xs) xs
forward zero xs h = absurd (omega arith)
forward (suc q) xs h = ground (
  arith,
  missing-cons_below_zero (suc q) q xs (omega arith),
  missing-above (q - highest xs) (highest xs) xs (omega arith),
  ap (λ n. missing n xs) (split_at q (highest xs) (omega arith)),
)

missing_le : (n : ℕ) (xs : List ℕ) → missing n xs ≤ n
missing_le zero xs = omega arith
missing_le (suc n) xs = ground (arith, missing_le n xs)

one_more : (n : ℕ) → pos n +ℤ pos 1 ≡ pos (1 + n)
unfolding ◌+ℤ◌
one_more n = ground arith

-- Sequence numbers that all differ, the last to arrive first.
abbrev pub AllFresh : List ℕ → Type 0
AllFresh [] = Unit
AllFresh (p ∷ xs) = IsFresh p xs × AllFresh xs

-- Of the numbers up to the highest that arrived, what did not arrive is missing.
pub missing-length : (xs : List ℕ) → AllFresh xs → missing (highest xs) xs + length xs ≡ highest xs
missing-length [] f = omega arith
missing-length (p ∷ xs) (f, fs) = elim (Bool-cases (ltb (highest xs) p)) [
  | inl e ↦ rw (e) (ground (arith, forward p xs (ground arith), missing-length xs fs))
  | inr e ↦ rw (e) (
      ground (
        arith,
        missing-cons p (highest xs) xs f.positive (ground arith) f.new,
        missing-length xs fs,
      ))
]

module _ {D : Type 0} where
  -- The counters say what has arrived, the last first: the highest number, how many below it are
  -- missing, and how many came late.
  pub record Matches (xs : List ℕ) (sp : UdpStream D) : Type 0 where
    pub bounded : highest xs < 2147483647
    pub counts : sp.packet_count ≡ pos (highest xs)
    pub losses : sp.cnt_error ≡ pos (missing (highest xs) xs)
    pub disorder : sp.outoforder_packets ≡ pos (late xs)

  -- The step on the numbers that the counters stand for.
  counted_forward :
      (p h c : ℕ) (sp : UdpStream D)
      → h < p
      → p < 2147483647
      → c ≤ h
      → sp.packet_count ≡ pos h
      → sp.cnt_error ≡ pos c
      → ((count_arrival p sp).packet_count ≡ pos p)
        × ((count_arrival p sp).cnt_error ≡ pos (p - 1 - h + c))
        × ((count_arrival p sp).outoforder_packets ≡ sp.outoforder_packets)
  unfolding count_arrival ◌+ℤ◌ ◌-ℤ◌
  counted_forward p h c sp l b k eh ec = rw (eh, ec) (ground arith)

  counted_back :
      (p h c : ℕ) (sp : UdpStream D)
      → p ≤ h
      → h < 2147483647
      → sp.packet_count ≡ pos h
      → sp.cnt_error ≡ pos (suc c)
      → ((count_arrival p sp).packet_count ≡ pos h)
        × ((count_arrival p sp).cnt_error ≡ pos c)
        × ((count_arrival p sp).outoforder_packets ≡ sp.outoforder_packets +ℤ pos 1)
  unfolding count_arrival ◌+ℤ◌ ◌-ℤ◌
  counted_back p h c sp l b eh ec = rw (eh, ec) (ground arith)

  pub count_arrival-Matches :
      (p : ℕ) (xs : List ℕ) (sp : UdpStream D)
      → IsFresh p xs
      → Matches xs sp
      → Matches (p ∷ xs) (count_arrival p sp)
  count_arrival-Matches p xs sp f m = elim (Bool-cases (ltb (highest xs) p)) [
    | inl e ↦
        let (a, b, c) =
          counted_forward p (highest xs) (missing (highest xs) xs) sp (ground arith) f.small
            (missing_le (highest xs) xs) m.counts m.losses in
        let g = forward p xs (ground arith) in
        record {
          bounded = rw (e) f.small;
          counts = rw (e) a;
          losses = rw (e) (b ∙ ap pos (sym g));
          disorder = rw (e) (c ∙ m.disorder ∙ ap pos (omega arith));
        }
    | inr e ↦
        let g = missing-cons p (highest xs) xs f.positive (ground arith) f.new in
        let (a, b, c) =
          counted_back p (highest xs) (missing (highest xs) (p ∷ xs)) sp (ground arith) m.bounded
            m.counts (m.losses ∙ ap pos g) in
        record {
          bounded = rw (e) m.bounded;
          counts = rw (e) a;
          losses = rw (e) b;
          disorder = rw (e) (c ∙ ap (λ n. n +ℤ pos 1) m.disorder ∙ one_more (late xs));
        }
  ]

  -- The stream after several arrivals, the last first.
  unfoldable pub after_arrivals : List ℕ → UdpStream D → UdpStream D
  unfolding count_arrival
  after_arrivals [] sp = sp
  after_arrivals (p ∷ xs) sp = count_arrival p (after_arrivals xs sp)

  arrivals-Matches :
      (xs : List ℕ) (sp : UdpStream D)
      → AllFresh xs
      → Matches [] sp
      → Matches xs (after_arrivals xs sp)
  unfolding after_arrivals
  arrivals-Matches [] sp f m = m
  arrivals-Matches (p ∷ xs) sp (f, fs) m =
      count_arrival-Matches p xs (after_arrivals xs sp) f (arrivals-Matches xs sp fs m)

  -- From cleared counters, datagrams with different sequence numbers in any order are counted right:
  -- `packet_count` is the highest number, `cnt_error` how many below it are missing, which together
  -- with those that arrived make up the highest, and `outoforder_packets` how many came late.
  pub arrivals_lem :
      (xs : List ℕ) (sp : UdpStream D)
      → AllFresh xs
      → sp.packet_count ≡ pos 0
      → sp.cnt_error ≡ pos 0
      → sp.outoforder_packets ≡ pos 0
      → Matches xs (after_arrivals xs sp) × (missing (highest xs) xs + length xs ≡ highest xs)
  arrivals_lem xs sp f a b c = (
    arrivals-Matches xs sp f record { bounded = omega arith; counts = a; losses = b; disorder = c },
    missing-length xs f,
  )
