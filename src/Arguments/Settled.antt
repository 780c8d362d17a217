-- ===== src/Arguments/Settled.antt =====
-- What holds of the settings when `iperf_parse_arguments` returns 0.
use mm_wave_tracker.Prelude.{
  ℕ, ◌≤◌, ◌≡◌, refl, Bool, true, false, Option, none, some, if◌then◌else◌,
}
use mm_wave_tracker.Prelude.Int.{ℤ, pos, negsuc}
use mm_wave_tracker.Config.{IperfTest, Protocol}
use mm_wave_tracker.Config.Setters.{
  is_sender_side, find_protocol, check_sender_has_retransmits, iperf_set_test_role,
  iperf_set_test_reverse, iperf_set_test_bidirectional, set_protocol, choose_mode,
}
use mm_wave_tracker.Config.Errno.{ieprotocol}
use mm_wave_tracker.Arguments.{Parsing, Outcome, goes_on, fails, exits, unknown, and_then, known}

abbrev pub IsWithin : ℕ → ℕ → ℤ → Type 0
IsWithin lo hi (pos n) = (lo ≤ n) × (n ≤ hi)
IsWithin lo hi (negsuc n) = ⊥

abbrev pub IsAtMost : ℕ → ℤ → Type 0
IsAtMost hi (pos n) = n ≤ hi
IsAtMost hi (negsuc n) = Unit

-- What a routine that goes on leaves, and what an optional value is.
abbrev pub Ensures : {A : Type 0} → (A → Type 0) → Outcome A → Type 0
Ensures P (goes_on a) = P a
Ensures P _ = Unit

abbrev pub OnSome : {A : Type 0} → (A → Type 0) → Option A → Type 0
OnSome P none = Unit
OnSome P (some a) = P a

module _ {A : Type 0} (P : A → Type 0) where
  pub if-Ensures :
      (b : Bool) (x y : Outcome A)
      → (b ≡ true → Ensures P x)
      → (b ≡ false → Ensures P y)
      → Ensures P (if b then x else y)
  if-Ensures true x y h k = h refl
  if-Ensures false x y h k = k refl

  pub known-Ensures :
      {B : Type 0} (Q : B → Type 0) (o : Option B) (f : B → Outcome A)
      → OnSome Q o
      → ((b : B) → Q b → Ensures P (f b))
      → Ensures P (known o f)
  known-Ensures Q none f h k = tt
  known-Ensures Q (some b) f h k = k b h

  pub and_then-Ensures :
      (Q : A → Type 0) (o : Outcome A) (f : A → Outcome A)
      → Ensures Q o
      → ((a : A) → Q a → Ensures P (f a))
      → Ensures P (and_then o f)
  and_then-Ensures Q (goes_on a) f h k = k a h
  and_then-Ensures Q (fails a) f h k = tt
  and_then-Ensures Q (exits n) f h k = tt
  and_then-Ensures Q unknown f h k = tt

  if-OnSome : (b : Bool) (x y : Option A) → OnSome P x → OnSome P y → OnSome P (if b then x else y)
  if-OnSome true x y h k = h
  if-OnSome false x y h k = k

  option-OnSome :
      {B : Type 0} (o : Option B) (f : B → A)
      → ((b : B) → P (f b))
      → OnSome P (elim o as (λ _. Option A) [ none ↦ none | some b ↦ some (f b) ])
  option-OnSome none f h = tt
  option-OnSome (some b) f h = h b

module _ {D : Type 0} where
  -- The limits on single settings.
  abbrev pub IsBounded : IperfTest D → Type 0
  IsBounded t =
      IsWithin 1 65535 t.server_port
      × IsWithin 0 65535 t.bind_port
      × IsWithin 0 60 t.omit
      × IsAtMost 86400 t.duration
      × IsAtMost 128 t.num_streams
      × IsAtMost 9216 t.settings.mss
      × IsWithin 0 255 t.settings.tos
      × IsWithin 0 1000 t.settings.burst

  abbrev pub Keeps : Outcome (Parsing D) → Type 0
  Keeps o = Ensures (λ p. IsBounded p.test) o

  check-IsBounded :
      (t : IperfTest D) → IsBounded t → OnSome IsBounded (check_sender_has_retransmits t)
  unfolding check_sender_has_retransmits
  check-IsBounded t h =
      if-OnSome IsBounded (is_sender_side t.mode) _ _
        (option-OnSome IsBounded t.protocol _ (λ p. h)) h

  pub role-IsBounded :
      (t : IperfTest D) (r : ℕ) → IsBounded t → OnSome IsBounded (iperf_set_test_role t r)
  unfolding iperf_set_test_role
  role-IsBounded t r h =
      check-IsBounded (record t { role = r; mode = choose_mode t.reverse r t.mode }) h

  pub reverse-IsBounded :
      (t : IperfTest D) (r : ℤ) → IsBounded t → OnSome IsBounded (iperf_set_test_reverse t r)
  unfolding iperf_set_test_reverse
  reverse-IsBounded t r h =
      check-IsBounded (record t { reverse = r; mode = choose_mode r t.role t.mode }) h

  pub bidir-IsBounded :
      (t : IperfTest D) → IsBounded t → OnSome IsBounded (iperf_set_test_bidirectional t (pos 1))
  unfolding iperf_set_test_bidirectional
  bidir-IsBounded t h = h

  kept_or :
      (t : IperfTest D) (e : ℤ) (o : Option (IperfTest D))
      → IsBounded t
      → OnSome IsBounded o
      → IsBounded
          (elim o as (λ _. IperfTest D × ℤ × Bool) [
            | none ↦ (t, e, true)
            | some u ↦ (u, e, true)
          ]).0
  kept_or t e none h k = h
  kept_or t e (some u) h k = k

  pub protocol-IsBounded :
      (t : IperfTest D) (id e : ℤ) → IsBounded t → IsBounded (set_protocol t id e).0
  unfolding set_protocol
  protocol-IsBounded t id e h = chosen (find_protocol t.protocols id)
    where
      chosen :
          (o : Option Protocol)
          → IsBounded
              (elim o as (λ _. IperfTest D × ℤ × Bool) [
                | none ↦ (t, ieprotocol, false)
                | some p ↦
                    let t' = record t { protocol = some p } in
                    elim (check_sender_has_retransmits t') as (λ _. IperfTest D × ℤ × Bool) [
                      | none ↦ (t', e, true)
                      | some u ↦ (u, e, true)
                    ]
              ]).0
      chosen none = h
      chosen (some p) =
          let t' = record t { protocol = some p } in
          kept_or t' e (check_sender_has_retransmits t') h (check-IsBounded t' h)
