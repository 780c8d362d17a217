-- ===== src/Net/Flags.antt =====
-- What `timeout_connect` of net.c does to the flags of a descriptor.
use mm_wave_tracker.Prelude.{
  ℕ, ◌≡◌, refl, sym, ◌∙◌, ap, ◌⊎◌, inl, inr, Bool, true, false, ◌&&◌, Option, some, arith,
  Bool-cases, Option-cases,
}
use mm_wave_tracker.Prelude.Int.{ℤ, pos, negsuc, eqb_ℤ}
use mm_wave_tracker.Net.Connect.{
  Connecting, connected, in_progress, refused, with_nonblock, wait_connected, try_connect,
  timeout_connect, flags_or_all,
}

-- What F_SETFL documents: it takes over the bits that can be set and leaves the others, `merge` of
-- the flags before and those asked for; or it fails and changes nothing.
abbrev pub Sets : {W : Type 0} → (ℕ → ℕ → ℕ) → (W → Option ℕ) → (ℕ → W → Bool × W) → Type 0
Sets {W} merge get_flags set_flags =
    (f g : ℕ) (w : W)
    → get_flags w ≡ some g
    → (((set_flags f w).0 ≡ true) × (get_flags (set_flags f w).1 ≡ some (merge g f)))
      ⊎ (((set_flags f w).0 ≡ false) × (get_flags (set_flags f w).1 ≡ some g))

not_both : (b : Bool) → (b && false) ≡ true → ⊥
not_both true h = ground arith
not_both false h = ground arith

module _ {W : Type 0} (merge : ℕ → ℕ → ℕ) (get_flags : W → Option ℕ) (set_flags : ℕ → W → Bool × W)
    (connect : W → Connecting × W) (poll : ℤ → W → ℤ × W) (so_error : W → Option ℕ × W)
    (sets : Sets merge get_flags set_flags) (restores : (g f : ℕ) → merge (merge g f) g ≡ g)
    (keeps : (w : W)
      → (get_flags (connect w).1 ≡ get_flags w)
        × ((t : ℤ) → get_flags (poll t w).1 ≡ get_flags w)
        × (get_flags (so_error w).1 ≡ get_flags w)) where
  wait_connected-flags :
      (timeout : ℤ) (w : W)
      → get_flags (wait_connected get_flags set_flags connect poll so_error timeout w).1
        ≡ get_flags w
  unfolding wait_connected
  wait_connected-flags timeout w =
      let w1 = (poll timeout w).1 in
      elim (Bool-cases (eqb_ℤ (poll timeout w).0 (pos 1))) [
        | inr e ↦ rw (wait_connected, e) ((keeps w).1 timeout)
        | inl e ↦ elim (Option-cases (so_error w1).0) [
          | inl o ↦ rw (wait_connected, e, o) ((keeps w1).2 ∙ (keeps w).1 timeout)
          | inr (x, o) ↦ rw (wait_connected, e, o) ((keeps w1).2 ∙ (keeps w).1 timeout)
        ]
      ]

  try_connect-flags :
      (timeout : ℤ) (w : W)
      → get_flags (try_connect get_flags set_flags connect poll so_error timeout w).1 ≡ get_flags w
  unfolding try_connect
  try_connect-flags timeout w = go (connect w).0 refl
    where
      go :
          (c : Connecting)
          → (connect w).0 ≡ c
          → get_flags (try_connect get_flags set_flags connect poll so_error timeout w).1
            ≡ get_flags w
      go connected e = rw (try_connect, e) (keeps w).0
      go refused e = rw (try_connect, e) (keeps w).0
      go in_progress e =
          rw (try_connect, e) (wait_connected-flags timeout (connect w).1 ∙ (keeps w).0)

  -- `timeout_connect` leaves the flags of the socket, which F_GETFL gives, as they were, with or
  -- without a timeout, when it returns 0 or the flags of a descriptor can always be set. To set
  -- flags takes over some bits and leaves the others, so that those of before can be set again, or
  -- fails; `connect`, `poll` and `getsockopt` leave the flags alone.
  pub timeout_connect-flags :
      (timeout : ℤ) (g : ℕ) (w : W)
      → get_flags w ≡ some g
      → let r = timeout_connect get_flags set_flags connect poll so_error timeout w in
        (r.0 ≡ true) ⊎ ((f : ℕ) (v : W) → (set_flags f v).0 ≡ true) → get_flags r.1 ≡ some g
  unfolding timeout_connect flags_or_all
  timeout_connect-flags timeout g w start h =
      let w1 = (set_flags (with_nonblock g) w).1 in
      let r = try_connect get_flags set_flags connect poll so_error timeout w1 in
      elim (Bool-cases (eqb_ℤ timeout (negsuc 0))) [
        | inl e ↦ rw (timeout_connect, e) (try_connect-flags timeout w ∙ start)
        | inr e ↦ elim (sets (with_nonblock g) g w start) [
          | inr (bad, kept) ↦ rw (timeout_connect, e, start, bad) kept
          | inl (ok, set) ↦
              elim (sets g (merge g (with_nonblock g)) r.1 (try_connect-flags timeout w1 ∙ set)) [
                | inl (ok', set') ↦
                    rw (timeout_connect, e, start, ok)
                      (set' ∙ ap (λ (x : ℕ). some x) (restores g (with_nonblock g)))
                | inr (bad, kept) ↦ absurd (elim h [
                  | inl won ↦ not_both r.0 (rw (timeout_connect, e, start, ok, bad) at won)
                  | inr all ↦ not_both true (sym bad ∙ all g r.1)
                ])
              ]
        ]
      ]
