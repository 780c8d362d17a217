-- ===== src/Arguments/Accepted.antt =====
-- What holds of the settings when `iperf_parse_arguments` returns 0.
use mathlib.Core.Path.{subst}
use mm_wave_tracker.Prelude.{
  ℕ, zero, suc, ◌≡◌, ◌⊎◌, inl, inr, refl, Bool, true, false, not, ◌&&◌, List, Option, none, some,
  arith, ◌==◌, Bool-cases, if◌then◌else◌,
}
use mm_wave_tracker.Prelude.Int.{ℤ, pos, negsuc, eqb_ℤ}
use mm_wave_tracker.Prelude.Double.{Double}
use mm_wave_tracker.Config.{IperfTest, Protocol}
use mm_wave_tracker.Config.Codes.{pudp}
use mm_wave_tracker.Config.Roles.{IsRole}
use mm_wave_tracker.Arguments.{Flag, Parsing, Outcome, goes_on, known}
use mm_wave_tracker.Arguments.Steps.{with_test}
use mm_wave_tracker.Arguments.Parse.{
  parse_flags, check_role, chosen_blksize, is_bad_blksize, is_bad_udp_blksize, with_blksize,
  keep_blksize, set_blksize, is_counted, are_bad_limits, check_limits, check_has_role,
  check_arguments, begin, iperf_parse_arguments,
}
use mm_wave_tracker.Arguments.Settled.{
  IsWithin, IsAtMost, Ensures, if-Ensures, and_then-Ensures, IsBounded,
}
use mm_wave_tracker.Arguments.Bounds.{parse_flags-Keeps}

-- A size of blocks that is accepted for UDP, which may be any that is not positive, and for another
-- protocol.
abbrev pub IsBlksize : Bool → ℤ → Type 0
IsBlksize true n = IsAtMost 0 n ⊎ IsWithin 16 65507 n
IsBlksize false n = IsWithin 1 1048576 n

module _ {D : Type 0} where
  -- The protocol is there, and the size of blocks is one that is accepted for it.
  abbrev pub HasBlksize : IperfTest D → Type 0
  HasBlksize t =
      (pr : Protocol) × (t.protocol ≡ some pr) × IsBlksize (eqb_ℤ pr.id pudp) t.settings.blksize

  -- At most one of the limits is set.
  abbrev pub HasOneLimit : IperfTest D → Type 0
  HasOneLimit t =
      ((t.settings.bytes ≡ 0) × (t.settings.blocks ≡ 0))
      ⊎ ((t.duration ≡ pos 0) × ((t.settings.bytes ≡ 0) ⊎ (t.settings.blocks ≡ 0)))

  -- No flag was for the other role.
  abbrev pub HasOwnFlags : Parsing D → Type 0
  HasOwnFlags p =
      (p.test.role ≡ b'c' → p.server_flag ≡ false) × (p.test.role ≡ b's' → p.client_flag ≡ false)

  check_role-HasOwnFlags :
      (p : Parsing D)
      → IsBounded p.test
      → Ensures (λ q. IsBounded q.test × HasOwnFlags q) (check_role p)
  unfolding check_role
  check_role-HasOwnFlags p h =
      if-Ensures _ (p.test.role == b'c' && p.server_flag) _ _ (λ e. tt)
        (λ e.
          if-Ensures _ (p.test.role == b's' && p.client_flag) _ _ (λ k. tt)
            (λ k. (
              h,
              (
                λ c. off (p.test.role == b'c') p.server_flag (ground arith) e,
                λ s. off (p.test.role == b's') p.client_flag (ground arith) k,
              ),
            )))
    where
      off : (a b : Bool) → a ≡ true → (a && b) ≡ false → b ≡ false
      off true b h k = k
      off false b h k = cc

checked-IsBlksize :
    (u : Bool) (n : ℤ) → is_bad_blksize u n ≡ false → is_bad_udp_blksize u n ≡ false → IsBlksize u n
checked-IsBlksize true (pos n) h k = elim (Bool-cases (n == 0)) [
  | inl z ↦ inl (ground arith)
  | inr s ↦ inr (ground arith)
]
checked-IsBlksize true (negsuc n) h k = inl tt
checked-IsBlksize false (pos n) h k = ground arith
checked-IsBlksize false (negsuc n) h k = ground arith

module _ {D : Type 0} where
  abbrev HasSettings : Parsing D → Type 0
  HasSettings q = IsBounded q.test × HasOwnFlags q × HasBlksize q.test

  keep_blksize-HasSettings :
      (p : Parsing D) (pr : Protocol) (n : ℤ)
      → p.test.protocol ≡ some pr
      → IsBounded p.test
      → HasOwnFlags p
      → Ensures HasSettings (keep_blksize (eqb_ℤ pr.id pudp) n p)
  unfolding keep_blksize
  keep_blksize-HasSettings p pr n e h own =
      let u = eqb_ℤ pr.id pudp in
      if-Ensures HasSettings (is_bad_blksize u n) _ _ (λ k. tt)
        (λ k.
          if-Ensures HasSettings (is_bad_udp_blksize u n) _ (goes_on (with_blksize u n p)) (λ l. tt)
            (λ l. (h, own, (pr, e, checked-IsBlksize u n k l))))

  set_blksize-HasSettings :
      (p : Parsing D) → IsBounded p.test → HasOwnFlags p → Ensures HasSettings (set_blksize p)
  unfolding set_blksize
  set_blksize-HasSettings p h own = found p.test.protocol refl
    where
      found :
          (o : Option Protocol)
          → p.test.protocol ≡ o
          → Ensures HasSettings
              (known o (λ pr. keep_blksize (eqb_ℤ pr.id pudp) (chosen_blksize pr.id p.blksize) p))
      found none e = tt
      found (some pr) e = keep_blksize-HasSettings p pr (chosen_blksize pr.id p.blksize) e h own

one_is_zero : (d : Bool) (a b : ℕ) → are_bad_limits d a b ≡ false → (a ≡ 0) ⊎ (b ≡ 0)
one_is_zero d zero b h = inl refl
one_is_zero d (suc a) zero h = inr refl
one_is_zero true (suc a) (suc b) h = absurd (ground arith)
one_is_zero false (suc a) (suc b) h = absurd (ground arith)

both_are_zero :
    (d : Bool) (a b : ℕ)
    → are_bad_limits d a b ≡ false
    → is_counted d a b ≡ false
    → (a ≡ 0) × (b ≡ 0)
both_are_zero true a b h k = ground arith
both_are_zero false a b h k = ground arith

has-IsRole : (r : ℕ) → (not (r == b'c') && not (r == b's')) ≡ false → IsRole r
has-IsRole r h = elim (Bool-cases (r == b'c')) [
  | inl e ↦ inl (ground arith)
  | inr e ↦ inr (ground arith)
]

if-holds {ℓ} :
    {A : Type ℓ} (P : A → Type 0) (b : Bool) (x y : A)
    → (b ≡ true → P x)
    → (b ≡ false → P y)
    → P (if b then x else y)
if-holds P true x y h k = h refl
if-holds P false x y h k = k refl

module _ {D : Type 0} where
  -- What the caller of `iperf_parse_arguments` may rely on.
  abbrev pub IsAccepted : Parsing D → Type 0
  IsAccepted p =
      IsBounded p.test × HasOwnFlags p × HasBlksize p.test × HasOneLimit p.test × IsRole p.test.role

  abbrev IsLimited : Parsing D → Type 0
  IsLimited q = HasSettings q × HasOneLimit q.test

  check_limits-IsLimited : (p : Parsing D) → HasSettings p → Ensures IsLimited (check_limits p)
  unfolding check_limits
  check_limits-IsLimited p (h, own, blk) =
      if-Ensures IsLimited (are_bad_limits p.duration_flag a b) _ (goes_on p') (λ e. tt)
        (λ bad.
          if-holds IsLimited (is_counted p.duration_flag a b) _ p
            (λ c. (
              ((h.0, h.1, h.2, omega arith, h.4, h.5, h.6, h.7), own, blk),
              inr (refl, one_is_zero p.duration_flag a b bad),
            ))
            (λ c. ((h, own, blk), inl (both_are_zero p.duration_flag a b bad c))))
    where
      a : ℕ
      a = p.test.settings.bytes

      b : ℕ
      b = p.test.settings.blocks

      p' : Parsing D
      p' =
          if is_counted p.duration_flag a b
          then with_test p (record (p.test) { duration = pos 0 })
          else p

  check_has_role-IsAccepted : (p : Parsing D) → IsLimited p → Ensures IsAccepted (check_has_role p)
  unfolding check_has_role
  check_has_role-IsAccepted p ((h, own, blk), lim) =
      if-Ensures IsAccepted (not (p.test.role == b'c') && not (p.test.role == b's')) _ (goes_on p)
        (λ e. tt) (λ e. (h, own, blk, lim, has-IsRole p.test.role e))

  check_arguments-IsAccepted :
      (p : Parsing D) → IsBounded p.test → Ensures IsAccepted (check_arguments p)
  unfolding check_arguments
  check_arguments-IsAccepted p h =
      and_then-Ensures IsAccepted (λ q. IsBounded q.test × HasOwnFlags q) (check_role p) _
        (check_role-HasOwnFlags p h)
        (λ p1 (h1, own).
          and_then-Ensures IsAccepted HasSettings (set_blksize p1) _
            (set_blksize-HasSettings p1 h1 own)
            (λ p2 set.
              and_then-Ensures IsAccepted IsLimited (check_limits p2) check_has_role
                (check_limits-IsLimited p2 set) check_has_role-IsAccepted))

  Ensures-elim :
      (P : Parsing D → Type 0) (o : Outcome (Parsing D)) {q : Parsing D}
      → Ensures P o
      → o ≡ goes_on q
      → P q
  Ensures-elim P o {q} h e = subst (Ensures P) e h

-- If the test that is given has its settings in range and `iperf_parse_arguments` returns 0, then:
-- the ports, the period to omit, the duration, the number of streams, the MSS, the type of service and
-- the burst are in range (duration, streams and MSS, which only have an upper limit, may be negative);
-- no flag is for the other role; there is a protocol, and the block size is from 16 to 65507 or not
-- positive for UDP, from 1 to 1048576 else; at most one of duration, bytes and blocks limits the test;
-- and the role is that of a client or of a server.
pub arguments-IsAccepted :
    {D : Type 0} (fp : Double D) (flags : List Flag) (t : IperfTest D) (i_errno : ℤ) {q : Parsing D}
    → IsBounded t
    → iperf_parse_arguments fp flags t i_errno ≡ goes_on q
    → IsAccepted q
unfolding iperf_parse_arguments
arguments-IsAccepted fp flags t i_errno h e =
    Ensures-elim IsAccepted _
      (and_then-Ensures IsAccepted (λ q. IsBounded q.test) (parse_flags fp flags (begin t i_errno))
        check_arguments (parse_flags-Keeps fp flags (begin t i_errno) h)
        (λ p k. check_arguments-IsAccepted p k))
      e
