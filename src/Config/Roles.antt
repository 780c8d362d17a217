-- ===== src/Config/Roles.antt =====
-- The mode of a test as the setters of iperf_api.c leave it.
use mm_wave_tracker.Prelude.{
  ℕ, ◌≡◌, ◌⊎◌, Bool, true, false, ◌&&◌, none, some, arith, ◌==◌, if◌then◌else◌,
}
use mm_wave_tracker.Prelude.Int.{ℤ, pos, eqb_ℤ, truthy}
use mm_wave_tracker.Config.{IperfTest, Protocol, Mode, sender, receiver, bidirectional}
use mm_wave_tracker.Config.Codes.{ptcp}
use mm_wave_tracker.Config.Setters.{
  has_tcpinfo_retransmits, is_sender_side, choose_mode, iperf_set_test_role, iperf_set_test_reverse,
  iperf_set_test_bidirectional,
}

-- Who sends, from what the user asked for. With no role yet it is nobody.
abbrev pub wanted_mode : (role : ℕ) (reverse bidir : Bool) → Mode
wanted_mode role reverse true = bidirectional
wanted_mode role reverse false =
    if role == b'c'
    then (if reverse then receiver else sender)
    else if role == b's'
    then (if reverse then sender else receiver)
    else receiver

abbrev pub IsRole : ℕ → Type 0
IsRole c = (c ≡ b'c') ⊎ (c ≡ b's')

module _ {D : Type 0} where
  abbrev pub IsConsistent : IperfTest D → Type 0
  IsConsistent t = t.mode ≡ wanted_mode t.role (truthy t.reverse) (truthy t.bidir)

  -- Once a protocol is chosen, the role and the direction can be set in either order, and neither
  -- order follows a NULL pointer.
  pub role_reverse_comm :
      (t : IperfTest D) (role : ℕ) (reverse : ℤ) (p : Protocol)
      → IsRole role
      → t.protocol ≡ some p
      → (u : IperfTest D) × (v : IperfTest D) × (w : IperfTest D) × (iperf_set_test_role t role
          ≡ some u)
        × (iperf_set_test_reverse u reverse ≡ some w)
        × (iperf_set_test_reverse t reverse ≡ some v)
        × (iperf_set_test_role v role ≡ some w)
  unfolding iperf_set_test_role iperf_set_test_reverse
  role_reverse_comm t role reverse p r e = (
    record t {
      role = role;
      mode = choose_mode t.reverse role t.mode;
      sender_has_retransmits = shr (choose_mode t.reverse role t.mode);
    },
    record t {
      reverse = reverse;
      mode = choose_mode reverse t.role t.mode;
      sender_has_retransmits = shr (choose_mode reverse t.role t.mode);
    },
    record t {
      role = role;
      reverse = reverse;
      mode = choose_mode reverse role t.mode;
      sender_has_retransmits = shr (choose_mode reverse role t.mode);
    },
    ground arith,
    ground arith,
    ground arith,
    ground arith,
  )
    where
      shr : Mode → ℤ
      shr m =
          if is_sender_side m
          then (if eqb_ℤ p.id ptcp && has_tcpinfo_retransmits then pos 1 else pos 0)
          else pos 0

  -- Setting the role of a test that is not bidirectional makes its mode what its new role and its
  -- direction ask for, and changes neither the direction nor `bidir`.
  pub set_role-IsConsistent :
      (t : IperfTest D) (role : ℕ) {u : IperfTest D}
      → IsRole role
      → truthy t.bidir ≡ false
      → iperf_set_test_role t role ≡ some u
      → IsConsistent u × (u.role ≡ role) × (u.reverse ≡ t.reverse) × (u.bidir ≡ t.bidir)
  unfolding iperf_set_test_role
  set_role-IsConsistent t role r b e = ground arith

  -- Setting the direction of a test that is not bidirectional makes its mode what its role and its
  -- new direction ask for, and changes neither the role nor `bidir`.
  pub set_reverse-IsConsistent :
      (t : IperfTest D) (reverse : ℤ) {u : IperfTest D}
      → IsRole t.role
      → truthy t.bidir ≡ false
      → iperf_set_test_reverse t reverse ≡ some u
      → IsConsistent u × (u.role ≡ t.role) × (u.reverse ≡ reverse) × (u.bidir ≡ t.bidir)
  unfolding iperf_set_test_reverse
  set_reverse-IsConsistent t reverse r b e = ground arith

  -- `iperf_set_test_bidirectional` makes the mode what was asked for, whether it is switched on or off.
  pub set_bidirectional-IsConsistent :
      (t : IperfTest D) (b : ℤ) {u : IperfTest D}
      → IsRole t.role
      → iperf_set_test_bidirectional t b ≡ some u
      → IsConsistent u × (u.role ≡ t.role) × (u.reverse ≡ t.reverse) × (u.bidir ≡ b)
  unfolding iperf_set_test_bidirectional
  set_bidirectional-IsConsistent t b r e = ground arith

  -- A role that is set after a test was made bidirectional is not bidirectional any more, although
  -- the flag still says so.
  pub role_after_bidirectional :
      (t : IperfTest D) (role : ℕ) {u : IperfTest D}
      → IsRole role
      → truthy t.bidir ≡ true
      → iperf_set_test_role t role ≡ some u
      → (¬ IsConsistent u) × (truthy u.bidir ≡ true)
  unfolding iperf_set_test_role
  role_after_bidirectional t role r b e = ground arith

  -- Without a protocol the role of a client that is not reversed cannot be set: NULL is followed.
  pub role_before_protocol :
      (t : IperfTest D)
      → t.protocol ≡ none
      → truthy t.reverse ≡ false
      → iperf_set_test_role t b'c' ≡ none
  unfolding iperf_set_test_role
  role_before_protocol t p r = ground arith
