-- ===== src/Config/Tests.antt =====
-- The setters of iperf_api.c on a new test with the defaults.
use mm_wave_tracker.Prelude.{◌≡◌, refl, true, some, inl, inr}
use mm_wave_tracker.Prelude.Int.{ℤ, pos, truthy}
use mm_wave_tracker.Prelude.Samples.{whole}
use mm_wave_tracker.Config.{IperfTest, sender, receiver, bidirectional}
use mm_wave_tracker.Config.Setters.{
  choose_mode, check_sender_has_retransmits, iperf_set_test_role, iperf_set_test_reverse,
  iperf_set_test_bidirectional,
}
use mm_wave_tracker.Config.Life.{tcp, zero_test}
use mm_wave_tracker.Config.Roles.{
  IsConsistent, role_reverse_comm, set_role-IsConsistent, set_reverse-IsConsistent,
  role_after_bidirectional,
}

abbrev fresh : IperfTest ℤ
fresh = record (zero_test ⦃fp = whole⦄) { protocol = some tcp }

-- A client that is not reversed, and one that is.
abbrev client : IperfTest ℤ
client = record fresh { role = b'c'; mode = sender; sender_has_retransmits = pos 1 }

abbrev reversed : IperfTest ℤ
reversed = record fresh { role = b'c'; reverse = pos 1; mode = receiver }

abbrev both_ways : IperfTest ℤ
both_ways = record client { bidir = pos 1; mode = bidirectional }

sets_role : iperf_set_test_role fresh b'c' ≡ some client
unfolding iperf_set_test_role choose_mode check_sender_has_retransmits
sets_role = refl

sets_reverse : iperf_set_test_reverse client (pos 1) ≡ some reversed
unfolding iperf_set_test_reverse choose_mode check_sender_has_retransmits
sets_reverse = refl

sets_bidirectional : iperf_set_test_bidirectional client (pos 1) ≡ some both_ways
unfolding iperf_set_test_bidirectional iperf_set_test_reverse
sets_bidirectional = refl

abbrev downgraded : IperfTest ℤ
downgraded = record both_ways { role = b's'; mode = receiver; sender_has_retransmits = pos 0 }

sets_role_again : iperf_set_test_role both_ways b's' ≡ some downgraded
unfolding iperf_set_test_role choose_mode check_sender_has_retransmits
sets_role_again = refl

role_reverse_comm_example :
    (u : IperfTest ℤ) × (v : IperfTest ℤ) × (w : IperfTest ℤ) × (iperf_set_test_role fresh b'c'
      ≡ some u)
    × (iperf_set_test_reverse u (pos 1) ≡ some w)
    × (iperf_set_test_reverse fresh (pos 1) ≡ some v)
    × (iperf_set_test_role v b'c' ≡ some w)
role_reverse_comm_example = role_reverse_comm fresh b'c' (pos 1) tcp (inl refl) refl

set_role-IsConsistent_example :
    IsConsistent client
    × (client.role ≡ b'c')
    × (client.reverse ≡ fresh.reverse)
    × (client.bidir ≡ fresh.bidir)
set_role-IsConsistent_example = set_role-IsConsistent fresh b'c' (inl refl) refl sets_role

set_reverse-IsConsistent_example :
    IsConsistent reversed
    × (reversed.role ≡ client.role)
    × (reversed.reverse ≡ pos 1)
    × (reversed.bidir ≡ client.bidir)
set_reverse-IsConsistent_example =
    set_reverse-IsConsistent client (pos 1) (inl refl) refl sets_reverse

role_after_bidirectional_example : (¬ IsConsistent downgraded) × (truthy downgraded.bidir ≡ true)
role_after_bidirectional_example =
    role_after_bidirectional both_ways b's' (inr refl) refl sets_role_again
