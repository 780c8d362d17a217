-- ===== src/Arguments/Tests.antt =====
-- Command lines of a client.
use mm_wave_tracker.Prelude.{◌≡◌, refl, true, List, [], ◌∷◌, some, arith}
use mm_wave_tracker.Prelude.Int.{ℤ, pos, negsuc, ◌*ℤ◌}
use mm_wave_tracker.Prelude.Double.{Double}
use mm_wave_tracker.Prelude.Samples.{whole}
use mm_wave_tracker.Prelude.Strtol.{atoi}
use mm_wave_tracker.Units.{unit_atof, unit_atoi, scale}
use mm_wave_tracker.Config.{IperfTest}
use mm_wave_tracker.Config.Life.{zero_test, iperf_defaults}
use mm_wave_tracker.Config.Setters.{
  choose_mode, find_protocol, check_sender_has_retransmits, iperf_set_test_role, set_protocol,
}
use mm_wave_tracker.Arguments.{
  Flag, Parsing, Outcome, goes_on, fails, client, udp, parallel, time, block_length,
}
use mm_wave_tracker.Arguments.Steps.{on_client, on_udp, on_parallel, on_time}
use mm_wave_tracker.Arguments.Parse.{
  parse_flag, parse_flags, check_role, keep_blksize, set_blksize, check_limits, check_has_role,
  check_arguments, begin, iperf_parse_arguments,
}
use mm_wave_tracker.Arguments.Accepted.{IsAccepted, arguments-IsAccepted}

abbrev result : Outcome (Parsing ℤ) → Parsing ℤ
result (goes_on p) = p
result (fails p) = p
result _ = begin (zero_test ⦃fp = whole⦄) (pos 0)

-- A number of three times the suffix g.
abbrev three_g : Double ℤ
three_g = record whole { scan = λ s. some (pos 3, b'g') }

abbrev fresh : IperfTest ℤ
fresh = (iperf_defaults ⦃fp = whole⦄ true true (zero_test ⦃fp = whole⦄) (pos 0)).0

abbrev flags : List Flag
flags = client "server" ∷ udp ∷ parallel "4" ∷ time "30" ∷ []

accepted :
    iperf_parse_arguments whole flags fresh (pos 0)
    ≡ goes_on (result (iperf_parse_arguments whole flags fresh (pos 0)))
unfolding iperf_parse_arguments parse_flags parse_flag on_client on_udp on_parallel on_time
    iperf_set_test_role choose_mode check_sender_has_retransmits set_protocol find_protocol
    check_arguments check_role set_blksize keep_blksize check_limits check_has_role iperf_defaults
    atoi
accepted = refl

arguments-IsAccepted_example : IsAccepted (result (iperf_parse_arguments whole flags fresh (pos 0)))
unfolding iperf_defaults
arguments-IsAccepted_example = arguments-IsAccepted whole flags fresh (pos 0) (omega arith) accepted

-- `-u -l 3G` is accepted, with a negative size of blocks.
negative_blksize :
    (result (
      iperf_parse_arguments three_g
        (client "server" ∷ udp ∷ block_length "3G" ∷ [])
        fresh
        (pos 0))).test.settings.blksize
    ≡ negsuc 1073741823
unfolding iperf_parse_arguments parse_flags parse_flag on_client on_udp unit_atoi unit_atof scale
    iperf_set_test_role choose_mode check_sender_has_retransmits set_protocol find_protocol
    check_arguments check_role set_blksize keep_blksize check_limits check_has_role iperf_defaults
    ◌*ℤ◌
negative_blksize = refl
