-- ===== src/Dscp/Tests.antt =====
-- Types of service by name and by number.
use mm_wave_tracker.Prelude.{none, ◌≡◌, refl, some}
use mm_wave_tracker.Prelude.Int.{pos, negsuc}
use mm_wave_tracker.Prelude.Strtol.{codes, strtol}
use mm_wave_tracker.Dscp.{is_empty, parse_qos, find_name, parse_number, iptos2str}
use mm_wave_tracker.Dscp.Names.{IsOctet, parse_qos-IsOctet, parse_qos-iptos2str}

names_and_numbers :
    (parse_qos (some (codes "AF41")) ≡ pos 0x88)
    × (parse_qos (some (codes " 0x2e")) ≡ pos 46)
    × (parse_qos (some (codes "056")) ≡ pos 46)
    × (parse_qos (some (codes "46x")) ≡ negsuc 0)
    × (parse_qos (some (codes "256")) ≡ negsuc 0)
unfolding parse_qos find_name parse_number is_empty strtol
names_and_numbers = (refl, refl, refl, refl, refl)

parse_qos-IsOctet_example : (parse_qos none ≡ negsuc 0) × IsOctet (parse_qos (some (codes "0xff")))
parse_qos-IsOctet_example = parse_qos-IsOctet (some (codes "0xff"))

parse_qos-iptos2str_example : parse_qos (some (iptos2str (pos 46))) ≡ pos 46
parse_qos-iptos2str_example = parse_qos-iptos2str 46
