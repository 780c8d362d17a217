-- ===== src/Time/Tests.antt =====
-- Time stamps on concrete values.
use mm_wave_tracker.Prelude.{◌+◌, ◌-◌, ◌≤◌, ◌<◌, ◌≡◌, ◌↔◌, refl, true, false, arith}
use mm_wave_tracker.Prelude.Int.{pos, negsuc}
use mm_wave_tracker.Time.{
  IperfTime, IsNormal, iperf_time_add_usecs, iperf_time_compare, iperf_time_diff,
}
use mm_wave_tracker.Time.Order.{instant, compare-instant}
use mm_wave_tracker.Time.Diff.{diff_lem}
use mm_wave_tracker.Time.Add.{add_usecs_lem}

abbrev early : IperfTime
early = record { secs = 4; usecs = 900000 }

abbrev late : IperfTime
late = record { secs = 6; usecs = 200000 }

diff_borrows : iperf_time_diff late early ≡ (false, record { secs = 1; usecs = 300000 })
unfolding iperf_time_diff
diff_borrows = refl

add_carries : iperf_time_add_usecs early 2200000 ≡ record { secs = 7; usecs = 100000 }
unfolding iperf_time_add_usecs
add_carries = refl

compare-instant_example :
    ((iperf_time_compare early late ≡ negsuc 0) ↔ (instant early < instant late))
    × ((iperf_time_compare early late ≡ pos 0) ↔ (instant early ≡ instant late))
    × ((iperf_time_compare early late ≡ pos 1) ↔ (instant late < instant early))
compare-instant_example = compare-instant early late (omega arith) (omega arith)

diff_lem_example :
    IsNormal (iperf_time_diff early late).1
    × (instant (iperf_time_diff early late).1
        ≡ (instant early - instant late) + (instant late - instant early))
    × (((iperf_time_diff early late).0 ≡ true) ↔ (instant early ≤ instant late))
diff_lem_example = diff_lem early late (omega arith) (omega arith)

add_usecs_lem_example :
    IsNormal (iperf_time_add_usecs early 2200000)
    × (instant (iperf_time_add_usecs early 2200000) ≡ instant early + 2200000)
add_usecs_lem_example = add_usecs_lem early 2200000 (omega arith) (omega arith)
