-- ===== src/Time/Diff.antt =====
-- `iperf_time_diff` of iperf_time.c.
use mm_wave_tracker.Prelude.{◌+◌, ◌-◌, ◌≤◌, ◌≡◌, ◌↔◌, true, arith}
use mm_wave_tracker.Time.{IperfTime, IsNormal, iperf_time_diff}
use mm_wave_tracker.Time.Order.{instant}

-- The difference of two normal stamps is a normal stamp that stands for the distance of their
-- instants (one of the two differences on the right is 0), and `past` is returned exactly when the
-- first is not later than the second.
pub diff_lem :
    (a b : IperfTime)
    → IsNormal a
    → IsNormal b
    → IsNormal (iperf_time_diff a b).1
      × (instant (iperf_time_diff a b).1 ≡ (instant a - instant b) + (instant b - instant a))
      × (((iperf_time_diff a b).0 ≡ true) ↔ (instant a ≤ instant b))
unfolding iperf_time_diff
diff_lem a b va vb = ground arith
