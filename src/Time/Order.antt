-- ===== src/Time/Order.antt =====
-- `iperf_time_compare` of iperf_time.c as an order.
use mm_wave_tracker.Prelude.{ℕ, ◌+◌, ◌*◌, ◌<◌, ◌≡◌, ◌↔◌, arith}
use mm_wave_tracker.Prelude.Int.{pos, negsuc}
use mm_wave_tracker.Time.{IperfTime, IsNormal, iperf_time_in_usecs, iperf_time_compare}

-- The time that a stamp stands for, in microseconds, without the width of any type.
abbrev pub instant : IperfTime → ℕ
instant t = t.secs * 1000000 + t.usecs

-- In 64 bits the instant of a normal stamp does not wrap.
pub in_usecs-eq-instant : (t : IperfTime) → IsNormal t → iperf_time_in_usecs t ≡ instant t
unfolding iperf_time_in_usecs
in_usecs-eq-instant t v = omega arith

-- On normal stamps the comparison is that of the instants: -1 exactly when the first is earlier,
-- 0 exactly when they are the same instant, 1 exactly when the first is later.
pub compare-instant :
    (a b : IperfTime)
    → IsNormal a
    → IsNormal b
    → ((iperf_time_compare a b ≡ negsuc 0) ↔ (instant a < instant b))
      × ((iperf_time_compare a b ≡ pos 0) ↔ (instant a ≡ instant b))
      × ((iperf_time_compare a b ≡ pos 1) ↔ (instant b < instant a))
unfolding iperf_time_compare
compare-instant a b va vb = ground arith
