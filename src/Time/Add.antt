-- ===== src/Time/Add.antt =====
-- `iperf_time_add_usecs` of iperf_time.c.
use mm_wave_tracker.Prelude.{ℕ, ◌+◌, ◌*◌, ◌<◌, ◌≡◌, arith}
use mm_wave_tracker.Prelude.Word.{u32_mod}
use mm_wave_tracker.Time.{IperfTime, IsNormal, iperf_time_add_usecs}
use mm_wave_tracker.Time.Order.{instant}

-- Adding to a normal stamp keeps it normal, whatever is added.
pub add_usecs-IsNormal : (t : IperfTime) (n : ℕ) → IsNormal t → IsNormal (iperf_time_add_usecs t n)
unfolding iperf_time_add_usecs
add_usecs-IsNormal t n v = ground arith

-- As long as the seconds stay within 32 bits, adding to a normal stamp gives a normal stamp, and
-- moves its instant by exactly that much.
pub add_usecs_lem :
    (t : IperfTime) (n : ℕ)
    → IsNormal t
    → instant t + n < u32_mod * 1000000
    → IsNormal (iperf_time_add_usecs t n) × (instant (iperf_time_add_usecs t n) ≡ instant t + n)
unfolding iperf_time_add_usecs
add_usecs_lem t n v h = ground arith
