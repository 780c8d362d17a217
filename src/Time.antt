-- ===== src/Time.antt =====
-- iperfwrapperlib/iperf/src/iperf_time.c: time stamps in seconds and microseconds.
pub mod Order
pub mod Diff
pub mod Add
pub mod Tests
use mm_wave_tracker.Prelude.{
  ℕ, ◌+◌, ◌-◌, ◌*◌, ◌/◌, ◌%◌, ◌<◌, Bool, true, false, ltb, leb, if◌then◌else◌,
}
use mm_wave_tracker.Prelude.Int.{ℤ, pos, negsuc, eqb_ℤ}
use mm_wave_tracker.Prelude.Word.{u32, u64, u32_mod}

-- `struct iperf_time`: both fields are `uint32_t`.
pub record IperfTime : Type 0 where
  pub secs : ℕ
  pub usecs : ℕ

-- A stamp as the clock gives it: the fields fit, and the microseconds are below one second.
pub record IsNormal (t : IperfTime) : Type 0 where
  pub secs_fit : t.secs < u32_mod
  pub usecs_below : t.usecs < 1000000

-- `iperf_time_add_usecs`. `secs` and `usecs` are 32-bit, the sums wrap.
unfoldable pub iperf_time_add_usecs : IperfTime → ℕ → IperfTime
iperf_time_add_usecs t n =
    let s = u32 (t.secs + n / 1000000) in
    let u = u32 (t.usecs + n % 1000000) in
    if leb 1000000 u
    then record { secs = u32 (s + u / 1000000); usecs = u % 1000000 }
    else record { secs = s; usecs = u }

-- `iperf_time_in_usecs`, computed in 64 bits.
unfoldable pub iperf_time_in_usecs : IperfTime → ℕ
iperf_time_in_usecs t = u64 (t.secs * 1000000 + t.usecs)

-- `iperf_time_compare`: -1, 0 or 1.
unfoldable pub iperf_time_compare : IperfTime → IperfTime → ℤ
iperf_time_compare a b =
    if ltb a.secs b.secs
    then negsuc 0
    else if ltb b.secs a.secs
    then pos 1
    else if ltb a.usecs b.usecs
    then negsuc 0
    else if ltb b.usecs a.usecs
    then pos 1
    else pos 0

-- The subtraction of two stamps in 32-bit arithmetic, with a borrow of one second.
time_sub : IperfTime → IperfTime → IperfTime
time_sub a b =
    let s = u32 (a.secs + u32_mod - b.secs) in
    let u = a.usecs in
    if ltb u b.usecs
    then record {
      secs = u32 (s + u32_mod - 1);
      usecs = u32 (u32 (u + 1000000) + u32_mod - b.usecs);
    }
    else record { secs = s; usecs = u32 (u + u32_mod - b.usecs) }

-- `iperf_time_diff`: the return value `past`, and what is written through `diff`.
unfoldable pub iperf_time_diff : IperfTime → IperfTime → Bool × IperfTime
unfolding time_sub iperf_time_compare
iperf_time_diff a b =
    let cmp = iperf_time_compare a b in
    if eqb_ℤ cmp (pos 0)
    then (true, record { secs = 0; usecs = 0 })
    else if eqb_ℤ cmp (pos 1)
    then (false, time_sub a b)
    else (true, time_sub b a)
