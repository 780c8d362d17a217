-- ===== src/Config/Codes.antt =====
-- The constants of iperf.h and iperf_api.h: protocol numbers, default settings and limits.
use mm_wave_tracker.Prelude.Int.{ℤ, pos}

abbrev pub ptcp : ℤ
ptcp = pos 1

abbrev pub pudp : ℤ
pudp = pos 2

abbrev pub psctp : ℤ
psctp = pos 12

abbrev pub default_udp_blksize : ℤ
default_udp_blksize = pos 1460

abbrev pub default_tcp_blksize : ℤ
default_tcp_blksize = pos 131072

abbrev pub default_port : ℤ
default_port = pos 5201

abbrev pub default_omit : ℤ
default_omit = pos 0

abbrev pub default_duration : ℤ
default_duration = pos 10

abbrev pub max_udp_blocksize : ℤ
max_udp_blocksize = pos 65507
