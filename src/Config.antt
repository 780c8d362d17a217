-- ===== src/Config.antt =====
-- iperfwrapperlib/iperf/src/iperf.h and iperf_api.h: the settings of a test, what a test is, and the
-- constants of the protocol. `Config` has the routines of iperf_api.c that read and write them.
pub mod Codes
pub mod State
pub mod Errno
pub mod Getters
pub mod Setters
pub mod Life
pub mod Roles
pub mod Tests
use mm_wave_tracker.Prelude.{ℕ, List, Option}
use mm_wave_tracker.Prelude.Int.{ℤ}
use Prim.Native.String.{String}

-- `struct iperf_settings`, as built without SSL.
pub record IperfSettings : Type 0 where
  pub domain : ℤ
  pub socket_bufsize : ℤ
  pub blksize : ℤ
  pub rate : ℕ
  pub fqrate : ℕ
  pub pacing_timer : ℤ
  pub burst : ℤ
  pub mss : ℤ
  pub ttl : ℤ
  pub tos : ℤ
  pub flowlabel : ℤ
  pub bytes : ℕ
  pub blocks : ℕ
  pub unit_format : ℕ
  pub num_ostreams : ℤ
  pub connect_timeout : ℤ

-- `enum iperf_mode`.
pub data Mode : Type 0 where
  sender receiver bidirectional : Mode

-- `struct protocol`: the name and the table of functions go with the number.
pub record Protocol : Type 0 where
  pub id : ℤ
  pub name : String

-- The settable part of `struct iperf_test`; a `double` is of type `D`, and NULL is `none`.
pub record IperfTest (D : Type 0) : Type 0 where
  pub role : ℕ
  pub mode : Mode
  pub sender_has_retransmits : ℤ
  pub other_side_has_retransmits : ℤ
  pub protocol : Option Protocol
  pub state : ℤ
  pub server_hostname : Option String
  pub tmp_template : Option String
  pub bind_address : Option String
  pub bind_port : ℤ
  pub server_port : ℤ
  pub omit : ℤ
  pub duration : ℤ
  pub diskfile_name : Option String
  pub affinity : ℤ
  pub server_affinity : ℤ
  pub title : Option String
  pub extra_data : Option String
  pub congestion : Option String
  pub congestion_used : Option String
  pub remote_congestion_used : Option String
  pub logfile : Option String
  pub ctrl_sck : ℤ
  pub listener : ℤ
  pub prot_listener : ℤ
  pub ctrl_sck_mss : ℤ
  pub daemon : ℤ
  pub one_off : ℤ
  pub no_delay : ℤ
  pub reverse : ℤ
  pub bidir : ℤ
  pub verbose : ℤ
  pub json_output : ℤ
  pub zerocopy : ℤ
  pub debug : ℤ
  pub get_server_output : ℤ
  pub udp_counters_64bit : ℤ
  pub forceflush : ℤ
  pub multisend : ℤ
  pub repeating_payload : ℤ
  pub json_output_string : Option String
  pub omitting : ℤ
  pub stats_interval : D
  pub reporter_interval : D
  pub done : ℤ
  pub num_streams : ℤ
  pub bytes_sent : ℕ
  pub blocks_sent : ℕ
  pub bytes_received : ℕ
  pub blocks_received : ℕ
  pub settings : IperfSettings
  pub protocols : List Protocol
  pub iperf_error_message : Option String
