-- ===== src/Arguments.antt =====
-- iperfwrapperlib/iperf/src/iperf_api.c: `iperf_parse_arguments`, as built for Android. The flags and
-- their arguments are what `getopt_long` gives, in its order. Warnings are left out.
pub mod Steps
pub mod Parse
pub mod Settled
pub mod Bounds
pub mod Accepted
pub mod Tests
use mm_wave_tracker.Prelude.{ℕ, Bool, List, Option, none, some}
use mm_wave_tracker.Prelude.Int.{ℤ}
use mm_wave_tracker.Config.{IperfTest}
use Prim.Native.String.{String}

-- The cases of the `switch`. A flag that the build does not have is `usage`, as getopt gives it.
pub data Flag : Type 0 where
  port format interval : String → Flag
  daemon one_off verbose json print_version server : Flag
  client : String → Flag
  udp sctp : Flag
  bitrate time bytes blockcount block_length parallel : String → Flag
  reverse bidir : Flag
  window bind cport set_mss : String → Flag
  no_delay version4 version6 : Flag
  tos dscp extra_data flowlabel xbind : String → Flag
  use_sendfile repeating_payload : Flag
  omit file affinity title congestion : String → Flag
  debug : Flag
  pidfile logfile : String → Flag
  forceflush get_server_output udp_counters_64bit no_fq_socket_pacing : Flag
  fq_rate pacing_timer connect_timeout : String → Flag
  help usage : Flag

-- The test, `i_errno`, the locals of the function, and two fields of the test that only it sets.
pub record Parsing (D : Type 0) : Type 0 where
  pub test : IperfTest D
  pub i_errno : ℤ
  pub blksize : ℤ
  pub server_flag : Bool
  pub client_flag : Bool
  pub rate_flag : Bool
  pub duration_flag : Bool
  pub pidfile : Option String
  pub xbind_addrs : List String

-- `unknown` is a NULL pointer that is followed, or the use of an uninitialised variable.
pub data Outcome (A : Type 0) : Type 0 where
  goes_on fails : A → Outcome A
  exits : ℕ → Outcome A
  unknown : Outcome A

abbrev pub and_then : {A : Type 0} → Outcome A → (A → Outcome A) → Outcome A
and_then (goes_on a) f = f a
and_then (fails a) f = fails a
and_then (exits n) f = exits n
and_then unknown f = unknown

abbrev pub known : {A B : Type 0} → Option A → (A → Outcome B) → Outcome B
known o f = elim o [ none ↦ unknown | some a ↦ f a ]
