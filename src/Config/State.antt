-- ===== src/Config/State.antt =====
-- The states of a test in iperf_api.h.
use mm_wave_tracker.Prelude.Int.{ℤ, pos, negsuc}

abbrev pub test_start : ℤ
test_start = pos 1

abbrev pub test_running : ℤ
test_running = pos 2

abbrev pub test_end : ℤ
test_end = pos 4

abbrev pub param_exchange : ℤ
param_exchange = pos 9

abbrev pub create_streams : ℤ
create_streams = pos 10

abbrev pub server_terminate : ℤ
server_terminate = pos 11

abbrev pub client_terminate : ℤ
client_terminate = pos 12

abbrev pub exchange_results : ℤ
exchange_results = pos 13

abbrev pub display_results : ℤ
display_results = pos 14

abbrev pub iperf_start : ℤ
iperf_start = pos 15

abbrev pub iperf_done : ℤ
iperf_done = pos 16

abbrev pub access_denied : ℤ
access_denied = negsuc 0

abbrev pub server_error : ℤ
server_error = negsuc 1
