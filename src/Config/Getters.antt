-- ===== src/Config/Getters.antt =====
-- The getters of iperf_api.c.
use mm_wave_tracker.Prelude.{ℕ, Option, none, some}
use mm_wave_tracker.Prelude.Int.{ℤ}
use mm_wave_tracker.Config.{IperfTest}
use Prim.Native.String.{String}

module _ {D : Type 0} where
  abbrev pub iperf_get_verbose : IperfTest D → ℤ
  iperf_get_verbose t = t.verbose

  abbrev pub iperf_get_control_socket : IperfTest D → ℤ
  iperf_get_control_socket t = t.ctrl_sck

  abbrev pub iperf_get_control_socket_mss : IperfTest D → ℤ
  iperf_get_control_socket_mss t = t.ctrl_sck_mss

  abbrev pub iperf_get_test_omit : IperfTest D → ℤ
  iperf_get_test_omit t = t.omit

  abbrev pub iperf_get_test_duration : IperfTest D → ℤ
  iperf_get_test_duration t = t.duration

  abbrev pub iperf_get_test_rate : IperfTest D → ℕ
  iperf_get_test_rate t = t.settings.rate

  abbrev pub iperf_get_test_fqrate : IperfTest D → ℕ
  iperf_get_test_fqrate t = t.settings.fqrate

  abbrev pub iperf_get_test_pacing_timer : IperfTest D → ℤ
  iperf_get_test_pacing_timer t = t.settings.pacing_timer

  abbrev pub iperf_get_test_bytes : IperfTest D → ℕ
  iperf_get_test_bytes t = t.settings.bytes

  abbrev pub iperf_get_test_blocks : IperfTest D → ℕ
  iperf_get_test_blocks t = t.settings.blocks

  abbrev pub iperf_get_test_burst : IperfTest D → ℤ
  iperf_get_test_burst t = t.settings.burst

  abbrev pub iperf_get_test_role : IperfTest D → ℕ
  iperf_get_test_role t = t.role

  abbrev pub iperf_get_test_reverse : IperfTest D → ℤ
  iperf_get_test_reverse t = t.reverse

  abbrev pub iperf_get_test_blksize : IperfTest D → ℤ
  iperf_get_test_blksize t = t.settings.blksize

  abbrev pub iperf_get_test_socket_bufsize : IperfTest D → ℤ
  iperf_get_test_socket_bufsize t = t.settings.socket_bufsize

  abbrev pub iperf_get_test_reporter_interval : IperfTest D → D
  iperf_get_test_reporter_interval t = t.reporter_interval

  abbrev pub iperf_get_test_stats_interval : IperfTest D → D
  iperf_get_test_stats_interval t = t.stats_interval

  abbrev pub iperf_get_test_num_streams : IperfTest D → ℤ
  iperf_get_test_num_streams t = t.num_streams

  abbrev pub iperf_get_test_repeating_payload : IperfTest D → ℤ
  iperf_get_test_repeating_payload t = t.repeating_payload

  abbrev pub iperf_get_test_server_port : IperfTest D → ℤ
  iperf_get_test_server_port t = t.server_port

  abbrev pub iperf_get_test_server_hostname : IperfTest D → Option String
  iperf_get_test_server_hostname t = t.server_hostname

  abbrev pub iperf_get_test_template : IperfTest D → Option String
  iperf_get_test_template t = t.tmp_template

  -- `none` where there is no protocol: a read through NULL.
  unfoldable pub iperf_get_test_protocol_id : IperfTest D → Option ℤ
  iperf_get_test_protocol_id t = elim t.protocol [ none ↦ none | some p ↦ some p.id ]

  abbrev pub iperf_get_test_json_output : IperfTest D → ℤ
  iperf_get_test_json_output t = t.json_output

  abbrev pub iperf_get_test_json_output_string : IperfTest D → Option String
  iperf_get_test_json_output_string t = t.json_output_string

  abbrev pub iperf_get_test_zerocopy : IperfTest D → ℤ
  iperf_get_test_zerocopy t = t.zerocopy

  abbrev pub iperf_get_test_get_server_output : IperfTest D → ℤ
  iperf_get_test_get_server_output t = t.get_server_output

  abbrev pub iperf_get_test_unit_format : IperfTest D → ℕ
  iperf_get_test_unit_format t = t.settings.unit_format

  abbrev pub iperf_get_test_bind_address : IperfTest D → Option String
  iperf_get_test_bind_address t = t.bind_address

  abbrev pub iperf_get_test_udp_counters_64bit : IperfTest D → ℤ
  iperf_get_test_udp_counters_64bit t = t.udp_counters_64bit

  abbrev pub iperf_get_test_one_off : IperfTest D → ℤ
  iperf_get_test_one_off t = t.one_off

  abbrev pub iperf_get_test_tos : IperfTest D → ℤ
  iperf_get_test_tos t = t.settings.tos

  abbrev pub iperf_get_test_extra_data : IperfTest D → Option String
  iperf_get_test_extra_data t = t.extra_data

  abbrev pub iperf_get_test_no_delay : IperfTest D → ℤ
  iperf_get_test_no_delay t = t.no_delay
