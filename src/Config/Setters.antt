-- ===== src/Config/Setters.antt =====
-- The setters of iperf_api.c, with `set_protocol`. A `char *` argument is a text; a NULL that is
-- followed is `none`.
use mm_wave_tracker.Prelude.{
  ℕ, Bool, true, false, ◌&&◌, List, [], ◌∷◌, Option, none, some, ◌==◌, if◌then◌else◌,
}
use mm_wave_tracker.Prelude.Int.{ℤ, pos, eqb_ℤ, truthy}
use mm_wave_tracker.Prelude.Double.{Double}
use mm_wave_tracker.Units.{unit_atof_rate}
use mm_wave_tracker.Config.{IperfTest, Protocol, Mode, sender, receiver, bidirectional}
use mm_wave_tracker.Config.Codes.{ptcp, pudp}
use mm_wave_tracker.Config.Errno.{ieprotocol}
use Prim.Native.String.{String}

-- `has_sendfile` of net.c and `has_tcpinfo_retransmits` of tcp_info.c, as built for Android: with
-- HAVE_SENDFILE, `linux` and TCP_MD5SIG.
abbrev pub has_sendfile : Bool
has_sendfile = true

abbrev pub has_tcpinfo_retransmits : Bool
has_tcpinfo_retransmits = true

abbrev pub is_sender_side : Mode → Bool
is_sender_side receiver = false
is_sender_side _ = true

-- The mode that both `iperf_set_test_role` and `iperf_set_test_reverse` choose.
unfoldable pub choose_mode : ℤ → ℕ → Mode → Mode
choose_mode reverse role old =
    if truthy reverse
    then (if role == b'c' then receiver else if role == b's' then sender else old)
    else (if role == b'c' then sender else if role == b's' then receiver else old)

-- The search through the list of protocols in `get_protocol` and `set_protocol`.
unfoldable pub find_protocol : List Protocol → ℤ → Option Protocol
find_protocol [] id = none
find_protocol (p ∷ ps) id = if eqb_ℤ p.id id then some p else find_protocol ps id

module _ {D : Type 0} where
  abbrev pub iperf_set_verbose : IperfTest D → ℤ → IperfTest D
  iperf_set_verbose t v = record t { verbose = v }

  abbrev pub iperf_set_control_socket : IperfTest D → ℤ → IperfTest D
  iperf_set_control_socket t v = record t { ctrl_sck = v }

  abbrev pub iperf_set_test_omit : IperfTest D → ℤ → IperfTest D
  iperf_set_test_omit t v = record t { omit = v }

  abbrev pub iperf_set_test_duration : IperfTest D → ℤ → IperfTest D
  iperf_set_test_duration t v = record t { duration = v }

  abbrev pub iperf_set_test_reporter_interval : IperfTest D → D → IperfTest D
  iperf_set_test_reporter_interval t v = record t { reporter_interval = v }

  abbrev pub iperf_set_test_stats_interval : IperfTest D → D → IperfTest D
  iperf_set_test_stats_interval t v = record t { stats_interval = v }

  abbrev pub iperf_set_test_state : IperfTest D → ℤ → IperfTest D
  iperf_set_test_state t v = record t { state = v }

  abbrev pub iperf_set_test_blksize : IperfTest D → ℤ → IperfTest D
  iperf_set_test_blksize t v = record t { settings = record (t.settings) { blksize = v } }

  abbrev pub iperf_set_test_logfile : IperfTest D → String → IperfTest D
  iperf_set_test_logfile t v = record t { logfile = some v }

  abbrev pub iperf_set_test_rate : IperfTest D → ℕ → IperfTest D
  iperf_set_test_rate t v = record t { settings = record (t.settings) { rate = v } }

  abbrev pub iperf_set_test_fqrate : IperfTest D → ℕ → IperfTest D
  iperf_set_test_fqrate t v = record t { settings = record (t.settings) { fqrate = v } }

  abbrev pub iperf_set_test_pacing_timer : IperfTest D → ℤ → IperfTest D
  iperf_set_test_pacing_timer t v = record t { settings = record (t.settings) { pacing_timer = v } }

  abbrev pub iperf_set_test_bytes : IperfTest D → ℕ → IperfTest D
  iperf_set_test_bytes t v = record t { settings = record (t.settings) { bytes = v } }

  abbrev pub iperf_set_test_blocks : IperfTest D → ℕ → IperfTest D
  iperf_set_test_blocks t v = record t { settings = record (t.settings) { blocks = v } }

  abbrev pub iperf_set_test_burst : IperfTest D → ℤ → IperfTest D
  iperf_set_test_burst t v = record t { settings = record (t.settings) { burst = v } }

  abbrev pub iperf_set_test_server_port : IperfTest D → ℤ → IperfTest D
  iperf_set_test_server_port t v = record t { server_port = v }

  abbrev pub iperf_set_test_socket_bufsize : IperfTest D → ℤ → IperfTest D
  iperf_set_test_socket_bufsize t v = record t {
    settings = record (t.settings) { socket_bufsize = v };
  }

  abbrev pub iperf_set_test_num_streams : IperfTest D → ℤ → IperfTest D
  iperf_set_test_num_streams t v = record t { num_streams = v }

  abbrev pub iperf_set_test_repeating_payload : IperfTest D → ℤ → IperfTest D
  iperf_set_test_repeating_payload t v = record t { repeating_payload = v }

  abbrev pub iperf_set_test_server_hostname : IperfTest D → String → IperfTest D
  iperf_set_test_server_hostname t v = record t { server_hostname = some v }

  abbrev pub iperf_set_test_template : IperfTest D → String → IperfTest D
  iperf_set_test_template t v = record t { tmp_template = some v }

  abbrev pub iperf_set_test_json_output : IperfTest D → ℤ → IperfTest D
  iperf_set_test_json_output t v = record t { json_output = v }

  abbrev pub iperf_set_test_get_server_output : IperfTest D → ℤ → IperfTest D
  iperf_set_test_get_server_output t v = record t { get_server_output = v }

  abbrev pub iperf_set_test_unit_format : IperfTest D → ℕ → IperfTest D
  iperf_set_test_unit_format t v = record t { settings = record (t.settings) { unit_format = v } }

  abbrev pub iperf_set_test_bind_address : IperfTest D → String → IperfTest D
  iperf_set_test_bind_address t v = record t { bind_address = some v }

  abbrev pub iperf_set_test_udp_counters_64bit : IperfTest D → ℤ → IperfTest D
  iperf_set_test_udp_counters_64bit t v = record t { udp_counters_64bit = v }

  abbrev pub iperf_set_test_one_off : IperfTest D → ℤ → IperfTest D
  iperf_set_test_one_off t v = record t { one_off = v }

  abbrev pub iperf_set_test_tos : IperfTest D → ℤ → IperfTest D
  iperf_set_test_tos t v = record t { settings = record (t.settings) { tos = v } }

  abbrev pub iperf_set_test_extra_data : IperfTest D → String → IperfTest D
  iperf_set_test_extra_data t v = record t { extra_data = some v }

  abbrev pub iperf_set_test_no_delay : IperfTest D → ℤ → IperfTest D
  iperf_set_test_no_delay t v = record t { no_delay = v }

  abbrev pub iperf_set_test_zerocopy : IperfTest D → ℤ → IperfTest D
  iperf_set_test_zerocopy t v = record t {
    zerocopy = if truthy v && has_sendfile then pos 1 else pos 0;
  }

  -- `check_sender_has_retransmits` reads the protocol only if the test is not a receiver.
  unfoldable pub check_sender_has_retransmits : IperfTest D → Option (IperfTest D)
  check_sender_has_retransmits t =
      if is_sender_side t.mode
      then elim t.protocol [
        | none ↦ none
        | some p ↦ some (record t {
          sender_has_retransmits =
              if eqb_ℤ p.id ptcp && has_tcpinfo_retransmits then pos 1 else pos 0;
        })
      ]
      else some (record t { sender_has_retransmits = pos 0 })

  unfoldable pub iperf_set_test_role : IperfTest D → ℕ → Option (IperfTest D)
  unfolding choose_mode check_sender_has_retransmits
  iperf_set_test_role t role =
      check_sender_has_retransmits
        (record t { role = role; mode = choose_mode t.reverse role t.mode })

  unfoldable pub iperf_set_test_reverse : IperfTest D → ℤ → Option (IperfTest D)
  unfolding choose_mode check_sender_has_retransmits
  iperf_set_test_reverse t reverse =
      check_sender_has_retransmits
        (record t { reverse = reverse; mode = choose_mode reverse t.role t.mode })

  unfoldable pub iperf_set_test_bidirectional : IperfTest D → ℤ → Option (IperfTest D)
  unfolding iperf_set_test_reverse
  iperf_set_test_bidirectional t b =
      if truthy b
      then some (record t { bidir = b; mode = bidirectional })
      else iperf_set_test_reverse (record t { bidir = b }) t.reverse

  -- `get_protocol`: the protocol and `i_errno`.
  unfoldable pub get_protocol : IperfTest D → ℤ → ℤ → Option Protocol × ℤ
  unfolding find_protocol
  get_protocol t id i_errno = elim (find_protocol t.protocols id) [
    | none ↦ (none, ieprotocol)
    | some p ↦ (some p, i_errno)
  ]

  -- `set_protocol`: the test, `i_errno` and whether 0 is returned.
  unfoldable pub set_protocol : IperfTest D → ℤ → ℤ → IperfTest D × ℤ × Bool
  unfolding find_protocol check_sender_has_retransmits
  set_protocol t id i_errno = elim (find_protocol t.protocols id) [
    | none ↦ (t, ieprotocol, false)
    | some p ↦
        let t' = record t { protocol = some p } in
        elim (check_sender_has_retransmits t') [
          | none ↦ (t', i_errno, true)
          | some u ↦ (u, i_errno, true)
        ]
  ]

  unfoldable pub iperf_set_test_protocol : IperfTest D → ℕ → ℤ → IperfTest D × ℤ
  unfolding set_protocol
  iperf_set_test_protocol t proto i_errno =
      if proto == b'u'
      then (let (t', e, _) = set_protocol t pudp i_errno in (iperf_set_test_blksize t' (pos 0), e))
      else (t, i_errno)

module _ {D : Type 0} ⦃fp : Double D⦄ where
  unfoldable pub iperf_set_test_interval : IperfTest D → ℤ → IperfTest D
  iperf_set_test_interval t interval_ms =
      let seconds = fp.div (fp.of_int interval_ms) (fp.of_int (pos 1000)) in
      iperf_set_test_stats_interval (iperf_set_test_reporter_interval t seconds) seconds

  -- `none` for a text with no number, where the rate is an uninitialised variable.
  unfoldable pub iperf_set_test_udp_bandwidth : IperfTest D → String → Option (IperfTest D)
  unfolding unit_atof_rate
  iperf_set_test_udp_bandwidth t bandwidth = elim (unit_atof_rate bandwidth) [
    | none ↦ none
    | some r ↦ some (iperf_set_test_rate t (fp.to_uint64 r))
  ]
