-- ===== src/Config/Life.antt =====
-- `iperf_new_test` and `iperf_defaults` of iperf_api.c.
use mm_wave_tracker.Prelude.{Bool, true, false, ◌&&◌, [], ◌∷◌, Option, none, some, if◌then◌else◌}
use mm_wave_tracker.Prelude.Int.{ℤ, pos, negsuc}
use mm_wave_tracker.Prelude.Double.{Double}
use mm_wave_tracker.Config.{IperfSettings, IperfTest, Protocol, receiver}
use mm_wave_tracker.Config.Codes.{
  ptcp, pudp, default_port, default_omit, default_duration, default_tcp_blksize,
}
use mm_wave_tracker.Config.Errno.{ienewtest}
use mm_wave_tracker.Config.Setters.{set_protocol}

abbrev pub zero_settings : IperfSettings
zero_settings = record {
  domain = pos 0;
  socket_bufsize = pos 0;
  blksize = pos 0;
  rate = 0;
  fqrate = 0;
  pacing_timer = pos 0;
  burst = pos 0;
  mss = pos 0;
  ttl = pos 0;
  tos = pos 0;
  flowlabel = pos 0;
  bytes = 0;
  blocks = 0;
  unit_format = 0;
  num_ostreams = pos 0;
  connect_timeout = pos 0;
}

abbrev pub tcp : Protocol
tcp = record { id = ptcp; name = "TCP" }

abbrev pub udp : Protocol
udp = record { id = pudp; name = "UDP" }

module _ {D : Type 0} ⦃fp : Double D⦄ where
  -- The structure after `memset`: RECEIVER is 0.
  abbrev pub zero_test : IperfTest D
  zero_test = record {
    role = 0;
    mode = receiver;
    sender_has_retransmits = pos 0;
    other_side_has_retransmits = pos 0;
    protocol = none;
    state = pos 0;
    server_hostname = none;
    tmp_template = none;
    bind_address = none;
    bind_port = pos 0;
    server_port = pos 0;
    omit = pos 0;
    duration = pos 0;
    diskfile_name = none;
    affinity = pos 0;
    server_affinity = pos 0;
    title = none;
    extra_data = none;
    congestion = none;
    congestion_used = none;
    remote_congestion_used = none;
    logfile = none;
    ctrl_sck = pos 0;
    listener = pos 0;
    prot_listener = pos 0;
    ctrl_sck_mss = pos 0;
    daemon = pos 0;
    one_off = pos 0;
    no_delay = pos 0;
    reverse = pos 0;
    bidir = pos 0;
    verbose = pos 0;
    json_output = pos 0;
    zerocopy = pos 0;
    debug = pos 0;
    get_server_output = pos 0;
    udp_counters_64bit = pos 0;
    forceflush = pos 0;
    multisend = pos 0;
    repeating_payload = pos 0;
    json_output_string = none;
    omitting = pos 0;
    stats_interval = fp.of_int (pos 0);
    reporter_interval = fp.of_int (pos 0);
    done = pos 0;
    num_streams = pos 0;
    bytes_sent = 0;
    blocks_sent = 0;
    bytes_received = 0;
    blocks_received = 0;
    settings = zero_settings;
    protocols = [];
    iperf_error_message = none;
  }

  -- `iperf_new_test`: NULL and IENEWTEST if one of the two allocations fails.
  unfoldable pub iperf_new_test : Bool → Bool → ℤ → Option (IperfTest D) × ℤ
  iperf_new_test test_allocated settings_allocated i_errno =
      if test_allocated && settings_allocated then (some zero_test, i_errno) else (none, ienewtest)

  -- What `iperf_defaults` assigns before it sets up the list of protocols.
  default_fields : IperfTest D → IperfTest D
  default_fields t = record t {
    omit = default_omit;
    duration = default_duration;
    diskfile_name = none;
    affinity = negsuc 0;
    server_affinity = negsuc 0;
    title = none;
    extra_data = none;
    congestion = none;
    congestion_used = none;
    remote_congestion_used = none;
    server_port = default_port;
    ctrl_sck = negsuc 0;
    prot_listener = negsuc 0;
    other_side_has_retransmits = pos 0;
    stats_interval = fp.of_int (pos 1);
    reporter_interval = fp.of_int (pos 1);
    num_streams = pos 1;
    settings = record (t.settings) {
      domain = pos 0;
      unit_format = b'a';
      socket_bufsize = pos 0;
      blksize = default_tcp_blksize;
      rate = 0;
      fqrate = 0;
      pacing_timer = pos 1000;
      burst = pos 0;
      mss = pos 0;
      bytes = 0;
      blocks = 0;
      connect_timeout = negsuc 0;
    };
    multisend = pos 10;
    protocols = [];
  }

  -- `iperf_defaults`, with the outcomes of the two allocations: the test, `i_errno` and whether 0 is
  -- returned. If the second fails the first protocol is freed, but it stays on the list.
  unfoldable pub iperf_defaults : Bool → Bool → IperfTest D → ℤ → IperfTest D × ℤ × Bool
  unfolding default_fields set_protocol
  iperf_defaults tcp_allocated udp_allocated t i_errno =
      if tcp_allocated
      then if udp_allocated
        then (let (t', e, _) =
              set_protocol (record (default_fields t) { protocols = tcp ∷ udp ∷ [] }) ptcp
                i_errno in
            (t', e, true))
        else (record (default_fields t) { protocols = tcp ∷ [] }, i_errno, false)
      else (default_fields t, i_errno, false)
