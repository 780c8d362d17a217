-- ===== src/Arguments/Parse.antt =====
-- The loop of `iperf_parse_arguments` over the flags, and the checks behind it.
use mm_wave_tracker.Prelude.{
  ℕ, Bool, false, not, ◌&&◌, ◌||◌, List, [], ◌∷◌, ◌++◌, none, some, ◌==◌, if◌then◌else◌,
}
use mm_wave_tracker.Prelude.Int.{ℤ, pos, ltb_ℤ, eqb_ℤ}
use mm_wave_tracker.Prelude.Word.{to_int}
use mm_wave_tracker.Prelude.Double.{Double}
use mm_wave_tracker.Units.{unit_atoi}
use mm_wave_tracker.Config.{IperfTest}
use mm_wave_tracker.Config.Codes.{pudp, psctp, default_tcp_blksize, max_udp_blocksize}
use mm_wave_tracker.Config.Errno.{
  ienorole, ieserveronly, ieclientonly, ieblocksize, ieunimp, ieendconditions, ieudpblocksize,
}
use mm_wave_tracker.Arguments.{
  Flag, Parsing, Outcome, goes_on, exits, and_then, known, port, format, interval, daemon, one_off,
  verbose, json, print_version, server, client, udp, sctp, bitrate, time, bytes, blockcount,
  block_length, parallel, reverse, bidir, window, bind, cport, set_mss, no_delay, version4,
  version6, tos, dscp, extra_data, flowlabel, xbind, use_sendfile, repeating_payload, omit, file,
  affinity, title, congestion, debug, pidfile, logfile, forceflush, get_server_output,
  udp_counters_64bit, no_fq_socket_pacing, fq_rate, pacing_timer, connect_timeout, help, usage,
}
use mm_wave_tracker.Arguments.Steps.{
  max_blocksize, min_udp_blocksize, udp_rate, default_sctp_blksize, refuse, unless, with_test,
  with_settings, for_client, for_server, on_port, on_format, on_server, on_client, on_udp, on_time,
  on_parallel, on_reverse, on_bidir, on_cport, on_mss, on_tos, on_dscp, on_omit, on_sendfile,
  on_interval, on_bitrate, on_window,
}

-- AF_INET and AF_INET6 of Linux.
abbrev pub af_inet : ℤ
af_inet = pos 2

abbrev pub af_inet6 : ℤ
af_inet6 = pos 10

module _ {D : Type 0} (fp : Double D) where
  -- One turn of the `while` loop.
  unfoldable pub parse_flag : Flag → Parsing D → Outcome (Parsing D)
  parse_flag (port arg) p = on_port arg p
  parse_flag (format arg) p = on_format arg p
  parse_flag (interval arg) p = on_interval fp arg p
  parse_flag daemon p = goes_on (for_server (with_test p (record (p.test) { daemon = pos 1 })))
  parse_flag one_off p = goes_on (for_server (with_test p (record (p.test) { one_off = pos 1 })))
  parse_flag verbose p = goes_on (with_test p (record (p.test) { verbose = pos 1 }))
  parse_flag json p = goes_on (with_test p (record (p.test) { json_output = pos 1 }))
  parse_flag print_version p = exits 0
  parse_flag server p = on_server p
  parse_flag (client host) p = on_client host p
  parse_flag udp p = on_udp p
  parse_flag sctp p = refuse ieunimp p
  parse_flag (bitrate arg) p = on_bitrate fp arg p
  parse_flag (time arg) p = on_time arg p
  parse_flag (bytes arg) p =
      known (unit_atoi fp arg)
        (λ n. goes_on (for_client (with_settings p (record (p.test.settings) { bytes = n }))))
  parse_flag (blockcount arg) p =
      known (unit_atoi fp arg)
        (λ n. goes_on (for_client (with_settings p (record (p.test.settings) { blocks = n }))))
  parse_flag (block_length arg) p =
      known (unit_atoi fp arg) (λ n. goes_on (for_client (record p { blksize = to_int n })))
  parse_flag (parallel arg) p = on_parallel arg p
  parse_flag reverse p = on_reverse p
  parse_flag bidir p = on_bidir p
  parse_flag (window arg) p = on_window fp arg p
  parse_flag (bind arg) p = goes_on (with_test p (record (p.test) { bind_address = some arg }))
  parse_flag (cport arg) p = on_cport arg p
  parse_flag (set_mss arg) p = on_mss arg p
  parse_flag no_delay p = goes_on (for_client (with_test p (record (p.test) { no_delay = pos 1 })))
  parse_flag version4 p = goes_on (with_settings p (record (p.test.settings) { domain = af_inet }))
  parse_flag version6 p = goes_on (with_settings p (record (p.test.settings) { domain = af_inet6 }))
  parse_flag (tos arg) p = on_tos arg p
  parse_flag (dscp arg) p = on_dscp arg p
  parse_flag (extra_data arg) p =
      goes_on (for_client (with_test p (record (p.test) { extra_data = some arg })))
  parse_flag (flowlabel arg) p = refuse ieunimp p
  parse_flag (xbind arg) p = goes_on (record p { xbind_addrs = p.xbind_addrs ++ (arg ∷ []) })
  parse_flag use_sendfile p = on_sendfile p
  parse_flag repeating_payload p =
      goes_on (for_client (with_test p (record (p.test) { repeating_payload = pos 1 })))
  parse_flag (omit arg) p = on_omit arg p
  parse_flag (file arg) p = goes_on (with_test p (record (p.test) { diskfile_name = some arg }))
  parse_flag (affinity arg) p = refuse ieunimp p
  parse_flag (title arg) p =
      goes_on (for_client (with_test p (record (p.test) { title = some arg })))
  parse_flag (congestion arg) p = refuse ieunimp p
  parse_flag debug p = goes_on (with_test p (record (p.test) { debug = pos 1 }))
  parse_flag (pidfile arg) p = goes_on (for_server (record p { pidfile = some arg }))
  parse_flag (logfile arg) p = goes_on (with_test p (record (p.test) { logfile = some arg }))
  parse_flag forceflush p = goes_on (with_test p (record (p.test) { forceflush = pos 1 }))
  parse_flag get_server_output p =
      goes_on (for_client (with_test p (record (p.test) { get_server_output = pos 1 })))
  parse_flag udp_counters_64bit p =
      goes_on (with_test p (record (p.test) { udp_counters_64bit = pos 1 }))
  parse_flag no_fq_socket_pacing p = refuse ieunimp p
  parse_flag (fq_rate arg) p = refuse ieunimp p
  parse_flag (pacing_timer arg) p = known (unit_atoi fp arg) (λ n.
      goes_on (for_client (with_settings p (record (p.test.settings) { pacing_timer = to_int n }))))
  parse_flag (connect_timeout arg) p = known (unit_atoi fp arg) (λ n.
      goes_on
        (for_client (with_settings p (record (p.test.settings) { connect_timeout = to_int n }))))
  parse_flag help p = exits 0
  parse_flag usage p = exits 1

  unfoldable pub parse_flags : List Flag → Parsing D → Outcome (Parsing D)
  parse_flags [] p = goes_on p
  parse_flags (f ∷ fs) p = and_then (parse_flag f p) (parse_flags fs)

-- The size of blocks: 0 for UDP leaves it to the MSS of the connection.
abbrev pub chosen_blksize : ℤ → ℤ → ℤ
chosen_blksize id n =
    if eqb_ℤ n (pos 0)
    then if eqb_ℤ id pudp
      then pos 0
      else if eqb_ℤ id psctp
      then default_sctp_blksize
      else default_tcp_blksize
    else n

abbrev pub is_bad_blksize : Bool → ℤ → Bool
is_bad_blksize is_udp n = (not is_udp && ltb_ℤ n (pos 1)) || ltb_ℤ max_blocksize n

abbrev pub is_bad_udp_blksize : Bool → ℤ → Bool
is_bad_udp_blksize is_udp n =
    is_udp && ltb_ℤ (pos 0) n && (ltb_ℤ n min_udp_blocksize || ltb_ℤ max_udp_blocksize n)

-- Whether only bytes `a` or blocks `b` limit the test, and whether there is more than one limit.
abbrev pub is_counted : Bool → ℕ → ℕ → Bool
is_counted has_duration a b = (not (a == 0) || not (b == 0)) && not has_duration

abbrev pub are_bad_limits : Bool → ℕ → ℕ → Bool
are_bad_limits has_duration a b =
    (has_duration && not (a == 0))
    || (has_duration && not (b == 0))
    || (not (a == 0) && not (b == 0))

module _ {D : Type 0} where
  -- A flag that is for the other role.
  unfoldable pub check_role : Parsing D → Outcome (Parsing D)
  check_role p =
      if p.test.role == b'c' && p.server_flag
      then refuse ieserveronly p
      else unless (p.test.role == b's' && p.client_flag) ieclientonly p

  abbrev pub with_blksize : Bool → ℤ → Parsing D → Parsing D
  with_blksize is_udp n p = with_settings p (record (p.test.settings) {
    blksize = n;
    rate = if p.rate_flag then p.test.settings.rate else if is_udp then udp_rate else 0;
  })

  -- The checks on the size of blocks, for UDP or another protocol, and the rate without `-b`.
  unfoldable pub keep_blksize : Bool → ℤ → Parsing D → Outcome (Parsing D)
  keep_blksize is_udp n p =
      if is_bad_blksize is_udp n
      then refuse ieblocksize p
      else if is_bad_udp_blksize is_udp n
      then refuse ieudpblocksize p
      else goes_on (with_blksize is_udp n p)

  unfoldable pub set_blksize : Parsing D → Outcome (Parsing D)
  set_blksize p =
      known p.test.protocol
        (λ pr. keep_blksize (eqb_ℤ pr.id pudp) (chosen_blksize pr.id p.blksize) p)

  -- A limit of bytes or blocks takes the place of the duration; more than one limit is an error.
  unfoldable pub check_limits : Parsing D → Outcome (Parsing D)
  check_limits p =
      unless (are_bad_limits p.duration_flag p.test.settings.bytes p.test.settings.blocks)
        ieendconditions
        (if is_counted p.duration_flag p.test.settings.bytes p.test.settings.blocks
          then with_test p (record (p.test) { duration = pos 0 })
          else p)

  unfoldable pub check_has_role : Parsing D → Outcome (Parsing D)
  check_has_role p = unless (not (p.test.role == b'c') && not (p.test.role == b's')) ienorole p

  unfoldable pub check_arguments : Parsing D → Outcome (Parsing D)
  check_arguments p =
      and_then (check_role p)
        (λ p1. and_then (set_blksize p1) (λ p2. and_then (check_limits p2) check_has_role))

  abbrev pub begin : IperfTest D → ℤ → Parsing D
  begin t e = record {
    test = t;
    i_errno = e;
    blksize = pos 0;
    server_flag = false;
    client_flag = false;
    rate_flag = false;
    duration_flag = false;
    pidfile = none;
    xbind_addrs = [];
  }

-- `iperf_parse_arguments`: `goes_on` for 0, `fails` for -1.
unfoldable pub iperf_parse_arguments :
    {D : Type 0} → Double D → List Flag → IperfTest D → ℤ → Outcome (Parsing D)
iperf_parse_arguments fp flags t i_errno =
    and_then (parse_flags fp flags (begin t i_errno)) check_arguments
