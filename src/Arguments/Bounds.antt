-- ===== src/Arguments/Bounds.antt =====
-- Every flag keeps the limits on the settings.
use mathlib.Core.Path.{subst}
use Prim.Native.String.{String}
use mm_wave_tracker.Prelude.{
  ℕ, ◌≡◌, inl, inr, refl, Bool, true, false, not, ◌&&◌, ◌||◌, List, [], ◌∷◌, Option, none, some,
  arith, ◌==◌, if◌then◌else◌,
}
use mm_wave_tracker.Prelude.Int.{ℤ, pos, negsuc, ltb_ℤ, truthy}
use mm_wave_tracker.Prelude.Word.{to_int, to_u64}
use mm_wave_tracker.Prelude.Double.{Double}
use mm_wave_tracker.Prelude.Strtol.{atoi, codes, strtol}
use mm_wave_tracker.Config.{IperfTest}
use mm_wave_tracker.Config.Codes.{pudp}
use mm_wave_tracker.Config.Setters.{
  iperf_set_test_role, iperf_set_test_reverse, iperf_set_test_bidirectional,
}
use mm_wave_tracker.Units.{unit_atof, unit_atof_rate, unit_atoi}
use mm_wave_tracker.Dscp.{parse_qos}
use mm_wave_tracker.Dscp.Names.{IsOctet, parse_qos-IsOctet}
use mm_wave_tracker.Arguments.{Flag, Parsing, Outcome, goes_on, fails, known}
use mm_wave_tracker.Arguments.Steps.{
  is_port, is_octet, on_port, on_format, on_server, on_client, on_udp, on_time, on_parallel,
  on_reverse, on_bidir, on_cport, on_mss, on_tos, on_dscp, on_omit, on_sendfile, on_interval,
  on_burst, on_rate, on_bitrate, on_window, max_burst, before_slash, after_slash, max_tcp_buffer,
  is_format, first, atof, min_interval, is_zero,
}
use mm_wave_tracker.Arguments.Parse.{parse_flag, parse_flags}
use mm_wave_tracker.Arguments.Settled.{
  IsWithin, IsAtMost, OnSome, if-Ensures, known-Ensures, and_then-Ensures, IsBounded, Keeps,
  role-IsBounded, reverse-IsBounded, bidir-IsBounded, protocol-IsBounded,
}

is_port-IsWithin : (n : ℤ) → is_port n ≡ true → IsWithin 1 65535 n
is_port-IsWithin (pos n) h = ground arith
is_port-IsWithin (negsuc n) h = ground arith

IsWithin-lower : (n : ℤ) → IsWithin 1 65535 n → IsWithin 0 65535 n
IsWithin-lower (pos n) h = omega arith
IsWithin-lower (negsuc n) h = h

is_octet-IsWithin : (n : ℤ) → is_octet n ≡ true → IsWithin 0 255 n
is_octet-IsWithin (pos n) h = ground arith
is_octet-IsWithin (negsuc n) h = ground arith

not_above : (hi : ℕ) (n : ℤ) → ltb_ℤ (pos hi) n ≡ false → IsAtMost hi n
not_above hi (pos n) h = ground arith
not_above hi (negsuc n) h = tt

not_outside :
    (lo hi : ℕ) (n : ℤ) → (ltb_ℤ n (pos lo) || ltb_ℤ (pos hi) n) ≡ false → IsWithin lo hi n
not_outside lo hi (pos n) h = ground arith
not_outside lo hi (negsuc n) h = ground arith

burst_low : (n : ℤ) → (ltb_ℤ n (pos 1) || ltb_ℤ (pos 1000) n) ≡ false → IsWithin 0 1000 n
burst_low (pos n) h = ground arith
burst_low (negsuc n) h = ground arith

right : (a b : Bool) → (a && b) ≡ true → b ≡ true
right true b h = h
right false b h = cc

octet-IsWithin : (n : ℤ) → IsOctet n → ltb_ℤ n (pos 0) ≡ false → IsWithin 0 255 n
octet-IsWithin n (inl e) h = cc (subst (λ x. ltb_ℤ x (pos 0) ≡ false) e h)
octet-IsWithin n (inr (m, e, l)) h = rw e (omega arith, l)

module _ {D : Type 0} (fp : Double D) where
  -- A branch of a flag that is refused needs no proof.
  guarded :
      (b : Bool) (p q : Parsing D)
      → (b ≡ false → IsBounded q.test)
      → Keeps (if b then fails p else goes_on q)
  guarded true p q h = tt
  guarded false p q h = h refl

  allowed :
      (b : Bool) (p q : Parsing D)
      → (b ≡ true → IsBounded q.test)
      → Keeps (if b then goes_on q else fails p)
  allowed true p q h = h refl
  allowed false p q h = tt

  any :
      {B : Type 0} (o : Option B) (f : B → Outcome (Parsing D))
      → ((b : B) → Keeps (f b))
      → Keeps (known o f)
  any none f h = tt
  any (some b) f h = h b

  bounded :
      (o : Option (IperfTest D)) (f : IperfTest D → Outcome (Parsing D))
      → OnSome IsBounded o
      → ((t : IperfTest D) → IsBounded t → Keeps (f t))
      → Keeps (known o f)
  bounded o f h k = known-Ensures (λ q. IsBounded q.test) IsBounded o f h k

  burst-Keeps : (o : Option String) (p : Parsing D) → IsBounded p.test → Keeps (on_burst fp o p)
  unfolding on_burst
  burst-Keeps none p h = h
  burst-Keeps (some arg) p (h0, h1, h2, h3, h4, h5, h6, h7) =
      guarded (ltb_ℤ (atoi arg) (pos 1) || ltb_ℤ max_burst (atoi arg)) _ _
        (λ e. (h0, h1, h2, h3, h4, h5, h6, burst_low (atoi arg) e))

  rate-Keeps : (arg : String) (p : Parsing D) → IsBounded p.test → Keeps (on_rate fp arg p)
  unfolding on_rate
  rate-Keeps arg p h = any (unit_atof_rate ⦃fp = fp⦄ arg) _ (λ r. h)

  bitrate-Keeps : (arg : String) (p : Parsing D) → IsBounded p.test → Keeps (on_bitrate fp arg p)
  unfolding on_bitrate
  bitrate-Keeps arg p h =
      and_then-Ensures (λ q. IsBounded q.test) (λ q. IsBounded q.test)
        (on_burst fp (after_slash arg) p) (on_rate fp (before_slash arg))
        (burst-Keeps (after_slash arg) p h) (λ q k. rate-Keeps (before_slash arg) q k)

  window-Keeps : (arg : String) (p : Parsing D) → IsBounded p.test → Keeps (on_window fp arg p)
  unfolding on_window
  window-Keeps arg p h =
      any (unit_atof ⦃fp = fp⦄ arg) _
        (λ x. guarded (fp.lt (fp.of_int max_tcp_buffer) x) _ _ (λ e. h))

  server-Keeps : (p : Parsing D) → IsBounded p.test → Keeps (on_server p)
  unfolding on_server
  server-Keeps p h =
      if-Ensures (λ q. IsBounded q.test) (p.test.role == b'c') _ _ (λ e. tt)
        (λ e. bounded (iperf_set_test_role p.test b's') _ (role-IsBounded p.test b's' h) (λ t k. k))

  client-Keeps : (arg : String) (p : Parsing D) → IsBounded p.test → Keeps (on_client arg p)
  unfolding on_client
  client-Keeps arg p h =
      if-Ensures (λ q. IsBounded q.test) (p.test.role == b's') _ _ (λ e. tt)
        (λ e. bounded (iperf_set_test_role p.test b'c') _ (role-IsBounded p.test b'c' h) (λ t k. k))

  reverse-Keeps : (p : Parsing D) → IsBounded p.test → Keeps (on_reverse p)
  unfolding on_reverse
  reverse-Keeps p h =
      if-Ensures (λ q. IsBounded q.test) (truthy p.test.bidir) _ _ (λ e. tt)
        (λ e.
          bounded (iperf_set_test_reverse p.test (pos 1)) _ (reverse-IsBounded p.test (pos 1) h)
            (λ t k. k))

  bidir-Keeps : (p : Parsing D) → IsBounded p.test → Keeps (on_bidir p)
  unfolding on_bidir
  bidir-Keeps p h =
      if-Ensures (λ q. IsBounded q.test) (truthy p.test.reverse) _ _ (λ e. tt)
        (λ e.
          bounded (iperf_set_test_bidirectional p.test (pos 1)) _ (bidir-IsBounded p.test h)
            (λ t k. k))

  parse_flag-Keeps : (f : Flag) (p : Parsing D) → IsBounded p.test → Keeps (parse_flag fp f p)
  unfolding parse_flag on_port on_format on_udp on_time on_parallel on_cport on_mss on_tos on_dscp
      on_omit on_sendfile on_interval
  parse_flag-Keeps (Flag.port arg) p (h0, h1, h2, h3, h4, h5, h6, h7) =
      allowed (is_port (atoi arg)) _ _ (λ e. (is_port-IsWithin _ e, h1, h2, h3, h4, h5, h6, h7))
  parse_flag-Keeps (Flag.cport arg) p (h0, h1, h2, h3, h4, h5, h6, h7) =
      allowed (is_port (atoi arg)) _ _
        (λ e. (h0, IsWithin-lower _ (is_port-IsWithin _ e), h2, h3, h4, h5, h6, h7))
  parse_flag-Keeps (Flag.omit arg) p (h0, h1, h2, h3, h4, h5, h6, h7) =
      guarded (ltb_ℤ (atoi arg) (pos 0) || ltb_ℤ (pos 60) (atoi arg)) _ _
        (λ e. (h0, h1, not_outside 0 60 _ e, h3, h4, h5, h6, h7))
  parse_flag-Keeps (Flag.time arg) p (h0, h1, h2, h3, h4, h5, h6, h7) =
      guarded (ltb_ℤ (pos 86400) (atoi arg)) _ _
        (λ e. (h0, h1, h2, not_above 86400 _ e, h4, h5, h6, h7))
  parse_flag-Keeps (Flag.parallel arg) p (h0, h1, h2, h3, h4, h5, h6, h7) =
      guarded (ltb_ℤ (pos 128) (atoi arg)) _ _
        (λ e. (h0, h1, h2, h3, not_above 128 _ e, h5, h6, h7))
  parse_flag-Keeps (Flag.set_mss arg) p (h0, h1, h2, h3, h4, h5, h6, h7) =
      guarded (ltb_ℤ (pos 9216) (atoi arg)) _ _
        (λ e. (h0, h1, h2, h3, h4, not_above 9216 _ e, h6, h7))
  parse_flag-Keeps (Flag.tos arg) p (h0, h1, h2, h3, h4, h5, h6, h7) =
      let n = strtol (codes arg) in
      let v : ℤ = to_int (to_u64 n.value) in
      allowed (n.found && is_octet v) _ _
        (λ e. (h0, h1, h2, h3, h4, h5, is_octet-IsWithin v (right n.found _ e), h7))
  parse_flag-Keeps (Flag.dscp arg) p (h0, h1, h2, h3, h4, h5, h6, h7) =
      let v = parse_qos (some (codes arg)) in
      guarded (ltb_ℤ v (pos 0)) _ _ (λ e.
        (h0, h1, h2, h3, h4, h5, octet-IsWithin v (parse_qos-IsOctet (some (codes arg))).1 e, h7))
  parse_flag-Keeps (Flag.format arg) p h =
      guarded (not (is_format (first (codes arg)))) _ _ (λ e. h)
  parse_flag-Keeps (Flag.interval arg) p h =
      guarded
        ((fp.lt (atof fp arg) (min_interval fp) || fp.lt (fp.of_int (pos 60)) (atof fp arg))
          && not (is_zero fp (atof fp arg)))
        _ _ (λ e. h)
  parse_flag-Keeps Flag.server p h = server-Keeps p h
  parse_flag-Keeps (Flag.client arg) p h = client-Keeps arg p h
  parse_flag-Keeps Flag.udp p h = protocol-IsBounded p.test pudp p.i_errno h
  parse_flag-Keeps (Flag.bitrate arg) p h = bitrate-Keeps arg p h
  parse_flag-Keeps (Flag.window arg) p h = window-Keeps arg p h
  parse_flag-Keeps Flag.reverse p h = reverse-Keeps p h
  parse_flag-Keeps Flag.bidir p h = bidir-Keeps p h
  parse_flag-Keeps (Flag.bytes arg) p h = any (unit_atoi fp arg) _ (λ n. h)
  parse_flag-Keeps (Flag.blockcount arg) p h = any (unit_atoi fp arg) _ (λ n. h)
  parse_flag-Keeps (Flag.block_length arg) p h = any (unit_atoi fp arg) _ (λ n. h)
  parse_flag-Keeps (Flag.pacing_timer arg) p h = any (unit_atoi fp arg) _ (λ n. h)
  parse_flag-Keeps (Flag.connect_timeout arg) p h = any (unit_atoi fp arg) _ (λ n. h)
  parse_flag-Keeps Flag.daemon p h = h
  parse_flag-Keeps Flag.one_off p h = h
  parse_flag-Keeps Flag.verbose p h = h
  parse_flag-Keeps Flag.json p h = h
  parse_flag-Keeps Flag.no_delay p h = h
  parse_flag-Keeps Flag.version4 p h = h
  parse_flag-Keeps Flag.version6 p h = h
  parse_flag-Keeps Flag.use_sendfile p h = h
  parse_flag-Keeps Flag.repeating_payload p h = h
  parse_flag-Keeps Flag.debug p h = h
  parse_flag-Keeps Flag.forceflush p h = h
  parse_flag-Keeps Flag.get_server_output p h = h
  parse_flag-Keeps Flag.udp_counters_64bit p h = h
  parse_flag-Keeps (Flag.bind arg) p h = h
  parse_flag-Keeps (Flag.extra_data arg) p h = h
  parse_flag-Keeps (Flag.xbind arg) p h = h
  parse_flag-Keeps (Flag.file arg) p h = h
  parse_flag-Keeps (Flag.title arg) p h = h
  parse_flag-Keeps (Flag.pidfile arg) p h = h
  parse_flag-Keeps (Flag.logfile arg) p h = h
  parse_flag-Keeps Flag.print_version p h = tt
  parse_flag-Keeps Flag.sctp p h = tt
  parse_flag-Keeps Flag.no_fq_socket_pacing p h = tt
  parse_flag-Keeps Flag.help p h = tt
  parse_flag-Keeps Flag.usage p h = tt
  parse_flag-Keeps (Flag.flowlabel arg) p h = tt
  parse_flag-Keeps (Flag.affinity arg) p h = tt
  parse_flag-Keeps (Flag.congestion arg) p h = tt
  parse_flag-Keeps (Flag.fq_rate arg) p h = tt

  pub parse_flags-Keeps :
      (fs : List Flag) (p : Parsing D) → IsBounded p.test → Keeps (parse_flags fp fs p)
  unfolding parse_flags
  parse_flags-Keeps [] p h = h
  parse_flags-Keeps (f ∷ fs) p h =
      and_then-Ensures (λ q. IsBounded q.test) (λ q. IsBounded q.test) (parse_flag fp f p)
        (parse_flags fp fs) (parse_flag-Keeps f p h) (λ q k. parse_flags-Keeps fs q k)
