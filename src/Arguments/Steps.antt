-- ===== src/Arguments/Steps.antt =====
-- The loop of `iperf_parse_arguments` over the flags, and the checks behind it.
use mm_wave_tracker.Prelude.{
  ℕ, Bool, true, not, ◌&&◌, ◌||◌, List, [], ◌∷◌, Option, none, some, ◌==◌, if◌then◌else◌,
}
use mm_wave_tracker.Prelude.Int.{ℤ, pos, ltb_ℤ, truthy}
use mm_wave_tracker.Prelude.Word.{to_int, to_u64}
use mm_wave_tracker.Prelude.Double.{Double}
use mm_wave_tracker.Prelude.Strtol.{codes, strtol, atoi}
use mm_wave_tracker.Units.{unit_atof, unit_atof_rate}
use mm_wave_tracker.Dscp.{parse_qos}
use mm_wave_tracker.Config.{IperfSettings, IperfTest}
use mm_wave_tracker.Config.Codes.{pudp}
use mm_wave_tracker.Config.Errno.{
  ieservclient, ieduration, ienumstreams, iebufsize, ieinterval, iemss, ienosendfile, ieomit,
  ieburst, iebadtos, iebadformat, iebadport, iereversebidir,
}
use mm_wave_tracker.Config.Setters.{
  has_sendfile, set_protocol, iperf_set_test_role, iperf_set_test_reverse,
  iperf_set_test_bidirectional,
}
use mm_wave_tracker.Arguments.{Parsing, Outcome, goes_on, fails, and_then, known}
use Prim.Native.String.{String}
use Prim.Native.Char.{code}

-- The limits of iperf.h.
abbrev pub max_time : ℤ
max_time = pos 86400

abbrev pub max_burst : ℤ
max_burst = pos 1000

abbrev pub max_mss : ℤ
max_mss = pos 9216

abbrev pub max_streams : ℤ
max_streams = pos 128

abbrev pub max_blocksize : ℤ
max_blocksize = pos 1048576

abbrev pub max_tcp_buffer : ℤ
max_tcp_buffer = pos 536870912

abbrev pub min_udp_blocksize : ℤ
min_udp_blocksize = pos 16

abbrev pub udp_rate : ℕ
udp_rate = 1048576

abbrev pub default_sctp_blksize : ℤ
default_sctp_blksize = pos 65536

-- `-b`: the text before a slash, and what follows it.
abbrev pub before_slash : String → String
before_slash String.[] = String.[]
before_slash (String.◌∷◌ c s) = if code c == b'/' then String.[] else String.◌∷◌ c (before_slash s)

abbrev pub after_slash : String → Option String
after_slash String.[] = none
after_slash (String.◌∷◌ c s) = if code c == b'/' then some s else after_slash s

abbrev pub first : List ℕ → ℕ
first [] = 0
first (c ∷ s) = c

abbrev pub is_format : ℕ → Bool
is_format c =
    c == b'k'
    || c == b'K'
    || c == b'm'
    || c == b'M'
    || c == b'g'
    || c == b'G'
    || c == b't'
    || c == b'T'

abbrev pub is_port : ℤ → Bool
is_port n = not (ltb_ℤ n (pos 1)) && not (ltb_ℤ (pos 65535) n)

abbrev pub is_octet : ℤ → Bool
is_octet n = not (ltb_ℤ n (pos 0)) && not (ltb_ℤ (pos 255) n)

module _ {D : Type 0} where
  -- An error code and a return of -1.
  abbrev pub refuse : ℤ → Parsing D → Outcome (Parsing D)
  refuse e p = fails (record p { i_errno = e })

  abbrev pub unless : Bool → ℤ → Parsing D → Outcome (Parsing D)
  unless bad e p = if bad then refuse e p else goes_on p

  abbrev pub with_test : Parsing D → IperfTest D → Parsing D
  with_test p t = record p { test = t }

  abbrev pub with_settings : Parsing D → IperfSettings → Parsing D
  with_settings p s = record p { test = record (p.test) { settings = s } }

  abbrev pub for_client : Parsing D → Parsing D
  for_client p = record p { client_flag = true }

  abbrev pub for_server : Parsing D → Parsing D
  for_server p = record p { server_flag = true }

  unfoldable pub on_port : String → Parsing D → Outcome (Parsing D)
  on_port arg p =
      let n = atoi arg in
      if is_port n
      then goes_on (with_test p (record (p.test) { server_port = n }))
      else refuse iebadport p

  unfoldable pub on_format : String → Parsing D → Outcome (Parsing D)
  on_format arg p =
      let c = first (codes arg) in
      unless (not (is_format c)) iebadformat
        (with_settings p (record (p.test.settings) { unit_format = c }))

  -- `-s` after `-c`, or the other way, is an error.
  unfoldable pub on_server : Parsing D → Outcome (Parsing D)
  on_server p =
      if p.test.role == b'c'
      then refuse ieservclient p
      else known (iperf_set_test_role p.test b's') (λ t. goes_on (with_test p t))

  unfoldable pub on_client : String → Parsing D → Outcome (Parsing D)
  on_client host p =
      if p.test.role == b's'
      then refuse ieservclient p
      else known (iperf_set_test_role p.test b'c')
          (λ t. goes_on (with_test p (record t { server_hostname = some host })))

  -- `-u`: what `set_protocol` returns is dropped.
  unfoldable pub on_udp : Parsing D → Outcome (Parsing D)
  on_udp p =
      let (t, e, _) = set_protocol p.test pudp p.i_errno in
      goes_on (for_client (record p { test = t; i_errno = e }))

  unfoldable pub on_time : String → Parsing D → Outcome (Parsing D)
  on_time arg p =
      let n = atoi arg in
      let p1 = with_test p (record (p.test) { duration = n }) in
      if ltb_ℤ max_time n
      then refuse ieduration p1
      else goes_on (for_client (record p1 { duration_flag = true }))

  unfoldable pub on_parallel : String → Parsing D → Outcome (Parsing D)
  on_parallel arg p =
      let n = atoi arg in
      let p1 = with_test p (record (p.test) { num_streams = n }) in
      if ltb_ℤ max_streams n then refuse ienumstreams p1 else goes_on (for_client p1)

  unfoldable pub on_reverse : Parsing D → Outcome (Parsing D)
  on_reverse p =
      if truthy p.test.bidir
      then refuse iereversebidir p
      else known (iperf_set_test_reverse p.test (pos 1)) (λ t. goes_on (for_client (with_test p t)))

  unfoldable pub on_bidir : Parsing D → Outcome (Parsing D)
  on_bidir p =
      if truthy p.test.reverse
      then refuse iereversebidir p
      else known (iperf_set_test_bidirectional p.test (pos 1))
          (λ t. goes_on (for_client (with_test p t)))

  unfoldable pub on_cport : String → Parsing D → Outcome (Parsing D)
  on_cport arg p =
      let n = atoi arg in
      if is_port n
      then goes_on (with_test p (record (p.test) { bind_port = n }))
      else refuse iebadport p

  unfoldable pub on_mss : String → Parsing D → Outcome (Parsing D)
  on_mss arg p =
      let n = atoi arg in
      let p1 = with_settings p (record (p.test.settings) { mss = n }) in
      if ltb_ℤ max_mss n then refuse iemss p1 else goes_on (for_client p1)

  -- `-S`: a `long` that is kept in an `int`.
  unfoldable pub on_tos : String → Parsing D → Outcome (Parsing D)
  on_tos arg p =
      let n = strtol (codes arg) in
      let v = to_int (to_u64 n.value) in
      let p1 = with_settings p (record (p.test.settings) { tos = v }) in
      if n.found && is_octet v then goes_on (for_client p1) else refuse iebadtos p1

  unfoldable pub on_dscp : String → Parsing D → Outcome (Parsing D)
  on_dscp arg p =
      let v = parse_qos (some (codes arg)) in
      let p1 = with_settings p (record (p.test.settings) { tos = v }) in
      if ltb_ℤ v (pos 0) then refuse iebadtos p1 else goes_on (for_client p1)

  unfoldable pub on_omit : String → Parsing D → Outcome (Parsing D)
  on_omit arg p =
      let n = atoi arg in
      let p1 = with_test p (record (p.test) { omit = n }) in
      if ltb_ℤ n (pos 0) || ltb_ℤ (pos 60) n then refuse ieomit p1 else goes_on (for_client p1)

  unfoldable pub on_sendfile : Parsing D → Outcome (Parsing D)
  on_sendfile p =
      if has_sendfile
      then goes_on (for_client (with_test p (record (p.test) { zerocopy = pos 1 })))
      else refuse ienosendfile p

module _ {D : Type 0} (fp : Double D) where
  -- `atof`: 0 for a text with no number.
  abbrev pub atof : String → D
  atof s = elim (fp.scan s) [ none ↦ fp.of_int (pos 0) | some r ↦ r.0 ]

  abbrev pub min_interval : D
  min_interval = fp.div (fp.of_int (pos 1)) (fp.of_int (pos 10))

  abbrev pub is_zero : D → Bool
  is_zero x = not (fp.lt x (fp.of_int (pos 0))) && not (fp.lt (fp.of_int (pos 0)) x)

  unfoldable pub on_interval : String → Parsing D → Outcome (Parsing D)
  on_interval arg p =
      let x = atof arg in
      unless ((fp.lt x min_interval || fp.lt (fp.of_int (pos 60)) x) && not (is_zero x)) ieinterval
        (with_test p (record (p.test) { stats_interval = x; reporter_interval = x }))

  -- `-b`: a rate, and after a slash a burst.
  unfoldable pub on_burst : Option String → Parsing D → Outcome (Parsing D)
  on_burst none p = goes_on p
  on_burst (some arg) p =
      let n = atoi arg in
      let p1 = with_settings p (record (p.test.settings) { burst = n }) in
      unless (ltb_ℤ n (pos 1) || ltb_ℤ max_burst n) ieburst p1

  unfoldable pub on_rate : String → Parsing D → Outcome (Parsing D)
  on_rate arg p = known (unit_atof_rate ⦃fp = fp⦄ arg) (λ r. goes_on (
      for_client (record (with_settings p (record (p.test.settings) { rate = fp.to_uint64 r })) {
        rate_flag = true;
      })))

  unfoldable pub on_bitrate : String → Parsing D → Outcome (Parsing D)
  on_bitrate arg p = and_then (on_burst (after_slash arg) p) (on_rate (before_slash arg))

  unfoldable pub on_window : String → Parsing D → Outcome (Parsing D)
  on_window arg p = known (unit_atof ⦃fp = fp⦄ arg) (λ x.
      if fp.lt (fp.of_int max_tcp_buffer) x
      then refuse iebufsize p
      else goes_on (
          for_client (with_settings p (record (p.test.settings) { socket_bufsize = fp.to_int x }))))
