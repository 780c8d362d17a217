-- ===== src/Jni.antt =====
-- iperfwrapperlib/src/main/cpp/test_run.c: the native methods of the class `Iperf3`, which set up a
-- test. The reference that Java holds is the test itself.
pub mod Ready
pub mod Tests
use mm_wave_tracker.Prelude.{ℕ, ◌%◌, Bool, List, [], ◌∷◌, Option, none, some, if◌then◌else◌}
use mm_wave_tracker.Prelude.Int.{ℤ, pos}
use mm_wave_tracker.Prelude.Double.{Double}
use mm_wave_tracker.Config.{IperfTest}
use mm_wave_tracker.Config.Setters.{
  iperf_set_test_role, iperf_set_test_server_hostname, iperf_set_test_protocol,
  iperf_set_test_template, iperf_set_test_duration, iperf_set_test_interval,
  iperf_set_test_num_streams, iperf_set_test_server_port, iperf_set_test_reverse, iperf_set_verbose,
  iperf_set_test_json_output, iperf_set_test_udp_bandwidth,
}
use mm_wave_tracker.Config.Life.{iperf_new_test, iperf_defaults}
use Prim.Native.String.{String}

-- A test and the global `i_errno`.
pub record Session (D : Type 0) : Type 0 where
  pub test : IperfTest D
  pub i_errno : ℤ

-- A `jchar` of 16 bits as a `char` of 8.
abbrev to_char : ℕ → ℕ
to_char c = c % 256

abbrev changed : {D : Type 0} → Session D → Option (IperfTest D) → Option (Session D)
changed s none = none
changed s (some t) = some (record s { test = t })

module _ {D : Type 0} ⦃fp : Double D⦄ where
  -- `none` is the null reference. What is allocated is for the environment to say.
  unfoldable pub new_test_impl : Bool → Bool → ℤ → Option (Session D)
  unfolding iperf_new_test
  new_test_impl a b i_errno =
      let (made, e) = iperf_new_test a b i_errno in
      elim made [ none ↦ none | some t ↦ some (record { test = t; i_errno = e }) ]

  unfoldable pub defaults_impl : Bool → Bool → Session D → Session D
  unfolding iperf_defaults
  defaults_impl a b s =
      let (t, e, _) = iperf_defaults a b s.test s.i_errno in record { test = t; i_errno = e }

  unfoldable pub interval_impl : ℤ → Session D → Session D
  unfolding iperf_set_test_interval
  interval_impl ms s = record s { test = iperf_set_test_interval s.test ms }

  unfoldable pub bandwidth_impl : String → Session D → Option (Session D)
  unfolding iperf_set_test_udp_bandwidth
  bandwidth_impl text s = changed s (iperf_set_test_udp_bandwidth s.test text)

module _ {D : Type 0} where
  -- `none` is a crash: a NULL pointer that is followed.
  unfoldable pub test_role_impl : ℕ → Session D → Option (Session D)
  unfolding iperf_set_test_role
  test_role_impl role s = changed s (iperf_set_test_role s.test (to_char role))

  unfoldable pub hostname_impl : String → Session D → Session D
  hostname_impl host s = record s { test = iperf_set_test_server_hostname s.test host }

  unfoldable pub protocol_impl : ℕ → Session D → Session D
  unfolding iperf_set_test_protocol
  protocol_impl protocol s =
      let (t, e) = iperf_set_test_protocol s.test (to_char protocol) s.i_errno in
      record { test = t; i_errno = e }

  unfoldable pub temp_file_template_impl : String → Session D → Session D
  temp_file_template_impl text s = record s { test = iperf_set_test_template s.test text }

  unfoldable pub duration_impl : ℤ → Session D → Session D
  duration_impl n s = record s { test = iperf_set_test_duration s.test n }

  unfoldable pub num_stream_impl : ℤ → Session D → Session D
  num_stream_impl n s = record s { test = iperf_set_test_num_streams s.test n }

  unfoldable pub server_port_impl : ℤ → Session D → Session D
  server_port_impl n s = record s { test = iperf_set_test_server_port s.test n }

  unfoldable pub reverse_impl : ℤ → Session D → Option (Session D)
  unfolding iperf_set_test_reverse
  reverse_impl n s = changed s (iperf_set_test_reverse s.test n)

  unfoldable pub verbose_impl : ℤ → Session D → Session D
  verbose_impl n s = record s { test = iperf_set_verbose s.test n }

  unfoldable pub output_json_impl : Bool → Session D → Session D
  output_json_impl use_json s = record s {
    test = iperf_set_test_json_output s.test (if use_json then pos 1 else pos 0);
  }

  unfoldable pub log_file_impl : String → Session D → Session D
  log_file_impl file s = record s { test = record (s.test) { logfile = some file } }

  unfoldable pub title_impl : String → Session D → Session D
  title_impl title s = record s { test = record (s.test) { title = some title } }

  -- `getTestResultImpl`: the message that the last run left, if any.
  unfoldable pub get_test_result_impl : Session D → Option String
  get_test_result_impl s = s.test.iperf_error_message

-- The calls by which Java configures a test; for `defaults`, whether the two allocations succeed.
pub data Call : Type 0 where
  defaults : Bool → Bool → Call
  test_role : ℕ → Call
  hostname : String → Call
  protocol : ℕ → Call
  temp_file_template : String → Call
  duration : ℤ → Call
  interval : ℤ → Call
  num_stream : ℤ → Call
  server_port : ℤ → Call
  reverse : ℤ → Call
  verbose : ℤ → Call
  output_json : Bool → Call
  bandwidth : String → Call
  log_file : String → Call
  title : String → Call

module _ {D : Type 0} ⦃fp : Double D⦄ where
  unfoldable pub perform : Call → Session D → Option (Session D)
  unfolding defaults_impl test_role_impl hostname_impl protocol_impl temp_file_template_impl
      duration_impl interval_impl num_stream_impl server_port_impl reverse_impl verbose_impl
      output_json_impl bandwidth_impl log_file_impl title_impl
  perform (defaults a b) s = some (defaults_impl a b s)
  perform (test_role c) s = test_role_impl c s
  perform (hostname x) s = some (hostname_impl x s)
  perform (protocol c) s = some (protocol_impl c s)
  perform (temp_file_template x) s = some (temp_file_template_impl x s)
  perform (duration n) s = some (duration_impl n s)
  perform (interval n) s = some (interval_impl n s)
  perform (num_stream n) s = some (num_stream_impl n s)
  perform (server_port n) s = some (server_port_impl n s)
  perform (reverse n) s = reverse_impl n s
  perform (verbose n) s = some (verbose_impl n s)
  perform (output_json b) s = some (output_json_impl b s)
  perform (bandwidth x) s = bandwidth_impl x s
  perform (log_file x) s = some (log_file_impl x s)
  perform (title x) s = some (title_impl x s)

  unfoldable pub configure : List Call → Session D → Option (Session D)
  configure [] s = some s
  configure (c ∷ cs) s = elim (perform c s) [ none ↦ none | some s' ↦ configure cs s' ]
