-- ===== src/Jni/Ready.antt =====
-- What the native methods of test_run.c make of a test, in whatever order Java calls them.
use mm_wave_tracker.Prelude.{
  ℕ, ◌≡◌, ◌⊎◌, Bool, true, false, List, [], ◌∷◌, some, arith, if◌then◌else◌, Gives, Gives-bind,
}
use mm_wave_tracker.Prelude.Int.{ℤ, pos, truthy}
use mm_wave_tracker.Prelude.Double.{Double}
use mm_wave_tracker.Config.{IperfTest}
use mm_wave_tracker.Config.Codes.{default_tcp_blksize}
use mm_wave_tracker.Config.Setters.{is_sender_side}
use mm_wave_tracker.Config.Life.{tcp, udp}
use mm_wave_tracker.Config.Roles.{wanted_mode}
use mm_wave_tracker.Jni.{
  Session, Call, defaults, test_role, hostname, protocol, temp_file_template, duration, interval,
  num_stream, server_port, reverse, verbose, output_json, bandwidth, log_file, title, new_test_impl,
  perform, configure,
}

module _ {D : Type 0} where
  -- The mode is what role and direction ask for, and the test is not bidirectional.
  pub record IsModed (t : IperfTest D) : Type 0 where
    pub mode : t.mode ≡ wanted_mode t.role (truthy t.reverse) false
    pub not_bidir : t.bidir ≡ pos 0

  -- A protocol is chosen, with the block size that goes with it, and retransmits are counted by a
  -- sender over TCP alone.
  pub record IsChosen (t : IperfTest D) : Type 0 where
    pub listed : t.protocols ≡ tcp ∷ udp ∷ []
    pub chosen :
        ((t.protocol ≡ some tcp)
          × (t.settings.blksize ≡ default_tcp_blksize)
          × (t.sender_has_retransmits ≡ (if is_sender_side t.mode then pos 1 else pos 0)))
        ⊎ ((t.protocol ≡ some udp)
            × (t.settings.blksize ≡ pos 0)
            × (t.sender_has_retransmits ≡ pos 0))

  pub record IsReady (s : Session D) : Type 0 where
    pub moded : IsModed s.test
    pub chosen : IsChosen s.test

-- The calls that Java may make: a role is 'c' or 's', and a bandwidth is a number. Memory for the
-- defaults is there: `defaultsImpl` does not tell Java that it was not.
abbrev pub IsProper : {D : Type 0} → Double D → Call → Type 0
IsProper fp (test_role c) = (c ≡ b'c') ⊎ (c ≡ b's')
IsProper {D} fp (bandwidth x) = (r : D × ℕ) × (fp.scan x ≡ some r)
IsProper fp (defaults a b) = (a ≡ true) × (b ≡ true)
IsProper fp _ = Unit

abbrev pub AllProper : {D : Type 0} → Double D → List Call → Type 0
AllProper fp [] = Unit
AllProper fp (c ∷ cs) = IsProper fp c × AllProper fp cs

module _ {D : Type 0} ⦃fp : Double D⦄ where
  pub defaults-IsReady :
      (s : Session D) → IsModed s.test → Gives IsReady (perform (defaults true true) s)
  unfolding perform
  defaults-IsReady s m = ground arith

  perform-IsReady :
      (c : Call) (s : Session D) → IsProper fp c → IsReady s → Gives IsReady (perform c s)
  unfolding perform
  perform-IsReady (defaults a b) s p r = ground arith
  perform-IsReady (test_role c) s p r = ground arith
  perform-IsReady (hostname x) s p r = ground arith
  perform-IsReady (protocol c) s p r = ground arith
  perform-IsReady (temp_file_template x) s p r = ground arith
  perform-IsReady (duration n) s p r = ground arith
  perform-IsReady (interval n) s p r = ground arith
  perform-IsReady (num_stream n) s p r = ground arith
  perform-IsReady (server_port n) s p r = ground arith
  perform-IsReady (reverse n) s p r = ground arith
  perform-IsReady (verbose n) s p r = ground arith
  perform-IsReady (output_json b) s p r = ground arith
  perform-IsReady (bandwidth x) s p r = ground arith
  perform-IsReady (log_file x) s p r = ground arith
  perform-IsReady (title x) s p r = ground arith

  configure-IsReady :
      (cs : List Call) (s : Session D)
      → AllProper fp cs
      → IsReady s
      → Gives IsReady (configure cs s)
  unfolding configure
  configure-IsReady [] s p r = r
  configure-IsReady (c ∷ cs) s (p, ps) r =
      Gives-bind IsReady IsReady (perform c s) (configure cs) (perform-IsReady c s p r)
        (λ s' r'. configure-IsReady cs s' ps r')

  -- A new test on which the defaults are set first, and whose allocations succeed then and whenever
  -- the defaults are set again, can be configured by any calls in any order with the role 'c' or 's'
  -- and bandwidths that are numbers: none of them crashes. Afterwards the mode is what the role and the direction ask for, the
  -- protocol is TCP or UDP with its own block size, and a TCP sender alone counts retransmits.
  pub new_test-IsReady :
      (a b : Bool) (i_errno : ℤ) (cs : List Call) {s : Session D}
      → new_test_impl a b i_errno ≡ some s
      → AllProper fp cs
      → Gives IsReady (configure (defaults true true ∷ cs) s)
  unfolding configure new_test_impl
  new_test-IsReady a b i_errno cs {s} made ps =
      Gives-bind IsReady IsReady (perform (defaults true true) s) (configure cs)
        (defaults-IsReady s (ground arith)) (λ s' r'. configure-IsReady cs s' ps r')
