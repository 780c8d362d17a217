-- ===== src/Jni/Tests.antt =====
-- A test that is set up as the application does it.
use mm_wave_tracker.Prelude.{ℕ, ◌≡◌, refl, true, false, none, List, [], ◌∷◌, some, arith}
use mm_wave_tracker.Prelude.{Gives}
use mm_wave_tracker.Prelude.Int.{ℤ, pos}
use mm_wave_tracker.Prelude.Samples.{whole}
use mm_wave_tracker.Config.Life.{zero_test, iperf_new_test}
use mm_wave_tracker.Jni.{
  Session, Call, defaults, test_role, hostname, protocol, duration, interval, num_stream, reverse,
  output_json, bandwidth, new_test_impl, perform, configure,
}
use mm_wave_tracker.Jni.Ready.{IsReady, AllProper, new_test-IsReady}

abbrev new_session : Session ℤ
new_session = record { test = zero_test ⦃fp = whole⦄; i_errno = pos 0 }

abbrev calls : List Call
calls =
    test_role b'c'
    ∷ hostname "localhost"
    ∷ protocol b'u'
    ∷ bandwidth "5m"
    ∷ duration (pos 10)
    ∷ interval (pos 1000)
    ∷ num_stream (pos 1)
    ∷ reverse (pos 1)
    ∷ output_json true
    ∷ []

made : new_test_impl ⦃fp = whole⦄ true true (pos 0) ≡ some new_session
unfolding new_test_impl iperf_new_test
made = refl

scanned : (r : ℤ × ℕ) × (whole.scan "5m" ≡ some r)
scanned = ((pos 5, b'm'), refl)

calls-AllProper : AllProper whole calls
calls-AllProper = ground (arith, scanned)

-- `defaultsImpl` ignores a failure of `iperf_defaults`, and the role of a client is then a crash.
no_protocol : configure ⦃fp = whole⦄ (defaults false true ∷ test_role b'c' ∷ []) new_session ≡ none
unfolding configure perform
no_protocol = refl

new_test-IsReady_example :
    Gives IsReady (configure ⦃fp = whole⦄ (defaults true true ∷ calls) new_session)
new_test-IsReady_example =
    new_test-IsReady ⦃fp = whole⦄ true true (pos 0) calls made calls-AllProper
