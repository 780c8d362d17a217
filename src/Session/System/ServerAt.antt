-- ===== src/Session/System/ServerAt.antt =====
-- Where a server can be, and what is left of the script there.
use mm_wave_tracker.Prelude.{ℕ, ◌+◌, ◌<◌, false, List, [], ◌∷◌, ◌≡◌, map}
use mm_wave_tracker.Prelude.Int.{ℤ, pos}
use mm_wave_tracker.Config.State.{
  create_streams, test_running, display_results, iperf_done, iperf_start,
}
use mm_wave_tracker.Session.{Party, state, cookie}
use mm_wave_tracker.Session.System.Script.{Event, sends, receives, dual}
use mm_wave_tracker.Session.System.Scripts.{Plan, fresh, left, left_creating, left_running, opens}

-- A server in a state, and one that waits for streams, `r` of `R` and `s` of `S` being there.
abbrev pub at_state : ℤ → Party → Party
at_state st u = record u { is_client = false; state = st }

abbrev pub at_start : Party → Party
at_start u = record (at_state iperf_start u) {
  connected = false;
  rec_streams_accepted = pos 0;
  send_streams_accepted = pos 0;
}

abbrev pub at_streams : ℕ → ℕ → ℕ → ℕ → Party → Party
at_streams r R s S u = record (at_state create_streams u) {
  rec_streams_accepted = pos r;
  streams_to_rec = pos R;
  send_streams_accepted = pos s;
  streams_to_send = pos S;
}

abbrev pub answers : List Event → List Event
answers = map dual

abbrev pub left_streams : ℕ → ℕ → List Event
left_streams a b = answers (opens a (opens b left_creating))

pub data ServerAt (p : Plan) (t : Party) (es : List Event) : Type 0 where
  starting : t ≡ at_start t → es ≡ answers (sends cookie ∷ left p fresh) → ServerAt p t es
  waiting :
      (r a R s b S : ℕ)
      → R ≡ r + a
      → S ≡ s + b
      → 0 < a + b
      → t ≡ at_streams r R s S t
      → es ≡ left_streams a b
      → ServerAt p t es
  running : t ≡ at_state test_running t → es ≡ answers left_running → ServerAt p t es
  displayed :
      t ≡ at_state display_results t → es ≡ receives (state iperf_done) ∷ [] → ServerAt p t es
  over_and_out : t ≡ at_state iperf_done t → es ≡ [] → ServerAt p t es
