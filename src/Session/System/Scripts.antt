-- ===== src/Session/System/Scripts.antt =====
-- The script of a whole session, and how much of it is left to the client between two passes.
use mm_wave_tracker.Prelude.{
  ℕ, zero, suc, Bool, true, false, List, [], ◌∷◌, ◌≡◌, ◌<◌, ◌⊎◌, if◌then◌else◌,
}
use mm_wave_tracker.Prelude.Int.{ℤ, pos, eqb_ℤ}
use mm_wave_tracker.Config.{Mode, sender, receiver, bidirectional}
use mm_wave_tracker.Config.State.{
  param_exchange, create_streams, test_start, test_running, test_end, exchange_results,
  display_results, iperf_done,
}
use mm_wave_tracker.Session.Client.{is_receiver}
use mm_wave_tracker.Session.{Progress, Party, Program, state, parameters, results, stream}
use mm_wave_tracker.Session.System.Script.{Event, sends, receives, Conforms, Hits}

-- What a client asks for.
pub record Plan : Type 0 where
  pub mode : Mode
  pub num_streams : ℕ
  pub duration : ℤ
  pub bytes : ℕ
  pub blocks : ℕ

-- The state that the client is in between two passes.
pub data Stage : Type 0 where
  fresh told creating started running ended exchanged finished : Stage

abbrev pub stage_state : Stage → ℤ
stage_state fresh = pos 0
stage_state told = param_exchange
stage_state creating = create_streams
stage_state started = test_start
stage_state running = test_running
stage_state ended = test_end
stage_state exchanged = exchange_results
stage_state finished = iperf_done

abbrev pub opens : ℕ → List Event → List Event
opens zero es = es
opens (suc n) es = sends stream ∷ opens n es

abbrev pub opening : Mode → ℕ → List Event → List Event
opening bidirectional n es = opens n (opens n es)
opening sender n es = opens n es
opening receiver n es = opens n es

-- What is left to do in a stage.
abbrev pub left_exchanged : List Event
left_exchanged = receives (state display_results) ∷ sends (state iperf_done) ∷ []

abbrev pub left_running : List Event
left_running =
    sends (state test_end)
    ∷ receives (state exchange_results)
    ∷ sends results
    ∷ receives results
    ∷ left_exchanged

abbrev pub left_creating : List Event
left_creating = receives (state test_start) ∷ receives (state test_running) ∷ left_running

abbrev pub left_told : Plan → List Event
left_told p = receives (state create_streams) ∷ opening p.mode p.num_streams left_creating

abbrev pub left : Plan → Stage → List Event
left p finished = []
left p exchanged = left_exchanged
left p ended = receives (state exchange_results) ∷ sends results ∷ receives results ∷ left_exchanged
left p running = left_running
left p started = receives (state test_running) ∷ left_running
left p creating = left_creating
left p told = left_told p
left p fresh =
    receives (state param_exchange) ∷ sends (parameters p.mode (pos p.num_streams)) ∷ left_told p

-- A client at a stage, for any values of the other fields.
abbrev pub client_at : Plan → Stage → Party → Party
client_at p st u = record u {
  is_client = true;
  state = stage_state st;
  mode = p.mode;
  num_streams = pos p.num_streams;
  duration = p.duration;
  bytes = p.bytes;
  blocks = p.blocks;
}

pub data ClientAt (p : Plan) (t : Party) (es : List Event) : Type 0 where
  client_left : (st : Stage) → t ≡ client_at p st t → es ≡ left p st → ClientAt p t es

-- A progress that ends the test.
abbrev pub over : Plan → Progress
over p = record { done = pos 1; omitting = pos 0; bytes_sent = p.bytes; blocks_sent = p.blocks }

-- A test that has an end: a duration or, for a client that sends, a number of bytes or blocks.
abbrev pub IsLimited : Plan → Type 0
IsLimited p =
    (eqb_ℤ p.duration (pos 0) ≡ false)
    ⊎ ((is_receiver p.mode ≡ false) × ((0 < p.bytes) ⊎ (0 < p.blocks)))

-- A branch whose test does not matter.
module _ (At : Party → List Event → Type 0) where
  pub if-Conforms :
      (b : Bool) (p q : Program) (es : List Event)
      → Conforms At p es
      → Conforms At q es
      → Conforms At (if b then p else q) es
  if-Conforms true p q es c d = c
  if-Conforms false p q es c d = d

pub if-Hits :
    (b : Bool) (g : Progress) (p q : Program) (es : List Event)
    → Hits g p es
    → Hits g q es
    → Hits g (if b then p else q) es
if-Hits true g p q es c d = c
if-Hits false g p q es c d = d
