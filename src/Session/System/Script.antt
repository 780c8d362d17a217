-- ===== src/Session/System/Script.antt =====
-- A script says what one side sends and receives, in order. A program conforms to it if it does just
-- that whatever else happens to it, and ends its pass where `At` allows.
use mm_wave_tracker.Prelude.{true, false, List, [], ◌∷◌, ◌≡◌, map, refl, ap}
use mm_wave_tracker.Prelude.Int.{eqb_ℤ}
use mm_wave_tracker.Config.State.{iperf_done}
use mm_wave_tracker.Session.{
  Message, Kind, Ready, Progress, Party, Program, kind, got, success, returns, write, read, call,
  act, look, select, a_cookie, a_state, a_stream, ready, timed_out,
}
use mm_wave_tracker.Session.System.{IsPossible}

pub data Event : Type 0 where
  sends : Message → Event
  receives : Message → Event

-- The same event for the other side.
abbrev pub dual : Event → Event
dual (sends m) = receives m
dual (receives m) = sends m

pub dual-dual : (es : List Event) → map dual (map dual es) ≡ es
dual-dual [] = refl
dual-dual (sends m ∷ es) = ap (λ fs. sends m ∷ fs) (dual-dual es)
dual-dual (receives m ∷ es) = ap (λ fs. receives m ∷ fs) (dual-dual es)

-- What a script makes `select` say, and whether that is true of an inbox.
abbrev pub ready_for : Kind → Ready
ready_for a_cookie = ready true false false false
ready_for a_state = ready false true false false
ready_for a_stream = ready false false true false
ready_for _ = timed_out

abbrev pub wanted : List Event → Ready
wanted (receives m ∷ es) = ready_for (kind m)
wanted _ = timed_out

abbrev pub Has : List Event → List Message → Type 0
Has (receives m ∷ es) inbox = (ms : List Message) × (inbox ≡ m ∷ ms)
Has _ inbox = Unit

-- The messages that a script waits for next.
abbrev pub expected : List Event → List Message
expected (receives m ∷ es) = m ∷ []
expected _ = []

module _ (At : Party → List Event → Type 0) where
  abbrev pub Conforms : Program → List Event → Type 0
  Conforms (returns ok t) es = (ok ≡ true) × At t es
  Conforms (write m k) es = (fs : List Event) × (es ≡ sends m ∷ fs) × Conforms (k true) fs
  Conforms (read a k) es =
      (m : Message) × (fs : List Event) × (es ≡ receives m ∷ fs)
      × (kind m ≡ a)
      × Conforms (k (got m)) fs
  Conforms (call a k) es = Conforms (k success) es
  Conforms (act a p) es = Conforms p es
  Conforms (look k) es = (g : Progress) → Conforms (k g) es
  Conforms (select k) es = (r : Ready) → IsPossible r (expected es) → Conforms (k r) es

-- With this progress, and if `select` says what is wanted, a program comes to send or receive before
-- its pass ends.
abbrev pub Hits : Progress → Program → List Event → Type 0
Hits g (returns ok t) es = ⊥
Hits g (write m k) es = Unit
Hits g (read a k) es = Unit
Hits g (call a k) es = Hits g (k success) es
Hits g (act a p) es = Hits g p es
Hits g (look k) es = Hits g (k g) es
Hits g (select k) es = Hits g (k (wanted es)) es

-- One side: the passes of its loop, what it may have left to do between two of them, and a progress
-- that ends the test, if it is one that ends.
pub record Actor : Type 1 where
  pub pass : Party → Program
  pub At : Party → List Event → Type 0
  pub Ends : Type 0
  pub over : Progress
  pub pass-Conforms :
      (t : Party) (es : List Event)
      → eqb_ℤ t.state iperf_done ≡ false
      → At t es
      → Conforms At (pass t) es
  pub pass-Hits :
      Ends → (t : Party) (e : Event) (es : List Event) → At t (e ∷ es) → Hits over (pass t) (e ∷ es)
  pub goes_on :
      (t : Party) (e : Event) (es : List Event) → At t (e ∷ es) → eqb_ℤ t.state iperf_done ≡ false
  pub ended : (t : Party) → At t [] → t.state ≡ iperf_done
