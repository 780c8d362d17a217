-- ===== src/Session/System/Drive.antt =====
-- A side that has an event left, and for one to receive the message, comes to it by steps of its own.
use mm_wave_tracker.Prelude.{true, none, List, [], ◌∷◌, ◌≡◌, refl}
use mm_wave_tracker.Session.{
  Message, Kind, Party, Program, kind, success, returns, write, read, call, act, look, select,
  a_cookie, a_state, a_stream, the_parameters, the_results, a_word,
}
use mm_wave_tracker.Session.System.{IsPossible, Move, calls, acts, looks, selects, loops}
use mm_wave_tracker.Session.System.Script.{
  Event, sends, receives, ready_for, wanted, Has, expected, Conforms, Hits, Actor,
}

-- Moves of one side that neither read nor send.
pub data Walk (pass : Party → Program) (inbox : List Message) : Program → Program → Type 0 where
  stay : {p : Program} → Walk pass inbox p p
  go :
      {p q r : Program} → Move pass p inbox q inbox none → Walk pass inbox q r → Walk pass inbox p r

pub Walk-trans :
    {pass : Party → Program} {inbox : List Message} {p q r : Program}
    → Walk pass inbox p q
    → Walk pass inbox q r
    → Walk pass inbox p r
Walk-trans stay h = h
Walk-trans (go m r) h = go m (Walk-trans r h)

ready_for-IsPossible :
    (k : Kind) (m : Message) (ms : List Message) → kind m ≡ k → IsPossible (ready_for k) (m ∷ ms)
ready_for-IsPossible a_cookie m ms h = (rw h tt, tt, tt)
ready_for-IsPossible a_state m ms h = (tt, h, tt)
ready_for-IsPossible a_stream m ms h = (tt, tt, h)
ready_for-IsPossible the_parameters m ms h = tt
ready_for-IsPossible the_results m ms h = tt
ready_for-IsPossible a_word m ms h = tt

wanted-IsPossible :
    (es : List Event) (inbox : List Message) → Has es inbox → IsPossible (wanted es) inbox
wanted-IsPossible [] inbox h = tt
wanted-IsPossible (sends m ∷ es) inbox h = tt
wanted-IsPossible (receives m ∷ es) inbox (ms, h) = rw h (ready_for-IsPossible (kind m) m ms refl)

wanted-expected : (es : List Event) → IsPossible (wanted es) (expected es)
wanted-expected [] = tt
wanted-expected (sends m ∷ es) = tt
wanted-expected (receives m ∷ es) = ready_for-IsPossible (kind m) m [] refl

-- A program that sends or receives next, and one that is also allowed to end its pass.
abbrev pub AtIo : Program → Type 0
AtIo (write m k) = Unit
AtIo (read a k) = Unit
AtIo _ = ⊥

abbrev pub Rests : Program → Type 0
Rests (returns ok t) = Unit
Rests (write m k) = Unit
Rests (read a k) = Unit
Rests _ = ⊥

module _ (a : Actor) (limited : a.Ends) (inbox : List Message) where
  open a use {pass, At, over, pass-Conforms, pass-Hits, goes_on}

  -- The side comes to a program at which something holds.
  abbrev pub Comes : (Program → Type 0) → Program → List Event → Type 0
  Comes P p es = (q : Program) × Walk pass inbox p q × Conforms At q es × P q

  further :
      {P : Program → Type 0} {p q : Program} {es : List Event}
      → Move pass p inbox q inbox none
      → Comes P q es
      → Comes P p es
  further m (r, path, c, h) = (r, go m path, c, h)

  -- Without a limit on what else happens, it comes to the next event or the end of the pass.
  run_out : (p : Program) (es : List Event) → Conforms At p es → Has es inbox → Comes Rests p es
  run_out (returns ok t) es c h = (returns ok t, stay, c, tt)
  run_out (write m k) es c h = (write m k, stay, c, tt)
  run_out (read x k) es c h = (read x k, stay, c, tt)
  run_out (call x k) es c h = further calls (run_out (k success) es c h)
  run_out (act x p) es c h = further acts (run_out p es c h)
  run_out (look k) es c h = further (looks over) (run_out (k over) es (c over) h)
  run_out (select k) es c h =
      further (selects (wanted es) (wanted-IsPossible es inbox h))
        (run_out (k (wanted es)) es (c (wanted es) (wanted-expected es)) h)

  hit :
      (p : Program) (es : List Event)
      → Conforms At p es
      → Has es inbox
      → Hits over p es
      → Comes AtIo p es
  hit (returns ok t) es c h q = absurd q
  hit (write m k) es c h q = (write m k, stay, c, tt)
  hit (read x k) es c h q = (read x k, stay, c, tt)
  hit (call x k) es c h q = further calls (hit (k success) es c h q)
  hit (act x p) es c h q = further acts (hit p es c h q)
  hit (look k) es c h q = further (looks over) (hit (k over) es (c over) h q)
  hit (select k) es c h q =
      further (selects (wanted es) (wanted-IsPossible es inbox h))
        (hit (k (wanted es)) es (c (wanted es) (wanted-expected es)) h q)

  -- From the end of a pass another one is made.
  next_pass :
      (q : Program) (e : Event) (es : List Event)
      → Conforms At q (e ∷ es)
      → Has (e ∷ es) inbox
      → Rests q
      → Comes AtIo q (e ∷ es)
  next_pass (returns ok t) e es (good, c) h r =
      let on = goes_on t e es c in
      rw good (
        further (loops on)
          (hit (pass t) (e ∷ es) (pass-Conforms t (e ∷ es) on c) h (pass-Hits limited t e es c)))
  next_pass (write m k) e es c h r = (write m k, stay, c, tt)
  next_pass (read x k) e es c h r = (read x k, stay, c, tt)
  next_pass (call x k) e es c h r = absurd r
  next_pass (act x p) e es c h r = absurd r
  next_pass (look k) e es c h r = absurd r
  next_pass (select k) e es c h r = absurd r

  pub drive :
      (p : Program) (e : Event) (es : List Event)
      → Conforms At p (e ∷ es)
      → Has (e ∷ es) inbox
      → Comes AtIo p (e ∷ es)
  drive p e es c h =
      let (q, path, c', r) = run_out p (e ∷ es) c h in
      let (q', path', c'', io) = next_pass q e es c' h r in (q', Walk-trans path path', c'', io)

  -- With nothing left it comes to the end of its last pass.
  ends : (q : Program) → Conforms At q [] → Rests q → (t : Party) × (q ≡ returns true t) × At t []
  ends (returns ok t) (good, c) r = (t, rw good refl, c)
  ends (write m k) (fs, e, c) r = cc
  ends (read x k) (m, fs, e, s, c) r = cc
  ends (call x k) c r = absurd r
  ends (act x p) c r = absurd r
  ends (look k) c r = absurd r
  ends (select k) c r = absurd r

  pub finish :
      (p : Program) → Conforms At p [] → (t : Party) × Walk pass inbox p (returns true t) × At t []
  finish p c =
      let (q, path, c', r) = run_out p [] c tt in
      let (t, e, at) = ends q c' r in (t, rw (← e) path, at)
