-- ===== src/Session/System.antt =====
-- A client and a server over two connections that lose and reorder nothing, in every interleaving.
-- Neither the kernel nor a routine that is called fails here.
mod Script
mod Sync
mod Drive
mod Meet
mod Scripts
mod ClientActs
mod ServerAt
mod ServerStreams
mod ServerPasses
mod ServerActs
pub mod Complete
pub mod Tests
use mm_wave_tracker.Prelude.{Bool, true, false, List, [], ◌∷◌, ◌++◌, ◌≡◌, Option, none, some}
use mm_wave_tracker.Prelude.Int.{eqb_ℤ}
use mm_wave_tracker.Config.State.{iperf_done}
use mm_wave_tracker.Session.{
  Message, Kind, Act, Outcome, Reply, Ready, Progress, Party, Program, a_cookie, a_state, a_stream,
  kind, got, success, select_failed, timed_out, ready, returns, write, read, call, act, look,
  select,
}

-- The next message is of a kind.
abbrev pub Waits : Kind → List Message → Type 0
Waits k [] = ⊥
Waits k (m ∷ ms) = kind m ≡ k

abbrev pub Unless : Bool → Type 0 → Type 0
Unless true P = P
Unless false P = Unit

-- A connection to the listener is that of a client or, over TCP, that of a stream.
abbrev pub Connects : Kind → Type 0
Connects a_cookie = Unit
Connects a_stream = Unit
Connects _ = ⊥

abbrev pub Knocks : List Message → Type 0
Knocks [] = ⊥
Knocks (m ∷ ms) = Connects (kind m)

-- What `select` may say: it does not fail, and what it calls readable is.
abbrev pub IsPossible : Ready → List Message → Type 0
IsPossible select_failed inbox = ⊥
IsPossible timed_out inbox = Unit
IsPossible (ready listener control streams due) inbox =
    Unless listener (Knocks inbox)
    × Unless control (Waits a_state inbox)
    × Unless streams (Waits a_stream inbox)

-- A step of one side, whose loop makes the passes `pass`: its program and what it has yet to read,
-- before and after, and what it sends.
pub data Move (pass : Party → Program)
    : Program → List Message → Program → List Message → Option Message → Type 0 where
  writes :
      {m : Message} {k : Bool → Program} {inbox : List Message}
      → Move pass (write m k) inbox (k true) inbox (some m)
  reads :
      {a : Kind} {k : Reply → Program} {m : Message} {inbox : List Message}
      → Move pass (read a k) (m ∷ inbox) (k (got m)) inbox none
  calls :
      {a : Act} {k : Outcome → Program} {inbox : List Message}
      → Move pass (call a k) inbox (k success) inbox none
  acts : {a : Act} {p : Program} {inbox : List Message} → Move pass (act a p) inbox p inbox none
  looks :
      {k : Progress → Program} {inbox : List Message} (g : Progress)
      → Move pass (look k) inbox (k g) inbox none
  selects :
      {k : Ready → Program} {inbox : List Message} (r : Ready)
      → IsPossible r inbox
      → Move pass (select k) inbox (k r) inbox none
  loops :
      {t : Party} {inbox : List Message}
      → eqb_ℤ t.state iperf_done ≡ false
      → Move pass (returns true t) inbox (pass t) inbox none

-- What one side sends arrives behind what the other has yet to read.
abbrev pub arrive : Option Message → List Message → List Message
arrive none box = box
arrive (some m) box = box ++ (m ∷ [])

pub record Side : Type 0 where
  pub program : Program
  pub inbox : List Message

pub record System : Type 0 where
  pub left : Side
  pub right : Side

abbrev pub system : Program → List Message → Program → List Message → System
system p i q j = record {
  left = record { program = p; inbox = i };
  right = record { program = q; inbox = j };
}

-- The two sides, with loops that make the passes `a` and `b`, move in any order.
pub data Step (a b : Party → Program) : System → System → Type 0 where
  left_moves :
      {p p' q : Program} {i i' j : List Message} {out : Option Message}
      → Move a p i p' i' out
      → Step a b (system p i q j) (system p' i' q (arrive out j))
  right_moves :
      {p q q' : Program} {i j j' : List Message} {out : Option Message}
      → Move b q j q' j' out
      → Step a b (system p i q j) (system p (arrive out i) q' j')

pub data Reach (a b : Party → Program) : System → System → Type 0 where
  here : {s : System} → Reach a b s s
  then : {s t u : System} → Step a b s t → Reach a b t u → Reach a b s u

abbrev pub swap : System → System
swap s = record { left = s.right; right = s.left }

pub Reach-trans :
    {a b : Party → Program} {s t u : System} → Reach a b s t → Reach a b t u → Reach a b s u
Reach-trans here h = h
Reach-trans (then st r) h = then st (Reach-trans r h)

Step-swap : {a b : Party → Program} {s t : System} → Step a b s t → Step b a (swap s) (swap t)
Step-swap (left_moves m) = right_moves m
Step-swap (right_moves m) = left_moves m

pub Reach-swap :
    {a b : Party → Program} {s t : System} → Reach a b s t → Reach b a (swap s) (swap t)
Reach-swap here = here
Reach-swap (then st r) = then (Step-swap st) (Reach-swap r)
