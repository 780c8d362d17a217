-- ===== src/Session/System/Meet.antt =====
-- Two sides whose scripts are each other's duals stay so whatever happens, and can always finish.
use mm_wave_tracker.Prelude.{
  ℕ, zero, suc, ◌+◌, true, Option, none, some, List, [], ◌∷◌, ◌++◌, ◌≡◌, inl, inr, map, length,
  refl, arith,
}
use mm_wave_tracker.Config.State.{iperf_done}
use mm_wave_tracker.Session.{Message, Party, Program, returns, write, read, call, act, look, select}
use mm_wave_tracker.Session.System.{
  System, system, swap, Move, arrive, writes, reads, Step, left_moves, right_moves, Reach, here,
  then, Reach-trans, Reach-swap,
}
use mm_wave_tracker.Session.System.Script.{Event, sends, receives, dual, Has, Conforms, Actor}
use mm_wave_tracker.Session.System.Sync.{
  InSync, InSync-sym, sent-InSync, received-InSync, Move-Conforms,
}
use mm_wave_tracker.Session.System.Drive.{Walk, stay, go, AtIo, drive, finish}

-- The next event happens.
perform :
    (a : Actor) (inbox : List Message) (q : Program) (e : Event) (es fs : List Event)
    (box : List Message)
    → AtIo q
    → Conforms a.At q (e ∷ es)
    → Has (e ∷ es) inbox
    → InSync (e ∷ es) fs inbox box
    → (q' : Program) × (inbox' : List Message) × (out : Option Message) × Move a.pass q inbox q'
        inbox' out
      × Conforms a.At q' es
      × InSync es fs inbox' (arrive out box)
perform a inbox (write m k) e es fs box io (gs, h, c) has s =
    let same : gs ≡ es = cc in
    let first : e ∷ es ≡ sends m ∷ es = cc in
    (k true, inbox, some m, writes, rw same at c, sent-InSync inbox s first)
perform a [] (read x k) (receives n) es fs box io c (ms, h) s = cc
perform a (m ∷ inbox) (read x k) (receives n) es fs box io (m', gs, h, q, c) has s =
    let same : gs ≡ es = cc in
    let (got_it, s') = received-InSync s refl in
    let heard : m' ≡ m = cc in (_, inbox, none, reads, rw heard at (rw same at c), s')
perform a inbox (read x k) (sends n) es fs box io (m', gs, h, q, c) has s = cc
perform a inbox (returns ok t) e es fs box io c has s = absurd io
perform a inbox (call x k) e es fs box io c has s = absurd io
perform a inbox (act x p) e es fs box io c has s = absurd io
perform a inbox (look k) e es fs box io c has s = absurd io
perform a inbox (select k) e es fs box io c has s = absurd io

module _ (a b : Actor) where
  Walk-left :
      {i j : List Message} {p p' q : Program}
      → Walk a.pass i p p'
      → Reach a.pass b.pass (system p i q j) (system p' i q j)
  Walk-left stay = here
  Walk-left (go m r) = then (left_moves m) (Walk-left r)

  Walk-right :
      {i j : List Message} {p q q' : Program}
      → Walk b.pass j q q'
      → Reach a.pass b.pass (system p i q j) (system p i q' j)
  Walk-right stay = here
  Walk-right (go m r) = then (right_moves m) (Walk-right r)

  -- What is left of the two scripts, of `n` events in all.
  pub record Meets (n : ℕ) (s : System) : Type 0 where
    pub mine : List Event
    pub theirs : List Event
    pub follows : Conforms a.At s.left.program mine
    pub answers : Conforms b.At s.right.program theirs
    pub in_sync : InSync mine theirs s.left.inbox s.right.inbox
    pub few : length mine + length theirs ≡ n

  pub Step-Meets : {s t : System} {n : ℕ} → Step a.pass b.pass s t → Meets n s → (m : ℕ) × Meets m t
  Step-Meets (left_moves {j} mv) h =
      let (es, c, s) = Move-Conforms a mv h.mine h.theirs j h.follows h.in_sync in
      (
        _,
        record {
          mine = es;
          theirs = h.theirs;
          follows = c;
          answers = h.answers;
          in_sync = s;
          few = refl;
        },
      )
  Step-Meets (right_moves {i} mv) h =
      let (fs, c, s) = Move-Conforms b mv h.theirs h.mine i h.answers (InSync-sym h.in_sync) in
      (
        _,
        record {
          mine = h.mine;
          theirs = fs;
          follows = h.follows;
          answers = c;
          in_sync = InSync-sym s;
          few = refl;
        },
      )

  pub Reach-Meets :
      {s t : System} {n : ℕ} → Reach a.pass b.pass s t → Meets n s → (m : ℕ) × Meets m t
  Reach-Meets here h = (_, h)
  Reach-Meets (then st r) h = let (m, h') = Step-Meets st h in Reach-Meets r h'

module _ (a b : Actor) (ends : a.Ends) (ends' : b.Ends) where
  abbrev Nearer : ℕ → System → Type 0
  Nearer n s = (t : System) × Reach a.pass b.pass s t × Meets a b n t

  left_event :
      (p q : Program) (i j : List Message) (e : Event) (es fs : List Event)
      → Conforms a.At p (e ∷ es)
      → Conforms b.At q fs
      → InSync (e ∷ es) fs i j
      → Has (e ∷ es) i
      → Nearer (length es + length fs) (system p i q j)
  left_event p q i j e es fs c d s has =
      let (p1, path, c1, io) = drive a ends i p e es c has in
      let (p2, i2, out, mv, c2, s2) = perform a i p1 e es fs j io c1 has s in
      (
        _,
        Reach-trans (Walk-left a b path) (then (left_moves mv) here),
        record { mine = es; theirs = fs; follows = c2; answers = d; in_sync = s2; few = refl },
      )

  right_event :
      (p q : Program) (i j : List Message) (e : Event) (es fs : List Event)
      → Conforms a.At p es
      → Conforms b.At q (e ∷ fs)
      → InSync es (e ∷ fs) i j
      → Has (e ∷ fs) j
      → Nearer (length es + length fs) (system p i q j)
  right_event p q i j e es fs c d s has =
      let (q1, path, d1, io) = drive b ends' j q e fs d has in
      let (q2, j2, out, mv, d2, s2) = perform b j q1 e fs es i io d1 has (InSync-sym s) in
      (
        _,
        Reach-trans (Walk-right a b path) (then (right_moves mv) here),
        record {
          mine = es;
          theirs = fs;
          follows = c;
          answers = d2;
          in_sync = InSync-sym s2;
          few = refl;
        },
      )

  -- The right side has the messages `j` to read and then does what the left has left to do.
  ahead_event :
      (n : ℕ) (p q : Program) (j : List Message) (es : List Event)
      → Conforms a.At p es
      → Conforms b.At q (map receives j ++ map dual es)
      → length es + length (map receives j ++ map dual es) ≡ suc n
      → Nearer n (system p [] q j)
  ahead_event n p q (m ∷ j) es c d few =
      let e : n ≡ length es + length (map receives j ++ map dual es) = omega arith in
      rw e (
        right_event p q [] (m ∷ j) (receives m) es (map receives j ++ map dual es) c d
          (inl (refl, refl)) (j, refl))
  ahead_event n p q [] [] c d few = absurd (omega arith)
  ahead_event n p q [] (sends m ∷ es) c d few =
      let e : n ≡ length es + length (receives m ∷ map dual es) = omega arith in
      rw e (left_event p q [] [] (sends m) es (receives m ∷ map dual es) c d (inl (refl, refl)) tt)
  ahead_event n p q [] (receives m ∷ es) c d few =
      let e : n ≡ length (receives m ∷ es) + length (map dual es) = omega arith in
      rw e
        (right_event p q [] [] (sends m) (receives m ∷ es) (map dual es) c d (inl (refl, refl)) tt)

  pub advance :
      (n : ℕ) (p q : Program) (i j : List Message) (es fs : List Event)
      → Conforms a.At p es
      → Conforms b.At q fs
      → length es + length fs ≡ suc n
      → i ≡ []
      → fs ≡ map receives j ++ map dual es
      → Nearer n (system p i q j)
  advance n p q [] j es fs c d few e h = ahead_event n p q j es c (rw h at d) (rw h at few)
  advance n p q (m ∷ i) j es fs c d few e h = cc

swapped : {a b : Actor} {n : ℕ} {s : System} → Meets a b n s → Meets b a n (swap s)
swapped h = record {
  mine = h.theirs;
  theirs = h.mine;
  follows = h.answers;
  answers = h.follows;
  in_sync = InSync-sym h.in_sync;
  few = omega (arith, h.few);
}

-- Both loops have ended, and nothing is left to read.
pub record IsCompleted (s : System) : Type 0 where
  pub left_end : (t : Party) × (s.left.program ≡ returns true t) × (t.state ≡ iperf_done)
  pub right_end : (t : Party) × (s.right.program ≡ returns true t) × (t.state ≡ iperf_done)
  pub left_read : s.left.inbox ≡ []
  pub right_read : s.right.inbox ≡ []

nothing_left : {es fs : List Event} → length es + length fs ≡ 0 → (es ≡ []) × (fs ≡ [])
nothing_left {es = []} {fs = []} h = (refl, refl)
nothing_left {es = []} {fs = x ∷ fs} h = absurd (omega arith)
nothing_left {es = x ∷ es} {fs} h = absurd (omega arith)

read_out : (i j : List Message) → InSync [] [] i j → (i ≡ []) × (j ≡ [])
read_out i [] (inl (e, h)) = (e, refl)
read_out i (m ∷ j) (inl (e, h)) = cc
read_out [] j (inr (e, h)) = (refl, e)
read_out (m ∷ i) j (inr (e, h)) = cc

last_passes :
    (a b : Actor) (ends : a.Ends) (ends' : b.Ends) (p q : Program) (i j : List Message)
    → Conforms a.At p []
    → Conforms b.At q []
    → InSync [] [] i j
    → (t : System) × Reach a.pass b.pass (system p i q j) t × IsCompleted t
last_passes a b ends ends' p q i j c d s =
    let (t, path, at) = finish a ends i p c in
    let (u, path', at') = finish b ends' j q d in
    let (e, f) = read_out i j s in
    (
      system (returns true t) i (returns true u) j,
      Reach-trans (Walk-left a b path) (Walk-right a b path'),
      record {
        left_end = (t, refl, a.ended t at);
        right_end = (u, refl, b.ended u at');
        left_read = e;
        right_read = f;
      },
    )

pub complete :
    (a b : Actor)
    → a.Ends
    → b.Ends
    → (n : ℕ) (s : System) → Meets a b n s
    → (t : System) × Reach a.pass b.pass s t × IsCompleted t
complete a b x y zero s h =
    let (e, f) = nothing_left h.few in
    last_passes a b x y s.left.program s.right.program s.left.inbox s.right.inbox
      (rw e at h.follows) (rw f at h.answers) (rw (e, f) at h.in_sync)
complete a b x y (suc n) s h = elim (h.in_sync) [
  | inl (e, f) ↦
      let (t, r, h') =
        advance a b x y n s.left.program s.right.program s.left.inbox s.right.inbox h.mine h.theirs
          h.follows h.answers h.few e f in
      let (u, r', done) = complete a b x y n t h' in (u, Reach-trans r r', done)
  | inr (e, f) ↦
      let (t, r, h') =
        advance b a y x n s.right.program s.left.program s.right.inbox s.left.inbox h.theirs h.mine
          h.answers h.follows (omega (arith, h.few)) e f in
      let (u, r', done) = complete a b x y n (swap t) (swapped h') in
      (u, Reach-trans (Reach-swap r) r', done)
]
