-- ===== src/Session/System/Complete.antt =====
-- A whole session of a client of iperf_client_api.c with a server of iperf_server_api.c.
use mm_wave_tracker.Prelude.{true, List, [], ◌∷◌, ◌≡◌, inl, inr, refl, length, ◌+◌}
use mm_wave_tracker.Session.{
  Message, Party, Program, kind, returns, write, read, call, act, look, select, cookie,
}
use mm_wave_tracker.Session.Client.{client_pass, iperf_connect}
use mm_wave_tracker.Session.Server.{server_pass}
use mm_wave_tracker.Session.System.{System, system, Reach}
use mm_wave_tracker.Session.System.Script.{Event, sends, Conforms, Actor}
use mm_wave_tracker.Session.System.Sync.{InSync, InSync-sym}
use mm_wave_tracker.Session.System.Scripts.{Plan, fresh, left, client_at, client_left, IsLimited}
use mm_wave_tracker.Session.System.ClientActs.{client_actor}
use mm_wave_tracker.Session.System.ServerAt.{at_start, starting, answers}
use mm_wave_tracker.Session.System.ServerActs.{server_actor}
use mm_wave_tracker.Session.System.Meet.{Meets, Reach-Meets, IsCompleted, complete}

-- A client with a plan that is about to connect, and a server that listens.
abbrev pub opened : Plan → Party → Party → System
opened p u v = system (iperf_connect (client_at p fresh u)) [] (returns true (at_start v)) []

-- A program has not failed, and what it reads next, if it is there, is of the kind it reads.
abbrev pub IsOnTrack : Program → List Message → Type 0
IsOnTrack (returns ok t) inbox = ok ≡ true
IsOnTrack (read a k) [] = Unit
IsOnTrack (read a k) (m ∷ ms) = kind m ≡ a
IsOnTrack _ inbox = Unit

on_track :
    (a : Actor) (x : Program) (es fs : List Event) (inbox box : List Message)
    → Conforms a.At x es
    → InSync es fs inbox box
    → IsOnTrack x inbox
on_track a (returns ok t) es fs inbox box c s = c.0
on_track a (write m k) es fs inbox box c s = tt
on_track a (read x k) es fs [] box c s = tt
on_track a (read x k) es fs (m ∷ ms) box (n, gs, e, h, c) (inl (q, f)) = cc
on_track a (read x k) es fs (m ∷ ms) box (n, gs, e, h, c) (inr (q, f)) = cc
on_track a (call x k) es fs inbox box c s = tt
on_track a (act x y) es fs inbox box c s = tt
on_track a (look k) es fs inbox box c s = tt
on_track a (select k) es fs inbox box c s = tt

module _ (p : Plan) (u v : Party) where
  abbrev script : List Event
  script = sends cookie ∷ left p fresh

  opened-Meets :
      Meets
        (client_actor p)
        (server_actor p)
        (length script + length (answers script))
        (opened p u v)
  unfolding iperf_connect
  opened-Meets = record {
    mine = script;
    theirs = answers script;
    follows = (_, refl, (refl, client_left fresh refl refl));
    answers = (refl, starting refl refl);
    in_sync = inl (refl, refl);
    few = refl;
  }

  -- Whatever a client and a server have done after the client connected, in any order, while no call
  -- fails: neither has ended with an error, and a side that reads next and has a message gets one of
  -- the kind that it reads.
  pub session-IsOnTrack :
      {s : System}
      → Reach client_pass server_pass (opened p u v) s
      → IsOnTrack s.left.program s.left.inbox × IsOnTrack s.right.program s.right.inbox
  session-IsOnTrack r =
      let (n, h) = Reach-Meets (client_actor p) (server_actor p) r opened-Meets in
      (
        on_track (client_actor p) _ _ _ _ _ h.follows h.in_sync,
        on_track (server_actor p) _ _ _ _ _ h.answers (InSync-sym h.in_sync),
      )

  -- Whatever a client and a server have done after the client connected, in any order, while no call
  -- fails: they can go on so that both loops end in the state IPERF_DONE with no message left to
  -- read. The test of the client has a duration or, unless it only receives, a number of bytes or of
  -- blocks: what is received does not count for these.
  pub session_completes :
      {s : System}
      → IsLimited p
      → Reach client_pass server_pass (opened p u v) s
      → (t : System) × Reach client_pass server_pass s t × IsCompleted t
  session_completes {s} limited r =
      let (n, h) = Reach-Meets (client_actor p) (server_actor p) r opened-Meets in
      complete (client_actor p) (server_actor p) limited tt n s h
