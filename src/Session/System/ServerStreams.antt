-- ===== src/Session/System/ServerStreams.antt =====
-- The server starts a test once all of its streams are there.
use mm_wave_tracker.Prelude.{
  ℕ, zero, suc, ◌+◌, ◌<◌, Bool, true, false, not, ◌||◌, List, ◌≡◌, refl, arith, if◌then◌else◌,
}
use mm_wave_tracker.Prelude.Int.{ℤ, pos, negsuc, ◌+ℤ◌, eqb_ℤ, truthy}
use mm_wave_tracker.Config.{Mode, sender, receiver, bidirectional}
use mm_wave_tracker.Config.Codes.{ptcp, pudp}
use mm_wave_tracker.Config.State.{create_streams, test_running}
use mm_wave_tracker.Session.{Party, Program, returns, act, iperf_set_send_state, run_timers}
use mm_wave_tracker.Session.Client.{is_receiver}
use mm_wave_tracker.Session.Server.{
  count_stream, add_stream, take_stream, reopen_listener, start_running, start_test,
  start_if_complete, server_data, server_streams,
}
use mm_wave_tracker.Session.System.Script.{Event, Conforms}
use mm_wave_tracker.Session.System.Scripts.{Plan, left_creating, left_running, if-Conforms}
use mm_wave_tracker.Session.System.ServerAt.{
  at_state, at_streams, answers, left_streams, ServerAt, waiting, running,
}

module _ (p : Plan) where
  abbrev pub Goes : Program → List Event → Type 0
  Goes = Conforms (ServerAt p)

  pub either :
      (b : Bool) (x y : Program) (es : List Event)
      → Goes x es
      → Goes y es
      → Goes (if b then x else y) es
  either = if-Conforms (ServerAt p)

  pub finish-Goes :
      (due : Bool) (t : Party) (es : List Event)
      → ServerAt p t es
      → Goes (if due then act run_timers (returns true t) else returns true t) es
  finish-Goes due t es h = either due _ _ _ (refl, h) (refl, h)

  moves-Goes :
      (m : Mode) (due : Bool) (u : Party) (es : List Event)
      → let t = record (at_state test_running u) { mode = m } in
        ServerAt p t es → Goes (server_data due t) es
  unfolding server_data
  moves-Goes sender due u es h = finish-Goes due _ es h
  moves-Goes receiver due u es h = finish-Goes due _ es h
  moves-Goes bidirectional due u es h = finish-Goes due _ es h

  pub running-Goes :
      (due : Bool) (u : Party)
      → Goes (server_data due (at_state test_running u)) (answers left_running)
  running-Goes due u = moves-Goes u.mode due u (answers left_running) (running refl refl)

  reopen-Goes :
      (t : Party) (next : Party → Program) (es : List Event)
      → Goes (next t) es
      → Goes (reopen_listener t next) es
  unfolding reopen_listener
  reopen-Goes t next es h =
      either (not (eqb_ℤ t.protocol_id ptcp)) _ _ _ h
        (either (truthy t.no_delay || (truthy t.mss || truthy t.socket_bufsize)) _ _ _ h h)

  idle-Goes :
      (due : Bool) (u : Party) (es : List Event)
      → ServerAt p (at_state create_streams u) es
      → Goes (server_data due (at_state create_streams u)) es
  unfolding server_data
  idle-Goes due u es h = finish-Goes due (at_state create_streams u) es h

  runs-Goes :
      (due : Bool) (u : Party)
      → Goes (start_running (server_data due) (at_state create_streams u)) (answers left_creating)
  unfolding start_running iperf_set_send_state
  runs-Goes due u = (
    _,
    refl,
    either (is_receiver u.mode) _ _ _ (_, refl, running-Goes due u) (_, refl, running-Goes due u),
  )

  start-Goes :
      (due : Bool) (u : Party)
      → Goes (start_test (at_state create_streams u) (server_data due)) (answers left_creating)
  unfolding start_test
  start-Goes due u =
      reopen-Goes (at_state create_streams u) (start_running (server_data due))
        (answers left_creating) (runs-Goes due u)

  all_there : (r R : ℕ) → R ≡ r + 0 → eqb_ℤ (pos r) (pos R) ≡ true
  all_there r R h = ground arith

  some_missing : (r a R : ℕ) → R ≡ r + suc a → eqb_ℤ (pos r) (pos R) ≡ false
  some_missing r a R h = ground arith

  pub complete-Goes :
      (due : Bool) (r a R s b S : ℕ) (u : Party)
      → R ≡ r + a
      → S ≡ s + b
      → Goes (start_if_complete (at_streams r R s S u) (server_data due)) (left_streams a b)
  unfolding start_if_complete
  complete-Goes due r zero R s zero S u h k =
      rw (all_there r R h, all_there s S k) (start-Goes due (at_streams r R s S u))
  complete-Goes due r zero R s (suc b) S u h k =
      rw (all_there r R h, some_missing s b S k)
        (idle-Goes due (at_streams r R s S u) _
          (waiting r 0 R s (suc b) S h k (omega arith) refl refl))
  complete-Goes due r (suc a) R s b S u h k = rw (some_missing r a R h) (
      idle-Goes due (at_streams r R s S u) _
        (waiting r (suc a) R s b S h k (omega arith) refl refl))

  add-Goes :
      (u : Party) (f : ℤ) (next : Party → Program) (es : List Event)
      → eqb_ℤ f (negsuc 0) ≡ false
      → Goes (next (record u { flag = negsuc 0 })) es
      → Goes (add_stream (record u { flag = f }) next) es
  unfolding add_stream
  add-Goes u f next es h c =
      rw h (either (not (eqb_ℤ u.protocol_id pudp) || not (truthy f)) _ _ _ c c)

  count_rec :
      (r a R s S : ℕ) (u : Party)
      → R ≡ r + suc a
      → count_stream (at_streams r R s S u) ≡ record (at_streams (r + 1) R s S u) { flag = pos 0 }
  unfolding count_stream ◌+ℤ◌
  count_rec r a R s S u h = ground (arith, some_missing r a R h)

  count_send :
      (r R s b S : ℕ) (u : Party)
      → R ≡ r + 0
      → S ≡ s + suc b
      → count_stream (at_streams r R s S u) ≡ record (at_streams r R (s + 1) S u) { flag = pos 1 }
  unfolding count_stream ◌+ℤ◌
  count_send r R s b S u h k = ground (arith, all_there r R h, some_missing s b S k)

  abbrev goes_ahead : Bool → Party → Program
  goes_ahead due t = start_if_complete t (server_data due)

  take-Goes :
      (due : Bool) (r a R s b S : ℕ) (u : Party)
      → R ≡ r + a
      → S ≡ s + b
      → 0 < a + b
      → Goes (take_stream (at_streams r R s S u) (goes_ahead due)) (left_streams a b)
  unfolding take_stream
  take-Goes due r zero R s zero S u h k some = absurd (omega arith)
  take-Goes due r zero R s (suc b) S u h k some = (
    _,
    _,
    refl,
    refl,
    rw (count_send r R s b S u h k) (
        add-Goes (at_streams r R (s + 1) S u) (pos 1) (goes_ahead due) (left_streams 0 b) refl
          (complete-Goes due r 0 R (s + 1) b S (record u { flag = negsuc 0 }) h (omega arith))),
  )
  take-Goes due r (suc a) R s b S u h k some = (
    _,
    _,
    refl,
    refl,
    rw (count_rec r a R s S u h) (
        add-Goes (at_streams (r + 1) R s S u) (pos 0) (goes_ahead due) (left_streams a b) refl
          (complete-Goes due (r + 1) a R s b S (record u { flag = negsuc 0 }) (omega arith) k)),
  )

  pub streams-Goes :
      (streams due : Bool) (r a R s b S : ℕ) (u : Party)
      → R ≡ r + a
      → S ≡ s + b
      → 0 < a + b
      → Goes (server_streams streams due (at_streams r R s S u)) (left_streams a b)
  unfolding server_streams
  streams-Goes true due r a R s b S u h k some = take-Goes due r a R s b S u h k some
  streams-Goes false due r a R s b S u h k some = complete-Goes due r a R s b S u h k
