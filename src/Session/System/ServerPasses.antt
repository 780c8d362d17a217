-- ===== src/Session/System/ServerPasses.antt =====
-- A pass of the server from each place conforms to the dual of the client's script.
use mm_wave_tracker.Prelude.{
  ℕ, zero, suc, ◌+◌, ◌<◌, Bool, true, false, List, [], ◌∷◌, ◌≡◌, refl, arith, if◌then◌else◌,
}
use mm_wave_tracker.Prelude.Int.{ℤ, pos, negsuc, eqb_ℤ}
use mm_wave_tracker.Config.{Mode, sender, receiver, bidirectional}
use mm_wave_tracker.Config.State.{
  create_streams, test_running, display_results, iperf_done, iperf_start,
}
use mm_wave_tracker.Session.{
  Party, Next, select_failed, timed_out, ready, state, iperf_set_send_state,
  iperf_exchange_parameters, iperf_exchange_results, cookie, a_state, opposite,
}
use mm_wave_tracker.Session.Server.{
  stop, after_cookie, iperf_accept, set_streams_number, on_test_end, dispatch_server,
  iperf_handle_message_server, server_data, server_streams, server_control, server_pass,
}
use mm_wave_tracker.Session.System.{IsPossible, Unless, Waits}
use mm_wave_tracker.Session.System.Script.{Event, sends, receives, expected}
use mm_wave_tracker.Session.System.Scripts.{Plan, fresh, left, left_creating, left_running, opening}
use mm_wave_tracker.Session.System.ServerAt.{
  at_state, at_start, at_streams, answers, left_streams, ServerAt, starting, waiting, running,
  displayed, over_and_out,
}
use mm_wave_tracker.Session.System.ServerStreams.{
  Goes, either, finish-Goes, running-Goes, complete-Goes, streams-Goes,
}

module _ (p : Plan) where
  -- No message of the control connection comes before the streams are there.
  not_control :
      (a b : ℕ)
      → 0 < a + b
      → IsPossible (ready false true false false) (expected (left_streams a b))
      → ⊥
  not_control zero zero h q = absurd (omega arith)
  not_control zero (suc b) h q = cc (q.1)
  not_control (suc a) b h q = cc (q.1)

  only :
      (c : Bool) (es : List Event)
      → Unless c (Waits a_state (expected es))
      → Unless c (IsPossible (ready false true false false) (expected es))
  only true es h = (tt, h, tt)
  only false es h = tt

  control-Goes :
      (streams due : Bool) (r a R s b S : ℕ) (u : Party)
      → R ≡ r + a
      → S ≡ s + b
      → 0 < a + b
      → (control : Bool)
      → Unless control (IsPossible (ready false true false false) (expected (left_streams a b)))
      → Goes p (server_control control streams due (at_streams r R s S u)) (left_streams a b)
  unfolding server_control
  control-Goes streams due r a R s b S u h k some true q = absurd (not_control a b some q)
  control-Goes streams due r a R s b S u h k some false q =
      streams-Goes p streams due r a R s b S u h k some

  pub waiting-Goes :
      (r a R s b S : ℕ) (u : Party)
      → R ≡ r + a
      → S ≡ s + b
      → 0 < a + b
      → Goes p (server_pass (at_streams r R s S u)) (left_streams a b)
  unfolding server_pass
  waiting-Goes r a R s b S u h k some select_failed q = absurd q
  waiting-Goes r a R s b S u h k some timed_out q = (refl, waiting r a R s b S h k some refl refl)
  waiting-Goes r a R s b S u h k some (ready true c st d) q =
      control-Goes st d r a R s b S u h k some c (only c _ q.1)
  waiting-Goes r a R s b S u h k some (ready false c st d) q =
      control-Goes st d r a R s b S u h k some c (only c _ q.1)

  -- A new client whose parameters have been read.
  abbrev welcomed : Mode → Party → Party
  welcomed m u = record (at_state create_streams u) {
    connected = true;
    mode = opposite m;
    num_streams = pos p.num_streams;
    rec_streams_accepted = pos 0;
    send_streams_accepted = pos 0;
  }

  welcome-Goes :
      (m : Mode) (due : Bool) (u : Party)
      → Goes p
          (server_control false false due (set_streams_number (welcomed m u)))
          (answers (opening m p.num_streams left_creating))
  unfolding set_streams_number server_control server_streams
  welcome-Goes sender due u =
      complete-Goes p due 0 p.num_streams p.num_streams 0 0 0 (welcomed sender u) (omega arith) refl
  welcome-Goes receiver due u =
      complete-Goes p due 0 0 0 0 p.num_streams p.num_streams (welcomed receiver u) refl
        (omega arith)
  welcome-Goes bidirectional due u =
      complete-Goes p due 0 p.num_streams p.num_streams 0 p.num_streams p.num_streams
        (welcomed bidirectional u) (omega arith) (omega arith)

  abbrev after_accept : Bool → Next
  after_accept due ok t =
      if ok then server_control false false due (set_streams_number t) else stop t

  accept-Goes :
      (due : Bool) (u : Party)
      → Goes p
          (iperf_accept (at_start u) (after_accept due))
          (answers (sends cookie ∷ left p fresh))
  unfolding iperf_accept after_cookie iperf_exchange_parameters iperf_set_send_state
  accept-Goes due u = (
    _,
    _,
    refl,
    refl,
    (
      _,
      refl,
      (
        _,
        _,
        refl,
        refl,
        (
          _,
          refl,
          either p (eqb_ℤ u.server_affinity (negsuc 0)) _ _ _ (welcome-Goes p.mode due u)
              (welcome-Goes p.mode due u),
        ),
      ),
    ),
  )

  other-Goes :
      (st : ℤ) (due : Bool) (u : Party) (es : List Event)
      → eqb_ℤ st create_streams ≡ false
      → eqb_ℤ st test_running ≡ false
      → ServerAt p (at_state st u) es
      → (streams : Bool) → Goes p (server_streams streams due (at_state st u)) es
  unfolding server_streams server_data
  other-Goes st due u es h k at streams = rw (h, k) (finish-Goes p due (at_state st u) es at)

  pub start_pass-Goes :
      (u : Party) → Goes p (server_pass (at_start u)) (answers (sends cookie ∷ left p fresh))
  unfolding server_pass server_control
  start_pass-Goes u select_failed q = absurd q
  start_pass-Goes u timed_out q = (refl, starting refl refl)
  start_pass-Goes u (ready true false false d) q = accept-Goes d u
  start_pass-Goes u (ready l true st d) q = cc (q.1)
  start_pass-Goes u (ready l c true d) q = cc (q.2)
  start_pass-Goes u (ready false false false d) q =
      other-Goes iperf_start d (at_start u) _ refl refl (starting refl refl) false

  -- The end of the test, and of the session.
  end-Goes :
      (streams due : Bool) (u : Party)
      → Goes p (server_control true streams due (at_state test_running u)) (answers left_running)
  unfolding server_control iperf_handle_message_server dispatch_server on_test_end
      iperf_set_send_state iperf_exchange_results
  end-Goes streams due u = (
    _,
    _,
    refl,
    refl,
    (
      _,
      refl,
      (
        _,
        _,
        refl,
        refl,
        (
          _,
          refl,
          (
            _,
            refl,
            other-Goes display_results due
                (record u { progress = record (u.progress) { done = pos 1 } }) _ refl refl
                (displayed refl refl) streams,
          ),
        ),
      ),
    ),
  )

  bye-Goes :
      (streams due : Bool) (u : Party)
      → Goes p
          (server_control true streams due (at_state display_results u))
          (receives (state iperf_done) ∷ [])
  unfolding server_control iperf_handle_message_server dispatch_server
  bye-Goes streams due u =
      (_, _, refl, refl, other-Goes iperf_done due u _ refl refl (over_and_out refl refl) streams)

  still_running :
      (due streams : Bool) (u : Party)
      → Goes p (server_control false streams due (at_state test_running u)) (answers left_running)
  unfolding server_control server_streams
  still_running due streams u = running-Goes p due u

  pub running_pass-Goes :
      (u : Party) → Goes p (server_pass (at_state test_running u)) (answers left_running)
  unfolding server_pass
  running_pass-Goes u select_failed q = absurd q
  running_pass-Goes u timed_out q = (refl, running refl refl)
  running_pass-Goes u (ready true c st d) q = absurd (q.0)
  running_pass-Goes u (ready false true st d) q = end-Goes st d u
  running_pass-Goes u (ready false false st d) q = still_running d st u

  pub displayed_pass-Goes :
      (u : Party)
      → Goes p (server_pass (at_state display_results u)) (receives (state iperf_done) ∷ [])
  unfolding server_pass server_control
  displayed_pass-Goes u select_failed q = absurd q
  displayed_pass-Goes u timed_out q = (refl, displayed refl refl)
  displayed_pass-Goes u (ready true c st d) q = absurd (q.0)
  displayed_pass-Goes u (ready false true st d) q = bye-Goes st d u
  displayed_pass-Goes u (ready false false st d) q =
      other-Goes display_results d u _ refl refl (displayed refl refl) st
