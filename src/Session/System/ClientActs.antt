-- ===== src/Session/System/ClientActs.antt =====
-- The passes of a client conform to the script.
use mathlib.Core.Path.{subst}
use mm_wave_tracker.Prelude.{
  Bool-cases, inl, inr, ℕ, zero, suc, Bool, true, false, List, [], ◌∷◌, ◌≡◌, ◌≢◌, refl, sym, ap,
  ◌∙◌, arith, if◌then◌else◌, ◌&&◌,
}
use mm_wave_tracker.Prelude.Int.{pos, eqb_ℤ}
use mm_wave_tracker.Config.{Mode, sender, receiver, bidirectional}
use mm_wave_tracker.Config.Codes.{pudp}
use mm_wave_tracker.Config.State.{iperf_done}
use mm_wave_tracker.Session.{
  Party, Program, Next, select_failed, timed_out, ready, returns, act, iperf_set_send_state,
  iperf_exchange_parameters, iperf_exchange_results, attempt, recv_data, run_timers, look,
}
use mm_wave_tracker.Session.Client.{
  progressed, connect_streams, on_create_streams, on_test_start, iperf_client_end, dispatch_client,
  iperf_handle_message_client, is_over, move_data, finish_if_over, client_data, client_pass,
  is_receiver,
}
use mm_wave_tracker.Session.System.{IsPossible}
use mm_wave_tracker.Session.System.Script.{Event, expected, Conforms, Hits, Actor}
use mm_wave_tracker.Session.System.Scripts.{
  Plan, Stage, fresh, told, creating, started, running, ended, exchanged, finished, stage_state,
  left, opens, opening, client_at, ClientAt, client_left, over, IsLimited, if-Conforms, if-Hits,
}

module _ (p : Plan) where
  abbrev Goes : Program → List Event → Type 0
  Goes = Conforms (ClientAt p)

  either :
      (b : Bool) (x y : Program) (es : List Event)
      → Goes x es
      → Goes y es
      → Goes (if b then x else y) es
  either = if-Conforms (ClientAt p)

  abbrev udp_or : Party → Bool
  udp_or u = eqb_ℤ u.protocol_id pudp

  finish_if_over-Goes : (u : Party) → Goes (finish_if_over (client_at p running u)) (left p running)
  unfolding finish_if_over iperf_set_send_state
  finish_if_over-Goes u =
      either (is_over (client_at p running u)) _ _ _
        (either (udp_or u) _ _ _ (left p ended, refl, (refl, client_left ended refl refl))
          (left p ended, refl, (refl, client_left ended refl refl)))
        (refl, client_left running refl refl)

  move_data-Goes :
      (m : Mode) (u : Party) (otherwise next : Party → Program) (es : List Event)
      → Goes (next (record u { mode = m })) es
      → Goes (move_data (record u { mode = m }) otherwise next) es
  unfolding move_data
  move_data-Goes sender u otherwise next es h = h
  move_data-Goes receiver u otherwise next es h = h
  move_data-Goes bidirectional u otherwise next es h = h

  -- The branch of a pass outside TEST_RUNNING changes nothing.
  drain-Goes :
      (st : Stage) (b : Bool) (u : Party)
      → Goes
          (if b
            then attempt recv_data (client_at p st u) (returns false) (returns true)
            else returns true (client_at p st u))
          (left p st)
  drain-Goes st b u =
      either b _ _ _ (refl, client_left st refl refl) (refl, client_left st refl refl)

  abbrev timers : Party → Program
  timers t =
      act run_timers
        (look (λ g. finish_if_over (record t { progress = progressed t.mode t.progress g })))

  moves-Goes :
      (u : Party)
      → Goes
          (move_data (record (client_at p running u) { startup = false }) (returns false) timers)
          (left p running)
  moves-Goes u =
      move_data-Goes p.mode (record (client_at p running u) { startup = false }) (returns false)
        timers (left p running)
        (λ g.
          finish_if_over-Goes
            (record u { startup = false; progress = progressed p.mode u.progress g }))

  -- `client_data` in each stage.
  client_data-Goes : (st : Stage) (u : Party) → Goes (client_data (client_at p st u)) (left p st)
  unfolding client_data
  client_data-Goes running u =
      either u.startup _ _ _ (either (udp_or u) _ _ _ (moves-Goes u) (moves-Goes u)) (moves-Goes u)
  client_data-Goes ended u = drain-Goes ended (is_receiver p.mode && true) u
  client_data-Goes fresh u = drain-Goes fresh (is_receiver p.mode && false) u
  client_data-Goes told u = drain-Goes told (is_receiver p.mode && false) u
  client_data-Goes creating u = drain-Goes creating (is_receiver p.mode && false) u
  client_data-Goes started u = drain-Goes started (is_receiver p.mode && false) u
  client_data-Goes exchanged u = drain-Goes exchanged (is_receiver p.mode && false) u
  client_data-Goes finished u = drain-Goes finished (is_receiver p.mode && false) u

  -- What follows a message in the same pass.
  abbrev then_data : Next
  then_data ok t = if ok then client_data t else returns false t

  connect-Goes :
      (n : ℕ) (t : Party) (next : Next) (es : List Event)
      → Goes (next true t) es
      → Goes (connect_streams n t next) (opens n es)
  unfolding connect_streams
  connect-Goes zero t next es h = h
  connect-Goes (suc n) t next es h = (opens n es, refl, connect-Goes n t next es h)

  create-Goes :
      (m : Mode) (n : ℕ) (u : Party) (next : Next) (es : List Event)
      → let t = record u { mode = m; num_streams = pos n } in
        Goes (next true t) es → Goes (on_create_streams t next) (opening m n es)
  unfolding on_create_streams
  create-Goes sender n u next es h = connect-Goes n _ next es h
  create-Goes receiver n u next es h = connect-Goes n _ next es h
  create-Goes bidirectional n u next es h =
      connect-Goes n _ _ (opens n es) (connect-Goes n _ next es h)

  start-Goes :
      (m : Mode) (u : Party) (next : Next) (es : List Event)
      → Goes (next true (record u { mode = m })) es
      → Goes (on_test_start (record u { mode = m }) next) es
  unfolding on_test_start
  start-Goes sender u next es h = h
  start-Goes receiver u next es h = h
  start-Goes bidirectional u next es h = h

  -- The message that is due, in each stage.
  message-Goes :
      (st : Stage) (u : Party)
      → IsPossible (ready false true false false) (expected (left p st))
      → Goes (iperf_handle_message_client (client_at p st u) then_data) (left p st)
  unfolding iperf_handle_message_client dispatch_client iperf_exchange_parameters
      iperf_exchange_results iperf_client_end iperf_set_send_state
  message-Goes fresh u h = (_, _, refl, refl, (_, refl, client_data-Goes told u))
  message-Goes told u h = (
    _,
    _,
    refl,
    refl,
    create-Goes p.mode p.num_streams (client_at p creating u) then_data _
        (client_data-Goes creating u),
  )
  message-Goes creating u h = (
    _,
    _,
    refl,
    refl,
    start-Goes p.mode (client_at p started u) then_data _ (client_data-Goes started u),
  )
  message-Goes started u h = (_, _, refl, refl, client_data-Goes running u)
  message-Goes running u h = absurd (h.1)
  message-Goes ended u h =
      (_, _, refl, refl, (_, refl, (_, _, refl, refl, client_data-Goes exchanged u)))
  message-Goes exchanged u h = (_, _, refl, refl, (_, refl, client_data-Goes finished u))
  message-Goes finished u h = absurd (h.1)

  pass-Goes : (st : Stage) (u : Party) → Goes (client_pass (client_at p st u)) (left p st)
  unfolding client_pass
  pass-Goes st u select_failed h = absurd h
  pass-Goes st u timed_out h = client_data-Goes st u
  pass-Goes st u (ready l false s d) h = client_data-Goes st u
  pass-Goes st u (ready l true s d) h = message-Goes st u (tt, h.1, tt)

  goes_on : (st : Stage) → st ≢ finished → eqb_ℤ (stage_state st) iperf_done ≡ false
  goes_on fresh h = refl
  goes_on told h = refl
  goes_on creating h = refl
  goes_on started h = refl
  goes_on running h = refl
  goes_on ended h = refl
  goes_on exchanged h = refl
  goes_on finished h = absurd (h refl)

  ended_stage : (st : Stage) → [] ≡ left p st → stage_state st ≡ iperf_done
  ended_stage finished h = refl
  ended_stage fresh h = cc
  ended_stage told h = cc
  ended_stage creating h = cc
  ended_stage started h = cc
  ended_stage running h = cc
  ended_stage ended h = cc
  ended_stage exchanged h = cc

  not-finished : (st : Stage) {e : Event} {es : List Event} → e ∷ es ≡ left p st → st ≢ finished
  not-finished st h q = cc

  pub Client-Conforms :
      (t : Party) (es : List Event) → ClientAt p t es → Conforms (ClientAt p) (client_pass t) es
  Client-Conforms t es (client_left st e h) =
      subst (λ x. Conforms (ClientAt p) (client_pass x) es) (sym e)
        (subst (λ gs. Conforms (ClientAt p) (client_pass (client_at p st t)) gs) (sym h)
          (pass-Goes st t))

  pub Client-goes_on :
      (t : Party) (e : Event) (es : List Event)
      → ClientAt p t (e ∷ es)
      → eqb_ℤ t.state iperf_done ≡ false
  Client-goes_on t e es (client_left st q h) =
      let same : t.state ≡ stage_state st = ap (λ (x : Party). x.state) q in
      subst (λ s. eqb_ℤ s iperf_done ≡ false) (sym same) (goes_on st (not-finished st h))

  pub Client-ended : (t : Party) → ClientAt p t [] → t.state ≡ iperf_done
  Client-ended t (client_left st q h) = ap (λ (x : Party). x.state) q ∙ ended_stage st h

module _ (p : Plan) (limited : IsLimited p) where
  abbrev at_end : Party → Party
  at_end u = record (client_at p running u) { progress = progressed p.mode u.progress (over p) }

  over-is_over : (u : Party) → is_over (at_end u) ≡ true
  unfolding is_over progressed
  over-is_over u = elim (Bool-cases (is_receiver p.mode)) [
    | inl e ↦ elim limited [ inl d ↦ rw (e) (ground arith) | inr (f, l) ↦ cc ]
    | inr e ↦ elim limited [ inl d ↦ rw (e) (ground arith) | inr (f, l) ↦ rw (e) (ground arith) ]
  ]

  abbrev Comes : Program → Type 0
  Comes x = Hits (over p) x (left p running)

  finish-Hits : (u : Party) → Comes (finish_if_over (at_end u))
  unfolding finish_if_over iperf_set_send_state
  finish-Hits u =
      rw (over-is_over u) (if-Hits (eqb_ℤ u.protocol_id pudp) (over p) _ _ (left p running) tt tt)

  move_data-Hits :
      (m : Mode) (u : Party) (otherwise next : Party → Program)
      → Comes (next (record u { mode = m }))
      → Comes (move_data (record u { mode = m }) otherwise next)
  unfolding move_data
  move_data-Hits sender u otherwise next h = h
  move_data-Hits receiver u otherwise next h = h
  move_data-Hits bidirectional u otherwise next h = h

  moves-Hits :
      (u : Party)
      → Comes (
          move_data (record (client_at p running u) { startup = false }) (returns false) (timers p))
  moves-Hits u =
      move_data-Hits p.mode (record (client_at p running u) { startup = false }) (returns false)
        (timers p) (finish-Hits (record u { startup = false }))

  data-Hits : (u : Party) → Comes (client_data (client_at p running u))
  unfolding client_data
  data-Hits u =
      if-Hits u.startup (over p) _ _ (left p running)
        (if-Hits (eqb_ℤ u.protocol_id pudp) (over p) _ _ (left p running) (moves-Hits u)
          (moves-Hits u))
        (moves-Hits u)

  pass-Hits :
      (st : Stage) (u : Party)
      → st ≢ finished
      → Hits (over p) (client_pass (client_at p st u)) (left p st)
  unfolding client_pass iperf_handle_message_client
  pass-Hits fresh u h = tt
  pass-Hits told u h = tt
  pass-Hits creating u h = tt
  pass-Hits started u h = tt
  pass-Hits running u h = data-Hits u
  pass-Hits ended u h = tt
  pass-Hits exchanged u h = tt
  pass-Hits finished u h = absurd (h refl)

  pub Client-Hits :
      (t : Party) (e : Event) (es : List Event)
      → ClientAt p t (e ∷ es)
      → Hits (over p) (client_pass t) (e ∷ es)
  Client-Hits t e es (client_left st q h) =
      subst (λ x. Hits (over p) (client_pass x) (e ∷ es)) (sym q)
        (subst (λ gs. Hits (over p) (client_pass (client_at p st t)) gs) (sym h)
          (pass-Hits st t (not-finished p st h)))

abbrev pub client_actor : Plan → Actor
client_actor p = record {
  Ends = IsLimited p;
  pass = client_pass;
  At = ClientAt p;
  over = over p;
  pass-Conforms = λ t es on at. Client-Conforms p t es at;
  pass-Hits = λ limited. Client-Hits p limited;
  goes_on = Client-goes_on p;
  ended = Client-ended p;
}
