-- ===== src/Session/System/ServerActs.antt =====
-- The passes of a server conform to the dual of the client's script.
use mathlib.Core.Path.{subst}
use mm_wave_tracker.Prelude.{
  ℕ, zero, suc, ◌+◌, ◌<◌, false, List, [], ◌∷◌, ◌≡◌, refl, sym, ap, arith,
}
use mm_wave_tracker.Prelude.Int.{ℤ, eqb_ℤ}
use mm_wave_tracker.Config.State.{test_running, display_results, iperf_done}
use mm_wave_tracker.Session.{Party, state, cookie}
use mm_wave_tracker.Session.Server.{
  iperf_accept, iperf_handle_message_server, take_stream, server_streams, server_control,
  server_pass,
}
use mm_wave_tracker.Session.System.Script.{Event, sends, receives, Conforms, Hits, Actor}
use mm_wave_tracker.Session.System.Scripts.{Plan, fresh, left, over}
use mm_wave_tracker.Session.System.ServerAt.{
  at_state, at_start, at_streams, answers, left_streams, ServerAt, starting, waiting, running,
  displayed, over_and_out,
}
use mm_wave_tracker.Session.System.ServerPasses.{
  waiting-Goes, start_pass-Goes, running_pass-Goes, displayed_pass-Goes,
}

moved :
    (P : Party → List Event → Type 0) {t u : Party} {es fs : List Event}
    → t ≡ u
    → es ≡ fs
    → P u fs
    → P t es
moved P {u} {es} q h c = subst (λ x. P x es) (sym q) (subst (λ gs. P u gs) (sym h) c)

module _ (p : Plan) where
  abbrev Passes : Party → List Event → Type 0
  Passes t es = Conforms (ServerAt p) (server_pass t) es

  abbrev Arrives : Party → List Event → Type 0
  Arrives t es = Hits (over p) (server_pass t) es

  pub Server-Conforms :
      (t : Party) (es : List Event)
      → eqb_ℤ t.state iperf_done ≡ false
      → ServerAt p t es
      → Conforms (ServerAt p) (server_pass t) es
  Server-Conforms t es on (starting q h) = moved Passes q h (start_pass-Goes p t)
  Server-Conforms t es on (waiting r a R s b S k l some q h) =
      moved Passes q h (waiting-Goes p r a R s b S t k l some)
  Server-Conforms t es on (running q h) = moved Passes q h (running_pass-Goes p t)
  Server-Conforms t es on (displayed q h) = moved Passes q h (displayed_pass-Goes p t)
  Server-Conforms t es on (over_and_out q h) =
      let same : t.state ≡ iperf_done = ap (λ (x : Party). x.state) q in
      let off : eqb_ℤ iperf_done iperf_done ≡ false =
        subst (λ s. eqb_ℤ s iperf_done ≡ false) same on in
      cc off

  stream-Hits :
      (r a R s b S : ℕ) (u : Party) → 0 < a + b → Arrives (at_streams r R s S u) (left_streams a b)
  unfolding server_pass server_control server_streams take_stream
  stream-Hits r zero R s zero S u h = absurd (omega arith)
  stream-Hits r zero R s (suc b) S u h = tt
  stream-Hits r (suc a) R s b S u h = tt

  start-Hits : (u : Party) → Arrives (at_start u) (answers (sends cookie ∷ left p fresh))
  unfolding server_pass iperf_accept
  start-Hits u = tt

  message-Hits :
      (st s : ℤ) (es : List Event) (u : Party) → Arrives (at_state st u) (receives (state s) ∷ es)
  unfolding server_pass server_control iperf_handle_message_server
  message-Hits st s es u = tt

  pub Server-Hits :
      (t : Party) (e : Event) (es : List Event)
      → ServerAt p t (e ∷ es)
      → Hits (over p) (server_pass t) (e ∷ es)
  Server-Hits t e es (starting q h) = moved Arrives q h (start-Hits t)
  Server-Hits t e es (waiting r a R s b S k l some q h) =
      moved Arrives q h (stream-Hits r a R s b S t some)
  Server-Hits t e es (running q h) = moved Arrives q h (message-Hits test_running _ _ t)
  Server-Hits t e es (displayed q h) = moved Arrives q h (message-Hits display_results _ _ t)
  Server-Hits t e es (over_and_out q h) = cc

  pub Server-goes_on :
      (t : Party) (e : Event) (es : List Event)
      → ServerAt p t (e ∷ es)
      → eqb_ℤ t.state iperf_done ≡ false
  Server-goes_on t e es (starting q h) = rw (ap (λ (x : Party). x.state) q) refl
  Server-goes_on t e es (waiting r a R s b S k l some q h) = rw (ap (λ (x : Party). x.state) q) refl
  Server-goes_on t e es (running q h) = rw (ap (λ (x : Party). x.state) q) refl
  Server-goes_on t e es (displayed q h) = rw (ap (λ (x : Party). x.state) q) refl
  Server-goes_on t e es (over_and_out q h) = cc

  pub Server-ended : (t : Party) → ServerAt p t [] → t.state ≡ iperf_done
  Server-ended t (starting q h) = cc
  Server-ended t (waiting r zero R s zero S k l some q h) = absurd (omega arith)
  Server-ended t (waiting r zero R s (suc b) S k l some q h) = cc
  Server-ended t (waiting r (suc a) R s b S k l some q h) = cc
  Server-ended t (running q h) = cc
  Server-ended t (displayed q h) = cc
  Server-ended t (over_and_out q h) = ap (λ (x : Party). x.state) q

  abbrev pub server_actor : Actor
  server_actor = record {
    Ends = Unit;
    pass = server_pass;
    At = ServerAt p;
    over = over p;
    pass-Conforms = Server-Conforms;
    pass-Hits = λ u. Server-Hits;
    goes_on = Server-goes_on;
    ended = Server-ended;
  }
