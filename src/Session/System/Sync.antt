-- ===== src/Session/System/Sync.antt =====
-- A side that conforms to its script, and whose messages are those that the other side's script
-- waits for, stays so in every step.
use mm_wave_tracker.Prelude.{
  Bool, true, false, Option, List, [], ◌∷◌, ◌++◌, ◌≡◌, ◌⊎◌, inl, inr, map, refl, sym, ap, ◌∙◌,
}
use mm_wave_tracker.Session.{Message, Ready, Program, select_failed, timed_out, ready}
use mm_wave_tracker.Session.System.{
  Unless, IsPossible, Move, arrive, writes, reads, calls, acts, looks, selects, loops,
}
use mm_wave_tracker.Session.System.Script.{
  Event, sends, receives, dual, dual-dual, expected, Conforms, Actor,
}

-- One of the two is ahead: what it has sent is in the other's inbox, and its own is empty.
abbrev pub InSync : List Event → List Event → List Message → List Message → Type 0
InSync es fs inbox box =
    ((inbox ≡ []) × (fs ≡ map receives box ++ map dual es))
    ⊎ ((box ≡ []) × (es ≡ map receives inbox ++ map dual fs))

pub InSync-sym :
    {es fs : List Event} {inbox box : List Message}
    → InSync es fs inbox box
    → InSync fs es box inbox
InSync-sym (inl h) = inr h
InSync-sym (inr h) = inl h

Unless-empty : (b : Bool) (P : Type 0) → Unless b ⊥ → Unless b P
Unless-empty true P h = absurd h
Unless-empty false P h = tt

IsPossible-empty : (r : Ready) (box : List Message) → IsPossible r [] → IsPossible r box
IsPossible-empty select_failed box h = h
IsPossible-empty timed_out box h = h
IsPossible-empty (ready l c s d) box h =
    (Unless-empty l _ h.0, Unless-empty c _ h.1, Unless-empty s _ h.2)

IsPossible-head :
    (r : Ready) (m : Message) (ms : List Message) → IsPossible r (m ∷ ms) → IsPossible r (m ∷ [])
IsPossible-head select_failed m ms h = h
IsPossible-head timed_out m ms h = h
IsPossible-head (ready l c s d) m ms h = h

IsPossible-expected :
    {es fs : List Event} (inbox : List Message) {box : List Message} (r : Ready)
    → InSync es fs inbox box
    → IsPossible r inbox
    → IsPossible r (expected es)
IsPossible-expected {es} [] r sync h = IsPossible-empty r (expected es) h
IsPossible-expected (m ∷ ms) r (inl (e, f)) h = cc
IsPossible-expected (m ∷ ms) r (inr (e, f)) h = rw f (IsPossible-head r m ms h)

received_snoc :
    (box : List Message) (m : Message) (es : List Event)
    → map receives (box ++ (m ∷ [])) ++ es ≡ map receives box ++ (receives m ∷ es)
received_snoc [] m es = refl
received_snoc (x ∷ box) m es = ap (λ fs. receives x ∷ fs) (received_snoc box m es)

pub sent-InSync :
    {es es' fs : List Event} {m : Message} (inbox : List Message) {box : List Message}
    → InSync es fs inbox box
    → es ≡ sends m ∷ es'
    → InSync es' fs inbox (box ++ (m ∷ []))
sent-InSync {es'} {m} inbox {box} (inl (e, f)) h =
    inl
      (e, f ∙ ap (λ x. map receives box ++ map dual x) h ∙ sym (received_snoc box m (map dual es')))
sent-InSync {es'} {fs} {m} [] (inr (e, f)) h =
    inl (refl, rw e (sym (dual-dual fs) ∙ ap (map dual) (sym f ∙ h)))
sent-InSync (x ∷ inbox) (inr (e, f)) h = cc

pub received-InSync :
    {es es' fs : List Event} {m n : Message} {inbox box : List Message}
    → InSync es fs (m ∷ inbox) box
    → es ≡ receives n ∷ es'
    → (n ≡ m) × InSync es' fs inbox box
received-InSync (inl (e, f)) h = cc
received-InSync (inr (e, f)) h = (cc, inr (e, cc))

module _ (a : Actor) where
  open a use {pass, At, pass-Conforms}

  pub Move-Conforms :
      {p p' : Program} {inbox inbox' : List Message} {out : Option Message}
      → Move pass p inbox p' inbox' out
      → (es fs : List Event) (box : List Message) → Conforms At p es
      → InSync es fs inbox box
      → (es' : List Event) × Conforms At p' es' × InSync es' fs inbox' (arrive out box)
  Move-Conforms (writes {inbox}) es fs box (es', e, c) s = (es', c, sent-InSync inbox s e)
  Move-Conforms (reads {k}) es fs box (n, es', e, q, c) s =
      let (same, s') = received-InSync s e in (es', rw same at c, s')
  Move-Conforms calls es fs box c s = (es, c, s)
  Move-Conforms acts es fs box c s = (es, c, s)
  Move-Conforms (looks g) es fs box c s = (es, c g, s)
  Move-Conforms (selects {inbox} r h) es fs box c s = (es, c r (IsPossible-expected inbox r s h), s)
  Move-Conforms (loops {t} h) es fs box (ok, c) s = (es, pass-Conforms t es h c, s)
