-- ===== src/Results/Arrive.antt =====
-- What each stream has after the results of the peer were read.
use mm_wave_tracker.Prelude.{
  ℕ, ◌≤◌, ◌≡◌, refl, sym, ◌∙◌, ap, true, false, not, List, [], ◌∷◌, some, arith, Bool-cases,
  Option-cases, inl, inr,
}
use mm_wave_tracker.Prelude.Int.{ℤ, pos, negsuc, eqb_ℤ, truthy}
use mm_wave_tracker.Prelude.Word.{to_u64}
use mm_wave_tracker.Prelude.Double.{Double}
use mm_wave_tracker.Exchange.Items.{IsExact}
use mm_wave_tracker.Exchange.Sent.{IsInt, stored_int}
use mm_wave_tracker.Results.{
  Counted, Values, entry, entries, bytes_transferred, sent_retransmits, seconds_between,
  read_values, take_values, take_by_id, get_entry, get_entries,
}
use mm_wave_tracker.Config.Errno.{iestreamid}
use mathlib.Core.Path.{subst}

-- No stream of a list has the id.
abbrev AllOther : {D : Type 0} → ℤ → List (Counted D) → Type 0
AllOther sid [] = Unit
AllOther sid (p ∷ ps) = (eqb_ℤ sid p.id ≡ false) × AllOther sid ps

-- The numbers of a stream: its `int`s in range, and its bytes exact as a `double`.
pub record Fits {D : Type 0} (has : ℤ) (sp : Counted D) : Type 0 where
  pub id : IsInt sp.id
  pub bytes : bytes_transferred sp ≤ 9007199254740992
  pub retransmits : IsInt (sent_retransmits has sp)
  pub errors : IsInt sp.cnt_error
  pub packets : IsInt sp.packet_count

module _ {D : Type 0} (fp : Double D) where
  -- What a stream tells the peer.
  abbrev pub told : ℤ → Counted D → Values D
  told has sp = record {
    bytes = bytes_transferred sp;
    retransmits = sent_retransmits has sp;
    jitter = sp.jitter;
    errors = sp.cnt_error;
    packets = sp.packet_count;
    seconds =
        fp.sub (seconds_between fp sp.start_time sp.end_time)
          (seconds_between fp sp.start_time sp.start_time);
  }

  -- The streams of one side, each with the values of its peer.
  abbrev pub all_told : ℤ → List (Counted D) → List (Counted D) → List (Counted D)
  all_told has (p ∷ ps) (sp ∷ sps) = take_values (told has p) sp ∷ all_told has ps sps
  all_told has [] sps = sps
  all_told has ps [] = []

  -- The streams of both sides have the same ids in the same order, and no id twice; where one side
  -- sends the other receives.
  abbrev pub Pairs : ℤ → List (Counted D) → List (Counted D) → Type 0
  Pairs has [] [] = Unit
  Pairs has (p ∷ ps) (sp ∷ sps) =
      Fits has p
      × (sp.id ≡ p.id)
      × (truthy p.sender ≡ not (truthy sp.sender))
      × AllOther p.id ps
      × Pairs has ps sps
  Pairs has [] (sp ∷ sps) = ⊥
  Pairs has (p ∷ ps) [] = ⊥

  AllFit : ℤ → List (Counted D) → Type 0
  AllFit has [] = Unit
  AllFit has (p ∷ ps) = Fits has p × AllFit has ps

  Pairs-AllFit : (has : ℤ) (ps sps : List (Counted D)) → Pairs has ps sps → AllFit has ps
  unfolding AllFit
  Pairs-AllFit has [] [] h = tt
  Pairs-AllFit has [] (sp ∷ sps) h = tt
  Pairs-AllFit has (p ∷ ps) [] h = absurd h
  Pairs-AllFit has (p ∷ ps) (sp ∷ sps) (f, e, w, o, h) = (f, Pairs-AllFit has ps sps h)

  eqb_refl : (n : ℤ) → eqb_ℤ n n ≡ true
  eqb_refl (pos n) = ground arith
  eqb_refl (negsuc n) = ground arith

  take-id : (v : Values D) (sp : Counted D) → (take_values v sp).id ≡ sp.id
  unfolding take_values
  take-id v sp = elim (Bool-cases (truthy sp.sender)) [
    | inl e ↦ rw (take_values, e) refl
    | inr e ↦ rw (take_values, e) refl
  ]

  module _ (stored : ℤ → ℤ) (exact : (n : ℤ) → IsExact n → stored n ≡ n) where
    stored_bytes : (n : ℕ) → n ≤ 9007199254740992 → to_u64 (stored (pos n)) ≡ n
    stored_bytes n h = ap to_u64 (exact (pos n) h) ∙ omega arith

    read-entry :
        (has : ℤ) (p : Counted D)
        → Fits has p
        → read_values fp (entry fp stored has p) ≡ some (p.id, told has p)
    unfolding read_values entry
    read-entry has p f =
        rw
          (
            stored_int stored exact p.id f.id,
            stored_bytes (bytes_transferred p) f.bytes,
            stored_int stored exact (sent_retransmits has p) f.retransmits,
            stored_int stored exact p.cnt_error f.errors,
            stored_int stored exact p.packet_count f.packets,
          )
          refl

    -- A stream that no entry names is left alone.
    get_entries-other :
        (has : ℤ) (ps : List (Counted D)) (b : Counted D) (r e : ℤ) (l : List (Counted D))
        → AllFit has ps
        → AllOther b.id ps
        → let x = get_entries fp (entries fp stored has ps) (r, e, l) in
          get_entries fp (entries fp stored has ps) (r, e, b ∷ l) ≡ (x.0, x.1, b ∷ x.2)
    unfolding get_entries get_entry take_by_id AllFit
    get_entries-other has [] b r e l f o = refl
    get_entries-other has (p ∷ ps) b r e l (f, fs) (d, o) =
        elim (Option-cases (take_by_id p.id (told has p) l)) [
          | inl n ↦
              rw (get_entries, get_entry, read-entry has p f, take_by_id, d, n)
                (get_entries-other has ps b (negsuc 0) iestreamid l fs o)
          | inr (l', s) ↦
              rw (get_entries, get_entry, read-entry has p f, take_by_id, d, s)
                (get_entries-other has ps b r e l' fs o)
        ]

    pub get_entries_lem :
        (has r e : ℤ) (ps sps : List (Counted D))
        → Pairs has ps sps
        → get_entries fp (entries fp stored has ps) (r, e, sps) ≡ (r, e, all_told has ps sps)
    unfolding get_entries get_entry take_by_id
    get_entries_lem has r e [] [] h = refl
    get_entries_lem has r e [] (sp ∷ sps) h = absurd h
    get_entries_lem has r e (p ∷ ps) [] h = absurd h
    get_entries_lem has r e (p ∷ ps) (sp ∷ sps) (f, i, w, o, h) =
        let v = told has p in
        let same = ap (λ n. eqb_ℤ n p.id) i ∙ eqb_refl p.id in
        let o' = subst (λ n. AllOther n ps) (sym (take-id v sp ∙ i)) o in
        rw (get_entries, get_entry, read-entry has p f, take_by_id, same)
          (get_entries-other has ps (take_values v sp) r e sps (Pairs-AllFit has ps sps h) o'
            ∙ ap (λ x. (x.0, x.1, take_values v sp ∷ x.2)) (get_entries_lem has r e ps sps h))
