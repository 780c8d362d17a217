-- ===== src/Results/Learn.antt =====
-- What one side of a test knows when it has read the results of the other.
use mm_wave_tracker.Prelude.{
  ℕ, ◌+◌, ◌-◌, ◌≡◌, refl, ◌∙◌, ap, ◌⊎◌, inl, inr, Bool, true, false, not, ◌&&◌, List, [], ◌∷◌,
  Option, none, some, ◌==◌, if◌then◌else◌, Bool-cases, Option-cases,
}
use mm_wave_tracker.Prelude.Int.{ℤ, pos, negsuc, truthy}
use mm_wave_tracker.Prelude.Word.{u64, u64_mod, to_u64, to_int}
use mm_wave_tracker.Prelude.Double.{Double}
use mm_wave_tracker.Exchange.Items.{IsExact}
use mm_wave_tracker.Results.{
  Counted, Tally, Document, bytes_transferred, sent_retransmits, take_values, is_only_receiver,
  goes_both_ways, send_results, concat,
}
use mm_wave_tracker.Results.Get.{
  copy_text, take_retransmits, take_output, take_streams, take_document, get_results,
}
use mm_wave_tracker.Results.Arrive.{told, all_told, Pairs, get_entries_lem}

module _ {D : Type 0} where
  -- A stream that sends knows what the peer `p` received of it, and the losses; one that receives
  -- knows what the peer sent after the period to omit. Its own counts are as they were.
  abbrev pub Knows : ℤ → Counted D → Counted D → Counted D → Type 0
  Knows has p old new =
      ((truthy old.sender ≡ true)
        × (new.bytes_received ≡ p.bytes_received)
        × (new.jitter ≡ p.jitter)
        × (new.cnt_error ≡ p.cnt_error)
        × (new.peer_packet_count ≡ p.packet_count)
        × (new.bytes_sent ≡ old.bytes_sent)
        × (new.stream_retrans ≡ old.stream_retrans)
        × (new.packet_count ≡ old.packet_count)
        × (new.bytes_sent_omit ≡ old.bytes_sent_omit))
      ⊎ ((truthy old.sender ≡ false)
          × (new.bytes_sent ≡ u64 (p.bytes_sent + u64_mod - p.bytes_sent_omit))
          × (new.stream_retrans ≡ (if truthy has then p.stream_retrans else negsuc 0))
          × (new.peer_packet_count ≡ p.packet_count)
          × (new.bytes_received ≡ old.bytes_received)
          × (new.cnt_error ≡ old.cnt_error)
          × (new.jitter ≡ old.jitter)
          × (new.packet_count ≡ old.packet_count)
          × (new.bytes_sent_omit ≡ old.bytes_sent_omit))

  abbrev pub AllKnow : ℤ → List (Counted D) → List (Counted D) → List (Counted D) → Type 0
  AllKnow has [] [] [] = Unit
  AllKnow has (p ∷ ps) (o ∷ os) (n ∷ ns) = Knows has p o n × AllKnow has ps os ns
  AllKnow has [] [] (n ∷ ns) = ⊥
  AllKnow has [] (o ∷ os) ns = ⊥
  AllKnow has (p ∷ ps) [] ns = ⊥
  AllKnow has (p ∷ ps) (o ∷ os) [] = ⊥

  transferred_received :
      (p : Counted D) → truthy p.sender ≡ false → bytes_transferred p ≡ p.bytes_received
  unfolding bytes_transferred
  transferred_received p h = rw (bytes_transferred, h) refl

  transferred_sent :
      (p : Counted D)
      → truthy p.sender ≡ true
      → bytes_transferred p ≡ u64 (p.bytes_sent + u64_mod - p.bytes_sent_omit)
  unfolding bytes_transferred
  transferred_sent p h = rw (bytes_transferred, h) refl

  retransmits_sent :
      (has : ℤ) (p : Counted D)
      → truthy p.sender ≡ true
      → sent_retransmits has p ≡ (if truthy has then p.stream_retrans else negsuc 0)
  unfolding sent_retransmits
  retransmits_sent has p h = rw (sent_retransmits, h) refl

  module _ (fp : Double D) where
    told-Knows :
        (has : ℤ) (p sp : Counted D)
        → truthy p.sender ≡ not (truthy sp.sender)
        → Knows has p sp (take_values (told fp has p) sp)
    unfolding take_values
    told-Knows has p sp w = elim (Bool-cases (truthy sp.sender)) [
      | inl e ↦ inl (
        e,
        rw (take_values, e) (transferred_received p (w ∙ ap not e)),
        rw (take_values, e) refl,
        rw (take_values, e) refl,
        rw (take_values, e) refl,
        rw (take_values, e) refl,
        rw (take_values, e) refl,
        rw (take_values, e) refl,
        rw (take_values, e) refl,
      )
      | inr e ↦ inr (
        e,
        rw (take_values, e) (transferred_sent p (w ∙ ap not e)),
        rw (take_values, e) (retransmits_sent has p (w ∙ ap not e)),
        rw (take_values, e) refl,
        rw (take_values, e) refl,
        rw (take_values, e) refl,
        rw (take_values, e) refl,
        rw (take_values, e) refl,
        rw (take_values, e) refl,
      )
    ]

    all_told-AllKnow :
        (has : ℤ) (ps sps : List (Counted D))
        → Pairs fp has ps sps
        → AllKnow has ps sps (all_told fp has ps sps)
    all_told-AllKnow has [] [] h = tt
    all_told-AllKnow has [] (sp ∷ sps) h = absurd h
    all_told-AllKnow has (p ∷ ps) [] h = absurd h
    all_told-AllKnow has (p ∷ ps) (sp ∷ sps) (f, i, w, o, h) =
        (told-Knows has p sp w, all_told-AllKnow has ps sps h)

-- An item that is a text, if there is one.
abbrev wrap : Option (List ℕ) → Option (Option (List ℕ))
wrap none = none
wrap (some s) = some (some s)

abbrev pub text_or : Option (List ℕ) → Option (List ℕ) → Option (List ℕ)
text_or none old = old
text_or (some s) old = some s

copied : (x old : Option (List ℕ)) → copy_text (wrap x) old ≡ some (text_or x old)
copied none old = refl
copied (some s) old = refl

sent_text :
    (b : Bool) (s : List ℕ) → (x : Option (List ℕ)) × ((if b then some (some s) else none) ≡ wrap x)
sent_text true s = (some s, refl)
sent_text false s = (none, refl)

module _ {D J : Type 0} where
  retransmits_taken :
      (has : ℤ) (u : Tally D J)
      → (a : ℤ) × (b : ℤ) × (take_retransmits has u
          ≡ record u { sender_has_retransmits = a; other_side_has_retransmits = b })
  unfolding take_retransmits
  retransmits_taken has u = elim (Bool-cases (is_only_receiver u.mode)) [
    | inl e ↦ (has, pos 0, rw (take_retransmits, e) refl)
    | inr e ↦ elim (Bool-cases (goes_both_ways u.mode)) [
      | inl f ↦ (u.sender_has_retransmits, has, rw (take_retransmits, e, f) refl)
      | inr f ↦
          (u.sender_has_retransmits, u.other_side_has_retransmits, rw (take_retransmits, e, f) refl)
    ]
  ]

  output_taken :
      (d : Document D J) (u : Tally D J) (x : Option (List ℕ))
      → d.server_output_text ≡ wrap x
      → (a : Option J) × (b : Option (List ℕ)) × (take_output d u
          ≡ some record u { json_server_output = a; server_output_text = b })
  unfolding take_output
  output_taken d u x w = elim (Bool-cases ((u.role == b'c') && truthy u.get_server_output)) [
    | inr e ↦ (u.json_server_output, u.server_output_text, rw (take_output, e) refl)
    | inl e ↦ elim (Option-cases d.server_output_json) [
      | inr (j, f) ↦ (some j, u.server_output_text, rw (take_output, e, f) refl)
      | inl f ↦
          let c = copied x u.server_output_text in
          (u.json_server_output, text_or x u.server_output_text, rw (take_output, e, f, w, c) refl)
    ]
  ]

  results_sent :
      (fp : Double D) (stored : ℤ → ℤ) (t : Tally D J)
      → (x : Option (List ℕ)) × ((send_results fp stored t).server_output_text ≡ wrap x)
  unfolding send_results
  results_sent fp stored t =
      sent_text (((t.role == b's') && truthy t.get_server_output) && not (truthy t.json_output))
        (concat t.server_output_list)

  congestion_sent :
      (fp : Double D) (stored : ℤ → ℤ) (t : Tally D J)
      → (send_results fp stored t).congestion_used ≡ wrap t.congestion_used
  unfolding send_results
  congestion_sent fp stored t = elim (Option-cases t.congestion_used) [
    | inl e ↦ rw (e) refl
    | inr (c, e) ↦ rw (e) refl
  ]

  -- A side that reads the results of its peer, whose streams have the same ids in the same order and
  -- the other directions, whose `int`s are in range and whose bytes are at most 2^53, returns 0
  -- without a crash or an error. Each of its streams that sends then has the bytes, the jitter, the
  -- losses and the count of datagrams of the peer's stream, and its own bytes sent, retransmits and
  -- count of datagrams are as before. Each that receives has the bytes that the peer sent after the
  -- period to omit and the peer's retransmits, -1 if the peer does not count them, and its own bytes received, losses, jitter and count of datagrams are as before. It has the use of the
  -- peer's processor, and the peer's congestion control where that has one.
  pub results-AllKnow :
      (fp : Double D) (stored : ℤ → ℤ) (exact : (n : ℤ) → IsExact n → stored n ≡ n)
      (t u : Tally D J)
      → Pairs fp t.sender_has_retransmits t.streams u.streams
      → (u' : Tally D J) × (get_results fp (some (send_results fp stored t)) u ≡ some (pos 0, u'))
        × AllKnow t.sender_has_retransmits t.streams u.streams u'.streams
        × (u'.remote_cpu_util ≡ t.cpu_util)
        × (u'.remote_congestion_used ≡ text_or t.congestion_used u.remote_congestion_used)
        × (u'.i_errno ≡ u.i_errno)
  unfolding get_results take_document take_streams send_results
  results-AllKnow fp stored exact t u h =
      let d = send_results fp stored t in
      let has = t.sender_has_retransmits in
      let n = if is_only_receiver t.mode then negsuc 0 else has in
      let u1 = record u { remote_cpu_util = (t.cpu_util.0, t.cpu_util.1, t.cpu_util.2) } in
      let (a, b, r) = retransmits_taken (to_int (to_u64 (stored n))) u1 in
      let u2 = record u1 { sender_has_retransmits = a; other_side_has_retransmits = b } in
      let l = all_told fp has t.streams u.streams in
      let g = get_entries_lem fp stored exact has (pos 0) u.i_errno t.streams u.streams h in
      let u3 = record u2 { streams = l } in
      let (x, w) = results_sent fp stored t in
      let (j, s, o) = output_taken d u3 x w in
      let u4 = record u3 { json_server_output = j; server_output_text = s } in
      let k = copied t.congestion_used u.remote_congestion_used in
      (
        record u4 { remote_congestion_used = text_or t.congestion_used u.remote_congestion_used },
        rw (get_results, take_document, take_streams, r, g, o, congestion_sent fp stored t, k) refl,
        all_told-AllKnow fp has t.streams u.streams h,
        refl,
        refl,
        refl,
      )
