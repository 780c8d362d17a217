-- ===== src/Stream/Account.antt =====
-- The counting of `iperf_send` and `iperf_recv` of iperf_api.c, against what the streams report.
use mm_wave_tracker.Prelude.{
  ℕ, zero, suc, ◌+◌, ◌≡◌, refl, ◌∙◌, ◌⊎◌, true, false, not, ◌&&◌, List, [], ◌∷◌, Option, arith,
  Bool-cases, Option-cases, inl, inr,
}
use mm_wave_tracker.Prelude.Int.{pos, ltb_ℤ, eqb_ℤ, truthy}
use mm_wave_tracker.Prelude.Word.{u64}
use mm_wave_tracker.Prelude.Double.{Double}
use mm_wave_tracker.Time.{IperfTime}
use mm_wave_tracker.Net.{net_softerror}
use mm_wave_tracker.Stream.{
  Stream, Transfer, Routine, can_send, has_reached, is_below_rate, iperf_check_throttle,
  throttle_all, is_paced, after_snd, send_streams, after_round, send_rounds, rounds, iperf_send,
  iperf_recv, fd_isset, fd_clr,
}

pub not_negative : (n : ℕ) → ltb_ℤ (pos n) (pos 0) ≡ false
not_negative n = ground arith

module _ {W : Type 0} (total calls : W → ℕ) where
  -- `total` and `calls` are the bytes that the calls have reported with a result that is not negative,
  -- and how many calls did. What a call moves before it fails is in neither.
  abbrev pub Counts : Routine W → Type 0
  Counts f =
      (sp : Stream) (w : W)
      → ((ltb_ℤ (f sp w).0 (pos 0) ≡ true)
          × (total (f sp w).2 ≡ total w)
          × (calls (f sp w).2 ≡ calls w))
        ⊎ ((n : ℕ) × ((f sp w).0 ≡ pos n)
            × (total (f sp w).2 ≡ total w + n)
            × (calls (f sp w).2 ≡ suc (calls w)))

  -- The counters of a test went up by what was reported, modulo their 64 bits.
  pub record Balanced (bytes blocks : ℕ) (w : W) (bytes' blocks' : ℕ) (w' : W) : Type 0 where
    pub of_bytes : u64 (bytes' + total w) ≡ u64 (bytes + total w')
    pub of_blocks : u64 (blocks' + calls w) ≡ u64 (blocks + calls w')

  Balanced-trans :
      (a b c d e f : ℕ) (u v w : W)
      → Balanced a b u c d v
      → Balanced c d v e f w
      → Balanced a b u e f w
  Balanced-trans a b c d e f u v w p q = record {
    of_bytes = omega (arith, p.of_bytes, q.of_bytes);
    of_blocks = omega (arith, p.of_blocks, q.of_blocks);
  }

  one_block :
      (a b n : ℕ) (u v : W)
      → total v ≡ total u + n
      → calls v ≡ suc (calls u)
      → Balanced a b u (u64 (a + u64 n)) (u64 (b + 1)) v
  one_block a b n u v p q = record { of_bytes = omega arith; of_blocks = omega arith }

  unmoved : (a b : ℕ) (u v : W) → total v ≡ total u → calls v ≡ calls u → Balanced a b u a b v
  unmoved a b u v p q = record { of_bytes = omega arith; of_blocks = omega arith }

  module _ (rcv : Routine W) (counts : Counts rcv) where
    -- `iperf_recv` adds to the counters of the test, modulo 64 bits, the bytes that the routines of the
    -- streams report and one block for each call, and counts nothing for a call that fails and ends
    -- it: what that call has read before it failed is not counted.
    pub recv-Balanced :
        (set : List ℕ) (sps : List Stream) (t : Transfer) (w : W)
        → let m = iperf_recv rcv set sps t w in
          Balanced t.bytes_received t.blocks_received w m.transfer.bytes_received
            m.transfer.blocks_received m.world
    unfolding iperf_recv
    recv-Balanced set [] t w = record { of_bytes = refl; of_blocks = refl }
    recv-Balanced set (sp ∷ sps) t w =
        elim (Bool-cases (fd_isset sp.socket set && not (truthy sp.sender))) [
          | inr e ↦ rw (e, iperf_recv) (recv-Balanced set sps t w)
          | inl e ↦ elim (counts sp w) [
            | inl (neg, tot, cal) ↦
                rw (e, iperf_recv, neg)
                  (unmoved t.bytes_received t.blocks_received w (rcv sp w).2 tot cal)
            | inr (n, eq, tot, cal) ↦
                let t1 = record t {
                  bytes_received = u64 (t.bytes_received + u64 n);
                  blocks_received = u64 (t.blocks_received + 1);
                } in
                let v = (rcv sp w).2 in
                rw (e, iperf_recv, eq, not_negative n)
                  (Balanced-trans t.bytes_received t.blocks_received t1.bytes_received
                    t1.blocks_received _ _ w v _
                    (one_block t.bytes_received t.blocks_received n w v tot cal)
                    (recv-Balanced (fd_clr (rcv sp w).1.socket set) sps t1 v))
          ]
        ]

module _ {D : Type 0} (fp : Double D) where
  check_throttle-bytes :
      (sp : Stream) (now : IperfTime) (t : Transfer)
      → ((iperf_check_throttle fp sp now t).1.bytes_sent ≡ t.bytes_sent)
        × ((iperf_check_throttle fp sp now t).1.blocks_sent ≡ t.blocks_sent)
  unfolding iperf_check_throttle
  check_throttle-bytes sp now t = elim (Bool-cases (truthy t.done)) [
    | inl d ↦ rw (d, iperf_check_throttle) (refl, refl)
    | inr d ↦ elim (Bool-cases (is_below_rate fp sp now t)) [
      | inl e ↦ rw (d, iperf_check_throttle, e) (refl, refl)
      | inr e ↦ rw (d, iperf_check_throttle, e) (refl, refl)
    ]
  ]

  throttle_all-bytes :
      (sps : List Stream) (now : IperfTime) (t : Transfer)
      → ((throttle_all fp sps now t).1.bytes_sent ≡ t.bytes_sent)
        × ((throttle_all fp sps now t).1.blocks_sent ≡ t.blocks_sent)
  unfolding throttle_all
  throttle_all-bytes [] now t = (refl, refl)
  throttle_all-bytes (sp ∷ sps) now t =
      let (a, b) = check_throttle-bytes sp now t in
      let (c, d) = throttle_all-bytes sps now (iperf_check_throttle fp sp now t).1 in (c ∙ a, d ∙ b)

  after_snd-bytes :
      (n : ℕ) (now : IperfTime) (sp : Stream) (t : Transfer)
      → ((after_snd fp (pos n) now sp t).1.bytes_sent ≡ u64 (t.bytes_sent + u64 n))
        × ((after_snd fp (pos n) now sp t).1.blocks_sent ≡ u64 (t.blocks_sent + 1))
  unfolding after_snd is_paced
  after_snd-bytes n now sp t =
      let t' = record t {
        bytes_sent = u64 (t.bytes_sent + u64 n);
        blocks_sent = u64 (t.blocks_sent + 1);
      } in
      elim (Bool-cases (is_paced t')) [
        | inl e ↦ rw (after_snd, e) (check_throttle-bytes sp now t')
        | inr e ↦ rw (after_snd, e) (refl, refl)
      ]

module _ {D W : Type 0} (fp : Double D) (total calls : W → ℕ) (snd : Routine W)
    (counts : Counts total calls snd) where
  send_streams-Balanced :
      (multisend : ℕ) (set : Option (List ℕ)) (now : IperfTime) (sps : List Stream) (t : Transfer)
      (w : W)
      → let r = send_streams fp snd multisend set now sps t w in
        Balanced total calls t.bytes_sent t.blocks_sent w r.transfer.bytes_sent
          r.transfer.blocks_sent r.world
  unfolding send_streams
  send_streams-Balanced multisend set now [] t w = record { of_bytes = refl; of_blocks = refl }
  send_streams-Balanced multisend set now (sp ∷ sps) t w = elim (Bool-cases (can_send set sp)) [
    | inr e ↦ rw (e, send_streams) (send_streams-Balanced multisend set now sps t w)
    | inl e ↦ elim (counts sp w) [
      | inl (neg, tot, cal) ↦ elim (Bool-cases (eqb_ℤ (snd sp w).0 net_softerror)) [
        | inl s ↦
            rw (e, send_streams, neg, s)
              (unmoved total calls t.bytes_sent t.blocks_sent w (snd sp w).2 tot cal)
        | inr s ↦
            rw (e, send_streams, neg, s)
              (unmoved total calls t.bytes_sent t.blocks_sent w (snd sp w).2 tot cal)
      ]
      | inr (n, eq, tot, cal) ↦
          let v = (snd sp w).2 in
          let t2 = (after_snd fp (pos n) now (snd sp w).1 t).1 in
          let (eb, ek) = after_snd-bytes fp n now (snd sp w).1 t in
          let first : Balanced total calls t.bytes_sent t.blocks_sent w t2.bytes_sent t2.blocks_sent
              v =
            rw (eb, ek) (one_block total calls t.bytes_sent t.blocks_sent n w v tot cal) in
          elim (Bool-cases (has_reached multisend t2)) [
            | inl h ↦ rw (e, send_streams, eq, not_negative n, h) first
            | inr h ↦
                rw (e, send_streams, eq, not_negative n, h)
                  (Balanced-trans total calls t.bytes_sent t.blocks_sent t2.bytes_sent
                    t2.blocks_sent _ _ w v _ first
                    (send_streams-Balanced multisend set now sps t2 v))
          ]
    ]
  ]

  module _ (clock : W → IperfTime × W)
      (keeps : (w : W) → (total (clock w).1 ≡ total w) × (calls (clock w).1 ≡ calls w)) where
    one_round :
        (n : ℕ) (set : Option (List ℕ)) (now : IperfTime) (sps : List Stream) (t : Transfer)
        (w v : W)
        → total v ≡ total w
        → calls v ≡ calls w
        → ((sps' : List Stream) (t' : Transfer) (w' : W)
            → let r = send_rounds fp snd clock n set sps' t' w' in
              Balanced total calls t'.bytes_sent t'.blocks_sent w' r.transfer.bytes_sent
                r.transfer.blocks_sent r.world)
        → let r =
            after_round
              (λ sps' t' w'. send_rounds fp snd clock n set sps' t' w')
              (send_streams fp snd (suc n) set now sps t v) in
          Balanced total calls t.bytes_sent t.blocks_sent w r.transfer.bytes_sent
            r.transfer.blocks_sent r.world
    unfolding after_round
    one_round n set now sps t w v p q rest =
        let r = send_streams fp snd (suc n) set now sps t v in
        let first : Balanced total calls t.bytes_sent t.blocks_sent w r.transfer.bytes_sent
            r.transfer.blocks_sent r.world =
          Balanced-trans total calls t.bytes_sent t.blocks_sent t.bytes_sent t.blocks_sent _ _ w v _
            (unmoved total calls t.bytes_sent t.blocks_sent w v p q)
            (send_streams-Balanced (suc n) set now sps t v) in
        elim (Option-cases r.error) [
          | inr (x, e) ↦ rw (e, after_round) first
          | inl e ↦ elim (Bool-cases r.active) [
            | inr a ↦ rw (e, after_round, a) first
            | inl a ↦
                rw (e, after_round, a)
                  (Balanced-trans total calls t.bytes_sent t.blocks_sent r.transfer.bytes_sent
                    r.transfer.blocks_sent _ _ w r.world _ first
                    (rest r.streams r.transfer r.world))
          ]
        ]

    send_rounds-Balanced :
        (n : ℕ) (set : Option (List ℕ)) (sps : List Stream) (t : Transfer) (w : W)
        → let r = send_rounds fp snd clock n set sps t w in
          Balanced total calls t.bytes_sent t.blocks_sent w r.transfer.bytes_sent
            r.transfer.blocks_sent r.world
    unfolding send_rounds
    send_rounds-Balanced zero set sps t w = record { of_bytes = refl; of_blocks = refl }
    send_rounds-Balanced (suc n) set sps t w = elim (Bool-cases (is_paced t)) [
      | inl e ↦
          rw (e, send_rounds)
            (one_round n set (clock w).0 sps t w (clock w).1 (keeps w).0 (keeps w).1
              (λ sps' t' w'. send_rounds-Balanced n set sps' t' w'))
      | inr e ↦
          rw (e, send_rounds)
            (one_round n set record { secs = 0; usecs = 0 } sps t w w refl refl
              (λ sps' t' w'. send_rounds-Balanced n set sps' t' w'))
    ]

    -- `iperf_send` adds to the counters of the test, modulo 64 bits, the bytes that the routines of the
    -- streams report and one block for each call, whether a round ends early, an error ends it or
    -- bursts are throttled. It counts nothing for a call that fails: what that call has written before
    -- it failed is not counted. The clock moves nothing.
    pub send-Balanced :
        (set : Option (List ℕ)) (sps : List Stream) (t : Transfer) (w : W)
        → let m = iperf_send fp snd clock set sps t w in
          Balanced total calls t.bytes_sent t.blocks_sent w m.transfer.bytes_sent
            m.transfer.blocks_sent m.world
    unfolding iperf_send
    send-Balanced set sps t w =
        let r = send_rounds fp snd clock (rounds t) set sps t w in
        let first = send_rounds-Balanced (rounds t) set sps t w in
        elim (Option-cases r.error) [
          | inr (x, e) ↦ rw (e, iperf_send) first
          | inl e ↦ elim (Bool-cases (not (eqb_ℤ t.burst (pos 0)))) [
            | inr b ↦ rw (e, iperf_send, b) first
            | inl b ↦
                let (now, v) = clock r.world in
                let (eb, ek) = throttle_all-bytes fp r.streams now r.transfer in
                rw (e, iperf_send, b, eb, ek)
                  (Balanced-trans total calls t.bytes_sent t.blocks_sent r.transfer.bytes_sent
                    r.transfer.blocks_sent _ _ w r.world _ first
                    (unmoved total calls r.transfer.bytes_sent r.transfer.blocks_sent r.world v
                      (keeps r.world).0 (keeps r.world).1))
          ]
        ]
