-- ===== src/Udp/Receive.antt =====
-- `iperf_udp_send` and `iperf_udp_recv` as a whole.
use mm_wave_tracker.Prelude.{
  ℕ, suc, ◌+◌, ◌<◌, ◌≡◌, refl, ◌∙◌, ap, true, List, ◌∷◌, some, arith, leb, if◌then◌else◌,
  Bool-cases, inl, inr, take, Gives, Gives-bind,
}
use mm_wave_tracker.Prelude.Int.{ℤ, pos, ltb_ℤ, ◌+ℤ◌}
use mm_wave_tracker.Prelude.Word.{u64, u32_mod, to_u64}
use mm_wave_tracker.Prelude.Double.{Double}
use mm_wave_tracker.Time.{IperfTime}
use mm_wave_tracker.Net.{ReadResult, WriteResult, nread, nwrite}
use mm_wave_tracker.Net.Write.{Sends, IsWriting, nwrite_lem}
use mm_wave_tracker.Config.State.{test_running}
use mm_wave_tracker.Udp.{
  UdpStream, count_arrival, get_header, header, overwrite, measure_jitter, after_recv,
  iperf_udp_recv, iperf_udp_send,
}
use mm_wave_tracker.Udp.Header.{get_header-header}
use mm_wave_tracker.Udp.Arrival.{IsFresh, Matches, count_arrival-Matches}

one_more : (n : ℕ) → pos n +ℤ pos 1 ≡ pos (suc n)
unfolding ◌+ℤ◌
one_more n = ground arith

positive : (n : ℕ) → ltb_ℤ (pos 0) (pos (suc n)) ≡ true
positive n = ground arith

module _ {D : Type 0} where
  count_arrival-bytes :
      (p : ℕ) (sp : UdpStream D) → (count_arrival p sp).bytes_received ≡ sp.bytes_received
  unfolding count_arrival
  count_arrival-bytes p sp = elim (Bool-cases (leb (to_u64 (sp.packet_count +ℤ pos 1)) p)) [
    | inl e ↦ rw (e) refl
    | inr e ↦ rw (e) refl
  ]

module _ {D W : Type 0} ⦃fp : Double D⦄ where
  -- When the counters say what has arrived and a running test reads a datagram with a sequence number
  -- that is new, `iperf_udp_recv` returns its length, adds that to the bytes received, modulo 64
  -- bits, and the counters then say what has arrived with this datagram included.
  pub recv-Matches :
      (read : ℕ → W → ReadResult × W) (now : W → IperfTime × W) (sp : UdpStream D) (w w' : W)
      (xs : List ℕ) (n : ℕ) (bytes : List ℕ)
      → Matches xs sp
      → sp.state ≡ test_running
      → nread read (to_u64 sp.blksize) w ≡ some (pos (suc n), bytes, w')
      → IsFresh (get_header sp.udp_counters_64bit (overwrite bytes sp.buffer)).1 xs
      → Gives
          (λ (r : ℤ × UdpStream D × W).
            (r.0 ≡ pos (suc n))
            × Matches ((get_header sp.udp_counters_64bit (overwrite bytes sp.buffer)).1 ∷ xs) r.1
            × (r.1.bytes_received ≡ u64 (sp.bytes_received + u64 (suc n))))
          (iperf_udp_recv read now sp w)
  unfolding iperf_udp_recv after_recv measure_jitter
  recv-Matches read now sp w w' xs n bytes m s e f =
      let p = (get_header sp.udp_counters_64bit (overwrite bytes sp.buffer)).1 in
      let counted = record sp {
        state = test_running;
        buffer = overwrite bytes sp.buffer;
        bytes_received = u64 (sp.bytes_received + u64 (suc n));
        bytes_received_this_interval = u64 (sp.bytes_received_this_interval + u64 (suc n));
      } in
      let c = count_arrival-Matches p xs counted f record {
        bounded = m.bounded;
        counts = m.counts;
        losses = m.losses;
        disorder = m.disorder;
      } in
      rw (e, iperf_udp_recv, after_recv, positive n, s)
        (
          refl,
          record {
            bounded = c.bounded;
            counts = c.counts;
            losses = c.losses;
            disorder = c.disorder;
          },
          count_arrival-bytes p counted,
        )

  -- `iperf_udp_send` returns; the buffer then starts with the clock's time and the next sequence
  -- number as the receiver reads them, only what is in the buffer has been written, and the bytes
  -- are counted unless the write failed.
  pub send_lem :
      (write : List ℕ → W → WriteResult × W) (sent : W → List ℕ) (now : W → IperfTime × W)
      (sp : UdpStream D) (w : W) (n : ℕ)
      → ((bs : List ℕ) (v : W) → Sends sent bs v (write bs v))
      → sp.packet_count ≡ pos n
      → suc n < 2147483648
      → (now w).0.secs < u32_mod
      → (now w).0.usecs < u32_mod
      → Gives
          (λ (r : ℤ × UdpStream D × W).
            (get_header sp.udp_counters_64bit r.1.buffer ≡ ((now w).0, suc n))
            × (r.1.packet_count ≡ pos (suc n))
            × IsWriting sent (sent (now w).1) (take (to_u64 sp.blksize) r.1.buffer) (r.0, r.2)
            × (r.1.bytes_sent
                ≡ (if ltb_ℤ r.0 (pos 0) then sp.bytes_sent else u64 (sp.bytes_sent + to_u64 r.0))))
          (iperf_udp_send write now sp w)
  unfolding iperf_udp_send
  send_lem write sent now sp w n sends e h hs hu =
      let t = (now w).0 in
      let buf = overwrite (header sp.udp_counters_64bit t (sp.packet_count +ℤ pos 1)) sp.buffer in
      let count = ap (λ c. c +ℤ pos 1) e ∙ one_more n in
      let read_back : get_header sp.udp_counters_64bit buf ≡ (t, suc n) =
        rw (count) (get_header-header sp.udp_counters_64bit t (suc n) sp.buffer hs hu h) in
      Gives-bind (IsWriting sent (sent (now w).1) (take (to_u64 sp.blksize) buf)) _
        (nwrite write (take (to_u64 sp.blksize) buf) (now w).1) _
        (nwrite_lem write sent sends (take (to_u64 sp.blksize) buf) (now w).1)
        (λ (r, w') p. elim (Bool-cases (ltb_ℤ r (pos 0))) [
          | inl b ↦ rw (b) (read_back, count, p, refl)
          | inr b ↦ rw (b) (read_back, count, p, refl)
        ])
