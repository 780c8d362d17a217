-- ===== src/Stream/Tests.antt =====
-- Streams on concrete values. The world counts the bytes and the blocks that were moved.
use mm_wave_tracker.Prelude.{ℕ, ◌+◌, ◌≡◌, refl, [], ◌∷◌, none, some, arith, inr}
use mm_wave_tracker.Prelude.Int.{pos}
use mm_wave_tracker.Prelude.Samples.{whole}
use mm_wave_tracker.Time.{IperfTime}
use mm_wave_tracker.Stream.{
  Stream, Transfer, Routine, is_paced, throttle_all, after_snd, send_streams, after_round,
  send_rounds, rounds, iperf_send, iperf_recv, fd_isset,
}
use mm_wave_tracker.Stream.Throttle.{AllLit, AllDistinct, Avoids, throttle_all-AllLit}
use mm_wave_tracker.Stream.Account.{Counts, Balanced, recv-Balanced, send-Balanced}
use mm_wave_tracker.Timer.Count.{hit}

abbrev World : Type 0
World = ℕ × ℕ

abbrev total : World → ℕ
total w = w.0

abbrev calls : World → ℕ
calls w = w.1

-- A routine that moves 100 bytes each time.
abbrev hundred : Routine World
hundred sp (b, k) = (pos 100, record sp { bytes_sent = sp.bytes_sent + 100 }, (b + 100, k + 1))

hundred-Counts : Counts total calls hundred
hundred-Counts sp w = inr (100, refl, refl, omega arith)

abbrev clock : World → IperfTime × World
clock w = (record { secs = 10; usecs = 0 }, w)

abbrev first : Stream
first = record {
  socket = 3;
  sender = pos 1;
  green_light = pos 1;
  bytes_sent = 0;
  start_time_fixed = record { secs = 9; usecs = 0 };
}

abbrev second : Stream
second = record first { socket = 4; bytes_sent = 5000 }

abbrev receiving : Stream
receiving = record first { socket = 5; sender = pos 0 }

abbrev limited : Transfer
limited = record {
  done = pos 0;
  rate = 0;
  burst = pos 0;
  multisend = pos 3;
  bytes = 100;
  blocks = 0;
  bytes_sent = 0;
  blocks_sent = 0;
  bytes_received = 0;
  blocks_received = 0;
  write_set = [];
  i_errno = pos 0;
}

abbrev paced : Transfer
paced = record limited { rate = 1000; write_set = 4 ∷ [] }

-- The limit of 100 bytes ends a round, and not the rounds.
sends_past_limit :
    (iperf_send whole hundred clock none (first ∷ []) limited (0, 0)).transfer.blocks_sent ≡ 3
unfolding iperf_send send_rounds send_streams after_round after_snd rounds is_paced
sends_past_limit = refl

send-Balanced_example :
    let m = iperf_send whole hundred clock (some (3 ∷ [])) (first ∷ second ∷ []) limited (0, 0) in
    Balanced total calls 0 0 (0, 0) m.transfer.bytes_sent m.transfer.blocks_sent m.world
send-Balanced_example =
    send-Balanced whole total calls hundred hundred-Counts clock (λ w. (refl, refl)) (some (3 ∷ []))
      (first ∷ second ∷ []) limited (0, 0)

-- A routine over a world that counts the writes to the socket 3.
abbrev noted : Routine ℕ
noted sp w = (pos 100, sp, w + hit sp.socket 3)

abbrev noting_clock : ℕ → IperfTime × ℕ
noting_clock w = (record { secs = 0; usecs = 0 }, w)

recv-Balanced_example :
    let m = iperf_recv hundred (5 ∷ []) (first ∷ receiving ∷ []) limited (0, 0) in
    Balanced total calls 0 0 (0, 0) m.transfer.bytes_received m.transfer.blocks_received m.world
recv-Balanced_example =
    recv-Balanced total calls hundred hundred-Counts (5 ∷ []) (first ∷ receiving ∷ []) limited
      (0, 0)

two-AllDistinct : AllDistinct (first ∷ second ∷ [])
two-AllDistinct = ground arith

throttle_all-AllLit_example :
    let now : IperfTime = record { secs = 10; usecs = 0 } in
    let r = throttle_all whole (first ∷ second ∷ []) now paced in
    AllLit r.1.write_set r.0
    × ((s : ℕ) → Avoids s (first ∷ second ∷ []) → fd_isset s r.1.write_set ≡ fd_isset s (4 ∷ []))
throttle_all-AllLit_example =
    throttle_all-AllLit whole record { secs = 10; usecs = 0 } (first ∷ second ∷ []) paced refl
      two-AllDistinct
