-- ===== src/Udp/Tests.antt =====
-- Datagrams on concrete values.
use mm_wave_tracker.Prelude.{
  ℕ, ◌+◌, ◌≡◌, refl, List, [], ◌∷◌, ◌++◌, some, arith, length, take, take-length, ap, sym,
  if◌then◌else◌, Gives,
}
use mm_wave_tracker.Prelude.Int.{ℤ, pos, ltb_ℤ, ◌+ℤ◌, ◌-ℤ◌}
use mm_wave_tracker.Prelude.Word.{u64, to_u64}
use mm_wave_tracker.Prelude.Octets.{be_decode}
use mm_wave_tracker.Prelude.Samples.{whole}
use mm_wave_tracker.Time.{IperfTime}
use mm_wave_tracker.Net.{ReadResult, got, WriteResult, took, nread, nread_loop, after_read}
use mm_wave_tracker.Net.Write.{Sends, IsWriting}
use mm_wave_tracker.Config.State.{test_running, test_end}
use mm_wave_tracker.Udp.{
  UdpStream, header, get_header, overwrite, count_arrival, iperf_udp_recv, iperf_udp_send,
}
use mm_wave_tracker.Udp.Header.{get_header-header}
use mm_wave_tracker.Udp.Missing.{missing, highest}
use mm_wave_tracker.Udp.Arrival.{IsFresh, Matches, AllFresh, after_arrivals, arrivals_lem}
use mm_wave_tracker.Udp.Receive.{recv-Matches, send_lem}

abbrev cleared : UdpStream ℤ
cleared = record {
  blksize = pos 16;
  state = test_running;
  udp_counters_64bit = pos 0;
  buffer = [];
  packet_count = pos 0;
  outoforder_packets = pos 0;
  cnt_error = pos 0;
  jitter = pos 0;
  prev_transit = pos 0;
  bytes_received = 0;
  bytes_received_this_interval = 0;
  bytes_sent = 0;
  bytes_sent_this_interval = 0;
}

-- 1, 2, 5 and then 3 have arrived; 4 is missing.
abbrev arrived : List ℕ
arrived = 3 ∷ 5 ∷ 2 ∷ 1 ∷ []

counts_one_loss :
    after_arrivals arrived cleared
    ≡ record cleared { packet_count = pos 5; cnt_error = pos 1; outoforder_packets = pos 1 }
unfolding after_arrivals count_arrival ◌+ℤ◌ ◌-ℤ◌
counts_one_loss = refl

arrived-AllFresh : AllFresh arrived
arrived-AllFresh = ground arith

arrivals_lem_example :
    Matches arrived (after_arrivals arrived cleared)
    × (missing (highest arrived) arrived + length arrived ≡ highest arrived)
arrivals_lem_example = arrivals_lem arrived cleared arrived-AllFresh refl refl refl

abbrev stamp : IperfTime
stamp = record { secs = 70000; usecs = 999999 }

get_header-header_example :
    get_header (pos 1) (overwrite (header (pos 1) stamp (pos 300)) (7 ∷ 7 ∷ [])) ≡ (stamp, 300)
get_header-header_example =
    get_header-header (pos 1) stamp 300 (7 ∷ 7 ∷ []) (omega arith) (omega arith) (omega arith)

-- A datagram with number 2 and a clock that stands still.
abbrev datagram : List ℕ
datagram = 0 ∷ 0 ∷ 0 ∷ 4 ∷ 0 ∷ 0 ∷ 0 ∷ 9 ∷ 0 ∷ 0 ∷ 0 ∷ 2 ∷ 1 ∷ 1 ∷ 1 ∷ 1 ∷ []

abbrev one_datagram : ℕ → List ℕ → ReadResult × List ℕ
one_datagram n w = (got datagram, w)

abbrev still : List ℕ → IperfTime × List ℕ
still w = (stamp, w)

reads_one : nread one_datagram (to_u64 cleared.blksize) [] ≡ some (pos 16, datagram, [])
unfolding nread nread_loop after_read
reads_one = refl

cleared-Matches : Matches [] cleared
cleared-Matches = record { bounded = omega arith; counts = refl; losses = refl; disorder = refl }

datagram-IsFresh : IsFresh (get_header (pos 0) (overwrite datagram [])).1 []
unfolding get_header be_decode
datagram-IsFresh = record { positive = omega arith; small = omega arith; new = refl }

recv-Matches_example :
    Gives
      (λ (r : ℤ × UdpStream ℤ × List ℕ).
        (r.0 ≡ pos 16)
        × Matches ((get_header (pos 0) (overwrite datagram [])).1 ∷ []) r.1
        × (r.1.bytes_received ≡ u64 (0 + u64 16)))
      (iperf_udp_recv ⦃fp = whole⦄ one_datagram still cleared [])
recv-Matches_example =
    recv-Matches ⦃fp = whole⦄ one_datagram still cleared [] [] [] 15 datagram cleared-Matches refl
      reads_one datagram-IsFresh

abbrev ended : UdpStream ℤ
ended = record cleared { state = test_end }

abbrev write_all : List ℕ → List ℕ → WriteResult × List ℕ
write_all bs w = (took (length bs), w ++ bs)

write_all-Sends : (bs w : List ℕ) → Sends (λ v. v) bs w (write_all bs w)
write_all-Sends bs w = (omega arith, ap (λ v. w ++ v) (sym (take-length bs)))

send_lem_example :
    Gives
      (λ (r : ℤ × UdpStream ℤ × List ℕ).
        (get_header (pos 0) r.1.buffer ≡ (stamp, 1))
        × (r.1.packet_count ≡ pos 1)
        × IsWriting (λ v. v) [] (take 16 r.1.buffer) (r.0, r.2)
        × (r.1.bytes_sent ≡ (if ltb_ℤ r.0 (pos 0) then 0 else u64 (0 + to_u64 r.0))))
      (iperf_udp_send ⦃fp = whole⦄ write_all still cleared [])
send_lem_example =
    send_lem ⦃fp = whole⦄ write_all (λ v. v) still cleared [] 0 write_all-Sends refl (omega arith)
      (omega arith) (omega arith)
