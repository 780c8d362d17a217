-- ===== src/Udp.antt =====
-- iperfwrapperlib/iperf/src/iperf_udp.c: the datagrams of a UDP test. A datagram starts with the time
-- at which it was sent and a sequence number; the receiver counts what is missing and what is late.
-- A stream has the fields that these routines use. An `int` counter is an integer without wrap-around
-- where C leaves overflow undefined (`++`, `--`); a conversion from an unsigned type keeps the low bits.
pub mod Header
pub mod Missing
pub mod Arrival
pub mod Receive
pub mod Tests
use mm_wave_tracker.Prelude.{
  ℕ, ◌+◌, ◌-◌, ◌%◌, List, ◌++◌, Option, none, some, length, take, drop, ltb, leb, if◌then◌else◌,
}
use mm_wave_tracker.Prelude.Int.{ℤ, pos, ◌+ℤ◌, ◌-ℤ◌, ltb_ℤ, eqb_ℤ, truthy}
use mm_wave_tracker.Prelude.Word.{u64, u64_mod, to_int, to_u64, to_u32}
use mm_wave_tracker.Prelude.Octets.{be_encode, be_decode}
use mm_wave_tracker.Prelude.Double.{Double}
use mm_wave_tracker.Time.{IperfTime, iperf_time_diff}
use mm_wave_tracker.Net.{ReadResult, WriteResult, nread, nwrite}
use mm_wave_tracker.Config.State.{test_running}

-- The fields of `struct iperf_stream`, its result, its settings and its test that are used here.
pub record UdpStream (D : Type 0) : Type 0 where
  pub blksize : ℤ
  pub state : ℤ
  pub udp_counters_64bit : ℤ
  pub buffer : List ℕ
  pub packet_count : ℤ
  pub outoforder_packets : ℤ
  pub cnt_error : ℤ
  pub jitter : D
  pub prev_transit : D
  pub bytes_received : ℕ
  pub bytes_received_this_interval : ℕ
  pub bytes_sent : ℕ
  pub bytes_sent_this_interval : ℕ

-- The sent time and the sequence number, read from the front of the buffer: `uint32_t` and, with
-- 64-bit counters, `uint64_t`.
unfoldable pub get_header : ℤ → List ℕ → IperfTime × ℕ
unfolding be_decode
get_header wide buf = (
  record { secs = be_decode (take 4 buf); usecs = be_decode (take 4 (drop 4 buf)) },
  be_decode (take (if truthy wide then 8 else 4) (drop 8 buf)),
)

-- The time and the sequence number as `iperf_udp_send` lays them out. `packet_count` is an `int`.
unfoldable pub header : ℤ → IperfTime → ℤ → List ℕ
header wide t count =
    be_encode 4 t.secs
    ++ (be_encode 4 t.usecs
        ++ (if truthy wide then be_encode 8 (to_u64 count) else be_encode 4 (to_u32 count)))

-- A `memcpy` of bytes over the front of the buffer.
abbrev pub overwrite : List ℕ → List ℕ → List ℕ
overwrite bs buf = bs ++ drop (length bs) buf

module _ {D : Type 0} where
  -- The counters after a datagram with sequence number `pcount`. The `int` counters are compared and
  -- subtracted as `uint64_t`, and the results are stored as `int`.
  unfoldable pub count_arrival : ℕ → UdpStream D → UdpStream D
  count_arrival pcount sp =
      let next = to_u64 (sp.packet_count +ℤ pos 1) in
      if leb next pcount
      then record sp {
        cnt_error =
            if ltb next pcount
            then to_int (
                to_u64 sp.cnt_error
                + (u64 (pcount + u64_mod - 1) + u64_mod - to_u64 sp.packet_count) % u64_mod)
            else sp.cnt_error;
        packet_count = to_int pcount;
      }
      else record sp {
        outoforder_packets = sp.outoforder_packets +ℤ pos 1;
        cnt_error = if ltb_ℤ (pos 0) sp.cnt_error then sp.cnt_error -ℤ pos 1 else sp.cnt_error;
      }

module _ {D : Type 0} ⦃fp : Double D⦄ where
  -- `iperf_time_in_secs`.
  unfoldable pub iperf_time_in_secs : IperfTime → D
  iperf_time_in_secs t =
      fp.add (fp.of_int (pos t.secs)) (fp.div (fp.of_int (pos t.usecs)) (fp.of_int (pos 1000000)))

  -- The jitter of RFC 1889, from the transit time of this datagram and of the one before.
  unfoldable pub measure_jitter : IperfTime → IperfTime → UdpStream D → UdpStream D
  measure_jitter arrival_time sent_time sp =
      let transit = iperf_time_in_secs (iperf_time_diff arrival_time sent_time).1 in
      let d = fp.sub transit sp.prev_transit in
      let d' = if fp.lt d (fp.of_int (pos 0)) then fp.sub (fp.of_int (pos 0)) d else d in
      record sp {
        prev_transit = transit;
        jitter = fp.add sp.jitter (fp.div (fp.sub d' sp.jitter) (fp.of_int (pos 16)));
      }

  -- What `iperf_udp_recv` does after `Nread` returned `r`; `now` is the clock.
  unfoldable pub after_recv :
      {W : Type 0} → (W → IperfTime × W) → ℤ → UdpStream D → W → UdpStream D × W
  after_recv now r sp w =
      if ltb_ℤ (pos 0) r
      then (if eqb_ℤ sp.state test_running
          then (let (sent_time, pcount) = get_header sp.udp_counters_64bit sp.buffer in
              let counted = count_arrival pcount record sp {
                bytes_received = u64 (sp.bytes_received + to_u64 r);
                bytes_received_this_interval = u64 (sp.bytes_received_this_interval + to_u64 r);
              } in
              let (arrival_time, w') = now w in (measure_jitter arrival_time sent_time counted, w'))
          else (sp, w))
      else (sp, w)

  -- `iperf_udp_recv`: the return value, the stream and the world.
  unfoldable pub iperf_udp_recv :
      {W : Type 0}
      → (ℕ → W → ReadResult × W)
      → (W → IperfTime × W)
      → UdpStream D
      → W
      → Option (ℤ × UdpStream D × W)
  iperf_udp_recv read now sp w = elim (nread read (to_u64 sp.blksize) w) [
    | none ↦ none
    | some (r, bytes, w') ↦
        let (sp', w'') = after_recv now r record sp { buffer = overwrite bytes sp.buffer } w' in
        some (r, sp', w'')
  ]

  -- `iperf_udp_send`.
  unfoldable pub iperf_udp_send :
      {W : Type 0}
      → (List ℕ → W → WriteResult × W)
      → (W → IperfTime × W)
      → UdpStream D
      → W
      → Option (ℤ × UdpStream D × W)
  iperf_udp_send write now sp w =
      let (before, w1) = now w in
      let count = sp.packet_count +ℤ pos 1 in
      let buf = overwrite (header sp.udp_counters_64bit before count) sp.buffer in
      let sp1 = record sp { packet_count = count; buffer = buf } in
      elim (nwrite write (take (to_u64 sp.blksize) buf) w1) [
        | none ↦ none
        | some (r, w2) ↦ some (
          r,
          (if ltb_ℤ r (pos 0) then sp1 else record sp1 {
            bytes_sent = u64 (sp1.bytes_sent + to_u64 r);
            bytes_sent_this_interval = u64 (sp1.bytes_sent_this_interval + to_u64 r);
          }),
          w2,
        )
      ]
