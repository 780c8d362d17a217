-- ===== src/Stream.antt =====
-- iperfwrapperlib/iperf/src/iperf_api.c: `iperf_send` and `iperf_recv`, which move data over the
-- streams of a test, and `iperf_check_throttle`, which holds a stream back to the wanted rate.
-- A set of descriptors is a list. The functions that a stream points to are arguments.
pub mod Sets
pub mod Throttle
pub mod Account
pub mod Bound
pub mod Tests
use mm_wave_tracker.Prelude.{
  ℕ, zero, suc, ◌+◌, ◌*◌, Bool, true, false, not, ◌&&◌, ◌||◌, List, [], ◌∷◌, Option, none, some,
  ltb, leb, ◌==◌, if◌then◌else◌,
}
use mm_wave_tracker.Prelude.Int.{ℤ, pos, pos_part, ltb_ℤ, eqb_ℤ, truthy}
use mm_wave_tracker.Prelude.Word.{u64, to_u64}
use mm_wave_tracker.Prelude.Double.{Double}
use mm_wave_tracker.Time.{IperfTime, iperf_time_diff}
use mm_wave_tracker.Net.{net_softerror}
use mm_wave_tracker.Config.Errno.{iestreamwrite, iestreamread}
use mm_wave_tracker.Udp.{iperf_time_in_secs}

-- FD_ISSET, FD_SET and FD_CLR.
unfoldable pub fd_isset : ℕ → List ℕ → Bool
fd_isset s [] = false
fd_isset s (x ∷ xs) = if s == x then true else fd_isset s xs

unfoldable pub fd_set : ℕ → List ℕ → List ℕ
fd_set s l = if fd_isset s l then l else s ∷ l

unfoldable pub fd_clr : ℕ → List ℕ → List ℕ
fd_clr s [] = []
fd_clr s (x ∷ xs) = if s == x then fd_clr s xs else x ∷ fd_clr s xs

-- The fields of `struct iperf_stream` and its result that are used here.
pub record Stream : Type 0 where
  pub socket : ℕ
  pub sender : ℤ
  pub green_light : ℤ
  pub bytes_sent : ℕ
  pub start_time_fixed : IperfTime

-- The fields of `struct iperf_test` and its settings that are used here, and the global `i_errno`.
pub record Transfer : Type 0 where
  pub done : ℤ
  pub rate : ℕ
  pub burst : ℤ
  pub multisend : ℤ
  pub bytes : ℕ
  pub blocks : ℕ
  pub bytes_sent : ℕ
  pub blocks_sent : ℕ
  pub bytes_received : ℕ
  pub blocks_received : ℕ
  pub write_set : List ℕ
  pub i_errno : ℤ

-- A function that a stream points to: what it returns, the stream and the world.
abbrev pub Routine : Type 0 → Type 0
Routine W = Stream → W → ℤ × Stream × W

-- Whether the rate is kept by a throttle after each block.
unfoldable pub is_paced : Transfer → Bool
is_paced t = not (t.rate == 0) && eqb_ℤ t.burst (pos 0)

module _ {D : Type 0} (fp : Double D) where
  -- Whether a stream is below the wanted rate. C leaves the result of the cast open if no time has passed.
  unfoldable pub is_below_rate : Stream → IperfTime → Transfer → Bool
  is_below_rate sp now t =
      let seconds = iperf_time_in_secs ⦃fp = fp⦄ (iperf_time_diff sp.start_time_fixed now).1 in
      ltb (fp.to_uint64 (fp.div (fp.of_int (pos (u64 (sp.bytes_sent * 8)))) seconds)) t.rate

  unfoldable pub iperf_check_throttle : Stream → IperfTime → Transfer → Stream × Transfer
  iperf_check_throttle sp now t =
      if truthy t.done
      then (sp, t)
      else if is_below_rate sp now t
      then (
        record sp { green_light = pos 1 },
        record t { write_set = fd_set sp.socket t.write_set },
      )
      else (
        record sp { green_light = pos 0 },
        record t { write_set = fd_clr sp.socket t.write_set },
      )

  -- `iperf_check_throttle` of every stream.
  unfoldable pub throttle_all : List Stream → IperfTime → Transfer → List Stream × Transfer
  throttle_all [] now t = ([], t)
  throttle_all (sp ∷ sps) now t =
      let (sp', t1) = iperf_check_throttle sp now t in
      let (sps', t2) = throttle_all sps now t1 in (sp' ∷ sps', t2)

  -- The counting after a successful `snd`, and the throttle of a rate without bursts.
  unfoldable pub after_snd : ℤ → IperfTime → Stream → Transfer → Stream × Transfer
  after_snd r now sp t =
      let t' = record t {
        bytes_sent = u64 (t.bytes_sent + to_u64 r);
        blocks_sent = u64 (t.blocks_sent + 1);
      } in
      if is_paced t then iperf_check_throttle sp now t' else (sp, t')

-- How many rounds `iperf_send` makes.
unfoldable pub rounds : Transfer → ℕ
rounds t =
    if not (eqb_ℤ t.burst (pos 0))
    then pos_part t.burst
    else if t.rate == 0
    then pos_part t.multisend
    else 1

-- Whether data may be sent on a stream; no set is NULL.
abbrev pub can_send : Option (List ℕ) → Stream → Bool
can_send none sp = truthy sp.green_light && truthy sp.sender
can_send (some set) sp = truthy sp.green_light && truthy sp.sender && fd_isset sp.socket set

-- The end conditions that stop a round of `iperf_send`, unless it is the last one.
abbrev pub has_reached : ℕ → Transfer → Bool
has_reached multisend t =
    ltb 1 multisend
    && ((not (t.bytes == 0) && leb t.bytes t.bytes_sent)
        || (not (t.blocks == 0) && leb t.blocks t.blocks_sent))

-- What the loop over the streams gives: an error to return, whether any was active, and the state.
pub record Round (W : Type 0) : Type 0 where
  pub error : Option ℤ
  pub active : Bool
  pub streams : List Stream
  pub transfer : Transfer
  pub world : W

abbrev pub with_stream : {W : Type 0} → Stream → Round W → Round W
with_stream sp r = record r { streams = sp ∷ r.streams }

-- After a round: an error is returned, and without an active stream there is no further round.
unfoldable pub after_round :
    {W : Type 0} → (List Stream → Transfer → W → Round W) → Round W → Round W
after_round rest r = elim r.error [
  | some e ↦ r
  | none ↦ if r.active then rest r.streams r.transfer r.world else r
]

module _ {D W : Type 0} (fp : Double D) (snd : Routine W) where
  -- The loop over the streams in a round of `iperf_send`.
  unfoldable pub send_streams :
      ℕ → Option (List ℕ) → IperfTime → List Stream → Transfer → W → Round W
  send_streams multisend set now [] t w = record {
    error = none;
    active = false;
    streams = [];
    transfer = t;
    world = w;
  }
  send_streams multisend set now (sp ∷ sps) t w =
      if can_send set sp
      then (let (r, sp1, w1) = snd sp w in
          if ltb_ℤ r (pos 0)
          then (if eqb_ℤ r net_softerror
              then record {
                error = none;
                active = false;
                streams = sp1 ∷ sps;
                transfer = t;
                world = w1;
              }
              else record {
                error = some r;
                active = false;
                streams = sp1 ∷ sps;
                transfer = record t { i_errno = iestreamwrite };
                world = w1;
              })
          else (let (sp2, t2) = after_snd fp r now sp1 t in
              if has_reached multisend t2
              then record {
                error = none;
                active = true;
                streams = sp2 ∷ sps;
                transfer = t2;
                world = w1;
              }
              else record (with_stream sp2 (send_streams multisend set now sps t2 w1)) {
                active = true;
              }))
      else with_stream sp (send_streams multisend set now sps t w)

  -- The rounds of `iperf_send`, with the clock. The clock is read only for a rate without bursts.
  unfoldable pub send_rounds :
      (W → IperfTime × W) → ℕ → Option (List ℕ) → List Stream → Transfer → W → Round W
  send_rounds clock zero set sps t w = record {
    error = none;
    active = true;
    streams = sps;
    transfer = t;
    world = w;
  }
  send_rounds clock (suc n) set sps t w =
      let (now, w1) = if is_paced t then clock w else (record { secs = 0; usecs = 0 }, w) in
      let r = send_streams (suc n) set now sps t w1 in
      after_round (λ sps' t' w'. send_rounds clock n set sps' t' w') r

abbrev pub clear_all : List Stream → List ℕ → List ℕ
clear_all [] set = set
clear_all (sp ∷ sps) set =
    clear_all sps (if fd_isset sp.socket set then fd_clr sp.socket set else set)

-- What `iperf_send` and `iperf_recv` leave: the return value, the set, the streams, the test, the world.
pub record Moved (W : Type 0) : Type 0 where
  pub result : ℤ
  pub set : Option (List ℕ)
  pub streams : List Stream
  pub transfer : Transfer
  pub world : W

module _ {D W : Type 0} (fp : Double D) (snd : Routine W) where
  unfoldable pub iperf_send :
      (W → IperfTime × W) → Option (List ℕ) → List Stream → Transfer → W → Moved W
  iperf_send clock set sps t w =
      let r = send_rounds fp snd clock (rounds t) set sps t w in
      elim r.error [
        | some e ↦ record {
          result = e;
          set = set;
          streams = r.streams;
          transfer = r.transfer;
          world = r.world;
        }
        | none ↦
            let (now, w1) =
              if not (eqb_ℤ t.burst (pos 0))
              then clock r.world
              else (record { secs = 0; usecs = 0 }, r.world) in
            let (sps', t') =
              if not (eqb_ℤ t.burst (pos 0))
              then throttle_all fp r.streams now r.transfer
              else (r.streams, r.transfer) in
            record {
              result = pos 0;
              set = elim set [ none ↦ none | some l ↦ some (clear_all sps' l) ];
              streams = sps';
              transfer = t';
              world = w1;
            }
      ]

module _ {W : Type 0} (rcv : Routine W) where
  unfoldable pub iperf_recv : List ℕ → List Stream → Transfer → W → Moved W
  iperf_recv set [] t w = record {
    result = pos 0;
    set = some set;
    streams = [];
    transfer = t;
    world = w;
  }
  iperf_recv set (sp ∷ sps) t w =
      if fd_isset sp.socket set && not (truthy sp.sender)
      then (let (r, sp1, w1) = rcv sp w in
          if ltb_ℤ r (pos 0)
          then record {
            result = r;
            set = some set;
            streams = sp1 ∷ sps;
            transfer = record t { i_errno = iestreamread };
            world = w1;
          }
          else (let m =
                iperf_recv (fd_clr sp1.socket set) sps
                  record t {
                    bytes_received = u64 (t.bytes_received + to_u64 r);
                    blocks_received = u64 (t.blocks_received + 1);
                  }
                  w1 in
              record m { streams = sp1 ∷ m.streams }))
      else (let m = iperf_recv set sps t w in record m { streams = sp ∷ m.streams })
