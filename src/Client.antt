-- ===== src/Client.antt =====
-- iperfwrapperlib/iperf/src/iperf_client_api.c: how a client opens its streams. The functions that
-- connect a socket and make a stream from it are arguments, over a world `W`.
pub mod Ports
pub mod Timers
pub mod Tests
use mm_wave_tracker.Prelude.{ℕ, zero, suc, Bool, true, false, List, if◌then◌else◌}
use mm_wave_tracker.Prelude.Int.{ℤ, pos, pos_part, ◌+ℤ◌, ltb_ℤ, truthy}
use mm_wave_tracker.Config.{Mode, sender, receiver, bidirectional}
use mm_wave_tracker.Stream.{fd_set}

-- The fields of `struct iperf_test` that are used here.
pub record Opening : Type 0 where
  pub mode : Mode
  pub bind_port : ℤ
  pub num_streams : ℤ
  pub read_set : List ℕ
  pub write_set : List ℕ
  pub max_fd : ℤ

-- The value of a mode, as the argument `sender`.
abbrev pub mode_value : Mode → ℤ
mode_value sender = pos 1
mode_value receiver = pos 0
mode_value bidirectional = ℤ.negsuc 0

-- The local port of the stream with index `i`: 0 leaves the choice to the system.
unfoldable pub next_port : ℤ → ℤ → ℤ
next_port orig_bind_port i = if truthy orig_bind_port then orig_bind_port +ℤ i else orig_bind_port

module _ {W : Type 0} (connect : Opening → W → ℤ × W)
    (new_stream : Opening → ℤ → ℤ → W → Bool × W) where
  -- What follows a `connect` that returned `s`: the sets, the highest descriptor, the new stream.
  -- The result says whether a stream was made.
  unfoldable pub add_stream : ℤ → ℤ → Opening → W → Bool × Opening × W
  add_stream sender' s t w =
      let t2 = record t {
        write_set = if truthy sender' then fd_set (pos_part s) t.write_set else t.write_set;
        read_set = if truthy sender' then t.read_set else fd_set (pos_part s) t.read_set;
        max_fd = if ltb_ℤ t.max_fd s then s else t.max_fd;
      } in
      let (made, w') = new_stream t2 s sender' w in (made, t2, w')

  -- The loop of `iperf_create_streams`: how many streams are left, and the index of the next.
  unfoldable pub create_from : ℕ → ℤ → ℤ → ℤ → Opening → W → Bool × Opening × W
  create_from zero i orig_bind_port sender' t w = (true, t, w)
  create_from (suc n) i orig_bind_port sender' t w =
      let t1 = record t { bind_port = next_port orig_bind_port i } in
      let (s, w1) = connect t1 w in
      if ltb_ℤ s (pos 0)
      then (false, t1, w1)
      else (let (made, t2, w2) = add_stream sender' s t1 w1 in
          if made then create_from n (i +ℤ pos 1) orig_bind_port sender' t2 w2 else (false, t2, w2))

  -- `iperf_create_streams`: whether 0 is returned.
  unfoldable pub iperf_create_streams : ℤ → Opening → W → Bool × Opening × W
  iperf_create_streams sender' t w =
      create_from (pos_part t.num_streams) (pos 0) t.bind_port sender' t w

  -- The case CREATE_STREAMS of `iperf_handle_message_client`.
  unfoldable pub on_create_streams : Opening → W → Bool × Opening × W
  on_create_streams t w = elim t.mode [
    | bidirectional ↦
        let (ok, t1, w1) = iperf_create_streams (pos 1) t w in
        if ok then iperf_create_streams (pos 0) t1 w1 else (false, t1, w1)
    | sender ↦ iperf_create_streams (mode_value sender) t w
    | receiver ↦ iperf_create_streams (mode_value receiver) t w
  ]
