-- ===== src/Stream/Bound.antt =====
-- How much one `iperf_send` of iperf_api.c does.
use mm_wave_tracker.Prelude.{ℕ, ◌+◌, ◌≤◌, ◌≡◌, List, [], ◌∷◌}
use mm_wave_tracker.Timer.Count.{hit}
use mm_wave_tracker.Prelude.Double.{Double}
use mm_wave_tracker.Stream.{Stream, Round}

-- How many streams have the socket `k`: one at most, if the sockets are distinct.
abbrev pub with_socket : ℕ → List Stream → ℕ
with_socket k [] = 0
with_socket k (sp ∷ sps) = hit sp.socket k + with_socket k sps

-- The writes to the socket `k` that a round made, and the streams that it left.
record Bounded {W : Type 0} (k : ℕ) (calls : W → ℕ) (most : ℕ) (sps : List Stream) (w : W)
    (r : Round W) : Type 0 where
  few : calls r.world ≤ calls w + most
  same : with_socket k r.streams ≡ with_socket k sps
