-- ===== src/Net.antt =====
-- iperfwrapperlib/iperf/src/net.c: reading and writing a count of bytes, and the modes of a socket.
-- The kernel is a world `W` with system calls. The counts are `size_t`, and returned as `int`.
pub mod Read
pub mod Write
pub mod Whole
pub mod File
pub mod Connect
pub mod Flags
pub mod Tests
use mm_wave_tracker.Prelude.{
  ℕ, zero, suc, ◌-◌, List, [], ◌∷◌, ◌++◌, Option, none, some, length, drop,
}
use mm_wave_tracker.Prelude.Int.{ℤ, negsuc}
use mm_wave_tracker.Prelude.Word.{to_int}

abbrev pub net_softerror : ℤ
net_softerror = negsuc 0

abbrev pub net_harderror : ℤ
net_harderror = negsuc 1

-- The values of `errno` that net.c tells apart. EWOULDBLOCK is EAGAIN.
pub data Errno : Type 0 where
  eintr eagain enobufs enomem other : Errno

-- What `read` gives: bytes, none at the end of the stream, or -1 with `errno`.
pub data ReadResult : Type 0 where
  got : List ℕ → ReadResult
  failed : Errno → ReadResult

-- What `write` gives: how many bytes it took, or -1 with `errno`.
pub data WriteResult : Type 0 where
  took : ℕ → WriteResult
  failed : Errno → WriteResult

-- What `Nread` returns, the bytes that it stored in the buffer, and the world.
abbrev pub Reading : Type 0 → Type 0
Reading W = Option (ℤ × List ℕ × W)

-- The body of the loop of `Nread` after the call of `read`: `done` is `count - nleft`.
unfoldable pub after_read :
    {W : Type 0} → ℕ → List ℕ → W → (List ℕ → Reading W) → ReadResult → Reading W
after_read done buf w next (ReadResult.failed eintr) = some (to_int done, buf, w)
after_read done buf w next (ReadResult.failed eagain) = some (to_int done, buf, w)
after_read done buf w next (ReadResult.failed _) = some (net_harderror, buf, w)
after_read done buf w next (got []) = some (to_int done, buf, w)
after_read done buf w next (got (b ∷ bs)) = next (b ∷ bs)

module _ {W : Type 0} (read : ℕ → W → ReadResult × W) where
  -- The loop of `Nread`: how many bytes are left to read, and what was read so far. `none` means
  -- that the fuel ran out.
  unfoldable pub nread_loop : ℕ → ℕ → ℕ → List ℕ → W → Reading W
  unfolding after_read
  nread_loop zero count nleft buf w = none
  nread_loop (suc fuel) count zero buf w = some (to_int count, buf, w)
  nread_loop (suc fuel) count (suc n) buf w =
      let (result, w') = read (suc n) w in
      after_read (count - suc n) buf w'
        (λ bs. nread_loop fuel count (suc n - length bs) (buf ++ bs) w') result

  -- `Nread`, with fuel for each byte.
  unfoldable pub nread : ℕ → W → Reading W
  nread count w = nread_loop (suc count) count count [] w

-- The body of the loop of `Nwrite` after the call of `write`.
unfoldable pub after_write :
    {W : Type 0} → ℕ → W → (ℕ → Option (ℤ × W)) → WriteResult → Option (ℤ × W)
after_write done w next (WriteResult.failed eintr) = some (to_int done, w)
after_write done w next (WriteResult.failed eagain) = some (to_int done, w)
after_write done w next (WriteResult.failed enobufs) = some (net_softerror, w)
after_write done w next (WriteResult.failed _) = some (net_harderror, w)
after_write done w next (took zero) = some (net_softerror, w)
after_write done w next (took (suc r)) = next (suc r)

module _ {W : Type 0} (write : List ℕ → W → WriteResult × W) where
  -- The loop of `Nwrite`: the bytes that are left to write.
  unfoldable pub nwrite_loop : ℕ → ℕ → List ℕ → W → Option (ℤ × W)
  unfolding after_write
  nwrite_loop zero count buf w = none
  nwrite_loop (suc fuel) count [] w = some (to_int count, w)
  nwrite_loop (suc fuel) count (b ∷ bs) w =
      let (result, w') = write (b ∷ bs) w in
      after_write (count - length (b ∷ bs)) w' (λ r. nwrite_loop fuel count (drop r (b ∷ bs)) w')
        result

  -- `Nwrite`, of the whole buffer.
  unfoldable pub nwrite : List ℕ → W → Option (ℤ × W)
  nwrite buf w = nwrite_loop (suc (length buf)) (length buf) buf w
