-- ===== src/Net/Connect.antt =====
-- `setnonblocking` and `timeout_connect` of net.c, over a world with the calls of the system.
use mm_wave_tracker.Prelude.{
  ℕ, ◌+◌, ◌-◌, ◌/◌, ◌%◌, Bool, true, false, ◌&&◌, Option, none, some, ◌==◌, if◌then◌else◌,
}
use mm_wave_tracker.Prelude.Int.{ℤ, pos, negsuc, eqb_ℤ, truthy}

-- O_NONBLOCK is one bit of the flags of a descriptor.
abbrev pub o_nonblock : ℕ
o_nonblock = 2048

abbrev pub has_nonblock : ℕ → Bool
has_nonblock flags = (flags / o_nonblock) % 2 == 1

-- `flags | O_NONBLOCK` and `flags & ~O_NONBLOCK`.
unfoldable pub with_nonblock : ℕ → ℕ
with_nonblock flags = if has_nonblock flags then flags else flags + o_nonblock

unfoldable pub without_nonblock : ℕ → ℕ
without_nonblock flags = if has_nonblock flags then flags - o_nonblock else flags

-- What `connect` gives: a connection, EINPROGRESS, or another error.
pub data Connecting : Type 0 where
  connected in_progress refused : Connecting

module _ {W : Type 0} (get_flags : W → Option ℕ) (set_flags : ℕ → W → Bool × W) where
  -- Flags are set only if they are new.
  unfoldable pub change_flags : ℕ → ℕ → W → ℤ × W
  change_flags flags newflags w =
      if newflags == flags
      then (pos 0, w)
      else (let (ok, w') = set_flags newflags w in ((if ok then pos 0 else negsuc 0), w'))

  -- `setnonblocking`; `get_flags` is `none` if it fails, and `set_flags` says whether it succeeded.
  unfoldable pub setnonblocking : ℤ → W → ℤ × W
  setnonblocking nonblocking w = elim (get_flags w) [
    | none ↦ (negsuc 0, w)
    | some flags ↦
        change_flags flags
          (if truthy nonblocking then with_nonblock flags else without_nonblock flags) w
  ]

-- The flags that `timeout_connect` takes over from F_GETFL: if it fails, -1, in which all bits are set.
unfoldable pub flags_or_all : Option ℕ → ℕ
flags_or_all none = 4294967295
flags_or_all (some flags) = flags

module _ {W : Type 0} (get_flags : W → Option ℕ) (set_flags : ℕ → W → Bool × W)
    (connect : W → Connecting × W) (poll : ℤ → W → ℤ × W) (so_error : W → Option ℕ × W) where
  -- What follows EINPROGRESS: `poll`, and the error of the socket. Whether 0 is returned.
  unfoldable pub wait_connected : ℤ → W → Bool × W
  wait_connected timeout w =
      let (ready, w1) = poll timeout w in
      if eqb_ℤ ready (pos 1)
      then (let (optval, w2) = so_error w1 in
          elim optval [ none ↦ (false, w2) | some e ↦ (e == 0, w2) ])
      else (false, w1)

  unfoldable pub try_connect : ℤ → W → Bool × W
  try_connect timeout w =
      let (c, w1) = connect w in
      elim c [
        | connected ↦ (true, w1)
        | in_progress ↦ wait_connected timeout w1
        | refused ↦ (false, w1)
      ]

  -- `timeout_connect`: whether 0 is returned. Without a timeout the flags are not touched.
  unfoldable pub timeout_connect : ℤ → W → Bool × W
  timeout_connect timeout w =
      if eqb_ℤ timeout (negsuc 0)
      then try_connect timeout w
      else (let flags = flags_or_all (get_flags w) in
          let (ok, w1) = set_flags (with_nonblock flags) w in
          if ok
          then (let (ret, w2) = try_connect timeout w1 in
              let (ok', w3) = set_flags flags w2 in (ret && ok', w3))
          else (false, w1))
