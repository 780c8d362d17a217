-- ===== src/Exchange/Frame.antt =====
-- iperfwrapperlib/iperf/src/iperf_api.c: `JSON_write` and `JSON_read`, which send a text of JSON
-- behind its length. To print and to parse it are cJSON's and arguments, and so are the system calls,
-- the memory that `calloc` has, and what the unset variable `nsize` holds.
pub mod Travel
pub mod Tests
use mm_wave_tracker.Prelude.{
  ℕ, ◌+◌, Bool, List, ◌++◌, Option, none, some, ◌==◌, if◌then◌else◌, length, take, drop,
}
use mm_wave_tracker.Prelude.Int.{ℤ, pos, negsuc, ltb_ℤ}
use mm_wave_tracker.Prelude.Word.{u32, to_u32}
use mm_wave_tracker.Prelude.Octets.{be_encode, be_decode}
use mm_wave_tracker.Net.{ReadResult, WriteResult, Reading, nread, nwrite}

abbrev Writing : Type 0 → Type 0
Writing W = Option (ℤ × W)

-- A call of `Nwrite` that fails ends `JSON_write` with -1.
unfoldable pub and_write : {W : Type 0} → Writing W → (W → Writing W) → Writing W
and_write none next = none
and_write (some (r, w)) next = if ltb_ℤ r (pos 0) then some (negsuc 0, w) else next w

-- What `JSON_read` does after a call of `Nread` that does not fail; else it returns NULL.
unfoldable pub and_read :
    {W J : Type 0} → Reading W → (ℤ → List ℕ → W → Option (Option J × W)) → Option (Option J × W)
and_read none next = none
and_read (some (r, buf, w)) next = if ltb_ℤ r (pos 0) then some (none, w) else next r buf w

module _ {W J : Type 0} (write : List ℕ → W → WriteResult × W) (print : J → Option (List ℕ)) where
  unfoldable pub write_text : List ℕ → W → Writing W
  write_text str w =
      let hsize = u32 (length str) in
      and_write (nwrite write (be_encode 4 hsize) w)
        (λ w1. and_write (nwrite write (take hsize str) w1) (λ w2. some (pos 0, w2)))

  -- `JSON_write`.
  unfoldable pub json_write : J → W → Writing W
  json_write json w = elim (print json) [ none ↦ some (negsuc 0, w) | some str ↦ write_text str w ]

module _ {W J : Type 0} (read : ℕ → W → ReadResult × W) (parse : List ℕ → Option J)
    (calloc : ℕ → Bool) where
  -- The text of an offered length is parsed if all of it came.
  unfoldable pub read_text : ℕ → W → Option (Option J × W)
  read_text hsize w =
      if calloc (u32 (hsize + 1))
      then and_read (nread read hsize w)
          (λ rc str w2. some (if to_u32 rc == hsize then parse str else none, w2))
      else some (none, w)

  -- `JSON_read`. `unset` are the octets of `nsize` before the call.
  unfoldable pub json_read : List ℕ → W → Option (Option J × W)
  json_read unset w =
      and_read (nread read 4 w)
        (λ r buf w1. read_text (be_decode (buf ++ drop (length buf) unset)) w1)
