-- ===== src/Exchange/Frame/Tests.antt =====
-- Texts over a connection that moves at most two bytes a call, and calls that are interrupted.
use mm_wave_tracker.Prelude.{
  ℕ, ◌<◌, ◌≡◌, refl, sym, Bool, true, List, [], ◌∷◌, ◌++◌, Option, none, some, arith, ◌==◌, length,
  length-take, take, drop, take-append-drop, Gives,
}
use mm_wave_tracker.Prelude.Int.{pos}
use mm_wave_tracker.Net.{
  eintr, ReadResult, got, WriteResult, took, nread, nread_loop, after_read, nwrite, nwrite_loop,
  after_write,
}
use mm_wave_tracker.Prelude.Octets.{be_decode}
use mm_wave_tracker.Net.Whole.{Flows, Accepts}
use mm_wave_tracker.Exchange.Frame.{
  and_write, and_read, write_text, json_write, read_text, json_read,
}
use mm_wave_tracker.Exchange.Frame.Travel.{frame, IsSent, IsRead, json_travels}
use Prim.Native.Nat.{min}

abbrev two_written : List ℕ → List ℕ → WriteResult × List ℕ
two_written bs w = (took (min 2 (length bs)), w ++ take (min 2 (length bs)) bs)

two_written-Accepts : (bs w : List ℕ) → 0 < length bs → Accepts (λ v. v) bs w (two_written bs w)
two_written-Accepts bs w h = (omega arith, omega arith, refl)

abbrev two_read : ℕ → List ℕ → ReadResult × List ℕ
two_read n w = (got (take (min n 2) w), drop (min n 2) w)

two_read-Flows : (n : ℕ) (w : List ℕ) → 0 < n → 0 < length w → Flows (λ v. v) n w (two_read n w)
two_read-Flows n w h l = (
  omega (arith, length-take (min n 2) w),
  omega (arith, length-take (min n 2) w),
  sym (take-append-drop (min n 2) w),
)

-- A value is its own text.
abbrev text_of : List ℕ → Option (List ℕ)
text_of j = some j

abbrev value_of : List ℕ → Option (List ℕ)
value_of j = some j

abbrev value : List ℕ
value = 123 ∷ 34 ∷ 125 ∷ []

abbrev any_size : ℕ → Bool
any_size n = true

abbrev unset : List ℕ
unset = 7 ∷ 7 ∷ 7 ∷ 7 ∷ []

writes_frame :
    json_write two_written text_of value (1 ∷ [])
    ≡ some (pos 0, 1 ∷ 0 ∷ 0 ∷ 0 ∷ 3 ∷ 123 ∷ 34 ∷ 125 ∷ [])
unfolding json_write write_text and_write nwrite nwrite_loop after_write
writes_frame = refl

-- A text that ends before the offered length gives NULL.
reads_short :
    json_read two_read value_of any_size unset (0 ∷ 0 ∷ 0 ∷ 3 ∷ 123 ∷ 34 ∷ []) ≡ some (none, [])
unfolding json_read read_text and_read nread nread_loop after_read be_decode
reads_short = refl

abbrev interrupted : List ℕ → List ℕ → WriteResult × List ℕ
interrupted bs w = (WriteResult.failed eintr, w)

-- `Nwrite` gives the count so far when a signal interrupts it, and `JSON_write` takes it for success.
interrupted_is_success : json_write interrupted text_of value [] ≡ some (pos 0, [])
unfolding json_write write_text and_write nwrite nwrite_loop after_write
interrupted_is_success = refl

-- Memory of 0 bytes only.
abbrev nothing_only : ℕ → Bool
nothing_only n = n == 0

-- For the length 2^32 - 1 no memory is asked for, and bytes are read into it.
length_wraps :
    json_read two_read value_of nothing_only unset (255 ∷ 255 ∷ 255 ∷ 255 ∷ 1 ∷ 2 ∷ 3 ∷ [])
    ≡ some (none, [])
unfolding json_read read_text and_read nread nread_loop after_read be_decode
length_wraps = refl

json_travels_example :
    Gives
      (IsSent (λ u. u) ((1 ∷ []) ++ frame value))
      (json_write two_written text_of value (1 ∷ []))
    × Gives
        (IsRead (λ u. u) value (9 ∷ []))
        (json_read two_read value_of any_size unset (frame value ++ (9 ∷ [])))
json_travels_example =
    json_travels two_written (λ u. u) two_read (λ u. u) text_of value_of any_size value value
      (9 ∷ []) unset (1 ∷ []) (frame value ++ (9 ∷ [])) two_written-Accepts two_read-Flows refl refl
      (omega arith) refl refl refl
