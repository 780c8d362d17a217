-- ===== src/Strerror.antt =====
-- iperfwrapperlib/iperf/src/iperf_error.c: `iperf_strerror`. The texts of the C library for `errno` and
-- for a failed look-up of a host are arguments, and `gerror` is passed on.
mod Rows
pub mod Bounds
pub mod Tests
use mm_wave_tracker.Prelude.{
  ℕ, ◌-◌, Bool, false, ◌&&◌, ◌||◌, List, [], ◌∷◌, ◌++◌, Option, none, some, length, take,
  if◌then◌else◌,
}
use mm_wave_tracker.Prelude.Int.{ℤ, pos, eqb_ℤ, truthy}
use mm_wave_tracker.Prelude.Strtol.{codes}
use mm_wave_tracker.Strerror.Rows.{Row, rows}

-- The size of the buffer `errstr`.
abbrev pub errstr_size : ℕ
errstr_size = 256

unfoldable pub find_row : List Row → ℤ → Option Row
find_row [] c = none
find_row (r ∷ rs) c = if eqb_ℤ r.code c then some r else find_row rs c

-- `snprintf` into an empty buffer, and `strncat` as it is called here.
abbrev pub print : List ℕ → List ℕ
print text = take (errstr_size - 1) text

abbrev pub append : List ℕ → List ℕ → List ℕ
append errstr text = errstr ++ take (errstr_size - length errstr - 1) text

-- What follows the `switch`: the text and `gerror`.
unfoldable pub explain : (ℤ → List ℕ) → (ℤ → List ℕ) → ℤ → ℤ → Bool → Bool → List ℕ → List ℕ × ℤ
explain strerror gai_strerror errno gerror perr herr errstr =
    let errstr1 = if herr || perr then append errstr (codes ": ") else errstr in
    if truthy errno && perr
    then (append errstr1 (strerror errno), gerror)
    else if herr && truthy gerror
    then (append errstr1 (gai_strerror gerror), pos 0)
    else (errstr1, gerror)

-- `iperf_strerror`. A code without a case leaves the buffer empty.
unfoldable pub iperf_strerror : (ℤ → List ℕ) → (ℤ → List ℕ) → ℤ → ℤ → ℤ → List ℕ × ℤ
iperf_strerror strerror gai_strerror int_errno errno gerror = elim (find_row rows int_errno) [
  | none ↦ explain strerror gai_strerror errno gerror false false []
  | some r ↦ explain strerror gai_strerror errno gerror r.perr r.herr (print (codes r.message))
]
