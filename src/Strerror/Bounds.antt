-- ===== src/Strerror/Bounds.antt =====
-- The text of `iperf_strerror` fits its buffer.
use mm_wave_tracker.Prelude.{
  ℕ, ◌-◌, ◌<◌, Bool, true, false, ◌&&◌, ◌||◌, List, [], length, take, length-append, length-take,
  arith, if◌then◌else◌, Option-cases, inl, inr,
}
use mm_wave_tracker.Prelude.Int.{ℤ, pos, truthy}
use mm_wave_tracker.Prelude.Strtol.{codes}
use mm_wave_tracker.Strerror.{errstr_size, append, print, find_row, explain, iperf_strerror}
use mm_wave_tracker.Strerror.Rows.{rows}

append-lt : (s t : List ℕ) → length s < errstr_size → length (append s t) < errstr_size
append-lt s t h = omega (
  arith,
  length-append s (take (errstr_size - length s - 1) t),
  length-take (errstr_size - length s - 1) t,
)

print-lt : (t : List ℕ) → length (print t) < errstr_size
print-lt t = omega (arith, length-take (errstr_size - 1) t)

if-lt :
    (b : Bool) (s t : List ℕ)
    → length s < errstr_size
    → length t < errstr_size
    → length (if b then s else t) < errstr_size
if-lt true s t h k = h
if-lt false s t h k = k

abbrev chosen : Bool → Bool → List ℕ × ℤ → List ℕ × ℤ → List ℕ × ℤ → List ℕ × ℤ
chosen a b x y z = if a then x else if b then y else z

explain-lt :
    (strerror gai_strerror : ℤ → List ℕ) (errno gerror : ℤ) (perr herr : Bool) (s : List ℕ)
    → length s < errstr_size
    → length (explain strerror gai_strerror errno gerror perr herr s).0 < errstr_size
unfolding explain
explain-lt strerror gai_strerror errno gerror perr herr s h =
    pick (truthy errno && perr) (herr && truthy gerror)
  where
    s1 : List ℕ
    s1 = if herr || perr then append s (codes ": ") else s

    fits : length s1 < errstr_size
    fits = if-lt (herr || perr) _ _ (append-lt s (codes ": ") h) h

    pick :
        (a b : Bool)
        → length
            (chosen a b
              (append s1 (strerror errno), gerror)
              (append s1 (gai_strerror gerror), pos 0)
              (s1, gerror)).0
          < errstr_size
    pick true b = append-lt s1 (strerror errno) fits
    pick false true = append-lt s1 (gai_strerror gerror) fits
    pick false false = fits

-- Whatever the code, `errno`, `gerror` and the texts of the C library, the text is
-- shorter than the buffer, so that its null character fits too.
pub strerror_fits :
    (strerror gai_strerror : ℤ → List ℕ) (int_errno errno gerror : ℤ)
    → length (iperf_strerror strerror gai_strerror int_errno errno gerror).0 < errstr_size
unfolding iperf_strerror
strerror_fits strerror gai_strerror int_errno errno gerror =
    elim (Option-cases (find_row rows int_errno)) [
      | inl e ↦
          rw (e, iperf_strerror)
            (explain-lt strerror gai_strerror errno gerror false false [] (omega arith))
      | inr (r, e) ↦
          rw (e, iperf_strerror)
            (explain-lt strerror gai_strerror errno gerror r.perr r.herr (print (codes r.message))
              (print-lt (codes r.message)))
    ]
