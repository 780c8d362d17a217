-- ===== src/Prelude/Samples.antt =====
-- A stand-in for `double` for tests: integers, with a division that drops the fraction, and a scan
-- that reads every text as `5m`.
use mm_wave_tracker.Prelude.Int.{ℤ, pos, negsuc, pos_part, neg_part, ◌+ℤ◌, ◌-ℤ◌, ◌*ℤ◌, ltb_ℤ}
use mm_wave_tracker.Prelude.Word.{to_u64}
use mm_wave_tracker.Prelude.Double.{Double}
use Prim.Native.Nat.{◌+◌, ◌/◌}
use mathlib.Core.Option.{some}

abbrev div_whole : ℤ → ℤ → ℤ
div_whole (pos a) b = pos (a / (pos_part b + neg_part b))
div_whole (negsuc a) b = negsuc (a / (pos_part b + neg_part b))

abbrev pub whole : Double ℤ
whole = record {
  of_int = λ n. n;
  add = λ a b. a +ℤ b;
  sub = λ a b. a -ℤ b;
  mul = λ a b. a *ℤ b;
  div = div_whole;
  lt = ltb_ℤ;
  to_uint64 = to_u64;
  to_int = λ n. n;
  scan = λ s. some (pos 5, b'm');
}
