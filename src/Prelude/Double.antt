-- ===== src/Prelude/Double.antt =====
-- The type `double` of C, which is not modelled: its operations are an interface.
use mm_wave_tracker.Prelude.Int.{ℤ}
use Prim.Native.Nat.{ℕ}
use Prim.Native.String.{String}
use mathlib.Core.Bool.{Bool}
use mathlib.Core.Option.{Option}

-- `scan` is `sscanf(s, "%lf%c", &n, &c)`: `none` if there is no number, and the code 0 if no
-- character follows it. `to_uint64` and `to_int` are the casts.
pub record Double (D : Type 0) : Type 0 where
  pub of_int : ℤ → D
  pub add : D → D → D
  pub sub : D → D → D
  pub mul : D → D → D
  pub div : D → D → D
  pub lt : D → D → Bool
  pub to_uint64 : D → ℕ
  pub to_int : D → ℤ
  pub scan : String → Option (D × ℕ)
