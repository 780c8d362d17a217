-- ===== src/Units.antt =====
-- iperfwrapperlib/iperf/src/units.c: numbers with a suffix for kilo, mega, giga or tera.
use mm_wave_tracker.Prelude.{ℕ, ◌^◌, ◌||◌, Option, none, some, ◌==◌, if◌then◌else◌}
use mm_wave_tracker.Prelude.Int.{pos}
use mm_wave_tracker.Prelude.Double.{Double}
use Prim.Native.String.{String}

-- The `switch` on the suffix: the power of the unit by which the number is multiplied.
unfoldable pub scale : ℕ → ℕ
scale c =
    if c == b't' || c == b'T'
    then 4
    else if c == b'g' || c == b'G'
    then 3
    else if c == b'm' || c == b'M'
    then 2
    else if c == b'k' || c == b'K'
    then 1
    else 0

module _ {D : Type 0} ⦃fp : Double D⦄ where
  -- The constants KILO_UNIT to TERA_UNIT, or with 1000 the constants KILO_RATE_UNIT to
  -- TERA_RATE_UNIT, are the powers of the unit.
  scaled : ℕ → D × ℕ → D
  scaled unit (n, suffix) =
      if scale suffix == 0 then n else fp.mul n (fp.of_int (pos (unit ^ scale suffix)))

  -- `unit_atof`. Where the text has no number the result is an uninitialised variable: `none`.
  unfoldable pub unit_atof : String → Option D
  unfolding scaled
  unit_atof s = elim (fp.scan s) [ none ↦ none | some r ↦ some (scaled 1024 r) ]

  -- `unit_atof_rate`.
  unfoldable pub unit_atof_rate : String → Option D
  unfolding scaled
  unit_atof_rate s = elim (fp.scan s) [ none ↦ none | some r ↦ some (scaled 1000 r) ]

-- `unit_atoi`: the scaled number cast to `uint64_t`.
unfoldable pub unit_atoi : {D : Type 0} → Double D → String → Option ℕ
unfolding unit_atof
unit_atoi fp s = elim (unit_atof ⦃fp = fp⦄ s) [ none ↦ none | some n ↦ some (fp.to_uint64 n) ]
