-- ===== src/Timer/Total.antt =====
-- `tmr_run` of timer.c ends.
use mm_wave_tracker.Prelude.{List, [], ◌∷◌}
use mm_wave_tracker.Timer.{Act, resets, cancels}

-- The acts of a callback that cancels no timer.
abbrev pub AllResets : List Act → Type 0
AllResets [] = Unit
AllResets (resets b ∷ xs) = AllResets xs
AllResets (cancels b ∷ xs) = ⊥
