-- ===== src/Client/Timers/Ends.antt =====
-- When the test of a client ends by its timer.
use mm_wave_tracker.Prelude.{ℕ, suc, ◌+◌, ◌*◌, ◌<◌, ◌≡◌, ◌∙◌, ap, false, some, arith}
use mm_wave_tracker.Prelude.Int.{pos, ◌+ℤ◌, ◌*ℤ◌, eqb_ℤ}
use mm_wave_tracker.Prelude.Word.{to_u64, u32_mod}
use mm_wave_tracker.Prelude.Double.{Double}
use mm_wave_tracker.Time.{IperfTime, IsNormal}
use mm_wave_tracker.Time.Order.{instant}
use mm_wave_tracker.Timer.{Timers}
use mm_wave_tracker.Timer.Count.{hit}
use mm_wave_tracker.Timer.Order.{IsOrdered}
use mm_wave_tracker.Client.Timers.{Timing, Procs, sec_to_us, client_seconds, create_client_timers}
use mm_wave_tracker.Client.Timers.Due.{IsSingle, IsDue, timers-IsDue}

-- The microseconds of the timer of the test.
test_usecs :
    (d o : ℕ)
    → (suc d + o) * 1000000 < u32_mod * 1000000
    → to_u64 ((pos (suc d) +ℤ pos o) *ℤ sec_to_us) ≡ (suc d + o) * 1000000
unfolding ◌+ℤ◌ ◌*ℤ◌
test_usecs d o h = ground arith

pub suc_nonzero : (d : ℕ) → eqb_ℤ (pos (suc d)) (pos 0) ≡ false
suc_nonzero d = ground arith

module _ {D : Type 0} (fp : Double D) (now : IperfTime) (v : IsNormal now) where
  -- A client with a duration that calls `create_client_timers` at a normal stamp, with the timers in
  -- order, makes its timers without an error. Every structure is held once, active or spare, and
  -- each `malloc`, if it is called, gives one that is not held. Afterwards the timers are in order,
  -- the test is not done, and its timer, which calls `test_timer_proc` of the test once, is due
  -- exactly when the duration and the period to omit have passed, as long as that is before the end
  -- of 32-bit time.
  pub client_timers-IsDue :
      (a b c d o : ℕ) (procs : Procs) (t : Timing D) (s : Timers)
      → IsSingle (λ x. hit a x + (hit b x + hit c x)) s
      → IsOrdered s.timers
      → t.duration ≡ pos (suc d)
      → t.omit ≡ pos o
      → instant now + (suc d + o) * 1000000 < u32_mod * 1000000
      → IsDue procs
          (instant now + (suc d + o) * 1000000)
          (create_client_timers fp (some now) (some a) (some b) (some c) procs t s)
  unfolding create_client_timers client_seconds
  client_timers-IsDue a b c d o procs t s single ord ed eo room =
      timers-IsDue fp now v (t.duration +ℤ t.omit) ((suc d + o) * 1000000) a b c procs t s single
        ord (ap (λ n. eqb_ℤ n (pos 0)) ed ∙ suc_nonzero d)
        (ap (λ n. to_u64 ((n +ℤ t.omit) *ℤ sec_to_us)) ed
          ∙ ap (λ n. to_u64 ((pos (suc d) +ℤ n) *ℤ sec_to_us)) eo
          ∙ test_usecs d o (omega arith))
        room
