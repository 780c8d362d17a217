-- ===== src/Timer/Calls.antt =====
-- The calls of timer.c keep the order of the active timers and the timer structures.
use mm_wave_tracker.Prelude.{
  ℕ, ◌+◌, ◌-◌, ◌*◌, ◌/◌, ◌%◌, ◌≤◌, ◌<◌, ◌≡◌, refl, inl, inr, List, [], ◌∷◌, Option, none, some,
  arith, ◌==◌, Bool-cases, if◌then◌else◌,
}
use mm_wave_tracker.Prelude.Int.{ℤ}
use mm_wave_tracker.Prelude.Word.{to_u64}
use mm_wave_tracker.Time.{
  IperfTime, IsNormal, iperf_time_add_usecs, iperf_time_diff, iperf_time_in_usecs,
}
use mm_wave_tracker.Time.Order.{instant, in_usecs-eq-instant}
use mm_wave_tracker.Time.Diff.{diff_lem}
use mm_wave_tracker.Time.Add.{add_usecs-IsNormal}
use mm_wave_tracker.Timer.{Timer, Timers, getnow, list_add, deref, tmr_create, tmr_timeout}
use mm_wave_tracker.Timer.Order.{NotBefore, IsOrdered, list_add-IsOrdered}
use mm_wave_tracker.Timer.Count.{hit, occurs, held, occurs-list_add}
use Prim.Native.Nat.{min}

pub deref-IsNormal :
    (a : ℕ) (l : List Timer) {t : Timer} → IsOrdered l → deref a l ≡ some t → IsNormal t.time
unfolding deref
deref-IsNormal a [] o h = cc
deref-IsNormal a (u ∷ us) (v, b, o) h = elim (Bool-cases (u.addr == a)) [
  | inl e ↦ ground arith
  | inr e ↦ deref-IsNormal a us o (rw e at h)
]

-- The structure that `tmr_create` adds to those held: one if the free list is empty and `malloc`
-- succeeds.
abbrev pub allocated : ℕ → Option ℕ → List Timer → ℕ
allocated b none [] = 0
allocated b (some a) [] = hit a b
allocated b m (t ∷ ts) = 0

-- `tmr_create` at a normal stamp keeps the active timers in order, and the timer structures held
-- afterwards are those held before and, with an empty free list, the one that `malloc` gave.
pub tmr_create_lem :
    (nowP : Option IperfTime) (clock : IperfTime) (malloc : Option ℕ) (proc data' : ℕ)
    (usecs periodic : ℤ) (s : Timers) (b : ℕ)
    → IsNormal (getnow nowP clock)
    → IsOrdered s.timers
    → let s' = (tmr_create nowP clock malloc proc data' usecs periodic s).0 in
      IsOrdered s'.timers × (held b s' ≡ held b s + allocated b malloc s.free_timers)
unfolding tmr_create
tmr_create_lem nowP clock malloc proc data' usecs periodic s b v o = go malloc s.free_timers
  where
    new : ℕ → Timer
    new a = record {
      addr = a;
      timer_proc = proc;
      client_data = data';
      usecs = usecs;
      periodic = periodic;
      time = iperf_time_add_usecs (getnow nowP clock) (to_u64 usecs);
    }

    added : (a : ℕ) → IsOrdered (list_add (new a) s.timers)
    added a =
        list_add-IsOrdered (new a) s.timers
          (add_usecs-IsNormal (getnow nowP clock) (to_u64 usecs) v) o

    go :
        (m : Option ℕ) (free : List Timer)
        → let s' =
            (tmr_create nowP clock m proc data' usecs periodic
              (record { timers = s.timers; free_timers = free })).0 in
          IsOrdered s'.timers × (held b s' ≡ occurs b s.timers + occurs b free + allocated b m free)
    go none [] = (o, omega arith)
    go (some a) [] = (added a, omega (arith, occurs-list_add b (new a) s.timers))
    go none (t ∷ free) = (added t.addr, omega (arith, occurs-list_add b (new t.addr) s.timers))
    go (some a) (t ∷ free) = (added t.addr, omega (arith, occurs-list_add b (new t.addr) s.timers))

-- The earliest instant among timers.
abbrev pub earliest : Timer → List Timer → ℕ
earliest t [] = instant t.time
earliest t (u ∷ us) = min (instant t.time) (earliest u us)

earliest-head :
    (t : Timer) (ts : List Timer) → NotBefore (instant t.time) ts → earliest t ts ≡ instant t.time
earliest-head t [] b = refl
earliest-head t (u ∷ us) (v, k, b) = omega (arith, below u us k b)
  where
    below :
        (u : Timer) (us : List Timer)
        → instant t.time ≤ instant u.time
        → NotBefore (instant t.time) us
        → instant t.time ≤ earliest u us
    below u [] k b = k
    below u (w ∷ us) k (v, k', b) = omega (arith, below w us k' b)

-- With timers in order, `tmr_timeout` at a normal stamp waits exactly until the earliest of all
-- active timers is due, not at all if it is, and the result is a proper `timeval`.
pub tmr_timeout_lem :
    (nowP : Option IperfTime) (clock : IperfTime) (s : Timers) (t : Timer) (ts : List Timer)
    → IsNormal (getnow nowP clock)
    → s.timers ≡ t ∷ ts
    → IsOrdered (t ∷ ts)
    → (sec : ℕ) × (usec : ℕ) × (tmr_timeout nowP clock s ≡ some (sec, usec))
      × (usec < 1000000)
      × (sec * 1000000 + usec ≡ earliest t ts - instant (getnow nowP clock))
unfolding tmr_timeout
tmr_timeout_lem nowP clock s t ts v e (vt, b, o) =
    let now = getnow nowP clock in
    let (past, diff) = iperf_time_diff t.time now in
    let usecs = if past then 0 else iperf_time_in_usecs diff in
    let (vd, dist, late) = diff_lem t.time now vt v in
    (
      usecs / 1000000,
      usecs % 1000000,
      rw e refl,
      omega arith,
      ground (arith, earliest-head t ts b, diff_lem t.time now vt v, in_usecs-eq-instant diff vd),
    )
