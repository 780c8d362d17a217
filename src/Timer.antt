-- ===== src/Timer.antt =====
-- iperfwrapperlib/iperf/src/timer.c: the timers of a test, soonest first, and the list of timer
-- structures to use again. The doubly linked lists are lists; a pointer to a timer is its address.
pub mod Order
pub mod Count
pub mod Calls
pub mod Lag
pub mod Moved
pub mod Tracked
pub mod Total
pub mod Run
pub mod Tests
use mm_wave_tracker.Prelude.{
  ℕ, zero, suc, ◌/◌, ◌%◌, Bool, List, [], ◌∷◌, Option, none, some, false, not, ◌&&◌, ◌||◌, ◌==◌,
  if◌then◌else◌,
}
use mm_wave_tracker.Prelude.Int.{ℤ, pos, ltb_ℤ, truthy}
use mm_wave_tracker.Prelude.Word.{to_u64}
use mm_wave_tracker.Time.{
  IperfTime, iperf_time_add_usecs, iperf_time_in_usecs, iperf_time_compare, iperf_time_diff,
}

-- `Timer`, with the address of the structure, and those of the callback and of its data.
pub record Timer : Type 0 where
  pub addr : ℕ
  pub timer_proc : ℕ
  pub client_data : ℕ
  pub usecs : ℤ
  pub periodic : ℤ
  pub time : IperfTime

-- The two static lists.
pub record Timers : Type 0 where
  pub timers : List Timer
  pub free_timers : List Timer

-- `getnow`: the stamp that the caller passed, or else the clock's.
abbrev pub getnow : Option IperfTime → IperfTime → IperfTime
getnow none clock = clock
getnow (some t) clock = t

abbrev pub is_before : IperfTime → IperfTime → Bool
is_before a b = ltb_ℤ (iperf_time_compare a b) (pos 0)

-- `list_add`: behind the timers that are not later.
unfoldable pub list_add : Timer → List Timer → List Timer
list_add t [] = t ∷ []
list_add t (u ∷ us) = if is_before t.time u.time then t ∷ u ∷ us else u ∷ list_add t us

-- `list_remove`, of the timer at an address.
unfoldable pub list_remove : ℕ → List Timer → List Timer
list_remove a [] = []
list_remove a (u ∷ us) = if u.addr == a then us else u ∷ list_remove a us

-- `list_resort`, of a timer whose time was changed.
unfoldable pub list_resort : Timer → List Timer → List Timer
list_resort t l = list_add t (list_remove t.addr l)

-- The timer at an address, and the pointer `next` of that timer.
unfoldable pub deref : ℕ → List Timer → Option Timer
deref a [] = none
deref a (u ∷ us) = if u.addr == a then some u else deref a us

abbrev pub head_addr : List Timer → Option ℕ
head_addr [] = none
head_addr (u ∷ us) = some u.addr

unfoldable pub next_of : ℕ → List Timer → Option ℕ
next_of a [] = none
next_of a (u ∷ us) = if u.addr == a then head_addr us else next_of a us

-- The structure that `tmr_create` fills: the first of the free list, or else what `malloc` gives.
take_free : Option ℕ → List Timer → Option (ℕ × List Timer)
take_free malloc (t ∷ free) = some (t.addr, free)
take_free none [] = none
take_free (some a) [] = some (a, [])

-- `tmr_create`: the new state and the address of the timer, `none` for NULL.
unfoldable pub tmr_create :
    Option IperfTime → IperfTime → Option ℕ → ℕ → ℕ → ℤ → ℤ → Timers → Timers × Option ℕ
unfolding take_free
tmr_create nowP clock malloc proc client_data usecs periodic s =
    elim (take_free malloc s.free_timers) [
      | none ↦ (s, none)
      | some (a, free) ↦
          let t : Timer = record {
            addr = a;
            timer_proc = proc;
            client_data = client_data;
            usecs = usecs;
            periodic = periodic;
            time = iperf_time_add_usecs (getnow nowP clock) (to_u64 usecs);
          } in
          (record { timers = list_add t s.timers; free_timers = free }, some a)
    ]

-- `tmr_timeout`: seconds and microseconds to wait, `none` for NULL.
unfoldable pub tmr_timeout : Option IperfTime → IperfTime → Timers → Option (ℕ × ℕ)
tmr_timeout nowP clock s = elim s.timers [
  | [] ↦ none
  | t ∷ ts ↦
      let (past, diff) = iperf_time_diff t.time (getnow nowP clock) in
      let usecs = if past then 0 else iperf_time_in_usecs diff in
      some (usecs / 1000000, usecs % 1000000)
]

-- A callback's `if (timer != NULL) tmr_reset(nowP, timer)`: a pointer to no active timer is NULL.
unfoldable pub reset_active : Option IperfTime → IperfTime → ℕ → Timers → Timers
reset_active nowP clock a s = elim (deref a s.timers) [
  | none ↦ s
  | some t ↦
      let t' = record t { time = iperf_time_add_usecs (getnow nowP clock) (to_u64 t.usecs) } in
      record s { timers = list_resort t' s.timers }
]

-- `tmr_reset`, of the timer at an address. `none`: the timer is not active, and `list_remove` would
-- take it off a list on which it is not.
unfoldable pub tmr_reset : Option IperfTime → IperfTime → ℕ → Timers → Option Timers
tmr_reset nowP clock a s = elim (deref a s.timers) [
  | none ↦ none
  | some t ↦
      let t' = record t { time = iperf_time_add_usecs (getnow nowP clock) (to_u64 t.usecs) } in
      some (record s { timers = list_resort t' s.timers })
]

-- `tmr_cancel`, of the timer at an address. `none`: the timer is not active.
unfoldable pub tmr_cancel : ℕ → Timers → Option Timers
tmr_cancel a s = elim (deref a s.timers) [
  | none ↦ none
  | some t ↦ some (record { timers = list_remove a s.timers; free_timers = t ∷ s.free_timers })
]

-- The `tmr_cancel` of `tmr_run`, of the timer that it has called, which is active.
unfoldable pub cancel_active : ℕ → Timers → Timers
cancel_active a s = elim (deref a s.timers) [
  | none ↦ s
  | some t ↦ record { timers = list_remove a s.timers; free_timers = t ∷ s.free_timers }
]

-- `tmr_cleanup`: the free list is given back.
unfoldable pub tmr_cleanup : Timers → Timers
tmr_cleanup s = record s { free_timers = [] }

-- The loop of `tmr_destroy`, a round for each timer.
cancel_all : List Timer → List Timer → List Timer
cancel_all [] free = free
cancel_all (t ∷ ts) free = cancel_all ts (t ∷ free)

unfoldable pub tmr_destroy : Timers → Timers
unfolding cancel_all tmr_cleanup
tmr_destroy s =
    tmr_cleanup (record { timers = []; free_timers = cancel_all s.timers s.free_timers })

-- What a callback does to the timers: `resets` is a reset of a timer that is not NULL, `cancels` is
-- `tmr_cancel`.
pub data Act : Type 0 where
  resets : ℕ → Act
  cancels : ℕ → Act

-- A callback changes the caller's state and the timers.
abbrev pub Callback : Type 0 → Type 0
Callback W = ℕ → ℕ → IperfTime → W → W × List Act

abbrev pub is_next : ℕ → Option ℕ → Bool
is_next b none = false
is_next b (some n) = b == n

-- An act while `tmr_run` calls the timer at `a` and holds `next`. `none`: a timer is cancelled that is
-- not active, or that `tmr_run` then goes on with, which are the one at `a` and `next` if it is due.
unfoldable pub act_on : IperfTime → ℕ → Option ℕ → Act → Timers → Option Timers
act_on now a next (resets b) s = some (reset_active (some now) now b s)
act_on now a next (cancels b) s = elim (deref b s.timers) [
  | none ↦ none
  | some t ↦
      if (b == a) || (is_next b next && not (is_before now t.time))
      then none
      else some (record { timers = list_remove b s.timers; free_timers = t ∷ s.free_timers })
]

unfoldable pub act_all : IperfTime → ℕ → Option ℕ → List Act → Timers → Option Timers
act_all now a next [] s = some s
act_all now a next (x ∷ xs) s = elim (act_on now a next x s) [
  | none ↦ none
  | some s' ↦ act_all now a next xs s'
]

-- What `tmr_run` does to a timer that has been called: schedule it again, or take it off.
unfoldable pub reschedule : ℕ → Timers → Timers
unfolding list_resort cancel_active
reschedule a s = elim (deref a s.timers) [
  | none ↦ s
  | some t ↦
      if truthy t.periodic
      then record s {
        timers =
            list_resort (record t { time = iperf_time_add_usecs t.time (to_u64 t.usecs) }) s.timers;
      }
      else cancel_active a s
]

module _ {W : Type 0} (call : Callback W) (now : IperfTime) where
  -- The loop of `tmr_run`, from the timer that `t` points to. `none` means that the fuel ran out, and
  -- `some none` that a callback has cancelled a timer that the loop goes on with, or one that is not
  -- active. A `next` that was cancelled and is not due ends the loop.
  unfoldable pub run_from : ℕ → Option ℕ → Timers → W → Option (Option (Timers × W))
  run_from zero cur s w = none
  run_from (suc fuel) none s w = some (some (s, w))
  run_from (suc fuel) (some a) s w = elim (deref a s.timers) [
    | none ↦ some (some (s, w))
    | some t ↦
        if is_before now t.time
        then some (some (s, w))
        else (let (w', acts) = call t.timer_proc t.client_data now w in
            elim (act_all now a (next_of a s.timers) acts s) [
              | none ↦ some none
              | some s' ↦ run_from fuel (next_of a s.timers) (reschedule a s') w'
            ])
  ]

  unfoldable pub tmr_run : ℕ → Timers → W → Option (Option (Timers × W))
  tmr_run fuel s w = run_from fuel (head_addr s.timers) s w
