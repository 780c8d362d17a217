-- ===== src/Server.antt =====
-- iperfwrapperlib/iperf/src/iperf_server_api.c: the timers of a server, and what its timer of last
-- resort does. The interval timers and the period to omit are made by the same code as the client's.
pub mod Ends
pub mod GivesUp
pub mod Tests
use mm_wave_tracker.Prelude.{ℕ, Bool, List, Option, none, some, ◌++◌, [], ◌∷◌, if◌then◌else◌}
use mm_wave_tracker.Prelude.Int.{ℤ, pos, ◌+ℤ◌, ◌*ℤ◌, truthy}
use mm_wave_tracker.Prelude.Double.{Double}
use mm_wave_tracker.Time.{IperfTime}
use mm_wave_tracker.Timer.{Timers, tmr_cancel}
use mm_wave_tracker.Client.Timers.{Timing, Procs, create_timers, create_client_omit_timer}

abbrev pub max_rtt : ℤ
max_rtt = pos 4

abbrev pub state_transitions : ℤ
state_transitions = pos 10

unfoldable pub grace_period : ℤ
unfolding ◌*ℤ◌
grace_period = max_rtt *ℤ state_transitions

infixl 5 ◌>>=◌
abbrev ◌>>=◌ : {A B : Type 0} → Option A → (A → Option B) → Option B
none >>= f = none
some a >>= f = f a

-- What `iperf_free_stream` needs of a stream: its socket and its timer to send.
pub record Held : Type 0 where
  pub socket : ℕ
  pub send_timer : Option ℕ

unfoldable pub cancel_send_timer : Option ℕ → Timers → Option Timers
cancel_send_timer none s = some s
cancel_send_timer (some a) s = tmr_cancel a s

-- The streams of a test are closed and freed, the first one first. `none`: a send timer is not active.
unfoldable pub free_streams : List Held → Timers → Option (List ℕ × Timers)
free_streams [] s = some ([], s)
free_streams (sp ∷ sps) s = do
  s' ← cancel_send_timer sp.send_timer s
  (closed, s'') ← free_streams sps s'
  some (sp.socket ∷ closed, s'')

module _ {D : Type 0} where
  unfoldable pub server_seconds : Timing D → ℤ
  server_seconds t = (t.duration +ℤ t.omit) +ℤ grace_period

  -- `create_server_timers`.
  unfoldable pub create_server_timers :
      Double D
      → Option IperfTime
      → Option ℕ
      → Option ℕ
      → Option ℕ
      → Procs
      → Timing D
      → Timers
      → Bool × Timing D × Timers
  create_server_timers fp clock m1 m2 m3 procs t s =
      create_timers fp (server_seconds t) clock m1 m2 m3 procs t s

  -- `create_server_omit_timer`, the same code as `create_client_omit_timer`.
  unfoldable pub create_server_omit_timer :
      Option IperfTime → Option ℕ → Procs → Timing D → Timers → Bool × Timing D × Timers
  create_server_omit_timer clock malloc procs t s = create_client_omit_timer clock malloc procs t s

  -- `server_timer_proc`: the test, the timers, the streams that stay, and the sockets that are closed
  -- in their order. A test that is done keeps its streams.
  unfoldable pub server_timer_proc :
      ℕ → List Held → Timing D → Timers → Option (Timing D × Timers × List Held × List ℕ)
  server_timer_proc ctrl_sck streams t s =
      if truthy t.done then some (record t { timer = none }, s, streams, []) else do
        (closed, s') ← free_streams streams s
        some (record t { timer = none; done = pos 1 }, s', [], closed ++ (ctrl_sck ∷ []))
