-- ===== src/Server/GivesUp.antt =====
-- iperfwrapperlib/iperf/src/iperf_server_api.c: what `server_timer_proc` does with the streams of a
-- test that is not done, and with their timers to send.
use mm_wave_tracker.Prelude.{
  ℕ, ◌+◌, ◌≤◌, ◌≡◌, refl, ◌∙◌, ap, false, List, [], ◌∷◌, ◌++◌, Option, none, some, arith, ◌==◌, inl,
  inr, Bool-cases, Option-cases,
}
use mm_wave_tracker.Prelude.Int.{pos, truthy}
use mm_wave_tracker.Timer.{Timer, Timers, list_remove, deref, tmr_cancel}
use mm_wave_tracker.Timer.Order.{IsOrdered, list_remove-IsOrdered}
use mm_wave_tracker.Timer.Run.{Keeps}
use mm_wave_tracker.Timer.Count.{hit, occurs, occurs-list_remove, deref-addr}
use mm_wave_tracker.Client.Timers.{Timing}
use mm_wave_tracker.Server.{Held, server_timer_proc, free_streams, cancel_send_timer}

abbrev pub sockets : List Held → List ℕ
sockets [] = []
sockets (sp ∷ sps) = sp.socket ∷ sockets sps

abbrev pub is_send_timer : ℕ → Option ℕ → ℕ
is_send_timer b none = 0
is_send_timer b (some a) = hit a b

-- How many streams have their send timer at an address.
abbrev pub send_timers : ℕ → List Held → ℕ
send_timers b [] = 0
send_timers b (sp ∷ sps) = is_send_timer b sp.send_timer + send_timers b sps

-- The active timers are those of before less the send timers of some streams, and no structure is
-- lost or held twice.
pub record IsRid (sps : List Held) (s s' : Timers) : Type 0 where
  pub keeps : Keeps s s'
  pub gone : (b : ℕ) → occurs b s'.timers + send_timers b sps ≡ occurs b s.timers

unlisted : (a : ℕ) (l : List Timer) → deref a l ≡ none → occurs a l ≡ 0
unfolding deref
unlisted a [] h = refl
unlisted a (u ∷ us) h = elim (Bool-cases (u.addr == a)) [
  | inl e ↦ absurd (some≢none u (rw e at h))
  | inr e ↦ ground (arith, unlisted a us (rw e at h))
]
  where
    some≢none : (v : Timer) → some v ≡ none → ⊥
    some≢none v q = cc

hit_self : (a : ℕ) → hit a a ≡ 1
hit_self a = ground arith

-- The send timer of one stream, which is active.
cancel-IsRid :
    (m : Option ℕ) (s : Timers)
    → IsOrdered s.timers
    → ((b : ℕ) → is_send_timer b m ≤ occurs b s.timers)
    → (s' : Timers) × (cancel_send_timer m s ≡ some s')
      × Keeps s s'
      × ((b : ℕ) → occurs b s'.timers + is_send_timer b m ≡ occurs b s.timers)
unfolding cancel_send_timer tmr_cancel
cancel-IsRid none s o h = (s, refl, record { ordered = o; same_held = λ b. refl }, λ b. omega arith)
cancel-IsRid (some a) s o h = elim (Option-cases (deref a s.timers)) [
  | inl e ↦ absurd (omega (arith, unlisted a s.timers e, h a, hit_self a))
  | inr (t, e) ↦
      let same = ap (λ x. hit x) (deref-addr a s.timers e) in
      (
        record { timers = list_remove a s.timers; free_timers = t ∷ s.free_timers },
        rw (e, tmr_cancel) refl,
        record {
          ordered = list_remove-IsOrdered a s.timers o;
          same_held = λ b. omega (arith, occurs-list_remove a b s.timers e);
        },
        λ b. omega (arith, occurs-list_remove a b s.timers e, ap (λ f. f b) same),
      )
]

free_streams-IsRid :
    (sps : List Held) (s : Timers)
    → IsOrdered s.timers
    → ((b : ℕ) → send_timers b sps ≤ occurs b s.timers)
    → (s' : Timers) × (free_streams sps s ≡ some (sockets sps, s')) × IsRid sps s s'
unfolding free_streams
free_streams-IsRid [] s o h = (
  s,
  refl,
  record { keeps = record { ordered = o; same_held = λ b. refl }; gone = λ b. omega arith },
)
free_streams-IsRid (sp ∷ sps) s o h =
    let (s1, e1, k1, g1) = cancel-IsRid sp.send_timer s o (λ b. omega (arith, h b)) in
    let (s2, e2, r) = free_streams-IsRid sps s1 k1.ordered (λ b. omega (arith, h b, g1 b)) in
    (
      s2,
      rw (free_streams, e1, e2) refl,
      record {
        keeps = record {
          ordered = r.keeps.ordered;
          same_held = λ b. r.keeps.same_held b ∙ k1.same_held b;
        };
        gone = λ b. omega (arith, r.gone b, g1 b);
      },
    )

module _ {D : Type 0} where
  -- `server_timer_proc` of a test that is not done, with the timers in order and each send timer of
  -- a stream active and of that stream alone, does not crash: the test is done and has no timer and
  -- no streams, their sockets are closed in order and then that of the control connection. The
  -- active timers are in order and are those of before less the send timers, and each structure is
  -- held as often as before.
  pub server_timer_proc-IsRid :
      (ctrl_sck : ℕ) (sps : List Held) (t : Timing D) (s : Timers)
      → truthy t.done ≡ false
      → IsOrdered s.timers
      → ((b : ℕ) → send_timers b sps ≤ occurs b s.timers)
      → (s' : Timers) × (server_timer_proc ctrl_sck sps t s
          ≡ some (record t { timer = none; done = pos 1 }, s', [], sockets sps ++ (ctrl_sck ∷ [])))
        × IsRid sps s s'
  unfolding server_timer_proc
  server_timer_proc-IsRid ctrl_sck sps t s d o h =
      let (s', e, r) = free_streams-IsRid sps s o h in (s', rw (server_timer_proc, d, e) refl, r)
