-- ===== src/Client/Timers/Due.antt =====
-- When the test of a client or a server ends: the timer that `create_timers` makes for it.
use mm_wave_tracker.Prelude.{
  ℕ, suc, ◌+◌, ◌*◌, ◌≤◌, ◌<◌, ◌≡◌, refl, sym, ◌∙◌, ap, Bool, true, false, List, [], ◌∷◌, Option,
  none, some, ◌==◌, Bool-cases, inl, inr, arith,
}
use mathlib.Core.Path.{subst}
use mm_wave_tracker.Prelude.Int.{ℤ, pos, ◌*ℤ◌, eqb_ℤ}
use mm_wave_tracker.Prelude.Word.{to_u64, u32_mod}
use mm_wave_tracker.Prelude.Double.{Double}
use mm_wave_tracker.Time.{IperfTime, IsNormal, iperf_time_add_usecs}
use mm_wave_tracker.Time.Order.{instant}
use mm_wave_tracker.Time.Add.{add_usecs-IsNormal, add_usecs_lem}
use mm_wave_tracker.Timer.{Timer, Timers, tmr_create, list_add, deref}
use mm_wave_tracker.Timer.Order.{IsOrdered, list_add-IsOrdered}
use mm_wave_tracker.Timer.Count.{hit, occurs, held, occurs-list_add}
use mm_wave_tracker.Timer.Lag.{deref-list_add_self, deref-list_add_ne}
use mm_wave_tracker.Client.Timers.{
  Timing, Procs, create_at, sec_to_us, create_test_timer, is_zero, interval_usecs,
  create_stats_timer, create_reporter_timer, create_timers,
}

abbrev new_timer : IperfTime → ℕ → ℕ → ℕ → ℤ → ℤ → Timer
new_timer now a proc data' usecs periodic = record {
  addr = a;
  timer_proc = proc;
  client_data = data';
  usecs = usecs;
  periodic = periodic;
  time = iperf_time_add_usecs now (to_u64 usecs);
}

-- No structure is held twice when those that `malloc` will give, `more`, are counted too.
abbrev pub IsSingle : (ℕ → ℕ) → Timers → Type 0
IsSingle more s = (x : ℕ) → held x s + more x ≤ 1

not_there : (a : ℕ) (l : List Timer) → occurs a l ≡ 0 → deref a l ≡ none
unfolding deref
not_there a [] h = refl
not_there a (u ∷ us) h = elim (Bool-cases (u.addr == a)) [
  | inl e ↦ absurd (ground arith)
  | inr e ↦ rw e (not_there a us (omega (arith, h)))
]

other_addr :
    (a k : ℕ) (l : List Timer) {t : Timer}
    → deref k l ≡ some t
    → deref a l ≡ none
    → (a == k) ≡ false
other_addr a k l {t} h n = elim (Bool-cases (a == k)) [
  | inr e ↦ e
  | inl e ↦
      let same : a ≡ k = ground arith in
      absurd (some≢none (sym h ∙ ap (λ x. deref x l) (sym same) ∙ n))
]
  where
    some≢none : some t ≡ none → ⊥
    some≢none q = cc

-- What a call of `tmr_create` does with the structure at `a`, which was not active.
record Makes (now : IperfTime) (m a proc data' : ℕ) (usecs periodic : ℤ) (s : Timers)
    (r : Timers × Option ℕ) : Type 0 where
  made : r.1 ≡ some a
  added : r.0.timers ≡ list_add (new_timer now a proc data' usecs periodic) s.timers
  idle : deref a s.timers ≡ none
  few : (x : ℕ) → held x r.0 ≤ held x s + hit m x

-- The structure is the first spare one, or else the one that `malloc` gives.
created :
    (more : ℕ → ℕ) (now : IperfTime) (m proc data' : ℕ) (usecs periodic : ℤ) (s : Timers)
    → IsSingle (λ x. hit m x + more x) s
    → (a : ℕ) × Makes now m a proc data' usecs periodic s
        (create_at now (some m) proc data' usecs periodic s)
unfolding tmr_create
created more now m proc data' usecs periodic s single = go s.free_timers refl
  where
    self : (b : ℕ) → hit b b ≡ 1
    self b = ground arith

    go :
        (free : List Timer)
        → s.free_timers ≡ free
        → (a : ℕ) × Makes now m a proc data' usecs periodic s
            (create_at now (some m) proc data' usecs periodic s)
    go [] e = (
      m,
      rw (tmr_create, e)
          record {
            made = refl;
            added = refl;
            idle = not_there m s.timers (omega (arith, single m, self m));
            few = λ x.
                omega
                  (arith, occurs-list_add x (new_timer now m proc data' usecs periodic) s.timers);
          },
    )
    go (f ∷ free) e =
        let spare : (x : ℕ) → occurs x s.free_timers ≡ hit f.addr x + occurs x free =
          λ x. ap (λ l. occurs x l) e in
        (
          f.addr,
          rw (tmr_create, e)
              record {
                made = refl;
                added = refl;
                idle =
                    not_there f.addr s.timers
                      (omega (arith, single f.addr, self f.addr, spare f.addr));
                few = λ x. omega (
                  arith,
                  occurs-list_add x (new_timer now f.addr proc data' usecs periodic) s.timers,
                );
              },
        )

-- What a step leaves: the timers in order, that of the test at `a` as it was, and no more structures
-- than before with the one of `malloc`.
record Leaves {D : Type 0} (m a : ℕ) (t : Timing D) (s : Timers) (r : Bool × Timing D × Timers)
    : Type 0 where
  ok : r.0 ≡ true
  done : r.1.done ≡ t.done
  timer : r.1.timer ≡ t.timer
  ordered : IsOrdered r.2.timers
  kept : deref a r.2.timers ≡ deref a s.timers
  few : (x : ℕ) → held x r.2 ≤ held x s + hit m x

suc_nonzero : (d : ℕ) → eqb_ℤ (pos (suc d)) (pos 0) ≡ false
suc_nonzero d = ground arith

test_timer_made :
    {D : Type 0} (seconds : ℤ) (now : IperfTime) (m a : ℕ) (procs : Procs) (t : Timing D)
    (s : Timers)
    → eqb_ℤ t.duration (pos 0) ≡ false
    → let r =
        create_at now (some m) procs.test_timer_proc procs.test (seconds *ℤ sec_to_us) (pos 0) s in
      r.1 ≡ some a
      → create_test_timer seconds now (some m) procs t s
        ≡ (true, record t { done = pos 0; timer = some a }, r.0)
unfolding create_test_timer
test_timer_made seconds now m a procs t s z made =
    let s1 =
      (create_at now (some m) procs.test_timer_proc procs.test (seconds *ℤ sec_to_us) (pos 0)
        s).0 in
    rw (create_test_timer, z, made)
      (ap (λ o. (true, record t { done = pos 0; timer = o }, s1)) made)

-- What the routine leaves: no error, the test not done, all timers in order, and that of the test,
-- which is not periodic, due at an instant.
abbrev pub IsDue : {D : Type 0} → Procs → ℕ → Bool × Timing D × Timers → Type 0
IsDue procs at r =
    (r.0 ≡ true)
    × (r.1.done ≡ pos 0)
    × IsOrdered r.2.timers
    × ((a : ℕ) × (u : Timer) × (r.1.timer ≡ some a)
        × (deref a r.2.timers ≡ some u)
        × (u.timer_proc ≡ procs.test_timer_proc)
        × (u.client_data ≡ procs.test)
        × (u.periodic ≡ pos 0)
        × (instant u.time ≡ at))

module _ {D : Type 0} (fp : Double D) (now : IperfTime) (v : IsNormal now) where
  stats-Leaves :
      (more : ℕ → ℕ) (m a : ℕ) (procs : Procs) (t : Timing D) (s : Timers) {x : Timer}
      → deref a s.timers ≡ some x
      → IsSingle (λ y. hit m y + more y) s
      → IsOrdered s.timers
      → Leaves m a t s (create_stats_timer fp now (some m) procs t s)
  unfolding create_stats_timer
  stats-Leaves more m a procs t s found single o =
      let usecs = interval_usecs fp t.stats_interval in
      let (b, k) = created more now m procs.stats_timer_proc procs.test usecs (pos 1) s single in
      let u = new_timer now b procs.stats_timer_proc procs.test usecs (pos 1) in
      elim (Bool-cases (is_zero fp t.stats_interval)) [
        | inl z ↦
            rw (create_stats_timer, z)
              record {
                ok = refl;
                done = refl;
                timer = refl;
                ordered = o;
                kept = refl;
                few = λ y. omega arith;
              }
        | inr z ↦
            rw (create_stats_timer, z, k.made)
              record {
                ok = refl;
                done = refl;
                timer = refl;
                ordered =
                    subst (λ l. IsOrdered l) (sym k.added)
                      (list_add-IsOrdered u s.timers (add_usecs-IsNormal now (to_u64 u.usecs) v) o);
                kept =
                    ap (λ l. deref a l) k.added
                    ∙ deref-list_add_ne a u s.timers (other_addr b a s.timers found k.idle);
                few = k.few;
              }
      ]

  reporter-Leaves :
      (more : ℕ → ℕ) (m a : ℕ) (procs : Procs) (t : Timing D) (s : Timers) {x : Timer}
      → deref a s.timers ≡ some x
      → IsSingle (λ y. hit m y + more y) s
      → IsOrdered s.timers
      → Leaves m a t s (create_reporter_timer fp now (some m) procs t s)
  unfolding create_reporter_timer
  reporter-Leaves more m a procs t s found single o =
      let usecs = interval_usecs fp t.reporter_interval in
      let (b, k) = created more now m procs.reporter_timer_proc procs.test usecs (pos 1) s single in
      let u = new_timer now b procs.reporter_timer_proc procs.test usecs (pos 1) in
      elim (Bool-cases (is_zero fp t.reporter_interval)) [
        | inl z ↦
            rw (create_reporter_timer, z)
              record {
                ok = refl;
                done = refl;
                timer = refl;
                ordered = o;
                kept = refl;
                few = λ y. omega arith;
              }
        | inr z ↦
            rw (create_reporter_timer, z, k.made)
              record {
                ok = refl;
                done = refl;
                timer = refl;
                ordered =
                    subst (λ l. IsOrdered l) (sym k.added)
                      (list_add-IsOrdered u s.timers (add_usecs-IsNormal now (to_u64 u.usecs) v) o);
                kept =
                    ap (λ l. deref a l) k.added
                    ∙ deref-list_add_ne a u s.timers (other_addr b a s.timers found k.idle);
                few = k.few;
              }
      ]

  pub timers-IsDue :
      (seconds : ℤ) (n a b c : ℕ) (procs : Procs) (t : Timing D) (s : Timers)
      → IsSingle (λ x. hit a x + (hit b x + hit c x)) s
      → IsOrdered s.timers
      → eqb_ℤ t.duration (pos 0) ≡ false
      → to_u64 (seconds *ℤ sec_to_us) ≡ n
      → instant now + n < u32_mod * 1000000
      → IsDue procs
          (instant now + n)
          (create_timers fp seconds (some now) (some a) (some b) (some c) procs t s)
  unfolding create_timers create_test_timer
  timers-IsDue seconds n a b c procs t s single ord nonzero us room =
      let usecs = seconds *ℤ sec_to_us in
      let t0 = record t { timer = none; stats_timer = none; reporter_timer = none } in
      let (d, k) =
        created (λ x. hit b x + hit c x) now a procs.test_timer_proc procs.test usecs (pos 0) s
          single in
      let u = new_timer now d procs.test_timer_proc procs.test usecs (pos 0) in
      let t1 = record t0 { done = pos 0; timer = some d } in
      let s1 = (create_at now (some a) procs.test_timer_proc procs.test usecs (pos 0) s).0 in
      let ord1 : IsOrdered s1.timers =
        subst (λ l. IsOrdered l) (sym k.added)
          (list_add-IsOrdered u s.timers (add_usecs-IsNormal now (to_u64 usecs) v) ord) in
      let found1 = ap (λ l. deref d l) k.added ∙ deref-list_add_self u s.timers k.idle in
      let k2 =
        stats-Leaves (λ x. hit c x) b d procs t1 s1 found1 (λ x. omega (arith, single x, k.few x))
          ord1 in
      let r2 = create_stats_timer fp now (some b) procs t1 s1 in
      let k3 =
        reporter-Leaves (λ x. 0) c d procs r2.1 r2.2 (k2.kept ∙ found1)
          (λ x. omega (arith, single x, k.few x, k2.few x)) k2.ordered in
      let r3 = create_reporter_timer fp now (some c) procs r2.1 r2.2 in
      let same : create_timers fp seconds (some now) (some a) (some b) (some c) procs t s ≡ r3 =
        rw (create_timers, test_timer_made seconds now a d procs t0 s nonzero k.made, k2.ok) refl in
      subst (IsDue procs (instant now + n)) (sym same) (
        k3.ok,
        k3.done ∙ k2.done,
        k3.ordered,
        (
          d,
          u,
          k3.timer ∙ k2.timer,
          k3.kept ∙ k2.kept ∙ found1,
          refl,
          refl,
          refl,
          (add_usecs_lem now (to_u64 usecs) v (omega (arith, us))).1 ∙ ap (λ m. instant now + m) us,
        ),
      )
