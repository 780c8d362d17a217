-- ===== src/Client/Ports.antt =====
-- The local ports of the streams that a client opens.
use mm_wave_tracker.Prelude.{
  ℕ, zero, suc, ◌+◌, ◌≡◌, refl, sym, ◌∙◌, ap, Bool, true, false, List, [], ◌∷◌, ◌++◌, ◌==◌,
  if◌then◌else◌, arith,
}
use mm_wave_tracker.Prelude.Int.{ℤ, pos, ◌+ℤ◌}
use mm_wave_tracker.Config.{Mode, sender, receiver, bidirectional}
use mm_wave_tracker.Client.{
  Opening, next_port, add_stream, create_from, iperf_create_streams, on_create_streams,
}
use mm_wave_tracker.Stream.Account.{not_negative}
use mathlib.Core.List.{append_assoc, append-nil}

-- `n` ports, one after the other; 0 asks for any port each time.
abbrev pub ports : ℕ → ℕ → List ℤ
ports zero p = []
ports (suc n) p = pos p ∷ ports n (suc p)

next_port_lem : (p i : ℕ) → next_port (pos (suc p)) (pos i) ≡ pos (suc p + i)
unfolding next_port ◌+ℤ◌
next_port_lem p i = ground arith

shift : (p i : ℕ) → suc p + suc i ≡ suc (suc p + i)
shift p i = omega arith

last_port :
    (n p i : ℕ) (x y : ℤ)
    → x ≡ pos (suc p + i)
    → (if n == 0 then x else pos (p + suc i + n)) ≡ (if suc n == 0 then y else pos (p + i + suc n))
last_port n p i x y e = ground arith

plus_zero : (n : ℕ) → n + 0 ≡ n
plus_zero n = omega arith

final_port : (n p : ℕ) (x : ℤ) → (if suc n == 0 then x else pos (p + 0 + suc n)) ≡ pos (suc p + n)
final_port n p x = ground arith

suc_plus : (p n : ℕ) → suc (p + n) ≡ suc p + n
suc_plus p n = omega arith

one_more : (n : ℕ) → pos n +ℤ pos 1 ≡ pos (suc n)
unfolding ◌+ℤ◌
one_more n = ground arith

abbrev pub is_bidirectional : Mode → Bool
is_bidirectional bidirectional = true
is_bidirectional _ = false

module _ {W : Type 0} (connect : Opening → W → ℤ × W) (new_stream : Opening → ℤ → ℤ → W → Bool × W)
    (log : W → List ℤ)
    (connects : (t : Opening) (w : W)
      → (s : ℕ) × ((connect t w).0 ≡ pos s) × (log (connect t w).1 ≡ log w ++ (t.bind_port ∷ [])))
    (makes : (t : Opening) (s b : ℤ) (w : W)
      → ((new_stream t s b w).0 ≡ true) × (log (new_stream t s b w).1 ≡ log w)) where
  add_stream_lem :
      (b s : ℤ) (t : Opening) (w : W)
      → let r = add_stream connect new_stream b s t w in
        (r.0 ≡ true)
        × (log r.2 ≡ log w)
        × (r.1.bind_port ≡ t.bind_port)
        × (r.1.num_streams ≡ t.num_streams)
  unfolding add_stream
  add_stream_lem b s t w = ((makes _ s b w).0, (makes _ s b w).1, refl, refl)

  -- Streams with ports of their own, from index `i` on.
  create_from-ports :
      (n i p : ℕ) (b : ℤ) (t : Opening) (w : W)
      → let r = create_from connect new_stream n (pos i) (pos (suc p)) b t w in
        (r.0 ≡ true)
        × (log r.2 ≡ log w ++ ports n (suc p + i))
        × (r.1.bind_port ≡ (if n == 0 then t.bind_port else pos (p + i + n)))
        × (r.1.num_streams ≡ t.num_streams)
  unfolding create_from
  create_from-ports zero i p b t w = (refl, sym (append-nil (log w)), refl, refl)
  create_from-ports (suc n) i p b t w =
      let t1 = record t { bind_port = pos (suc p + i) } in
      let (s, es, el) = connects t1 w in
      let w1 = (connect t1 w).1 in
      let (ok, kept, port, number) = add_stream_lem b (pos s) t1 w1 in
      let r = add_stream connect new_stream b (pos s) t1 w1 in
      let (ok', logged, last, number') = create_from-ports n (suc i) p b r.1 r.2 in
      rw (create_from, next_port_lem p i, es, not_negative s, ok, one_more i)
        (
          ok',
          logged
              ∙ ap (λ v. v ++ ports n (suc p + suc i)) (kept ∙ el)
              ∙ append_assoc (log w) (pos (suc p + i) ∷ []) (ports n (suc p + suc i))
              ∙ ap (λ q. log w ++ (pos (suc p + i) ∷ ports n q)) (shift p i),
          last ∙ last_port n p i _ _ port,
          number' ∙ number,
        )

  batch :
      (b : ℤ) (t : Opening) (w : W) (n p : ℕ)
      → t.num_streams ≡ pos (suc n)
      → t.bind_port ≡ pos (suc p)
      → let r = iperf_create_streams connect new_stream b t w in
        (r.0 ≡ true)
        × (log r.2 ≡ log w ++ ports (suc n) (suc p))
        × (r.1.bind_port ≡ pos (suc p + n))
        × (r.1.num_streams ≡ pos (suc n))
  unfolding iperf_create_streams
  batch b t w n p en ep =
      let (ok, logged, port, number) = create_from-ports (suc n) 0 p b t w in
      simp (iperf_create_streams, en, ep)
        (
          ok,
          logged ∙ ap (λ q. log w ++ ports (suc n) q) (plus_zero (suc p)),
          port ∙ final_port n p _,
          number ∙ en,
        )

  -- When every connection and every stream succeeds, a client with a local port opens its streams from
  -- ports that follow each other, the first from that port; both ways, the streams that receive do
  -- not go on where the others end: the first has the port that the last sending stream has already.
  pub create_streams-ports :
      (t : Opening) (w : W) (n p : ℕ)
      → t.num_streams ≡ pos (suc n)
      → t.bind_port ≡ pos (suc p)
      → let r = on_create_streams connect new_stream t w in
        (r.0 ≡ true)
        × (log r.2 ≡ (
            if is_bidirectional t.mode
            then log w ++ (ports (suc n) (suc p) ++ ports (suc n) (suc p + n))
            else log w ++ ports (suc n) (suc p)))
  unfolding on_create_streams iperf_create_streams
  create_streams-ports t w n p en ep = go t.mode refl
    where
      go :
          (m : Mode)
          → t.mode ≡ m
          → let r = on_create_streams connect new_stream t w in
            (r.0 ≡ true)
            × (log r.2 ≡ (
                if is_bidirectional m
                then log w ++ (ports (suc n) (suc p) ++ ports (suc n) (suc p + n))
                else log w ++ ports (suc n) (suc p)))
      go sender e =
          let (ok, logged, _, _) = batch (pos 1) t w n p en ep in
          simp (on_create_streams, e) (ok, logged)
      go receiver e =
          let (ok, logged, _, _) = batch (pos 0) t w n p en ep in
          simp (on_create_streams, e) (ok, logged)
      go bidirectional e =
          let (ok, logged, port, number) = batch (pos 1) t w n p en ep in
          let r = iperf_create_streams connect new_stream (pos 1) t w in
          let (ok', logged', _, _) =
            batch (pos 0) r.1 r.2 n (p + n) number (port ∙ ap pos (sym (suc_plus p n))) in
          simp (on_create_streams, e, ok)
            (
              ok',
              logged'
                  ∙ ap (λ v. v ++ ports (suc n) (suc (p + n))) logged
                  ∙ append_assoc (log w) (ports (suc n) (suc p)) (ports (suc n) (suc (p + n)))
                  ∙ ap (λ q. log w ++ (ports (suc n) (suc p) ++ ports (suc n) q)) (suc_plus p n),
            )
