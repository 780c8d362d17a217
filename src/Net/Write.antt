-- ===== src/Net/Write.antt =====
-- `Nwrite` of net.c.
use mm_wave_tracker.Prelude.{
  ℕ, zero, suc, ◌-◌, ◌≤◌, ◌<◌, ◌≡◌, refl, sym, ◌∙◌, ap, ◌⊎◌, inl, inr, List, [], ◌∷◌, ◌++◌, Option,
  arith, length, length-append, take, drop, take-append-drop, length-drop, Gives,
}
use mm_wave_tracker.Prelude.Int.{ℤ}
use mm_wave_tracker.Prelude.Word.{to_int}
use mm_wave_tracker.Net.{
  eintr, eagain, enobufs, enomem, other, WriteResult, took, net_harderror, net_softerror,
  after_write, nwrite_loop, nwrite,
}
use mathlib.Core.List.{append_assoc, append-nil}

module _ {W : Type 0} (sent : W → List ℕ) where
  -- What `write` documents: it sends the first bytes of what it is given, as many as it says, and
  -- none if it fails.
  abbrev pub Sends : List ℕ → W → WriteResult × W → Type 0
  Sends bs w (took r, w') = (r ≤ length bs) × (sent w' ≡ sent w ++ take r bs)
  Sends bs w (WriteResult.failed e, w') = sent w' ≡ sent w

  -- A first part of the buffer was sent, with nothing in between: its length is returned as an
  -- `int`, or an error.
  abbrev pub IsWriting : List ℕ → List ℕ → ℤ × W → Type 0
  IsWriting before buf (r, w) =
      (front : List ℕ) × (rest : List ℕ) × (buf ≡ front ++ rest)
      × (sent w ≡ before ++ front)
      × ((r ≡ to_int (length front)) ⊎ (r ≡ net_softerror) ⊎ (r ≡ net_harderror))

  after_write_lem :
      (before buf front rest : List ℕ) (done : ℕ) (w w' : W) (next : ℕ → Option (ℤ × W))
      (r : WriteResult)
      → Sends rest w (r, w')
      → buf ≡ front ++ rest
      → sent w ≡ before ++ front
      → length front ≡ done
      → ((n : ℕ)
          → 0 < n
          → n ≤ length rest
          → sent w' ≡ sent w ++ take n rest
          → Gives (IsWriting before buf) (next n))
      → Gives (IsWriting before buf) (after_write done w' next r)
  unfolding after_write
  after_write_lem before buf front rest done w w' next (WriteResult.failed eintr) s b f d k =
      (front, rest, b, s ∙ f, inl (rw d refl))
  after_write_lem before buf front rest done w w' next (WriteResult.failed eagain) s b f d k =
      (front, rest, b, s ∙ f, inl (rw d refl))
  after_write_lem before buf front rest done w w' next (WriteResult.failed enobufs) s b f d k =
      (front, rest, b, s ∙ f, inr (inl refl))
  after_write_lem before buf front rest done w w' next (WriteResult.failed enomem) s b f d k =
      (front, rest, b, s ∙ f, inr (inr refl))
  after_write_lem before buf front rest done w w' next (WriteResult.failed other) s b f d k =
      (front, rest, b, s ∙ f, inr (inr refl))
  after_write_lem before buf front rest done w w' next (took zero) (l, s) b f d k =
      (front, rest, b, s ∙ append-nil (sent w) ∙ f, inr (inl refl))
  after_write_lem before buf front rest done w w' next (took (suc r)) (l, s) b f d k =
      k (suc r) (omega arith) l s

module _ {W : Type 0} (write : List ℕ → W → WriteResult × W) (sent : W → List ℕ)
    (sends : (bs : List ℕ) (w : W) → Sends sent bs w (write bs w)) where
  nwrite_loop_lem :
      (before buf front rest : List ℕ) (fuel : ℕ) (w : W)
      → length rest < fuel
      → buf ≡ front ++ rest
      → sent w ≡ before ++ front
      → Gives (IsWriting sent before buf) (nwrite_loop write fuel (length buf) rest w)
  unfolding nwrite_loop
  nwrite_loop_lem before buf front rest zero w h b f = absurd (omega arith)
  nwrite_loop_lem before buf front [] (suc fuel) w h b f =
      (front, [], b, f, inl (ap (λ (x : List ℕ). to_int (length x)) (b ∙ append-nil front)))
  nwrite_loop_lem before buf front (x ∷ xs) (suc fuel) w h b f =
      let (result, w') = write (x ∷ xs) w in
      let total = ap (λ (y : List ℕ). length y) b ∙ length-append front (x ∷ xs) in
      after_write_lem sent before buf front (x ∷ xs) (length buf - length (x ∷ xs)) w w'
        (λ r. nwrite_loop write fuel (length buf) (drop r (x ∷ xs)) w') result (sends (x ∷ xs) w) b
        f (omega arith)
        (λ n some' most s.
          nwrite_loop_lem before buf (front ++ take n (x ∷ xs)) (drop n (x ∷ xs)) fuel w'
            (omega (arith, length-drop n (x ∷ xs)))
            (b
              ∙ ap (λ y. front ++ y) (sym (take-append-drop n (x ∷ xs)))
              ∙ sym (append_assoc front (take n (x ∷ xs)) (drop n (x ∷ xs))))
            (s ∙ ap (λ y. y ++ take n (x ∷ xs)) f ∙ append_assoc before front (take n (x ∷ xs))))

  -- `Nwrite` returns, and has sent a first part of the buffer in order: it gives the length of that
  -- part, converted to `int` (the length itself below 2^31), or an error.
  pub nwrite_lem : (buf : List ℕ) (w : W) → Gives (IsWriting sent (sent w) buf) (nwrite write buf w)
  unfolding nwrite
  nwrite_lem buf w =
      nwrite_loop_lem (sent w) buf [] buf (suc (length buf)) w (omega arith) refl
        (sym (append-nil (sent w)))
