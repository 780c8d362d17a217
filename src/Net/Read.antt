-- ===== src/Net/Read.antt =====
-- `Nread` of net.c.
use mm_wave_tracker.Prelude.{
  ℕ, zero, suc, ◌+◌, ◌-◌, ◌≤◌, ◌<◌, ◌≡◌, refl, sym, ◌∙◌, ap, ◌⊎◌, inl, inr, List, [], ◌∷◌, ◌++◌,
  arith, length, length-append, Gives,
}
use mm_wave_tracker.Prelude.Int.{ℤ}
use mm_wave_tracker.Prelude.Word.{to_int}
use mm_wave_tracker.Net.{
  eintr, eagain, enobufs, enomem, other, ReadResult, got, net_harderror, Reading, after_read,
  nread_loop, nread,
}
use mathlib.Core.List.{append_assoc}

module _ {W : Type 0} (stream : W → List ℕ) where
  -- What `read` documents: it stores at most as many bytes as it was asked for, and those are the
  -- next bytes of the stream; without bytes the stream is as it was.
  abbrev pub Delivers : ℕ → W → ReadResult × W → Type 0
  Delivers n w (got bs, w') = (length bs ≤ n) × (stream w ≡ bs ++ stream w')
  Delivers n w (ReadResult.failed e, w') = stream w ≡ stream w'

  -- The bytes stored are the next bytes of the stream, at most the count, and the return value is
  -- their number as an `int`, or a hard error.
  abbrev pub IsReading : ℕ → List ℕ → ℤ × List ℕ × W → Type 0
  IsReading count all (r, buf, w) =
      ((r ≡ to_int (length buf)) ⊎ (r ≡ net_harderror))
      × (length buf ≤ count)
      × (all ≡ buf ++ stream w)

  after_read_lem :
      (all : List ℕ) (count done n : ℕ) (buf : List ℕ) (w w' : W) (next : List ℕ → Reading W)
      (r : ReadResult)
      → Delivers n w (r, w')
      → length buf ≡ done
      → done ≤ count
      → all ≡ buf ++ stream w
      → ((bs : List ℕ)
          → 0 < length bs
          → length bs ≤ n
          → stream w ≡ bs ++ stream w'
          → Gives (IsReading count all) (next bs))
      → Gives (IsReading count all) (after_read done buf w' next r)
  unfolding after_read
  after_read_lem all count done n buf w w' next (ReadResult.failed eintr) d e l a k =
      (inl (rw e refl), omega arith, rw (← d) a)
  after_read_lem all count done n buf w w' next (ReadResult.failed eagain) d e l a k =
      (inl (rw e refl), omega arith, rw (← d) a)
  after_read_lem all count done n buf w w' next (ReadResult.failed enobufs) d e l a k =
      (inr refl, omega arith, rw (← d) a)
  after_read_lem all count done n buf w w' next (ReadResult.failed enomem) d e l a k =
      (inr refl, omega arith, rw (← d) a)
  after_read_lem all count done n buf w w' next (ReadResult.failed other) d e l a k =
      (inr refl, omega arith, rw (← d) a)
  after_read_lem all count done n buf w w' next (got []) (b, d) e l a k =
      (inl (rw e refl), omega arith, rw (← d) a)
  after_read_lem all count done n buf w w' next (got (x ∷ bs)) (b, d) e l a k =
      k (x ∷ bs) (omega arith) b d

module _ {W : Type 0} (read : ℕ → W → ReadResult × W) (stream : W → List ℕ)
    (delivers : (n : ℕ) (w : W) → Delivers stream n w (read n w)) where
  nread_loop_lem :
      (all : List ℕ) (fuel count nleft : ℕ) (buf : List ℕ) (w : W)
      → nleft < fuel
      → length buf + nleft ≡ count
      → all ≡ buf ++ stream w
      → Gives (IsReading stream count all) (nread_loop read fuel count nleft buf w)
  unfolding nread_loop
  nread_loop_lem all zero count nleft buf w h e a = absurd (omega arith)
  nread_loop_lem all (suc fuel) count zero buf w h e a =
      (inl (rw (← e) (ap to_int (omega arith))), omega arith, a)
  nread_loop_lem all (suc fuel) count (suc n) buf w h e a =
      let (result, w') = read (suc n) w in
      after_read_lem stream all count (count - suc n) (suc n) buf w w'
        (λ bs. nread_loop read fuel count (suc n - length bs) (buf ++ bs) w') result
        (delivers (suc n) w) (omega arith) (omega arith) a
        (λ bs some' most d.
          nread_loop_lem all fuel count (suc n - length bs) (buf ++ bs) w' (omega arith)
            (omega (arith, length-append buf bs))
            (a ∙ ap (λ x. buf ++ x) d ∙ sym (append_assoc buf bs (stream w'))))

  -- `Nread` returns, and has stored the next bytes of the stream in order, at most the count of
  -- them; nothing that was taken from the stream is lost. It gives their number, converted to
  -- `int` (the number itself below 2^31), or a hard error.
  pub nread_lem :
      (count : ℕ) (w : W) → Gives (IsReading stream count (stream w)) (nread read count w)
  unfolding nread
  nread_lem count w =
      nread_loop_lem (stream w) (suc count) count count [] w (omega arith) (omega arith) refl
