-- ===== src/Net/Whole.antt =====
-- `Nread` and `Nwrite` of net.c over a connection that is up and calls that are not interrupted.
use mm_wave_tracker.Prelude.{
  ℕ, zero, suc, ◌-◌, ◌≤◌, ◌<◌, ◌≡◌, refl, sym, ◌∙◌, ap, List, [], ◌∷◌, ◌++◌, Option, none, some,
  arith, length, length-append, take, drop, take-append-drop, length-drop, take_past, drop_past,
  Gives,
}
use mm_wave_tracker.Prelude.Int.{ℤ}
use mm_wave_tracker.Prelude.Word.{to_int}
use mm_wave_tracker.Net.{
  ReadResult, got, WriteResult, took, Reading, after_read, nread_loop, nread, after_write,
  nwrite_loop, nwrite,
}
use mathlib.Core.List.{append_assoc, append-nil}

module _ {W : Type 0} (stream : W → List ℕ) where
  -- What `read` gives while there are bytes: the next ones, at least one.
  abbrev pub Flows : ℕ → W → ReadResult × W → Type 0
  Flows n w (got bs, w') = (0 < length bs) × (length bs ≤ n) × (stream w ≡ bs ++ stream w')
  Flows n w (ReadResult.failed e, w') = ⊥

  -- All the bytes that were asked for, in order, and the stream behind them.
  abbrev pub IsWhole : ℕ → List ℕ → List ℕ → ℕ → ℤ × List ℕ × W → Type 0
  IsWhole count before all n (r, buf, w) =
      (r ≡ to_int count) × (buf ≡ before ++ take n all) × (stream w ≡ drop n all)

  after_read-IsWhole :
      (count done n : ℕ) (buf all : List ℕ) (w w' : W) (next : List ℕ → Reading W) (r : ReadResult)
      → Flows n w (r, w')
      → ((bs : List ℕ)
          → 0 < length bs
          → length bs ≤ n
          → stream w ≡ bs ++ stream w'
          → Gives (IsWhole count buf all n) (next bs))
      → Gives (IsWhole count buf all n) (after_read done buf w' next r)
  unfolding after_read
  after_read-IsWhole count done n buf all w w' next (ReadResult.failed e) f k = absurd f
  after_read-IsWhole count done n buf all w w' next (got []) (some', most, f) k =
      absurd (omega arith)
  after_read-IsWhole count done n buf all w w' next (got (x ∷ bs)) (some', most, f) k =
      k (x ∷ bs) some' most f

  -- A reading that goes on behind the bytes `bs`.
  behind :
      (count n : ℕ) (buf bs all rest : List ℕ) (reading : Reading W)
      → length bs ≤ n
      → all ≡ bs ++ rest
      → Gives (IsWhole count (buf ++ bs) rest (n - length bs)) reading
      → Gives (IsWhole count buf all n) reading
  behind count n buf bs all rest none most e g = absurd g
  behind count n buf bs all rest (some (r, b, w)) most e (h, i, j) = (
    h,
    i
        ∙ append_assoc buf bs (take (n - length bs) rest)
        ∙ ap (λ x. buf ++ x) (sym (take_past bs rest n most))
        ∙ ap (λ x. buf ++ take n x) (sym e),
    j ∙ sym (drop_past bs rest n most) ∙ ap (λ x. drop n x) (sym e),
  )

module _ {W : Type 0} (read : ℕ → W → ReadResult × W) (stream : W → List ℕ)
    (flows : (n : ℕ) (w : W) → 0 < n → 0 < length (stream w) → Flows stream n w (read n w)) where
  nread_loop_whole :
      (fuel count n : ℕ) (buf : List ℕ) (w : W)
      → n < fuel
      → n ≤ length (stream w)
      → Gives (IsWhole stream count buf (stream w) n) (nread_loop read fuel count n buf w)
  unfolding nread_loop
  nread_loop_whole zero count n buf w h l = absurd (omega arith)
  nread_loop_whole (suc fuel) count zero buf w h l = (refl, sym (append-nil buf), refl)
  nread_loop_whole (suc fuel) count (suc n) buf w h l =
      let (result, w') = read (suc n) w in
      after_read-IsWhole stream count (count - suc n) (suc n) buf (stream w) w w'
        (λ bs. nread_loop read fuel count (suc n - length bs) (buf ++ bs) w') result
        (flows (suc n) w (omega arith) (omega arith))
        (λ bs some' most f. behind stream count (suc n) buf bs (stream w) (stream w') _ most f (
          nread_loop_whole fuel count (suc n - length bs) (buf ++ bs) w' (omega arith)
            (omega (arith, length-append bs (stream w'), ap (λ (x : List ℕ). length x) f))))

  pub nread-IsWhole :
      (count : ℕ) (w : W)
      → count ≤ length (stream w)
      → Gives (IsWhole stream count [] (stream w) count) (nread read count w)
  unfolding nread
  nread-IsWhole count w l = nread_loop_whole (suc count) count count [] w (omega arith) l

module _ {W : Type 0} (sent : W → List ℕ) where
  -- What `write` gives while the connection takes bytes: at least one is taken.
  abbrev pub Accepts : List ℕ → W → WriteResult × W → Type 0
  Accepts bs w (took r, w') = (0 < r) × (r ≤ length bs) × (sent w' ≡ sent w ++ take r bs)
  Accepts bs w (WriteResult.failed e, w') = ⊥

  abbrev pub IsAllSent : ℕ → List ℕ → ℤ × W → Type 0
  IsAllSent count all (r, w) = (r ≡ to_int count) × (sent w ≡ all)

  after_write-IsAllSent :
      (count done : ℕ) (bs all : List ℕ) (w w' : W) (next : ℕ → Option (ℤ × W)) (r : WriteResult)
      → Accepts bs w (r, w')
      → ((n : ℕ)
          → 0 < n
          → n ≤ length bs
          → sent w' ≡ sent w ++ take n bs
          → Gives (IsAllSent count all) (next n))
      → Gives (IsAllSent count all) (after_write done w' next r)
  unfolding after_write
  after_write-IsAllSent count done bs all w w' next (WriteResult.failed e) a k = absurd a
  after_write-IsAllSent count done bs all w w' next (took zero) (some', most, a) k =
      absurd (omega arith)
  after_write-IsAllSent count done bs all w w' next (took (suc n)) (some', most, a) k =
      k (suc n) some' most a

module _ {W : Type 0} (write : List ℕ → W → WriteResult × W) (sent : W → List ℕ)
    (accepts : (bs : List ℕ) (w : W) → 0 < length bs → Accepts sent bs w (write bs w)) where
  nwrite_loop_whole :
      (fuel count : ℕ) (bs all : List ℕ) (w : W)
      → length bs < fuel
      → sent w ++ bs ≡ all
      → Gives (IsAllSent sent count all) (nwrite_loop write fuel count bs w)
  unfolding nwrite_loop
  nwrite_loop_whole zero count bs all w h e = absurd (omega arith)
  nwrite_loop_whole (suc fuel) count [] all w h e = (refl, sym (append-nil (sent w)) ∙ e)
  nwrite_loop_whole (suc fuel) count (x ∷ xs) all w h e =
      let (result, w') = write (x ∷ xs) w in
      after_write-IsAllSent sent count (count - length (x ∷ xs)) (x ∷ xs) all w w'
        (λ r. nwrite_loop write fuel count (drop r (x ∷ xs)) w') result
        (accepts (x ∷ xs) w (omega arith))
        (λ n some' most s.
          nwrite_loop_whole fuel count (drop n (x ∷ xs)) all w'
            (omega (arith, length-drop n (x ∷ xs)))
            (ap (λ y. y ++ drop n (x ∷ xs)) s
              ∙ append_assoc (sent w) (take n (x ∷ xs)) (drop n (x ∷ xs))
              ∙ ap (λ y. sent w ++ y) (take-append-drop n (x ∷ xs))
              ∙ e))

  pub nwrite-IsAllSent :
      (buf all : List ℕ) (w : W)
      → sent w ++ buf ≡ all
      → Gives (IsAllSent sent (length buf) all) (nwrite write buf w)
  unfolding nwrite
  nwrite-IsAllSent buf all w e =
      nwrite_loop_whole (suc (length buf)) (length buf) buf all w (omega arith) e
