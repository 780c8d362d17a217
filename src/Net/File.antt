-- ===== src/Net/File.antt =====
-- `Nsendfile` of net.c, as built for Android: with `sendfile` of Linux.
use mm_wave_tracker.Prelude.{
  ℕ, zero, suc, ◌+◌, ◌-◌, ◌≤◌, ◌<◌, ◌≡◌, refl, sym, ◌∙◌, ap, ◌⊎◌, inl, inr, List, [], ◌∷◌, ◌++◌,
  Option, none, some, ◌==◌, if◌then◌else◌, arith, take, drop, Gives,
}
use mm_wave_tracker.Prelude.Int.{ℤ}
use mm_wave_tracker.Prelude.Word.{to_int}
use mm_wave_tracker.Net.{
  eintr, eagain, enobufs, enomem, other, WriteResult, took, net_harderror, net_softerror,
}
use mathlib.Core.List.{append_assoc, append-nil}

-- The body of the loop after the call of `sendfile`; `offset` is `count - nleft`.
unfoldable pub after_sendfile :
    {W : Type 0} → ℕ → ℕ → W → (ℕ → Option (ℤ × W)) → WriteResult → Option (ℤ × W)
after_sendfile count nleft w next (WriteResult.failed eintr) =
    some (if count == nleft then net_softerror else to_int (count - nleft), w)
after_sendfile count nleft w next (WriteResult.failed eagain) =
    some (if count == nleft then net_softerror else to_int (count - nleft), w)
after_sendfile count nleft w next (WriteResult.failed enobufs) = some (net_softerror, w)
after_sendfile count nleft w next (WriteResult.failed enomem) = some (net_softerror, w)
after_sendfile count nleft w next (WriteResult.failed other) = some (net_harderror, w)
after_sendfile count nleft w next (took zero) = some (net_softerror, w)
after_sendfile count nleft w next (took (suc r)) = next (suc r)

module _ {W : Type 0} (sendfile : ℕ → ℕ → W → WriteResult × W) where
  -- The loop of `Nsendfile`: how many bytes are left. `none` means that the fuel ran out.
  unfoldable pub nsendfile_loop : ℕ → ℕ → ℕ → W → Option (ℤ × W)
  nsendfile_loop zero count nleft w = none
  nsendfile_loop (suc fuel) count zero w = some (to_int count, w)
  nsendfile_loop (suc fuel) count (suc n) w =
      let (result, w') = sendfile (count - suc n) (suc n) w in
      after_sendfile count (suc n) w' (λ r. nsendfile_loop fuel count (suc n - r) w') result

  -- `Nsendfile`, with fuel for each byte.
  unfoldable pub nsendfile : ℕ → W → Option (ℤ × W)
  nsendfile count w = nsendfile_loop (suc count) count count w

zero_plus : (n : ℕ) → 0 + n ≡ n
zero_plus n = omega arith

suc_plus : (m n : ℕ) → suc m + n ≡ suc (m + n)
suc_plus m n = omega arith

nothing_left : (n : ℕ) → 0 ≡ n - n
nothing_left n = omega arith

take-nil : (n : ℕ) → take {A = ℕ} n [] ≡ []
take-nil zero = refl
take-nil (suc n) = refl

take_more : (file : List ℕ) (m n : ℕ) → take (m + n) file ≡ take m file ++ take n (drop m file)
take_more file zero n = ap (λ k. take k file) (zero_plus n)
take_more [] (suc m) n = take-nil (suc m + n) ∙ sym (take-nil n)
take_more (x ∷ file) (suc m) n =
    ap (λ k. take k (x ∷ file)) (suc_plus m n) ∙ ap (λ l. x ∷ l) (take_more file m n)

module _ {W : Type 0} (sent : W → List ℕ) (file : List ℕ) where
  -- What `sendfile` documents: it sends the bytes of the file from the offset, as many as it says,
  -- and none if it fails.
  abbrev pub SendsFile : ℕ → ℕ → W → WriteResult × W → Type 0
  SendsFile offset n w (took r, w') = (r ≤ n) × (sent w' ≡ sent w ++ take r (drop offset file))
  SendsFile offset n w (WriteResult.failed e, w') = sent w' ≡ sent w

  -- A first part of the file was sent. Its length is returned, which is not 0 unless nothing was
  -- asked for, or an error.
  abbrev pub IsSending : List ℕ → ℕ → ℤ × W → Type 0
  IsSending before count (r, w) =
      (k : ℕ) × (k ≤ count)
      × (sent w ≡ before ++ take k file)
      × (((r ≡ to_int k) × ((0 < k) ⊎ (count ≡ 0))) ⊎ (r ≡ net_softerror) ⊎ (r ≡ net_harderror))

  after_sendfile_lem :
      (before : List ℕ) (count nleft : ℕ) (w w' : W) (next : ℕ → Option (ℤ × W)) (r : WriteResult)
      → SendsFile (count - nleft) nleft w (r, w')
      → nleft ≤ count
      → sent w ≡ before ++ take (count - nleft) file
      → ((n : ℕ)
          → 0 < n
          → n ≤ nleft
          → sent w' ≡ sent w ++ take n (drop (count - nleft) file)
          → Gives (IsSending before count) (next n))
      → Gives (IsSending before count) (after_sendfile count nleft w' next r)
  unfolding after_sendfile
  after_sendfile_lem before count nleft w w' next (WriteResult.failed eintr) s l f k =
      (count - nleft, omega arith, s ∙ f, ground arith)
  after_sendfile_lem before count nleft w w' next (WriteResult.failed eagain) s l f k =
      (count - nleft, omega arith, s ∙ f, ground arith)
  after_sendfile_lem before count nleft w w' next (WriteResult.failed enobufs) s l f k =
      (count - nleft, omega arith, s ∙ f, inr (inl refl))
  after_sendfile_lem before count nleft w w' next (WriteResult.failed enomem) s l f k =
      (count - nleft, omega arith, s ∙ f, inr (inl refl))
  after_sendfile_lem before count nleft w w' next (WriteResult.failed other) s l f k =
      (count - nleft, omega arith, s ∙ f, inr (inr refl))
  after_sendfile_lem before count nleft w w' next (took zero) (b, s) l f k =
      (count - nleft, omega arith, s ∙ append-nil (sent w) ∙ f, inr (inl refl))
  after_sendfile_lem before count nleft w w' next (took (suc r)) (b, s) l f k =
      k (suc r) (omega arith) b s

module _ {W : Type 0} (sendfile : ℕ → ℕ → W → WriteResult × W) (sent : W → List ℕ) (file : List ℕ)
    (sends : (offset n : ℕ) (w : W) → SendsFile sent file offset n w (sendfile offset n w)) where
  nsendfile_loop_lem :
      (before : List ℕ) (fuel count nleft : ℕ) (w : W)
      → nleft < fuel
      → nleft ≤ count
      → (nleft < count) ⊎ (0 < nleft) ⊎ (count ≡ 0)
      → sent w ≡ before ++ take (count - nleft) file
      → Gives (IsSending sent file before count) (nsendfile_loop sendfile fuel count nleft w)
  unfolding nsendfile_loop
  nsendfile_loop_lem before zero count nleft w h l c f = absurd (omega arith)
  nsendfile_loop_lem before (suc fuel) count zero w h l c f = (
    count,
    omega arith,
    f ∙ ap (λ k. before ++ take k file) (omega arith),
    inl (refl, ground arith),
  )
  nsendfile_loop_lem before (suc fuel) count (suc n) w h l c f =
      let (result, w') = sendfile (count - suc n) (suc n) w in
      after_sendfile_lem sent file before count (suc n) w w'
        (λ r. nsendfile_loop sendfile fuel count (suc n - r) w') result
        (sends (count - suc n) (suc n) w) l f
        (λ r some' most s.
          nsendfile_loop_lem before fuel count (suc n - r) w' (omega arith) (omega arith)
            (inl (omega arith))
            (s
              ∙ ap (λ v. v ++ take r (drop (count - suc n) file)) f
              ∙ append_assoc before (take (count - suc n) file) (take r (drop (count - suc n) file))
              ∙ ap (λ v. before ++ v) (sym (take_more file (count - suc n) r))
              ∙ ap (λ k. before ++ take k file) (omega arith)))

  -- `Nsendfile` returns, and has sent a first part of the file in order, at most the count: it gives
  -- the length of that part, converted to `int` (the length itself below 2^31), or an error. The part
  -- is not empty if its length is given, unless nothing was asked for.
  pub nsendfile_lem :
      (count : ℕ) (w : W) → Gives (IsSending sent file (sent w) count) (nsendfile sendfile count w)
  unfolding nsendfile
  nsendfile_lem count w =
      nsendfile_loop_lem (sent w) (suc count) count count w (omega arith) (omega arith)
        (ground arith)
        (sym (append-nil (sent w)) ∙ ap (λ k. sent w ++ take k file) (nothing_left count))
