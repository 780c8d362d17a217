-- ===== src/Exchange/Frame/Travel.antt =====
-- A text of JSON travels from `JSON_write` to `JSON_read`.
use mm_wave_tracker.Prelude.{
  ℕ, ◌+◌, ◌<◌, ◌≡◌, refl, sym, ◌∙◌, ap, Bool, true, false, List, [], ◌++◌, Option, none, some,
  arith, ◌==◌, length, length-append, take, drop, take-append, drop-append, Gives,
}
use mm_wave_tracker.Prelude.Int.{ℤ, pos, ltb_ℤ}
use mm_wave_tracker.Prelude.Word.{u32, to_u32, to_int}
use mm_wave_tracker.Prelude.Octets.{be_encode, be_decode, length-be_encode, decode-encode}
use mm_wave_tracker.Net.{ReadResult, WriteResult, Reading, nread, nwrite}
use mm_wave_tracker.Net.Whole.{Flows, IsWhole, nread-IsWhole, Accepts, IsAllSent, nwrite-IsAllSent}
use mm_wave_tracker.Exchange.Frame.{
  and_write, and_read, write_text, json_write, read_text, json_read,
}
use mathlib.Core.Path.{subst}
use mathlib.Core.List.{append_assoc, append-nil}

-- A text behind its length in four octets, the highest first.
abbrev pub frame : List ℕ → List ℕ
frame str = be_encode 4 (length str) ++ str

small_int : (n : ℕ) → n < 2147483648 → to_int n ≡ pos n
small_int n h = ground arith

not_negative : (n : ℕ) → n < 2147483648 → ltb_ℤ (to_int n) (pos 0) ≡ false
not_negative n h = ground arith

drop_all : (xs : List ℕ) (n : ℕ) → length xs ≡ n → drop n xs ≡ []
drop_all xs n h = ap (λ x. drop n x) (sym (append-nil xs)) ∙ drop-append xs [] n h

whole_text : (str : List ℕ) → length str < 2147483648 → take (u32 (length str)) str ≡ str
whole_text str h =
    ap (λ n. take n str) (omega arith)
    ∙ ap (λ x. take (length str) x) (sym (append-nil str))
    ∙ take-append str [] (length str) refl

module _ {W : Type 0} (sent : W → List ℕ) where
  -- 0 was returned, and the bytes are behind those sent before.
  abbrev pub IsSent : List ℕ → ℤ × W → Type 0
  IsSent all (r, w) = (r ≡ pos 0) × (sent w ≡ all)

  and_write_lem :
      (count : ℕ) (before all : List ℕ) (o : Option (ℤ × W)) (next : W → Option (ℤ × W))
      → count < 2147483648
      → Gives (IsAllSent sent count before) o
      → ((w : W) → sent w ≡ before → Gives (IsSent all) (next w))
      → Gives (IsSent all) (and_write o next)
  unfolding and_write
  and_write_lem count before all none next small g k = absurd g
  and_write_lem count before all (some (r, w)) next small (e, s) k =
      rw (e, not_negative count small) (k w s)

module _ {W J : Type 0} (stream : W → List ℕ) where
  -- The value that was read, and the stream behind it.
  abbrev pub IsRead : J → List ℕ → Option J × W → Type 0
  IsRead json rest (r, w) = (r ≡ some json) × (stream w ≡ rest)

  and_read_lem :
      (count : ℕ) (all rest : List ℕ) (json : J) (o : Reading W)
      (next : ℤ → List ℕ → W → Option (Option J × W))
      → count < 2147483648
      → Gives (IsWhole stream count [] all count) o
      → ((w : W)
          → stream w ≡ drop count all
          → Gives (IsRead json rest) (next (to_int count) (take count all) w))
      → Gives (IsRead json rest) (and_read o next)
  unfolding and_read
  and_read_lem count all rest json none next small g k = absurd g
  and_read_lem count all rest json (some (r, buf, w)) next small (e, b, s) k =
      rw (e, b, not_negative count small) (k w s)

module _ {W J : Type 0} (write : List ℕ → W → WriteResult × W) (print : J → Option (List ℕ))
    (sent : W → List ℕ)
    (accepts : (bs : List ℕ) (w : W) → 0 < length bs → Accepts sent bs w (write bs w)) where
  json_write-IsSent :
      (json : J) (str : List ℕ) (w : W)
      → print json ≡ some str
      → length str < 2147483648
      → Gives (IsSent sent (sent w ++ frame str)) (json_write write print json w)
  unfolding json_write write_text
  json_write-IsSent json str w p h =
      let head = be_encode 4 (u32 (length str)) in
      let all = sent w ++ frame str in
      rw (json_write, p, write_text)
        (and_write_lem sent (length head) (sent w ++ head) all (nwrite write head w) _
          (omega (arith, length-be_encode 4 (u32 (length str))))
          (nwrite-IsAllSent write sent accepts head (sent w ++ head) w refl)
          (λ w1 s.
            and_write_lem sent (length str) all all (nwrite write (take (u32 (length str)) str) w1)
              _ h
              (rw (whole_text str h) (
                nwrite-IsAllSent write sent accepts str all w1 (
                  ap (λ x. x ++ str) s
                  ∙ append_assoc (sent w) head str
                  ∙ ap (λ n. sent w ++ (be_encode 4 n ++ str)) (omega arith))))
              (λ w2 a. (refl, a))))

module _ {W J : Type 0} (read : ℕ → W → ReadResult × W) (parse : List ℕ → Option J)
    (calloc : ℕ → Bool) (stream : W → List ℕ)
    (flows : (n : ℕ) (w : W) → 0 < n → 0 < length (stream w) → Flows stream n w (read n w)) where
  read_text-IsRead :
      (json : J) (str rest : List ℕ) (w : W)
      → parse str ≡ some json
      → length str < 2147483648
      → calloc (length str + 1) ≡ true
      → stream w ≡ str ++ rest
      → Gives (IsRead stream json rest) (read_text read parse calloc (length str) w)
  unfolding read_text
  read_text-IsRead json str rest w p h c e =
      let size : u32 (length str + 1) ≡ length str + 1 = omega arith in
      let same : (to_u32 (to_int (length str)) == length str) ≡ true =
        rw (small_int (length str) h) (ground arith) in
      let front = ap (λ x. take (length str) x) e ∙ take-append str rest (length str) refl in
      let back = ap (λ x. drop (length str) x) e ∙ drop-append str rest (length str) refl in
      rw (size, c)
        (and_read_lem stream (length str) (stream w) rest json (nread read (length str) w) _ h
          (nread-IsWhole read stream flows (length str) w
            (omega (arith, length-append str rest, ap (λ (x : List ℕ). length x) e)))
          (λ w2 s. rw (same, front) (p, s ∙ back)))

  json_read-IsRead :
      (json : J) (str rest unset : List ℕ) (w : W)
      → parse str ≡ some json
      → length str < 2147483648
      → calloc (length str + 1) ≡ true
      → length unset ≡ 4
      → stream w ≡ frame str ++ rest
      → Gives (IsRead stream json rest) (json_read read parse calloc unset w)
  unfolding json_read
  json_read-IsRead json str rest unset w p h c u e =
      let head = be_encode 4 (length str) in
      let four = length-be_encode 4 (length str) in
      let split = e ∙ append_assoc head str rest in
      let front = ap (λ x. take 4 x) split ∙ take-append head (str ++ rest) 4 four in
      let back = ap (λ x. drop 4 x) split ∙ drop-append head (str ++ rest) 4 four in
      let size =
        ap (λ x. be_decode (x ++ drop (length x) unset)) front
        ∙ ap (λ n. be_decode (head ++ drop n unset)) four
        ∙ ap (λ x. be_decode (head ++ x)) (drop_all unset 4 u)
        ∙ ap be_decode (append-nil head)
        ∙ decode-encode 4 (length str) (omega arith) in
      and_read_lem stream 4 (stream w) rest json (nread read 4 w) _ (omega arith)
        (nread-IsWhole read stream flows 4 w (
          omega
            (arith, length-append head (str ++ rest), four, ap (λ (x : List ℕ). length x) split)))
        (λ w1 s.
          subst (λ n. Gives (IsRead stream json rest) (read_text read parse calloc n w1)) (sym size)
            (read_text-IsRead json str rest w1 p h c (s ∙ back)))

-- `JSON_write` returns 0 with the text of a value sent behind its length, and `JSON_read` of a stream
-- that starts with what was sent gives the value and leaves the rest of the stream. The text is
-- shorter than 2^31 and cJSON parses it back, there is memory for it, the connection takes and gives
-- at least a byte a call, and no call is interrupted.
pub json_travels :
    {V W J : Type 0} (write : List ℕ → V → WriteResult × V) (sent : V → List ℕ)
    (read : ℕ → W → ReadResult × W) (stream : W → List ℕ) (print : J → Option (List ℕ))
    (parse : List ℕ → Option J) (calloc : ℕ → Bool) (json : J) (str rest unset : List ℕ) (v : V)
    (w : W)
    → ((bs : List ℕ) (u : V) → 0 < length bs → Accepts sent bs u (write bs u))
    → ((n : ℕ) (u : W) → 0 < n → 0 < length (stream u) → Flows stream n u (read n u))
    → print json ≡ some str
    → parse str ≡ some json
    → length str < 2147483648
    → calloc (length str + 1) ≡ true
    → length unset ≡ 4
    → stream w ≡ frame str ++ rest
    → Gives (IsSent sent (sent v ++ frame str)) (json_write write print json v)
      × Gives (IsRead stream json rest) (json_read read parse calloc unset w)
json_travels write sent read stream print parse calloc json str rest unset v w accepts flows p q h c
      u e =
    (
      json_write-IsSent write print sent accepts json str v p h,
      json_read-IsRead read parse calloc stream flows json str rest unset w q h c u e,
    )
