-- ===== src/Net/Tests.antt =====
-- `Nread` and `Nwrite` over a kernel that moves at most two bytes a call.
use mm_wave_tracker.Prelude.{
  ℕ, ◌≡◌, refl, List, [], ◌∷◌, ◌++◌, some, if◌then◌else◌, arith, length, length-take, take,
  take-append-drop, drop, sym, Gives, Bool, true, Option, inl, ap,
}
use mm_wave_tracker.Prelude.Int.{ℤ, pos}
use mm_wave_tracker.Net.{
  ReadResult, got, WriteResult, took, nread, nwrite, nread_loop, nwrite_loop, after_read,
  after_write,
}
use mm_wave_tracker.Net.Read.{Delivers, IsReading, nread_lem}
use mm_wave_tracker.Net.Write.{Sends, IsWriting, nwrite_lem}
use mm_wave_tracker.Net.File.{
  SendsFile, IsSending, nsendfile, nsendfile_loop, after_sendfile, nsendfile_lem,
}
use mm_wave_tracker.Net.Connect.{
  Connecting, in_progress, change_flags, has_nonblock, with_nonblock, without_nonblock,
  flags_or_all, setnonblocking, wait_connected, try_connect, timeout_connect,
}
use mm_wave_tracker.Net.Flags.{Sets, timeout_connect-flags}
use Prim.Native.Nat.{min}

abbrev slow_read : ℕ → List ℕ → ReadResult × List ℕ
slow_read n w = (got (take (min n 2) w), drop (min n 2) w)

slow_read-Delivers : (n : ℕ) (w : List ℕ) → Delivers (λ v. v) n w (slow_read n w)
slow_read-Delivers n w =
    (omega (arith, length-take (min n 2) w), sym (take-append-drop (min n 2) w))

abbrev slow_write : List ℕ → List ℕ → WriteResult × List ℕ
slow_write bs w = (took (min 2 (length bs)), w ++ take (min 2 (length bs)) bs)

slow_write-Sends : (bs w : List ℕ) → Sends (λ v. v) bs w (slow_write bs w)
slow_write-Sends bs w = (omega arith, refl)

abbrev five : List ℕ
five = 1 ∷ 2 ∷ 3 ∷ 4 ∷ 5 ∷ []

reads_three : nread slow_read 3 five ≡ some (pos 3, 1 ∷ 2 ∷ 3 ∷ [], 4 ∷ 5 ∷ [])
unfolding nread nread_loop after_read
reads_three = refl

writes_all : nwrite slow_write five (9 ∷ []) ≡ some (pos 5, 9 ∷ five)
unfolding nwrite nwrite_loop after_write
writes_all = refl

nread_lem_example : Gives (IsReading (λ v. v) 3 five) (nread slow_read 3 five)
nread_lem_example = nread_lem slow_read (λ v. v) slow_read-Delivers 3 five

nwrite_lem_example : Gives (IsWriting (λ v. v) (9 ∷ []) five) (nwrite slow_write five (9 ∷ []))
nwrite_lem_example = nwrite_lem slow_write (λ v. v) slow_write-Sends five (9 ∷ [])

-- A file of five bytes.
abbrev slow_sendfile : ℕ → ℕ → List ℕ → WriteResult × List ℕ
slow_sendfile offset n w = (took (min n 2), w ++ take (min n 2) (drop offset five))

slow_sendfile-SendsFile :
    (offset n : ℕ) (w : List ℕ) → SendsFile (λ v. v) five offset n w (slow_sendfile offset n w)
slow_sendfile-SendsFile offset n w = (omega arith, refl)

sends_three : nsendfile slow_sendfile 3 [] ≡ some (pos 3, 1 ∷ 2 ∷ 3 ∷ [])
unfolding nsendfile nsendfile_loop after_sendfile
sends_three = refl

nsendfile_lem_example : Gives (IsSending (λ v. v) five [] 3) (nsendfile slow_sendfile 3 [])
nsendfile_lem_example = nsendfile_lem slow_sendfile (λ v. v) five slow_sendfile-SendsFile 3 []

-- A descriptor whose world is its flags. Only O_NONBLOCK can be set.
abbrev merge : ℕ → ℕ → ℕ
merge g f = if has_nonblock f then with_nonblock g else without_nonblock g

abbrev set_it : ℕ → ℕ → Bool × ℕ
set_it f w = (true, merge w f)

some_eq : (a b : ℕ) → some a ≡ some b → a ≡ b
some_eq a b h = ground arith

set_it-Sets : Sets merge (λ w. some w) set_it
set_it-Sets f g w e = inl (refl, ap (λ x. some (merge x f)) (some_eq w g e))

merge-restores : (g f : ℕ) → merge (merge g f) g ≡ g
unfolding with_nonblock without_nonblock
merge-restores g f = ground arith

abbrev slow_connect : ℕ → Connecting × ℕ
slow_connect w = (in_progress, w)

abbrev poll_ready : ℤ → ℕ → ℤ × ℕ
poll_ready t w = (pos 1, w)

abbrev no_error : ℕ → Option ℕ × ℕ
no_error w = (some 0, w)

becomes_nonblocking : setnonblocking (λ w. some w) set_it (pos 1) 3 ≡ (pos 0, 2051)
unfolding setnonblocking change_flags with_nonblock without_nonblock
becomes_nonblocking = refl

connects_in_time :
    timeout_connect (λ w. some w) set_it slow_connect poll_ready no_error (pos 5000) 3 ≡ (true, 3)
unfolding timeout_connect try_connect wait_connected with_nonblock without_nonblock flags_or_all
connects_in_time = refl

connects :
    (timeout_connect (λ w. some w) set_it slow_connect poll_ready no_error (pos 5000) 3).0 ≡ true
connects = ap (λ r. r.0) connects_in_time

timeout_connect-flags_example :
    some (timeout_connect (λ w. some w) set_it slow_connect poll_ready no_error (pos 5000) 3).1
    ≡ some 3
timeout_connect-flags_example =
    timeout_connect-flags merge (λ w. some w) set_it slow_connect poll_ready no_error set_it-Sets
      merge-restores (λ w. (refl, (λ t. refl), refl)) (pos 5000) 3 3 refl (inl connects)
