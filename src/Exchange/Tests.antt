-- ===== src/Exchange/Tests.antt =====
-- The parameters of a concrete test, over objects that are lists.
use mm_wave_tracker.Prelude.{
  ℕ, ◌≡◌, refl, List, [], ◌∷◌, ◌++◌, Option, none, some, ◌==◌, if◌then◌else◌, inl, inr, Bool-cases,
  arith,
}
use mm_wave_tracker.Prelude.Int.{ℤ, pos}
use mm_wave_tracker.Prelude.Samples.{whole}
use mm_wave_tracker.Config.{IperfTest}
use mm_wave_tracker.Config.Life.{tcp, udp, zero_test, zero_settings}
use mm_wave_tracker.Exchange.{send_parameters, get_parameters}
use mm_wave_tracker.Exchange.Items.{Key, Item, Json, code, as_read, or_else}
use mm_wave_tracker.Exchange.Agree.{IsWaiting, Fits, Agrees, exchange-Agrees}

abbrev Object : Type 0
Object = List (ℕ × Item)

-- Numbers arrive as they are.
abbrev same : ℤ → ℤ
same n = n

find : Object → Key → Option Item
find [] k = none
find ((c, i) ∷ j) k = if c == code k then some i else find j k

add_last : Object → Key → Item → Object
add_last j k i = j ++ ((code k, as_read same i) ∷ [])

find-add_last :
    (j : Object) (k : Key) (i : Item) (l : Key)
    → find (add_last j k i) l
      ≡ or_else (find j l) (if code k == code l then some (as_read same i) else none)
unfolding find add_last
find-add_last [] k i l = refl
find-add_last ((c, x) ∷ j) k i l = elim (Bool-cases (c == code l)) [
  | inl e ↦ rw (e) refl
  | inr e ↦ rw (e) (find-add_last j k i l)
]

objects : Json Object
unfolding find
objects = record {
  create = [];
  add = add_last;
  get = find;
  stored = same;
  stored_exact = λ n h. refl;
  get-create = λ k. refl;
  get-add = find-add_last;
}

abbrev client : IperfTest ℤ
client = record (zero_test ⦃fp = whole⦄) {
  role = b'c';
  protocol = some udp;
  reverse = pos 1;
  duration = pos 10;
  num_streams = pos 2;
  settings = record zero_settings { rate = 5000000000; blksize = pos 1460 };
}

abbrev server : IperfTest ℤ
server = record (zero_test ⦃fp = whole⦄) {
  role = b's';
  protocol = some tcp;
  protocols = tcp ∷ udp ∷ [];
}

server-IsWaiting : IsWaiting server
server-IsWaiting = record {
  role = refl;
  mode = refl;
  not_reverse = refl;
  not_bidir = refl;
  protocols = refl;
}

client-Fits : Fits client
client-Fits = record {
  omit = omega arith;
  duration = omega arith;
  num_streams = omega arith;
  bytes = omega arith;
  blocks = omega arith;
  rate = omega arith;
  fqrate = omega arith;
  blksize = omega arith;
  mss = omega arith;
  tos = omega arith;
  burst = omega arith;
  socket_bufsize = omega arith;
  pacing_timer = omega arith;
  server_affinity = omega arith;
  flowlabel = omega arith;
}

exchange-Agrees_example :
    (j : Object) × (u : IperfTest ℤ) × (send_parameters objects "3.5" client ≡ some j)
    × (get_parameters objects j server (pos 0) ≡ some (u, pos 0))
    × Agrees client server u
exchange-Agrees_example =
    exchange-Agrees objects "3.5" client server (pos 0) udp (inr refl) server-IsWaiting client-Fits
      refl
