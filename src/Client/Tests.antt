-- ===== src/Client/Tests.antt =====
-- A client that opens two streams each way from port 6000. The world is the list of the local ports.
use mm_wave_tracker.Prelude.{◌+◌, ◌≡◌, refl, Bool, true, List, [], ◌∷◌, ◌++◌, if◌then◌else◌}
use mm_wave_tracker.Prelude.Int.{ℤ, pos, ◌+ℤ◌}
use mm_wave_tracker.Config.{bidirectional}
use mm_wave_tracker.Stream.{fd_set, fd_isset}
use mm_wave_tracker.Client.{
  Opening, next_port, add_stream, create_from, iperf_create_streams, on_create_streams,
}
use mm_wave_tracker.Client.Ports.{ports, is_bidirectional, create_streams-ports}

abbrev opening : Opening
opening = record {
  mode = bidirectional;
  bind_port = pos 6000;
  num_streams = pos 2;
  read_set = [];
  write_set = [];
  max_fd = pos 0;
}

abbrev connect : Opening → List ℤ → ℤ × List ℤ
connect t w = (pos 7, w ++ (t.bind_port ∷ []))

abbrev new_stream : Opening → ℤ → ℤ → List ℤ → Bool × List ℤ
new_stream t s b w = (true, w)

-- The third stream has the port of the second.
port_twice :
    (on_create_streams connect new_stream opening []).2
    ≡ pos 6000 ∷ pos 6001 ∷ pos 6001 ∷ pos 6002 ∷ []
unfolding on_create_streams iperf_create_streams create_from add_stream next_port ◌+ℤ◌ fd_set
    fd_isset
port_twice = refl

create_streams-ports_example :
    let r = on_create_streams connect new_stream opening [] in
    (r.0 ≡ true)
    × (r.2 ≡ (
        if is_bidirectional opening.mode
        then [] ++ (ports 2 6000 ++ ports 2 (6000 + 1))
        else [] ++ ports 2 6000))
create_streams-ports_example =
    create_streams-ports connect new_stream (λ w. w) (λ t w. (7, refl, refl))
      (λ t s b w. (refl, refl)) opening [] 1 5999 refl refl
