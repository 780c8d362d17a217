-- ===== src/Results/Tests.antt =====
-- The results of a bidirectional test with a stream each way.
use mm_wave_tracker.Prelude.{ℕ, ◌≡◌, refl, [], ◌∷◌, none, some, arith}
use mm_wave_tracker.Prelude.Int.{ℤ, pos, negsuc}
use mm_wave_tracker.Prelude.Samples.{whole}
use mm_wave_tracker.Config.{bidirectional}
use mm_wave_tracker.Results.{
  Counted, Tally, send_results, take_by_id, get_entry, get_entries, read_values, entry,
  bytes_transferred, sent_retransmits,
}
use mm_wave_tracker.Results.Get.{get_results}
use mm_wave_tracker.Results.Arrive.{Fits, Pairs}
use mm_wave_tracker.Results.Learn.{AllKnow, text_or, results-AllKnow}

abbrev unchanged : ℤ → ℤ
unchanged n = n

abbrev sending : Counted ℤ
sending = record {
  id = pos 1;
  sender = pos 1;
  jitter = pos 0;
  cnt_error = pos 0;
  packet_count = pos 90;
  peer_packet_count = pos 0;
  bytes_sent = 9000;
  bytes_sent_omit = 1000;
  bytes_received = 0;
  stream_retrans = pos 3;
  start_time = record { secs = 1; usecs = 0 };
  end_time = record { secs = 11; usecs = 0 };
  sender_time = pos 0;
  receiver_time = pos 0;
}

abbrev receiving : Counted ℤ
receiving = record sending {
  id = pos 3;
  sender = pos 0;
  jitter = pos 7;
  cnt_error = pos 2;
  packet_count = pos 40;
  bytes_sent = 0;
  bytes_sent_omit = 0;
  bytes_received = 4000;
  stream_retrans = pos 0;
}

abbrev client : Tally ℤ ℕ
client = record {
  role = b'c';
  mode = bidirectional;
  sender_has_retransmits = pos 1;
  other_side_has_retransmits = pos 0;
  cpu_util = (pos 5, pos 2, pos 3);
  remote_cpu_util = (pos 0, pos 0, pos 0);
  congestion_used = none;
  remote_congestion_used = none;
  get_server_output = pos 1;
  json_output = pos 0;
  json_top = 0;
  server_output_list = [];
  json_server_output = none;
  server_output_text = none;
  streams = sending ∷ receiving ∷ [];
  i_errno = pos 0;
}

abbrev server : Tally ℤ ℕ
server = record client {
  role = b's';
  cpu_util = (pos 9, pos 4, pos 5);
  server_output_list = (104 ∷ []) ∷ (105 ∷ []) ∷ [];
  streams = record receiving { id = pos 1 } ∷ record sending { id = pos 3 } ∷ [];
}

receiving-Fits : Fits (pos 1) (record receiving { id = pos 1 })
unfolding bytes_transferred sent_retransmits
receiving-Fits = record {
  id = omega arith;
  bytes = omega arith;
  retransmits = omega arith;
  errors = omega arith;
  packets = omega arith;
}

sending-Fits : Fits (pos 1) (record sending { id = pos 3 })
unfolding bytes_transferred sent_retransmits
sending-Fits = record {
  id = omega arith;
  bytes = omega arith;
  retransmits = omega arith;
  errors = omega arith;
  packets = omega arith;
}

both-Pairs : Pairs whole (pos 1) server.streams client.streams
both-Pairs = (receiving-Fits, refl, refl, (refl, tt), (sending-Fits, refl, refl, tt, tt))

results-AllKnow_example :
    (u' : Tally ℤ ℕ) × (get_results whole (some (send_results whole unchanged server)) client
      ≡ some (pos 0, u'))
    × AllKnow server.sender_has_retransmits server.streams client.streams u'.streams
    × (u'.remote_cpu_util ≡ server.cpu_util)
    × (u'.remote_congestion_used ≡ text_or server.congestion_used client.remote_congestion_used)
    × (u'.i_errno ≡ client.i_errno)
results-AllKnow_example = results-AllKnow whole unchanged (λ n h. refl) server client both-Pairs

-- An entry of a stream that is not there is an error; the other entries are taken all the same.
abbrev one_stream : Tally ℤ ℕ
one_stream = record client { streams = sending ∷ [] }

unknown_stream :
    (get_entries whole
      (entry whole unchanged (pos 1) receiving
        ∷ entry whole unchanged (pos 1) (record receiving { id = pos 1 })
        ∷ [])
      (pos 0, pos 0, one_stream.streams)).0
    ≡ negsuc 0
unfolding get_entries get_entry take_by_id read_values entry
unknown_stream = refl
