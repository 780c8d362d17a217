-- ===== src/Results.antt =====
-- iperfwrapperlib/iperf/src/iperf_api.c: `send_results` and `get_results`, by which each side of a
-- test tells the other what it has counted. A document is what cJSON finds in the object under each
-- name; a number of C that is written is read as the `int64_t` that `stored` gives, and a `double`
-- as it was written, which holds for one that is finite. Failures to allocate and the debugging
-- output are left out. A text is a list of codes.
pub mod Get
pub mod Arrive
pub mod Learn
pub mod Tests
use mm_wave_tracker.Prelude.{
  ℕ, ◌-◌, ◌+◌, Bool, not, true, false, ◌&&◌, List, [], ◌∷◌, ◌++◌, Option, none, some, ◌==◌,
  if◌then◌else◌,
}
use mm_wave_tracker.Prelude.Int.{ℤ, pos, negsuc, eqb_ℤ, truthy}
use mm_wave_tracker.Prelude.Word.{u64, u64_mod, to_u64, to_int}
use mm_wave_tracker.Prelude.Double.{Double}
use mm_wave_tracker.Time.{IperfTime, iperf_time_diff}
use mm_wave_tracker.Udp.{iperf_time_in_secs}
use mm_wave_tracker.Config.{Mode, receiver, sender, bidirectional}
use mm_wave_tracker.Exchange.{and_then}
use mm_wave_tracker.Config.Errno.{ierecvresults, iestreamid}

-- The fields of `struct iperf_stream` and its result that are exchanged or filled.
pub record Counted (D : Type 0) : Type 0 where
  pub id : ℤ
  pub sender : ℤ
  pub jitter : D
  pub cnt_error : ℤ
  pub packet_count : ℤ
  pub peer_packet_count : ℤ
  pub bytes_sent : ℕ
  pub bytes_sent_omit : ℕ
  pub bytes_received : ℕ
  pub stream_retrans : ℤ
  pub start_time : IperfTime
  pub end_time : IperfTime
  pub sender_time : D
  pub receiver_time : D

-- The fields of `struct iperf_test`, and `i_errno`.
pub record Tally (D J : Type 0) : Type 0 where
  pub role : ℕ
  pub mode : Mode
  pub sender_has_retransmits : ℤ
  pub other_side_has_retransmits : ℤ
  pub cpu_util : D × D × D
  pub remote_cpu_util : D × D × D
  pub congestion_used : Option (List ℕ)
  pub remote_congestion_used : Option (List ℕ)
  pub get_server_output : ℤ
  pub json_output : ℤ
  pub json_top : J
  pub server_output_list : List (List ℕ)
  pub json_server_output : Option J
  pub server_output_text : Option (List ℕ)
  pub streams : List (Counted D)
  pub i_errno : ℤ

-- An object of the array `streams`: numbers that are read as whole ones, and as a `double`.
pub record Entry (D : Type 0) : Type 0 where
  pub id : Option ℤ
  pub bytes : Option ℤ
  pub retransmits : Option ℤ
  pub jitter : Option D
  pub errors : Option ℤ
  pub packets : Option ℤ
  pub start_time : Option D
  pub end_time : Option D

-- The document. Where an item should be a text, the inner `none` is one that is none.
pub record Document (D J : Type 0) : Type 0 where
  pub cpu_util_total : Option D
  pub cpu_util_user : Option D
  pub cpu_util_system : Option D
  pub sender_has_retransmits : Option ℤ
  pub streams : Option (List (Entry D))
  pub server_output_json : Option J
  pub server_output_text : Option (Option (List ℕ))
  pub congestion_used : Option (Option (List ℕ))

-- What `get_results` takes from an entry.
pub record Values (D : Type 0) : Type 0 where
  pub bytes : ℕ
  pub retransmits : ℤ
  pub jitter : D
  pub errors : ℤ
  pub packets : ℤ
  pub seconds : D

abbrev pub is_only_receiver : Mode → Bool
is_only_receiver receiver = true
is_only_receiver sender = false
is_only_receiver bidirectional = false

abbrev pub goes_both_ways : Mode → Bool
goes_both_ways bidirectional = true
goes_both_ways receiver = false
goes_both_ways sender = false

abbrev pub concat : List (List ℕ) → List ℕ
concat [] = []
concat (line ∷ lines) = line ++ concat lines

module _ {D : Type 0} where
  -- Subtraction of `iperf_size_t` wraps around.
  unfoldable pub bytes_transferred : Counted D → ℕ
  bytes_transferred sp =
      if truthy sp.sender
      then u64 (sp.bytes_sent + u64_mod - sp.bytes_sent_omit)
      else sp.bytes_received

  unfoldable pub sent_retransmits : ℤ → Counted D → ℤ
  sent_retransmits has sp = if truthy sp.sender && truthy has then sp.stream_retrans else negsuc 0

  abbrev pub seconds_between : Double D → IperfTime → IperfTime → D
  seconds_between fp t u = iperf_time_in_secs ⦃fp = fp⦄ (iperf_time_diff t u).1

  module _ (fp : Double D) (stored : ℤ → ℤ) where
    -- The object of a stream that `send_results` adds.
    unfoldable pub entry : ℤ → Counted D → Entry D
    entry has sp = record {
      id = some (stored sp.id);
      bytes = some (stored (pos (bytes_transferred sp)));
      retransmits = some (stored (sent_retransmits has sp));
      jitter = some sp.jitter;
      errors = some (stored sp.cnt_error);
      packets = some (stored sp.packet_count);
      start_time = some (seconds_between fp sp.start_time sp.start_time);
      end_time = some (seconds_between fp sp.start_time sp.end_time);
    }

    abbrev pub entries : ℤ → List (Counted D) → List (Entry D)
    entries has [] = []
    entries has (sp ∷ sps) = entry has sp ∷ entries has sps

    -- The document of `send_results`.
    unfoldable pub send_results : {J : Type 0} → Tally D J → Document D J
    send_results t =
        let output = (t.role == b's') && truthy t.get_server_output in
        record {
          cpu_util_total = some t.cpu_util.0;
          cpu_util_user = some t.cpu_util.1;
          cpu_util_system = some t.cpu_util.2;
          sender_has_retransmits =
              some
                (stored (if is_only_receiver t.mode then negsuc 0 else t.sender_has_retransmits));
          streams = some (entries t.sender_has_retransmits t.streams);
          server_output_json = if output && truthy t.json_output then some t.json_top else none;
          server_output_text =
              if output && not (truthy t.json_output)
              then some (some (concat t.server_output_list))
              else none;
          congestion_used = elim t.congestion_used [ none ↦ none | some c ↦ some (some c) ];
        }

  -- The time of the peer, or 0 if it sent no times.
  abbrev pub seconds_of : Double D → Option D → Option D → D
  seconds_of fp (some s) (some e) = fp.sub e s
  seconds_of fp (some s) none = fp.of_int (pos 0)
  seconds_of fp none e = fp.of_int (pos 0)

  -- The id and the values of an entry, if none is missing.
  unfoldable pub read_values : Double D → Entry D → Option (ℤ × Values D)
  read_values fp e = and_then e.id (λ i. and_then e.bytes (λ b. and_then e.retransmits (λ r.
      and_then e.jitter (λ j. and_then e.errors (λ c. and_then e.packets (λ p. some (
        to_int (to_u64 i),
        record {
          bytes = to_u64 b;
          retransmits = to_int (to_u64 r);
          jitter = j;
          errors = to_int (to_u64 c);
          packets = to_int (to_u64 p);
          seconds = seconds_of fp e.start_time e.end_time;
        },
      )))))))

  -- A stream that sends takes what the peer received, and the other way round.
  unfoldable pub take_values : Values D → Counted D → Counted D
  take_values v sp =
      if truthy sp.sender
      then record sp {
        jitter = v.jitter;
        cnt_error = v.errors;
        peer_packet_count = v.packets;
        bytes_received = v.bytes;
        receiver_time = v.seconds;
      }
      else record sp {
        peer_packet_count = v.packets;
        bytes_sent = v.bytes;
        stream_retrans = v.retransmits;
        sender_time = v.seconds;
      }

  -- The first stream with the id takes the values.
  unfoldable pub take_by_id : ℤ → Values D → List (Counted D) → Option (List (Counted D))
  take_by_id sid v [] = none
  take_by_id sid v (sp ∷ sps) =
      let rest = take_by_id sid v sps in
      if eqb_ℤ sp.id sid
      then some (take_values v sp ∷ sps)
      else elim rest [ none ↦ none | some l ↦ some (sp ∷ l) ]

  -- A turn of the loop of `get_results`, on what is returned, `i_errno` and the streams. A failure
  -- does not end the loop.
  unfoldable pub get_entry :
      Double D → Entry D → ℤ × ℤ × List (Counted D) → ℤ × ℤ × List (Counted D)
  get_entry fp e (r, i_errno, l) = elim (read_values fp e) [
    | none ↦ (negsuc 0, ierecvresults, l)
    | some got ↦ elim (take_by_id got.0 got.1 l) [
      | none ↦ (negsuc 0, iestreamid, l)
      | some l' ↦ (r, i_errno, l')
    ]
  ]

  unfoldable pub get_entries :
      Double D → List (Entry D) → ℤ × ℤ × List (Counted D) → ℤ × ℤ × List (Counted D)
  get_entries fp [] x = x
  get_entries fp (e ∷ es) x = get_entries fp es (get_entry fp e x)
