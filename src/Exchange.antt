-- ===== src/Exchange.antt =====
-- iperfwrapperlib/iperf/src/iperf_api.c: `send_parameters` and `get_parameters`, by which a client
-- tells a server what the test is. The object that is written is the one that is read: how it
-- travels as text is for cJSON. Failures to allocate, to write and to read it are left out.
pub mod Items
pub mod Fields
pub mod Sent
pub mod Agree
pub mod Frame
pub mod Tests
use mm_wave_tracker.Prelude.{
  ℕ, Bool, true, false, not, ◌&&◌, List, [], ◌∷◌, Option, none, some, ◌==◌, if◌then◌else◌,
}
use mm_wave_tracker.Prelude.Int.{ℤ, pos, negsuc, eqb_ℤ, truthy}
use mm_wave_tracker.Prelude.Word.{to_u64, to_int}
use mm_wave_tracker.Config.{IperfTest}
use mm_wave_tracker.Config.Codes.{ptcp, pudp, psctp}
use mm_wave_tracker.Config.Getters.{
  iperf_get_test_get_server_output, iperf_get_test_udp_counters_64bit,
}
use mm_wave_tracker.Config.Setters.{
  has_tcpinfo_retransmits, is_sender_side, set_protocol, iperf_set_test_reverse,
  iperf_set_test_bidirectional,
}
use mm_wave_tracker.Exchange.Items.{
  Key, Item, Field, Json, number, yes, text, valueint, valuestring, add_all,
}
use mm_wave_tracker.Exchange.Items.{
  k_tcp, k_udp, k_sctp, k_omit, k_server_affinity, k_time, k_num, k_blockcount, k_mss, k_nodelay,
  k_parallel, k_reverse, k_bidirectional, k_window, k_len, k_bandwidth, k_fqrate, k_pacing_timer,
  k_burst, k_tos, k_flowlabel, k_title, k_extra_data, k_congestion, k_congestion_used,
  k_get_server_output, k_udp_counters_64bit, k_repeating_payload, k_client_version,
}
use Prim.Native.String.{String}

abbrev pub is_some : Option String → Bool
is_some none = false
is_some (some s) = true

abbrev pub or_empty : Option String → String
or_empty none = ""
or_empty (some s) = s

abbrev int_field : Bool → Key → ℤ → Field
int_field present key n = record { present = present; key = key; item = number n }

abbrev yes_field : Bool → Key → Field
yes_field present key = record { present = present; key = key; item = yes }

abbrev text_field : Key → Option String → Field
text_field key s = record { present = is_some s; key = key; item = text (or_empty s) }

module _ {D : Type 0} where
  -- What `send_parameters` adds to the object, in its order; `id` is that of the protocol.
  unfoldable pub parameters : ℤ → String → IperfTest D → List Field
  parameters id iperf_version t =
      yes_field (eqb_ℤ id ptcp) k_tcp
      ∷ yes_field (not (eqb_ℤ id ptcp) && eqb_ℤ id pudp) k_udp
      ∷ yes_field (not (eqb_ℤ id ptcp) && not (eqb_ℤ id pudp) && eqb_ℤ id psctp) k_sctp
      ∷ int_field true k_omit t.omit
      ∷ int_field (not (eqb_ℤ t.server_affinity (negsuc 0))) k_server_affinity t.server_affinity
      ∷ int_field true k_time t.duration
      ∷ int_field (not (t.settings.bytes == 0)) k_num (pos t.settings.bytes)
      ∷ int_field (not (t.settings.blocks == 0)) k_blockcount (pos t.settings.blocks)
      ∷ int_field (truthy t.settings.mss) k_mss t.settings.mss
      ∷ yes_field (truthy t.no_delay) k_nodelay
      ∷ int_field true k_parallel t.num_streams
      ∷ yes_field (truthy t.reverse) k_reverse
      ∷ yes_field (truthy t.bidir) k_bidirectional
      ∷ int_field (truthy t.settings.socket_bufsize) k_window t.settings.socket_bufsize
      ∷ int_field (truthy t.settings.blksize) k_len t.settings.blksize
      ∷ int_field (not (t.settings.rate == 0)) k_bandwidth (pos t.settings.rate)
      ∷ int_field (not (t.settings.fqrate == 0)) k_fqrate (pos t.settings.fqrate)
      ∷ int_field (truthy t.settings.pacing_timer) k_pacing_timer t.settings.pacing_timer
      ∷ int_field (truthy t.settings.burst) k_burst t.settings.burst
      ∷ int_field (truthy t.settings.tos) k_tos t.settings.tos
      ∷ int_field (truthy t.settings.flowlabel) k_flowlabel t.settings.flowlabel
      ∷ text_field k_title t.title
      ∷ text_field k_extra_data t.extra_data
      ∷ text_field k_congestion t.congestion
      ∷ text_field k_congestion_used t.congestion_used
      ∷ int_field (truthy t.get_server_output) k_get_server_output
          (iperf_get_test_get_server_output t)
      ∷ int_field (truthy t.udp_counters_64bit) k_udp_counters_64bit
          (iperf_get_test_udp_counters_64bit t)
      ∷ int_field (truthy t.repeating_payload) k_repeating_payload t.repeating_payload
      ∷ text_field k_client_version (some iperf_version)
      ∷ []

  -- The object that `send_parameters` writes; `none` if it follows a NULL protocol.
  unfoldable pub send_parameters : {J : Type 0} → Json J → String → IperfTest D → Option J
  send_parameters json iperf_version t = elim t.protocol [
    | none ↦ none
    | some p ↦ some (add_all json json.create (parameters p.id iperf_version t))
  ]

-- An item that is there replaces a value; that of an `int` is converted.
abbrev pub int_or : ℤ → Option Item → ℤ
int_or old none = old
int_or old (some i) = to_int (to_u64 (valueint i))

abbrev pub u64_or : ℕ → Option Item → ℕ
u64_or old none = old
u64_or old (some i) = to_u64 (valueint i)

abbrev pub one_or : ℤ → Option Item → ℤ
one_or old none = old
one_or old (some i) = pos 1

-- The copy of a text; `none` if the item has none, since `strdup` follows it.
unfoldable pub text_or : Option String → Option Item → Option (Option String)
text_or old none = some old
text_or old (some i) = elim (valuestring i) [ none ↦ none | some s ↦ some (some s) ]

abbrev pub and_then : {A B : Type 0} → Option A → (A → Option B) → Option B
and_then none f = none
and_then (some a) f = f a

module _ {D : Type 0} where
  -- `set_protocol` if an item is there.
  unfoldable pub protocol_or : Option Item → ℤ → IperfTest D × ℤ → IperfTest D × ℤ
  protocol_or none id te = te
  protocol_or (some i) id (t, e) = let (t', e', _) = set_protocol t id e in (t', e')

  -- The items that `get_parameters` copies to fields of their own.
  unfoldable pub get_numbers : (Key → Option Item) → IperfTest D → IperfTest D
  get_numbers get t = record t {
    omit = int_or t.omit (get k_omit);
    server_affinity = int_or t.server_affinity (get k_server_affinity);
    duration = int_or t.duration (get k_time);
    no_delay = one_or t.no_delay (get k_nodelay);
    num_streams = int_or t.num_streams (get k_parallel);
    get_server_output = one_or t.get_server_output (get k_get_server_output);
    udp_counters_64bit = one_or t.udp_counters_64bit (get k_udp_counters_64bit);
    repeating_payload = one_or t.repeating_payload (get k_repeating_payload);
    settings = record (t.settings) {
      bytes = u64_or t.settings.bytes (get k_num);
      blocks = u64_or t.settings.blocks (get k_blockcount);
      mss = int_or t.settings.mss (get k_mss);
      socket_bufsize = int_or t.settings.socket_bufsize (get k_window);
      blksize = int_or t.settings.blksize (get k_len);
      rate = u64_or t.settings.rate (get k_bandwidth);
      fqrate = u64_or t.settings.fqrate (get k_fqrate);
      pacing_timer = int_or t.settings.pacing_timer (get k_pacing_timer);
      burst = int_or t.settings.burst (get k_burst);
      tos = int_or t.settings.tos (get k_tos);
      flowlabel = int_or t.settings.flowlabel (get k_flowlabel);
    };
  }

  -- The texts: a title, extra data, a congestion control that is asked for and one that is used.
  unfoldable pub get_texts :
      Option Item → Option Item → Option Item → Option Item → IperfTest D → Option (IperfTest D)
  get_texts i1 i2 i3 i4 t = and_then (text_or t.title i1) (λ title'.
      and_then (text_or t.extra_data i2) (λ extra. and_then (text_or t.congestion i3) (λ cong.
        and_then (text_or t.congestion_used i4) (λ used. some record t {
          title = title';
          extra_data = extra;
          congestion = cong;
          congestion_used = used;
        }))))

  unfoldable pub reverse_or : Option Item → IperfTest D → Option (IperfTest D)
  reverse_or none t = some t
  reverse_or (some i) t = iperf_set_test_reverse t (pos 1)

  unfoldable pub bidirectional_or : Option Item → IperfTest D → Option (IperfTest D)
  bidirectional_or none t = some t
  bidirectional_or (some i) t = iperf_set_test_bidirectional t (pos 1)

  -- The end of `get_parameters`: a side that sends over TCP counts retransmits.
  unfoldable pub get_retransmits : IperfTest D → Option (IperfTest D)
  get_retransmits t =
      if is_sender_side t.mode
      then elim t.protocol [
        | none ↦ none
        | some p ↦ some (
            if eqb_ℤ p.id ptcp && has_tcpinfo_retransmits
            then record t { sender_has_retransmits = pos 1 }
            else t)
      ]
      else some t

  -- What `get_parameters` does with an object that was read, given the look-up of items: the test and
  -- `i_errno`, or `none` for a crash.
  unfoldable pub read_parameters : (Key → Option Item) → IperfTest D → ℤ → Option (IperfTest D × ℤ)
  read_parameters get t i_errno =
      let (t1, e) =
        protocol_or (get k_sctp) psctp
          (protocol_or (get k_udp) pudp (protocol_or (get k_tcp) ptcp (t, i_errno))) in
      and_then (reverse_or (get k_reverse) (get_numbers get t1)) (λ t2.
        and_then (bidirectional_or (get k_bidirectional) t2) (λ t3.
          and_then
            (get_texts (get k_title) (get k_extra_data) (get k_congestion) (get k_congestion_used)
              t3)
            (λ t4. and_then (get_retransmits t4) (λ t5. some (t5, e)))))

  unfoldable pub get_parameters :
      {J : Type 0} → Json J → J → IperfTest D → ℤ → Option (IperfTest D × ℤ)
  get_parameters json j t i_errno = read_parameters (λ k. json.get j k) t i_errno
