-- ===== src/Exchange/Agree.antt =====
-- A server that has read the parameters of a client is set up for the same test.
use mm_wave_tracker.Prelude.{◌≤◌, ◌≡◌, refl, sym, ◌∙◌, ap, ◌⊎◌, [], ◌∷◌, some, if◌then◌else◌}
use mm_wave_tracker.Prelude.Int.{ℤ, pos, negsuc, eqb_ℤ, truthy}
use mm_wave_tracker.Config.{IperfTest, Protocol, receiver, sender, bidirectional}
use mm_wave_tracker.Config.Life.{tcp, udp}
use mm_wave_tracker.Config.Roles.{wanted_mode}
use mm_wave_tracker.Exchange.{
  parameters, send_parameters, read_parameters, get_parameters, get_numbers,
}
use mm_wave_tracker.Exchange.Items.{Key, Json, IsExact, valueint, as_read, add_all}
use mm_wave_tracker.Exchange.Fields.{find_field, get-add_all}
use mm_wave_tracker.Exchange.Sent.{
  IsInt, stored_int, affinity_sent, sent_or, sent_u64_or, sent_text_or, int_sent, u64_sent,
  one_sent, flag_sent, mode_sent, reverse_sent, bidirectional_sent, texts_sent, retransmits_sent,
  protocol_sent, read_steps,
}
use mathlib.Core.Path.{fun_ext}
use Prim.Native.String.{String}

-- A server before a test: not reversed, and with both protocols on its list.
pub record IsWaiting {D : Type 0} (s : IperfTest D) : Type 0 where
  pub role : s.role ≡ b's'
  pub mode : s.mode ≡ receiver
  pub not_reverse : s.reverse ≡ pos 0
  pub not_bidir : s.bidir ≡ pos 0
  pub protocols : s.protocols ≡ tcp ∷ udp ∷ []

-- The numbers of a test: those of type `int` are in its range, and those of 64 bits are exact as a
-- `double`.
pub record Fits {D : Type 0} (t : IperfTest D) : Type 0 where
  pub omit : IsInt t.omit
  pub duration : IsInt t.duration
  pub num_streams : IsInt t.num_streams
  pub bytes : t.settings.bytes ≤ 9007199254740992
  pub blocks : t.settings.blocks ≤ 9007199254740992
  pub rate : t.settings.rate ≤ 9007199254740992
  pub fqrate : t.settings.fqrate ≤ 9007199254740992
  pub blksize : IsInt t.settings.blksize
  pub mss : IsInt t.settings.mss
  pub tos : IsInt t.settings.tos
  pub burst : IsInt t.settings.burst
  pub socket_bufsize : IsInt t.settings.socket_bufsize
  pub pacing_timer : IsInt t.settings.pacing_timer
  pub server_affinity : IsInt t.server_affinity
  pub flowlabel : IsInt t.settings.flowlabel

-- The server's test `u`, which was `s`, agrees with the client's test `t`.
pub record Agrees {D : Type 0} (t s u : IperfTest D) : Type 0 where
  pub protocol : u.protocol ≡ t.protocol
  pub mode : u.mode ≡ wanted_mode b's' (truthy t.reverse) (truthy t.bidir)
  pub reverse : truthy u.reverse ≡ truthy t.reverse
  pub bidir : truthy u.bidir ≡ truthy t.bidir
  pub omit : u.omit ≡ t.omit
  pub duration : u.duration ≡ t.duration
  pub num_streams : u.num_streams ≡ t.num_streams
  pub bytes : u.settings.bytes ≡ sent_u64_or s.settings.bytes t.settings.bytes
  pub blocks : u.settings.blocks ≡ sent_u64_or s.settings.blocks t.settings.blocks
  pub rate : u.settings.rate ≡ sent_u64_or s.settings.rate t.settings.rate
  pub fqrate : u.settings.fqrate ≡ sent_u64_or s.settings.fqrate t.settings.fqrate
  pub blksize : u.settings.blksize ≡ sent_or s.settings.blksize t.settings.blksize
  pub mss : u.settings.mss ≡ sent_or s.settings.mss t.settings.mss
  pub tos : u.settings.tos ≡ sent_or s.settings.tos t.settings.tos
  pub burst : u.settings.burst ≡ sent_or s.settings.burst t.settings.burst
  pub socket_bufsize :
      u.settings.socket_bufsize ≡ sent_or s.settings.socket_bufsize t.settings.socket_bufsize
  pub pacing_timer :
      u.settings.pacing_timer ≡ sent_or s.settings.pacing_timer t.settings.pacing_timer
  pub no_delay : u.no_delay ≡ (if truthy t.no_delay then pos 1 else s.no_delay)
  pub udp_counters_64bit :
      u.udp_counters_64bit ≡ (if truthy t.udp_counters_64bit then pos 1 else s.udp_counters_64bit)
  pub get_server_output :
      u.get_server_output ≡ (if truthy t.get_server_output then pos 1 else s.get_server_output)
  pub repeating_payload :
      u.repeating_payload ≡ (if truthy t.repeating_payload then pos 1 else s.repeating_payload)
  pub server_affinity :
      u.server_affinity
      ≡ (if eqb_ℤ t.server_affinity (negsuc 0) then s.server_affinity else t.server_affinity)
  pub flowlabel : u.settings.flowlabel ≡ sent_or s.settings.flowlabel t.settings.flowlabel
  pub role : u.role ≡ s.role
  pub protocols : u.protocols ≡ s.protocols
  pub congestion_used : u.congestion_used ≡ sent_text_or s.congestion_used t.congestion_used
  pub title : u.title ≡ sent_text_or s.title t.title
  pub extra_data : u.extra_data ≡ sent_text_or s.extra_data t.extra_data
  pub congestion : u.congestion ≡ sent_text_or s.congestion t.congestion

module _ {D : Type 0} where
  read-Agrees :
      (stored : ℤ → ℤ) (exact : (n : ℤ) → IsExact n → stored n ≡ n) (version : String)
      (t s : IperfTest D) (e : ℤ) (p : Protocol)
      → (p ≡ tcp) ⊎ (p ≡ udp)
      → IsWaiting s
      → Fits t
      → t.protocol ≡ some p
      → (u : IperfTest D) × (read_parameters
            (λ k. find_field stored k (parameters p.id version t))
            s
            e
          ≡ some (u, e))
        × Agrees t s u
  unfolding parameters get_numbers as_read valueint
  read-Agrees stored exact version t s e p h w f q =
      let get = λ (k : Key). find_field stored k (parameters p.id version t) in
      let s1 = record s { protocol = some p; sender_has_retransmits = pos 0 } in
      let s2 = get_numbers get s1 in
      let (r3, e3) = reverse_sent (truthy t.reverse) s2 p w.role refl w.mode w.not_reverse in
      let s3 = record s2 {
        mode = if truthy t.reverse then sender else receiver;
        reverse = if truthy t.reverse then pos 1 else pos 0;
        sender_has_retransmits = r3;
      } in
      let s4 = record s3 {
        mode = if truthy t.bidir then bidirectional else s3.mode;
        bidir = if truthy t.bidir then pos 1 else pos 0;
      } in
      let s5 = record s4 {
        title = sent_text_or s.title t.title;
        extra_data = sent_text_or s.extra_data t.extra_data;
        congestion = sent_text_or s.congestion t.congestion;
        congestion_used = sent_text_or s.congestion_used t.congestion_used;
      } in
      let (r6, e6) = retransmits_sent s5 p refl in
      let s6 = record s5 { sender_has_retransmits = r6 } in
      (
        s6,
        read_steps get s s1 s3 s4 s5 s6 e
            (protocol_sent stored version t s e p h w.protocols w.mode) e3
            (bidirectional_sent (truthy t.bidir) s3 w.not_bidir)
            (texts_sent stored s4 t.title t.extra_data t.congestion t.congestion_used) e6,
        record {
          protocol = sym q;
          mode = mode_sent (truthy t.reverse) (truthy t.bidir);
          reverse = flag_sent (truthy t.reverse);
          bidir = flag_sent (truthy t.bidir);
          omit = stored_int stored exact t.omit f.omit;
          duration = stored_int stored exact t.duration f.duration;
          num_streams = stored_int stored exact t.num_streams f.num_streams;
          bytes = u64_sent stored exact s.settings.bytes t.settings.bytes f.bytes;
          blocks = u64_sent stored exact s.settings.blocks t.settings.blocks f.blocks;
          rate = u64_sent stored exact s.settings.rate t.settings.rate f.rate;
          fqrate = u64_sent stored exact s.settings.fqrate t.settings.fqrate f.fqrate;
          blksize = int_sent stored exact s.settings.blksize t.settings.blksize f.blksize;
          mss = int_sent stored exact s.settings.mss t.settings.mss f.mss;
          tos = int_sent stored exact s.settings.tos t.settings.tos f.tos;
          burst = int_sent stored exact s.settings.burst t.settings.burst f.burst;
          socket_bufsize =
              int_sent stored exact s.settings.socket_bufsize t.settings.socket_bufsize
                f.socket_bufsize;
          pacing_timer =
              int_sent stored exact s.settings.pacing_timer t.settings.pacing_timer f.pacing_timer;
          no_delay = one_sent (truthy t.no_delay) s.no_delay _;
          udp_counters_64bit = one_sent (truthy t.udp_counters_64bit) s.udp_counters_64bit _;
          get_server_output = one_sent (truthy t.get_server_output) s.get_server_output _;
          repeating_payload = one_sent (truthy t.repeating_payload) s.repeating_payload _;
          server_affinity =
              affinity_sent stored exact s.server_affinity t.server_affinity f.server_affinity;
          flowlabel = int_sent stored exact s.settings.flowlabel t.settings.flowlabel f.flowlabel;
          role = refl;
          protocols = refl;
          congestion_used = refl;
          title = refl;
          extra_data = refl;
          congestion = refl;
        },
      )

  -- A waiting server that reads the parameters that a client over TCP or UDP has sent reads all of
  -- them without a crash or an error, if each `int` of the client is in range and each of its 64-bit
  -- numbers is at most 2^53, which a `double` holds. It then has the client's protocol, the mode of a
  -- server for the client's direction, and the client's times, number of streams, limits, rates,
  -- sizes, type of service, congestion control, title, extra data, flow label and CPU of the server;
  -- where the client has 0 (for the CPU: -1), or no text, the server keeps its own. It has no delay,
  -- 64-bit counters, the output of the server and a repeating payload set to 1 if the client has
  -- them, and else as they were. Its role and its list of protocols are as before.
  pub exchange-Agrees :
      {J : Type 0} (json : Json J) (version : String) (t s : IperfTest D) (e : ℤ) (p : Protocol)
      → (p ≡ tcp) ⊎ (p ≡ udp)
      → IsWaiting s
      → Fits t
      → t.protocol ≡ some p
      → (j : J) × (u : IperfTest D) × (send_parameters json version t ≡ some j)
        × (get_parameters json j s e ≡ some (u, e))
        × Agrees t s u
  unfolding send_parameters get_parameters parameters
  exchange-Agrees json version t s e p h w f q =
      let fs = parameters p.id version t in
      let (u, read, agrees) = read-Agrees json.stored json.stored_exact version t s e p h w f q in
      (
        add_all json json.create fs,
        u,
        rw (send_parameters, q) refl,
        ap (λ g. read_parameters g s e) (fun_ext (λ k. get-add_all json fs k)) ∙ read,
        agrees,
      )
