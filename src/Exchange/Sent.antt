-- ===== src/Exchange/Sent.antt =====
-- Each step of `get_parameters`, on the items that `send_parameters` adds.
use mm_wave_tracker.Prelude.{
  ℕ, ◌≤◌, ◌<◌, ◌≡◌, refl, ◌∙◌, ap, ◌⊎◌, Bool, true, false, not, ◌&&◌, [], ◌∷◌, Option, none, some,
  ◌==◌, if◌then◌else◌, Bool-cases, inl, inr, arith,
}
use mm_wave_tracker.Prelude.Int.{ℤ, pos, negsuc, eqb_ℤ, truthy}
use mm_wave_tracker.Prelude.Word.{to_u64, to_int}
use mm_wave_tracker.Config.{IperfTest, Protocol, receiver, sender, bidirectional}
use mm_wave_tracker.Config.Codes.{ptcp, pudp, psctp}
use mm_wave_tracker.Config.Setters.{
  is_sender_side, choose_mode, find_protocol, check_sender_has_retransmits, set_protocol,
  iperf_set_test_reverse, iperf_set_test_bidirectional,
}
use mm_wave_tracker.Config.Life.{tcp, udp}
use mm_wave_tracker.Config.Roles.{wanted_mode}
use mm_wave_tracker.Exchange.{
  one_or, parameters, read_parameters, get_numbers, get_texts, reverse_or, bidirectional_or,
  get_retransmits, protocol_or, text_or, or_empty, is_some, int_or, u64_or,
}
use mm_wave_tracker.Exchange.Items.{
  Key, Item, number, yes, text, valueint, valuestring, IsExact, as_read, k_tcp, k_udp, k_sctp,
  k_reverse, k_bidirectional, k_title, k_extra_data, k_congestion, k_congestion_used,
}
use mm_wave_tracker.Exchange.Fields.{find_field}
use Prim.Native.String.{String}

-- A number that is not 0 is sent, and takes the place of the server's.
abbrev pub sent_or : ℤ → ℤ → ℤ
sent_or old n = if truthy n then n else old

abbrev pub sent_u64_or : ℕ → ℕ → ℕ
sent_u64_or old n = if n == 0 then old else n

abbrev pub sent_text_or : Option String → Option String → Option String
sent_text_or old none = old
sent_text_or old (some s) = some s

-- The range of an `int`.
abbrev pub IsInt : ℤ → Type 0
IsInt (pos n) = n < 2147483648
IsInt (negsuc n) = n < 2147483648

to_int-to_u64 : (n : ℤ) → IsInt n → to_int (to_u64 n) ≡ n
to_int-to_u64 (pos n) h = ground arith
to_int-to_u64 (negsuc n) h = ground arith

IsInt-IsExact : (n : ℤ) → IsInt n → IsExact n
IsInt-IsExact (pos n) h = omega arith
IsInt-IsExact (negsuc n) h = omega arith

pub text_sent :
    (stored : ℤ → ℤ) (old x : Option String)
    → text_or old (if is_some x then some (as_read stored (text (or_empty x))) else none)
      ≡ some (sent_text_or old x)
unfolding text_or as_read valuestring
text_sent stored old none = refl
text_sent stored old (some s) = refl

module _ (stored : ℤ → ℤ) (exact : (n : ℤ) → IsExact n → stored n ≡ n) where
  pub stored_int : (n : ℤ) → IsInt n → to_int (to_u64 (stored n)) ≡ n
  stored_int n h = ap (λ m. to_int (to_u64 m)) (exact n (IsInt-IsExact n h)) ∙ to_int-to_u64 n h

  pub int_sent :
      (old n : ℤ)
      → IsInt n
      → int_or old (if truthy n then some (number (stored n)) else none) ≡ sent_or old n
  unfolding valueint
  int_sent old n h = elim (Bool-cases (truthy n)) [
    | inl e ↦ rw (e) (stored_int n h)
    | inr e ↦ rw (e) refl
  ]

  -- The CPU of the server is sent unless it is -1.
  pub affinity_sent :
      (old n : ℤ)
      → IsInt n
      → int_or old (if not (eqb_ℤ n (negsuc 0)) then some (number (stored n)) else none)
        ≡ (if eqb_ℤ n (negsuc 0) then old else n)
  unfolding valueint
  affinity_sent old n h = elim (Bool-cases (eqb_ℤ n (negsuc 0))) [
    | inl e ↦ rw (e) refl
    | inr e ↦ rw (e) (stored_int n h)
  ]

  pub u64_sent :
      (old n : ℕ)
      → n ≤ 9007199254740992
      → u64_or old (if not (n == 0) then some (number (stored (pos n))) else none)
        ≡ sent_u64_or old n
  unfolding valueint
  u64_sent old n h = elim (Bool-cases (n == 0)) [
    | inl e ↦ rw (e) refl
    | inr e ↦ rw (e) (ap to_u64 (exact (pos n) h) ∙ omega arith)
  ]

pub one_sent :
    (b : Bool) (old : ℤ) (i : Item)
    → one_or old (if b then some i else none) ≡ (if b then pos 1 else old)
one_sent true old i = refl
one_sent false old i = refl

pub flag_sent : (b : Bool) → truthy (if b then pos 1 else pos 0) ≡ b
flag_sent true = refl
flag_sent false = refl

pub mode_sent :
    (reverse bidir : Bool)
    → (if bidir then bidirectional else (if reverse then sender else receiver))
      ≡ wanted_mode b's' reverse bidir
mode_sent reverse true = refl
mode_sent reverse false = refl

module _ {D : Type 0} where
  pub read_steps :
      (get : Key → Option Item) (s s1 t2 t3 t4 t5 : IperfTest D) (e : ℤ)
      → protocol_or
          (get k_sctp)
          psctp
          (protocol_or (get k_udp) pudp (protocol_or (get k_tcp) ptcp (s, e)))
        ≡ (s1, e)
      → reverse_or (get k_reverse) (get_numbers get s1) ≡ some t2
      → bidirectional_or (get k_bidirectional) t2 ≡ some t3
      → get_texts (get k_title) (get k_extra_data) (get k_congestion) (get k_congestion_used) t3
        ≡ some t4
      → get_retransmits t4 ≡ some t5
      → read_parameters get s e ≡ some (t5, e)
  unfolding read_parameters
  read_steps get s s1 t2 t3 t4 t5 e a b c d f = rw (read_parameters, a, b, c, d, f) refl

  pub set_protocol_sent :
      (s : IperfTest D) (e : ℤ) (p : Protocol)
      → (p ≡ tcp) ⊎ (p ≡ udp)
      → s.protocols ≡ tcp ∷ udp ∷ []
      → s.mode ≡ receiver
      → set_protocol s p.id e
        ≡ (record s { protocol = some p; sender_has_retransmits = pos 0 }, e, true)
  unfolding set_protocol find_protocol check_sender_has_retransmits
  set_protocol_sent s e p (inl h) l m = ground arith
  set_protocol_sent s e p (inr h) l m = ground arith

  pub reverse_sent :
      (b : Bool) (s : IperfTest D) (p : Protocol)
      → s.role ≡ b's'
      → s.protocol ≡ some p
      → s.mode ≡ receiver
      → s.reverse ≡ pos 0
      → (r : ℤ) × (reverse_or (if b then some yes else none) s
          ≡ some record s {
            mode = if b then sender else receiver;
            reverse = if b then pos 1 else pos 0;
            sender_has_retransmits = r;
          })
  unfolding reverse_or iperf_set_test_reverse choose_mode check_sender_has_retransmits
  reverse_sent true s p r q m a = (if eqb_ℤ p.id ptcp then pos 1 else pos 0, ground arith)
  reverse_sent false s p r q m a = (s.sender_has_retransmits, ground arith)

  pub bidirectional_sent :
      (b : Bool) (s : IperfTest D)
      → s.bidir ≡ pos 0
      → bidirectional_or (if b then some yes else none) s
        ≡ some record s {
          mode = if b then bidirectional else s.mode;
          bidir = if b then pos 1 else pos 0;
        }
  unfolding bidirectional_or iperf_set_test_bidirectional
  bidirectional_sent true s a = ground arith
  bidirectional_sent false s a = ground arith

  pub texts_sent :
      (stored : ℤ → ℤ) (s : IperfTest D) (a b c d : Option String)
      → let item = λ (x : Option String).
        if is_some x then some (as_read stored (text (or_empty x))) else none in
        get_texts (item a) (item b) (item c) (item d) s
        ≡ some record s {
          title = sent_text_or s.title a;
          extra_data = sent_text_or s.extra_data b;
          congestion = sent_text_or s.congestion c;
          congestion_used = sent_text_or s.congestion_used d;
        }
  unfolding get_texts
  texts_sent stored s a b c d =
      rw
        (
          get_texts,
          text_sent stored s.title a,
          text_sent stored s.extra_data b,
          text_sent stored s.congestion c,
          text_sent stored s.congestion_used d,
        )
        refl

  pub retransmits_sent :
      (s : IperfTest D) (p : Protocol)
      → s.protocol ≡ some p
      → (r : ℤ) × (get_retransmits s ≡ some record s { sender_has_retransmits = r })
  unfolding get_retransmits
  retransmits_sent s p q = elim (Bool-cases (is_sender_side s.mode && eqb_ℤ p.id ptcp)) [
    | inl m ↦ (pos 1, ground arith)
    | inr m ↦ (s.sender_has_retransmits, ground arith)
  ]

  pub protocol_sent :
      (stored : ℤ → ℤ) (version : String) (t s : IperfTest D) (e : ℤ) (p : Protocol)
      → (p ≡ tcp) ⊎ (p ≡ udp)
      → s.protocols ≡ tcp ∷ udp ∷ []
      → s.mode ≡ receiver
      → let get = λ (k : Key). find_field stored k (parameters p.id version t) in
        protocol_or
          (get k_sctp)
          psctp
          (protocol_or (get k_udp) pudp (protocol_or (get k_tcp) ptcp (s, e)))
        ≡ (record s { protocol = some p; sender_has_retransmits = pos 0 }, e)
  unfolding protocol_or parameters as_read
  protocol_sent stored version t s e p (inl h) l m =
      rw (h) (ap (λ r. (r.0, r.1)) (set_protocol_sent s e tcp (inl refl) l m))
  protocol_sent stored version t s e p (inr h) l m =
      rw (h) (ap (λ r. (r.0, r.1)) (set_protocol_sent s e udp (inr refl) l m))
