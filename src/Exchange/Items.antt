-- ===== src/Exchange/Items.antt =====
-- The interface of cJSON that iperf_api.c uses for parameters: objects of named items.
use mm_wave_tracker.Prelude.{
  ℕ, ◌≤◌, ◌<◌, ◌≡◌, Bool, List, [], ◌∷◌, Option, none, some, ◌==◌, if◌then◌else◌,
}
use mm_wave_tracker.Prelude.Int.{ℤ, pos, negsuc}
use Prim.Native.String.{String}

-- The names of the items. No two are the same when case is ignored, as cJSON does.
pub data Key : Type 0 where
  k_tcp k_udp k_sctp k_omit k_server_affinity k_time k_num k_blockcount k_mss k_nodelay : Key
  k_parallel k_reverse k_bidirectional k_window k_len k_bandwidth k_fqrate k_pacing_timer : Key
  k_burst k_tos k_flowlabel k_title k_extra_data k_congestion k_congestion_used : Key
  k_get_server_output k_udp_counters_64bit k_repeating_payload k_client_version : Key

abbrev pub code : Key → ℕ
code k_tcp = 0
code k_udp = 1
code k_sctp = 2
code k_omit = 3
code k_server_affinity = 4
code k_time = 5
code k_num = 6
code k_blockcount = 7
code k_mss = 8
code k_nodelay = 9
code k_parallel = 10
code k_reverse = 11
code k_bidirectional = 12
code k_window = 13
code k_len = 14
code k_bandwidth = 15
code k_fqrate = 16
code k_pacing_timer = 17
code k_burst = 18
code k_tos = 19
code k_flowlabel = 20
code k_title = 21
code k_extra_data = 22
code k_congestion = 23
code k_congestion_used = 24
code k_get_server_output = 25
code k_udp_counters_64bit = 26
code k_repeating_payload = 27
code k_client_version = 28

pub data Item : Type 0 where
  number : ℤ → Item
  yes : Item
  text : String → Item

-- The field `valueint` of an item, an `int64_t`, and `valuestring`, where `none` is NULL.
unfoldable pub valueint : Item → ℤ
valueint (number n) = n
valueint yes = pos 1
valueint (text s) = pos 0

unfoldable pub valuestring : Item → Option String
valuestring (text s) = some s
valuestring _ = none

-- The whole numbers that a `double` holds without rounding.
abbrev pub IsExact : ℤ → Type 0
IsExact (pos n) = n ≤ 9007199254740992
IsExact (negsuc n) = n < 9007199254740992

-- An item as it is read: a number has been a `double` and is an `int64_t`.
unfoldable pub as_read : (ℤ → ℤ) → Item → Item
as_read stored (number n) = number (stored n)
as_read stored i = i

abbrev pub or_else : Option Item → Option Item → Option Item
or_else none b = b
or_else (some a) b = some a

-- Objects: an item is added behind the others, and looked up from the front. `stored` is what the
-- `valueint` of a number is after its way through a `double`.
pub record Json (J : Type 0) : Type 0 where
  pub create : J
  pub add : J → Key → Item → J
  pub get : J → Key → Option Item
  pub stored : ℤ → ℤ
  pub stored_exact : (n : ℤ) → IsExact n → stored n ≡ n
  pub get-create : (k : Key) → get create k ≡ none
  pub get-add :
      (j : J) (k : Key) (i : Item) (l : Key)
      → get (add j k i) l
        ≡ or_else (get j l) (if code k == code l then some (as_read stored i) else none)

-- An item that is added or not.
pub record Field : Type 0 where
  pub present : Bool
  pub key : Key
  pub item : Item

unfoldable pub add_all : {J : Type 0} → Json J → J → List Field → J
add_all json j [] = j
add_all json j (f ∷ fs) = add_all json (if f.present then json.add j f.key f.item else j) fs
