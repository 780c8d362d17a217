-- ===== src/Dscp.antt =====
-- iperfwrapperlib/iperf/src/dscp.c: names of the type of service.
pub mod Names
pub mod Tests
use mm_wave_tracker.Prelude.{
  ℕ, ◌+◌, ◌-◌, ◌/◌, ◌%◌, Bool, true, false, not, ◌||◌, List, [], ◌∷◌, Option, none, some, ltb, ◌==◌,
  if◌then◌else◌,
}
use mm_wave_tracker.Prelude.Int.{ℤ, pos, negsuc, ltb_ℤ, pos_part}
use mm_wave_tracker.Prelude.Strtol.{codes, strtol, same_text}
use Prim.Native.String.{String}

-- The table `ipqos` without its last row.
abbrev pub ipqos : List (String × ℕ)
ipqos =
    ("af11", 0x28)
    ∷ ("af12", 0x30)
    ∷ ("af13", 0x38)
    ∷ ("af21", 0x48)
    ∷ ("af22", 0x50)
    ∷ ("af23", 0x58)
    ∷ ("af31", 0x68)
    ∷ ("af32", 0x70)
    ∷ ("af33", 0x78)
    ∷ ("af41", 0x88)
    ∷ ("af42", 0x90)
    ∷ ("af43", 0x98)
    ∷ ("cs0", 0x00)
    ∷ ("cs1", 0x20)
    ∷ ("cs2", 0x40)
    ∷ ("cs3", 0x60)
    ∷ ("cs4", 0x80)
    ∷ ("cs5", 0xa0)
    ∷ ("cs6", 0xc0)
    ∷ ("cs7", 0xe0)
    ∷ ("ef", 0xb8)
    ∷ ("lowdelay", 0x10)
    ∷ ("throughput", 0x08)
    ∷ ("reliability", 0x04)
    ∷ []

unfoldable pub is_empty : List ℕ → Bool
is_empty [] = true
is_empty (c ∷ s) = false

-- The integer that a text stands for, if it is none of the names.
unfoldable pub parse_number : List ℕ → ℤ
parse_number cp =
    let n = strtol cp in
    if is_empty cp || not (is_empty n.rest) || ltb_ℤ n.value (pos 0) || ltb_ℤ (pos 255) n.value
    then negsuc 0
    else n.value

unfoldable pub find_name : List (String × ℕ) → List ℕ → Option ℕ
find_name [] cp = none
find_name ((name, value) ∷ rows) cp =
    if same_text cp (codes name) then some value else find_name rows cp

-- `parse_qos`; NULL is `none`.
unfoldable pub parse_qos : Option (List ℕ) → ℤ
parse_qos none = negsuc 0
parse_qos (some cp) = elim (find_name ipqos cp) [ some value ↦ pos value | none ↦ parse_number cp ]

unfoldable pub find_value : List (String × ℕ) → ℕ → Option String
find_value [] v = none
find_value ((name, value) ∷ rows) v = if value == v then some name else find_value rows v

abbrev hex_digit : ℕ → ℕ
hex_digit d = if ltb d 10 then d + b'0' else d - 10 + b'a'

-- What is out of the range is taken for 0.
unfoldable pub shown : ℤ → ℕ
shown iptos = if ltb_ℤ iptos (pos 0) || ltb_ℤ (pos 64) iptos then 0 else pos_part iptos

-- `iptos2str`. The two digits are enough for what is left of the range.
unfoldable pub iptos2str : ℤ → List ℕ
iptos2str iptos =
    let v = shown iptos in
    elim (find_value ipqos v) [
      | some name ↦ codes name
      | none ↦ b'0' ∷ b'x' ∷ hex_digit (v / 16) ∷ hex_digit (v % 16) ∷ []
    ]
