-- ===== src/Audit/Json.antt =====
-- The values of audit payloads, and Python's `json.dumps` with sorted keys and without spaces, which
-- audit/events.py and state/sqlite.py write events with.
use astral_project.Base.{
  ℕ, zero, suc, ◌+◌, ◌-◌, ◌/◌, ◌%◌, Bool, true, false, ◌&&◌, ◌||◌, Option, none, some, List, [],
  ◌∷◌, ◌++◌, map, ltb, leb, if◌then◌else◌, ◌==◌, nat_eq, string_eq, list_eq, option_eq, pair_eq,
  Text, codes, join, ℤ, pos, negsuc, int_eq,
}
use astral_project.Base.Order.{sort_by, text_leb}

-- A value that a payload may hold. A float is kept as the text that `repr` gives it; `not_json` is a
-- value of any other class.
mutual
  pub data Json : Type 0 where
    json_null : Json
    json_bool : Bool → Json
    json_int : ℤ → Json
    json_float : Text → Json
    json_text : Text → Json
    json_list : JsonItems → Json
    json_object : JsonFields → Json
    not_json : Json

  pub data JsonItems : Type 0 where
    no_items : JsonItems
    json_item : Json → JsonItems → JsonItems

  pub data JsonFields : Type 0 where
    no_fields : JsonFields
    json_field : Text → Json → JsonFields → JsonFields

-- `set(value)` of a mapping, as the list of its keys
abbrev pub json_keys : JsonFields → List Text
json_keys no_fields = []
json_keys (json_field key value rest) = key ∷ json_keys rest

-- `value.get(key)`
unfoldable pub json_get : Text → JsonFields → Option Json
json_get key no_fields = none
json_get key (json_field key' value rest) = if key == key' then some value else json_get key rest

-- `value.get(key)` where an absent field and None are told apart by nobody
unfoldable pub json_at : Text → JsonFields → Json
unfolding json_get
json_at key fields = elim (json_get key fields) [ none ↦ json_null | some value ↦ value ]

-- The decimal digits of a number below 10 ^ fuel.
unfoldable pub decimal_digits : ℕ → ℕ → Text
decimal_digits zero n = []
decimal_digits (suc fuel) n =
    let higher = decimal_digits fuel (n / 10) in
    if ltb n 10 then (48 + n) ∷ [] else higher ++ (48 + n % 10) ∷ []

-- `int.__repr__`; a number has fewer digits than its successor counts
unfoldable pub int_repr : ℤ → Text
unfolding decimal_digits
int_repr (pos n) = decimal_digits (suc n) n
int_repr (negsuc n) = b'-' ∷ decimal_digits (suc (suc n)) (suc n)

abbrev hex_digit : ℕ → ℕ
hex_digit n = if ltb n 10 then 48 + n else 87 + n

abbrev unicode_escape : ℕ → Text
unicode_escape c =
    codes "\\u"
    ++ hex_digit (c / 4096 % 16)
      ∷ hex_digit (c / 256 % 16)
      ∷ hex_digit (c / 16 % 16)
      ∷ hex_digit (c % 16)
      ∷ []

-- One character of a JSON text, with `ensure_ascii`.
unfoldable pub json_char : ℕ → Text
json_char c =
    if c == 34 || c == 92
    then 92 ∷ c ∷ []
    else if c == 10
    then codes "\\n"
    else if c == 13
    then codes "\\r"
    else if c == 9
    then codes "\\t"
    else if c == 12
    then codes "\\f"
    else if c == 8
    then codes "\\b"
    else if leb 32 c && leb c 126
    then c ∷ []
    else if ltb c 0x10000
    then unicode_escape c
    else unicode_escape (0xD800 + (c - 0x10000) / 1024)
      ++ unicode_escape (0xDC00 + (c - 0x10000) % 1024)

unfoldable pub json_chars : Text → Text
unfolding json_char
json_chars [] = []
json_chars (c ∷ text) = json_char c ++ json_chars text

-- `json.dumps` of a text
abbrev pub json_string : Text → Text
json_string text = 34 ∷ json_chars text ++ 34 ∷ []

abbrev json_bool_text : Bool → Text
json_bool_text true = codes "true"
json_bool_text false = codes "false"

abbrev key_leb : Text × Text → Text × Text → Bool
key_leb (a, x) (b, y) = text_leb a b

-- `",".join(parts)`
abbrev join_commas : List Text → Text
join_commas parts = join b',' parts

abbrev json_member : Text × Text → Text
json_member (key, value) = json_string key ++ b':' ∷ value

-- `json.dumps(value, separators=(",", ":"), sort_keys=True)`; None where it raises TypeError
unfoldable mutual
  unfolding json_chars int_repr

  pub json_dumps : Json → Option Text
  json_dumps json_null = some (codes "null")
  json_dumps (json_bool b) = some (json_bool_text b)
  json_dumps (json_int n) = some (int_repr n)
  json_dumps (json_float repr) = some repr
  json_dumps (json_text text) = some (json_string text)
  json_dumps (json_list items) = elim (dumps_items items) [
    | none ↦ none
    | some parts ↦ some (b'[' ∷ join_commas parts ++ b']' ∷ [])
  ]
  json_dumps (json_object fields) = elim (dumps_fields fields) [
    | none ↦ none
    | some members ↦
        some (b'{' ∷ join_commas (map json_member (sort_by key_leb members)) ++ b'}' ∷ [])
  ]
  json_dumps not_json = none

  pub dumps_items : JsonItems → Option (List Text)
  dumps_items no_items = some []
  dumps_items (json_item value rest) = elim (json_dumps value) [
    | none ↦ none
    | some part ↦ elim (dumps_items rest) [ none ↦ none | some parts ↦ some (part ∷ parts) ]
  ]

  pub dumps_fields : JsonFields → Option (List (Text × Text))
  dumps_fields no_fields = some []
  dumps_fields (json_field key value rest) = elim (json_dumps value) [
    | none ↦ none
    | some part ↦ elim (dumps_fields rest) [
      | none ↦ none
      | some members ↦ some ((key, part) ∷ members)
    ]
  ]
