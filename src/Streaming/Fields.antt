-- ===== src/Streaming/Fields.antt =====
-- src/infertwin/streaming/request_codec.py: the fields of a record, with their types checked.
use infer_twin.Base.{
  ℕ, String, str_eq, Option, none, some, Result, ok, raise, value_error, if◌then◌else◌,
}
use infer_twin.Streaming.Json.{Json, null, integer, real, text, array, Items, Fields, get}

-- `_required_str`: a missing key, another type and the empty text are refused.
abbrev pub required_text : Json → Result String
required_text (text s) = if str_eq s "" then raise value_error else ok s
required_text _ = raise value_error

abbrev pub optional_text : Json → Result (Option String)
optional_text null = ok none
optional_text (text s) = if str_eq s "" then raise value_error else ok (some s)
optional_text _ = raise value_error

abbrev pub required_integer : Json → Result ℕ
required_integer (integer n) = ok n
required_integer _ = raise value_error

abbrev pub optional_integer : Json → Result (Option ℕ)
optional_integer null = ok none
optional_integer (integer n) = ok (some n)
optional_integer _ = raise value_error

abbrev pub number : Json → Result ℕ
number (integer n) = ok n
number (real n) = ok n
number _ = raise value_error

abbrev pub items_of : Json → Result Items
items_of (array items) = ok items
items_of _ = raise value_error

unfoldable pub required_str : Fields → String → Result String
required_str record_fields key = required_text (get record_fields key)

unfoldable pub optional_str : Fields → String → Result (Option String)
optional_str record_fields key = optional_text (get record_fields key)

unfoldable pub required_int : Fields → String → Result ℕ
required_int record_fields key = required_integer (get record_fields key)

unfoldable pub optional_int : Fields → String → Result (Option ℕ)
optional_int record_fields key = optional_integer (get record_fields key)

unfoldable pub required_number : Fields → String → Result ℕ
required_number record_fields key = number (get record_fields key)

unfoldable pub required_list : Fields → String → Result Items
required_list record_fields key = items_of (get record_fields key)
