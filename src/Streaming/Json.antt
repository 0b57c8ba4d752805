-- ===== src/Streaming/Json.antt =====
-- What `json.loads` returns, as far as src/infertwin/streaming/request_codec.py looks at it: numbers
-- are not negative, and a whole number stands for a floating point one.
use infer_twin.Base.{ℕ, String, Bool, str_eq, if◌then◌else◌}

mutual
  pub data Json : Type 0 where
    null : Json
    flag : Bool → Json
    integer : ℕ → Json
    real : ℕ → Json
    text : String → Json
    array : Items → Json
    object : Fields → Json

  pub data Items : Type 0 where
    no_items : Items
    item : Json → Items → Items

  pub data Fields : Type 0 where
    no_fields : Fields
    field : String → Json → Fields → Fields

-- `record.get(key)`
unfoldable pub get : Fields → String → Json
get no_fields key = null
get (field k value fields) key = if str_eq k key then value else get fields key
