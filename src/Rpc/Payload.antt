-- ===== src/Rpc/Payload.antt =====
-- The payload readers of `DaemonServer` (src/daemon/server.ts). Every refusal is a `validation`
-- error. A JSON number is a natural number, or some other number (negative or not whole).
use Prim.Native.Char.{code}
use opencode_pty.Prelude.{
  ℕ, ◌+◌, String, str_eq, Bool, true, false, ◌&&◌, ◌||◌, Option, none, some, List, [], ◌∷◌, ltb,
  ◌==◌, if◌then◌else◌,
}
use opencode_pty.Rpc.Result.{Result, ok, err, FailureCode, ◌>>=◌, throw_unless}

mutual
  pub data Json : Type 0 where
    null : Json
    boolean : Bool → Json
    natural : ℕ → Json
    other_number : Json
    text : String → Json
    array : Items → Json
    object : Fields → Json

  pub data Items : Type 0 where
    nil : Items
    cons : Json → Items → Items

  pub data Fields : Type 0 where
    end : Fields
    field : String → Json → Fields → Fields

-- `payload[key]`; a parsed object has one field for a key.
unfoldable pub get_field : Fields → String → Option Json
get_field Fields.end key = none
get_field (Fields.field name value rest) key =
    if str_eq name key then some value else get_field rest key

-- The number of UTF-16 code units.
unfoldable pub utf16_length : String → ℕ
utf16_length String.[] = 0
utf16_length (String.◌∷◌ c s) = (if ltb (code c) 0x10000 then 1 else 2) + utf16_length s

-- `value.includes('\0')`
unfoldable pub has_nul : String → Bool
has_nul String.[] = false
has_nul (String.◌∷◌ c s) = (code c == 0) || has_nul s

abbrev pub max_string_length : ℕ
max_string_length = 16384

abbrev pub max_page_size : ℕ
max_page_size = 10000

unfoldable pub object_payload : Option Json → Result Fields
object_payload (some (Json.object fields)) = ok fields
object_payload _ = err FailureCode.validation

unfoldable pub includes : List String → String → Bool
includes [] key = false
includes (name ∷ names) key = str_eq name key || includes names key

-- Every key of the payload is one of the names.
unfoldable pub all_included : List String → Fields → Bool
unfolding includes
all_included names Fields.end = true
all_included names (Fields.field name value rest) = includes names name && all_included names rest

unfoldable pub only_fields : Fields → List String → Result (Unit {0})
unfolding all_included
only_fields payload names = throw_unless FailureCode.validation (all_included names payload)

abbrev string_value : Option Json → Option String
string_value (some (Json.text value)) = some value
string_value _ = none

abbrev valid_required : Option String → Result String
valid_required none = err FailureCode.validation
valid_required (some value) =
    if str_eq value "" || ltb max_string_length (utf16_length value)
    then err FailureCode.validation
    else ok value

unfoldable pub required_string : Fields → String → Result String
required_string payload key = valid_required (string_value (get_field payload key))

abbrev valid_optional : Option Json → Result (Option String)
valid_optional none = ok none
valid_optional (some (Json.text value)) =
    if ltb max_string_length (utf16_length value)
    then err FailureCode.validation
    else ok (some value)
valid_optional (some _) = err FailureCode.validation

unfoldable pub optional_string : Fields → String → Result (Option String)
optional_string payload key = valid_optional (get_field payload key)

abbrev pub nonnegative : Option Json → Result (Option ℕ)
nonnegative none = ok none
nonnegative (some (Json.natural n)) =
    if ltb max_page_size n then err FailureCode.validation else ok (some n)
nonnegative (some _) = err FailureCode.validation

unfoldable pub optional_nonnegative_integer : Fields → String → Result (Option ℕ)
optional_nonnegative_integer payload key = nonnegative (get_field payload key)

abbrev pub positive : Option ℕ → Result ℕ
positive none = err FailureCode.validation
positive (some n) = if n == 0 then err FailureCode.validation else ok n

unfoldable pub required_positive_integer : Fields → String → Result ℕ
unfolding optional_nonnegative_integer
required_positive_integer payload key = do
  value ← optional_nonnegative_integer payload key
  positive value

abbrev optional_bool : Option Json → Result (Option Bool)
optional_bool none = ok none
optional_bool (some (Json.boolean b)) = ok (some b)
optional_bool (some _) = err FailureCode.validation

unfoldable pub optional_boolean : Fields → String → Result (Option Bool)
optional_boolean payload key = optional_bool (get_field payload key)
