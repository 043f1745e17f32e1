-- ===== src/Rpc/Body.antt =====
-- `requestBody` of `DaemonServer` (src/daemon/server.ts). The text of a body is what `TextDecoder`
-- makes of its bytes, piece by piece; the model answers with the bytes.
use Prim.Native.Char.{Char, code}
use Prim.Native.Nat.{◌*◌}
use opencode_pty.Prelude.{
  ℕ, ◌+◌, ◌-◌, String, Bool, true, false, ◌&&◌, ◌||◌, not, Option, none, some, List, [], ◌∷◌, ◌++◌,
  length, ltb, leb, if◌then◌else◌,
}
use opencode_pty.Rpc.Result.{Result, ok, err, FailureCode, ◌>>◌, throw_unless}

abbrev pub max_request_bytes : ℕ
max_request_bytes = 1024 * 1024

abbrev is_digit : Char → Bool
is_digit c = leb 48 (code c) && leb (code c) 57

unfoldable pub all_digits : String → Bool
all_digits String.[] = true
all_digits (String.◌∷◌ c s) = is_digit c && all_digits s

-- `/^\d+$/.test(text)`
abbrev pub is_decimal : String → Bool
is_decimal String.[] = false
is_decimal (String.◌∷◌ c s) = all_digits (String.◌∷◌ c s)

unfoldable pub number_from : ℕ → String → ℕ
number_from n String.[] = n
number_from n (String.◌∷◌ c s) = number_from (n * 10 + (code c - 48)) s

-- An absent or empty header is not looked at.
unfoldable pub length_accepted : Option String → Bool
length_accepted none = true
length_accepted (some String.[]) = true
length_accepted (some (String.◌∷◌ c s)) =
    not
      (not (is_decimal (String.◌∷◌ c s)) || ltb max_request_bytes (number_from 0 (String.◌∷◌ c s)))

-- The reads of a body: each gives the next bytes, or none where `value` is not set, until `done`.
abbrev pub BodyReads : Type 0
BodyReads = List (Option (List ℕ))

-- The loop, with the count and the bytes so far.
unfoldable pub read_body : BodyReads → ℕ → List ℕ → Result (List ℕ)
read_body [] bytes body = ok body
read_body (none ∷ reads) bytes body = read_body reads bytes body
read_body (some value ∷ reads) bytes body =
    let rest = read_body reads (bytes + length value) (body ++ value) in
    if ltb max_request_bytes (bytes + length value) then err FailureCode.validation else rest

abbrev pub body_of : Option BodyReads → Result (List ℕ)
body_of none = ok []
body_of (some reads) = read_body reads 0 []

unfoldable pub request_body : Option String → Option BodyReads → Result (List ℕ)
request_body content_length body =
    throw_unless FailureCode.validation (length_accepted content_length) >> body_of body
