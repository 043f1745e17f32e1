-- ===== src/Rpc/Handle.antt =====
-- `handle` of `DaemonServer` and `classifyRpcFailure` (src/daemon/server.ts).
use Prim.Native.Char.{Char, code}
use Prim.Native.String.{◌++◌ as str_append}
use opencode_pty.Prelude.{
  ℕ, String, str_eq, Bool, true, false, not, ◌&&◌, ◌||◌, Option, none, some, List, leb, ltb, ◌==◌,
  if◌then◌else◌,
}
use opencode_pty.Rpc.Result.{Result, ok, err, FailureCode}
use opencode_pty.Rpc.Payload.{Json, Fields, get_field, utf16_length}
use opencode_pty.Rpc.Body.{BodyReads, request_body}
use opencode_pty.Rpc.Owner.{Server}
use opencode_pty.Rpc.InputRate.{InputUsage}
use opencode_pty.Rpc.Calls.{RpcCall}
use opencode_pty.Rpc.Dispatch.{RpcRequest, dispatch}
use opencode_pty.Registry.State.{Registry}
use opencode_pty.Journal.Lines.{text_includes}

-- What a handler throws: its class, its `code` where that is a text, and its message.
pub data DaemonErrorCode : Type 0 where
  authorization limit not_found session_closed : DaemonErrorCode

pub data ErrorClass : Type 0 where
  validation_error process_error other_error not_an_error : ErrorClass
  daemon_error : DaemonErrorCode → ErrorClass

pub record Thrown : Type 0 where
  pub class_of : ErrorClass
  pub error_code : Option String
  pub message : String

abbrev is_capital : Char → Bool
is_capital c = leb 65 (code c) && leb (code c) 90

unfoldable pub all_capital : String → Bool
all_capital String.[] = true
all_capital (String.◌∷◌ c s) = is_capital c && all_capital s

-- `/^E[A-Z]+$/`
abbrev is_errno : Option String → Bool
is_errno (some (String.◌∷◌ e (String.◌∷◌ c s))) = (code e == 69) && (is_capital c && all_capital s)
is_errno _ = false

abbrev is_error : ErrorClass → Bool
is_error ErrorClass.not_an_error = false
is_error _ = true

abbrev is_storage_error : Thrown → Bool
is_storage_error thrown = is_error thrown.class_of && is_errno thrown.error_code

abbrev is_process_error : ErrorClass → Bool
is_process_error ErrorClass.process_error = true
is_process_error _ = false

abbrev by_message : Thrown → FailureCode
by_message thrown =
    if is_storage_error thrown
    then FailureCode.storage
    else if text_includes thrown.message "not authorized"
    then FailureCode.authorization
    else if text_includes thrown.message "limit"
    then FailureCode.limit
    else if is_process_error thrown.class_of
    then FailureCode.process
    else if text_includes thrown.message "not found"
    then FailureCode.not_found
    else if text_includes thrown.message "closed"
    then FailureCode.session_closed
    else FailureCode.internal

abbrev failure_code : DaemonErrorCode → FailureCode
failure_code DaemonErrorCode.authorization = FailureCode.authorization
failure_code DaemonErrorCode.limit = FailureCode.limit
failure_code DaemonErrorCode.not_found = FailureCode.not_found
failure_code DaemonErrorCode.session_closed = FailureCode.session_closed

abbrev by_class : ErrorClass → FailureCode → FailureCode
by_class ErrorClass.validation_error other = FailureCode.validation
by_class (ErrorClass.daemon_error failed) other = failure_code failed
by_class _ other = other

unfoldable pub classify_rpc_failure : Thrown → FailureCode
classify_rpc_failure thrown = by_class thrown.class_of (by_message thrown)

-- The answer before the call is made, or the call with the request's id.
pub data Response : Type 0 where
  not_found_page : Response
  failure : (id : String) → FailureCode → (status : ℕ) → Response
  called : (id : String) → RpcCall → Response

-- `content_length` and `authorization` are headers; `body` is what the body's reader gives.
pub record HttpRequest : Type 0 where
  pub method : String
  pub path : String
  pub authorization : Option String
  pub content_length : Option String
  pub body : Option BodyReads

abbrev pub daemon_protocol_version : ℕ
daemon_protocol_version = 8

abbrev pub bearer : String → String
bearer token = str_append "Bearer " token

abbrev pub is_authorized : String → Option String → Bool
is_authorized token none = false
is_authorized token (some given) = str_eq given (bearer token)

abbrev pub is_rpc : HttpRequest → Bool
is_rpc request = str_eq request.method "POST" && str_eq request.path "/rpc"

-- A text that is not empty and at most so long.
abbrev pub short_text : ℕ → Option Json → Option String
short_text maximum (some (Json.text value)) =
    if str_eq value "" || ltb maximum (utf16_length value) then none else some value
short_text maximum _ = none

-- `typeof version === 'number'`, and whether it is the daemon's.
abbrev pub version_matches : Option Json → Option Bool
version_matches (some (Json.natural n)) = some (n == daemon_protocol_version)
version_matches (some Json.other_number) = some false
version_matches _ = none

abbrev pub rpc_request_of : Fields → String → RpcRequest
rpc_request_of fields operation = record {
  operation = operation;
  payload = get_field fields "payload";
  owner = get_field fields "owner";
  approval_capability = get_field fields "approvalCapability";
}

abbrev pub status_of : FailureCode → ℕ
status_of FailureCode.not_found = 404
status_of _ = 400

abbrev pub answer_of : String → InputUsage × Result RpcCall → InputUsage × Response
answer_of id (usages, err failed) = (usages, Response.failure id failed (status_of failed))
answer_of id (usages, ok call) = (usages, Response.called id call)

abbrev pub with_version :
    Server
    → Registry
    → InputUsage
    → ℕ
    → Fields
    → Option String
    → Option Bool
    → Option String
    → InputUsage × Response
with_version server registry usages now fields (some id) (some true) (some operation) =
    answer_of id (dispatch server registry usages now (rpc_request_of fields operation))
with_version server registry usages now fields (some id) (some false) (some operation) =
    (usages, Response.failure id FailureCode.protocol 400)
with_version server registry usages now fields _ _ _ =
    (usages, Response.failure "" FailureCode.validation 400)

-- The checks of the parsed body; `none` is a body that is not JSON.
unfoldable pub handle_json :
    Server → Registry → InputUsage → ℕ → Option Json → InputUsage × Response
handle_json server registry usages now (some (Json.object fields)) =
    with_version server registry usages now fields (short_text 128 (get_field fields "id"))
      (version_matches (get_field fields "version")) (short_text 64 (get_field fields "operation"))
handle_json server registry usages now _ = (usages, Response.failure "" FailureCode.validation 400)

abbrev pub handle_body :
    (List ℕ → Option Json)
    → Server
    → Registry
    → InputUsage
    → ℕ
    → Result (List ℕ)
    → InputUsage × Response
handle_body parse server registry usages now (err failed) =
    (usages, Response.failure "" FailureCode.validation 413)
handle_body parse server registry usages now (ok bytes) =
    handle_json server registry usages now (parse bytes)

-- `parse` is `JSON.parse` of the decoded bytes.
unfoldable pub handle :
    (List ℕ → Option Json)
    → String
    → Server
    → Registry
    → InputUsage
    → ℕ
    → HttpRequest
    → InputUsage × Response
unfolding handle_json
handle parse token server registry usages now request =
    if not (is_rpc request)
    then (usages, Response.not_found_page)
    else if not (is_authorized token request.authorization)
    then (usages, Response.failure "" FailureCode.authentication 401)
    else handle_body parse server registry usages now
        (request_body request.content_length request.body)
