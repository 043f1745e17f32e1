-- ===== src/Rpc/Dispatches.antt =====
-- `dispatch` and `useInput` of src/daemon/server.ts at concrete requests.
use opencode_pty.Prelude.{ℕ, List, Option, ◌*◌, ◌≤◌, String, none, some, [], ◌∷◌, ◌≡◌, refl, arith}
use opencode_pty.Rpc.Result.{ok, err, FailureCode}
use opencode_pty.Rpc.Payload.{
  Json, Fields, get_field, utf16_length, object_payload, only_fields, required_string,
}
use opencode_pty.Rpc.Owner.{
  Server, OwnerContext, owner_context, all_hexadecimal, capability_of, authorize,
}
use opencode_pty.Rpc.InputRate.{max_input_bytes_per_minute, usage_key, use_input}
use opencode_pty.Rpc.RateBound.{Input, InTimeOrder, written, use_input-Bounded}
use opencode_pty.Rpc.Calls.{RpcCall}
use opencode_pty.Rpc.Dispatch.{RpcRequest, dispatch}
use opencode_pty.Rpc.Body.{request_body, length_accepted, all_digits, number_from, read_body}
use opencode_pty.Rpc.Handle.{HttpRequest, Response, handle, ErrorClass, classify_rpc_failure}
use opencode_pty.Journal.Lines.{text_includes, starts_with}
use opencode_pty.Rpc.Handled.{IsGuarded, handle-IsGuarded}
use opencode_pty.Rpc.Dispatched.{IsAllowed, dispatch-IsAllowed}
use opencode_pty.Registry.State.{Registry, owns, get_record}
use opencode_pty.Registry.Maps.{get}
use opencode_pty.Journal.Bytes.{byte_length}
use opencode_pty.Registry.Examples.{empty_registry}
use opencode_pty.Supervisor.Examples.{session}

abbrev capability : String
capability = "0123456789abcdef0123456789abcdef0123456789abcdef0123456789abcdef"

-- A digest that does not depend on its text, and a directory that is its own real path.
abbrev server : Server
server = record {
  ownership_secret = "secret";
  max_sessions_per_owner = 8;
  digest = λ _. capability;
  real_path = some;
}

abbrev registry : Registry
registry = record empty_registry {
  records =
      record session {
        id = "s1";
        parent_session_id = "chat";
        owner_project_directory = "/project";
        owner_capability_hash = capability;
      }
      ∷ [];
}

abbrev owner_json : Json
owner_json = Json.object (
    Fields.field "parentSessionId" (Json.text "chat") (
      Fields.field "projectDirectory" (Json.text "/project")
        (Fields.field "capability" (Json.text capability) Fields.end)))

abbrev request_of : String → Fields → RpcRequest
request_of operation payload = record {
  operation = operation;
  payload = some (Json.object payload);
  owner = some owner_json;
  approval_capability = none;
}

abbrev id_and : String → Fields → Fields
id_and id rest = Fields.field "id" (Json.text id) rest

abbrev write_request : RpcRequest
write_request = request_of "write" (id_and "s1" (Fields.field "data" (Json.text "ls") Fields.end))

write_test : (dispatch server registry [] 5 write_request).1 ≡ ok (RpcCall.write "s1" "ls")
unfolding dispatch owner_context get_field utf16_length all_hexadecimal capability_of object_payload
    only_fields required_string authorize owns get_record use_input byte_length get
write_test = refl

dispatch-IsAllowed_example : IsAllowed server registry write_request (RpcCall.write "s1" "ls")
dispatch-IsAllowed_example =
    dispatch-IsAllowed server registry [] 5 write_request (RpcCall.write "s1" "ls") write_test

-- A session of somebody else.
stop_test :
    (dispatch server registry [] 5 (request_of "stop" (id_and "s2" Fields.end))).1
    ≡ err FailureCode.authorization
unfolding dispatch owner_context get_field utf16_length all_hexadecimal capability_of object_payload
    only_fields required_string authorize owns get_record
stop_test = refl

abbrev asking : OwnerContext
asking = record {
  parent_session_id = "chat";
  project_directory = "/project";
  capability = capability;
}

abbrev first_input : Input
first_input = record { owner = asking; now = 5; content = "ls" }

abbrev second_input : Input
second_input = record { owner = asking; now = 60010; content = "pwd" }

use_input-Bounded_example :
    written [] (usage_key asking) 5 (first_input ∷ second_input ∷ [])
    ≤ 2 * max_input_bytes_per_minute
use_input-Bounded_example =
    use_input-Bounded [] (usage_key asking) 5 {now = 0} {inputs = first_input ∷ second_input ∷ []}
      (InTimeOrder.at_time (omega arith) (InTimeOrder.at_time (omega arith) InTimeOrder.none_left))

-- The parsed body of the write request.
abbrev envelope : Fields
envelope = Fields.field "id" (Json.text "r1") (
    Fields.field "version" (Json.natural 8) (
      Fields.field "operation" (Json.text "write") (
        Fields.field "payload"
          (Json.object (id_and "s1" (Fields.field "data" (Json.text "ls") Fields.end)))
          (Fields.field "owner" owner_json Fields.end))))

abbrev parse_body : List ℕ → Option Json
parse_body bytes = some (Json.object envelope)

abbrev http_request : HttpRequest
http_request = record {
  method = "POST";
  path = "/rpc";
  authorization = some "Bearer t";
  content_length = some "2";
  body = some (some (123 ∷ []) ∷ some (125 ∷ []) ∷ []);
}

handle_test :
    (handle parse_body "t" server registry [] 5 http_request).1
    ≡ Response.called "r1" (RpcCall.write "s1" "ls")
unfolding dispatch owner_context get_field utf16_length all_hexadecimal capability_of object_payload
    only_fields required_string authorize owns get_record use_input byte_length get handle
    request_body length_accepted all_digits number_from read_body
handle_test = refl

handle-IsGuarded_example :
    IsGuarded parse_body "t" server registry http_request "r1" (RpcCall.write "s1" "ls")
handle-IsGuarded_example =
    handle-IsGuarded parse_body "t" server registry [] 5 http_request "r1" (RpcCall.write "s1" "ls")
      handle_test

-- The error of a pattern that is not safe is reported as a limit, since its message says "limited".
classify_test :
    classify_rpc_failure (record {
      class_of = ErrorClass.other_error;
      error_code = none;
      message = "Regex wait pattern is outside the limited-safe subset.";
    })
    ≡ FailureCode.limit
unfolding classify_rpc_failure text_includes starts_with
classify_test = refl
