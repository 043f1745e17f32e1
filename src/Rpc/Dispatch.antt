-- ===== src/Rpc/Dispatch.antt =====
-- `dispatch` of `DaemonServer` (src/daemon/server.ts): the checks of a request and the call that
-- it comes to. What the supervisor and the approval handlers answer is not part of it.
use opencode_pty.Prelude.{
  ℕ, String, str_eq, false, Option, none, some, List, [], ◌∷◌, get_or_default, if◌then◌else◌,
}
use opencode_pty.Rpc.Result.{Result, ok, err, FailureCode, ◌>>=◌, ◌>>◌, throw_unless}
use opencode_pty.Rpc.Payload.{
  Json, Fields, get_field, object_payload, only_fields, required_string, optional_boolean,
  optional_nonnegative_integer, required_positive_integer,
}
use opencode_pty.Rpc.Numbers.{required_bounded_integer, optional_sequence}
use opencode_pty.Rpc.Owner.{Server, OwnerContext, request_owner, approval_owner, authorize}
use opencode_pty.Rpc.InputRate.{InputUsage, use_input}
use opencode_pty.Rpc.Spawn.{spawn_payload, exec_payload, wait_condition}
use opencode_pty.Rpc.Calls.{RpcCall, ReadOptions, spawn_call, exec_call, exec_start_call}
use opencode_pty.Registry.Maps.{has}
use opencode_pty.Registry.State.{Registry}

pub record RpcRequest : Type 0 where
  pub operation : String
  pub payload : Option Json
  pub owner : Option Json
  pub approval_capability : Option Json

-- The payload, with the fields allowed, and its `id`, which the owner may use.
unfoldable pub owned_id :
    Registry → OwnerContext → Option Json → List String → Result (Fields × String)
owned_id registry owner payload names = do
  value ← object_payload payload
  only_fields value names
  id ← required_string value "id"
  authorize registry owner id
  ok (value, id)

-- `get`, `rawOutput`, `execOutput`, `stopSession` and `cleanup`.
abbrev pub id_call : Registry → OwnerContext → Option Json → (String → RpcCall) → Result RpcCall
id_call registry owner payload call = do
  (_, id) ← owned_id registry owner payload ("id" ∷ [])
  ok (call id)

unfoldable pub exec_wait_call : Registry → OwnerContext → Option Json → Result RpcCall
unfolding owned_id
exec_wait_call registry owner payload = do
  (value, id) ← owned_id registry owner payload ("id" ∷ "timeoutSeconds" ∷ [])
  timeout_seconds ← required_positive_integer value "timeoutSeconds"
  ok (RpcCall.exec_wait id timeout_seconds)

unfoldable pub resize_call : Registry → OwnerContext → Option Json → Result RpcCall
unfolding owned_id
resize_call registry owner payload = do
  (value, id) ← owned_id registry owner payload ("id" ∷ "cols" ∷ "rows" ∷ [])
  cols ← required_bounded_integer value "cols" 1000
  rows ← required_bounded_integer value "rows" 1000
  ok (RpcCall.resize id cols rows)

unfoldable pub wait_call : Registry → OwnerContext → Option Json → Result RpcCall
unfolding owned_id
wait_call registry owner payload = do
  (value, id) ← owned_id registry owner payload ("id" ∷ "condition" ∷ "timeoutSeconds" ∷ [])
  condition ← wait_condition (get_field value "condition")
  timeout_seconds ← required_positive_integer value "timeoutSeconds"
  ok (RpcCall.wait id condition timeout_seconds)

unfoldable pub read_options : Fields → Result ReadOptions
read_options value = do
  offset ← optional_nonnegative_integer value "offset"
  limit ← optional_nonnegative_integer value "limit"
  sequence ← optional_sequence value "sequence"
  ok (record { offset = offset; limit = limit; sequence = sequence })

unfoldable pub read_call : Registry → OwnerContext → Option Json → Result RpcCall
unfolding owned_id read_options
read_call registry owner payload = do
  (value, id) ← owned_id registry owner payload ("id" ∷ "offset" ∷ "limit" ∷ "sequence" ∷ [])
  options ← read_options value
  ok (RpcCall.read id options)

abbrev pub search_fields : List String
search_fields = "id" ∷ "pattern" ∷ "ignoreCase" ∷ "offset" ∷ "limit" ∷ "sequence" ∷ []

unfoldable pub search_call : Registry → OwnerContext → Option Json → Result RpcCall
unfolding owned_id read_options
search_call registry owner payload = do
  (value, id) ← owned_id registry owner payload search_fields
  pattern_text ← required_string value "pattern"
  ignore_case ← optional_boolean value "ignoreCase"
  options ← read_options value
  ok (RpcCall.search id pattern_text (get_or_default ignore_case false) options)

unfoldable pub cleanup_by_parent_call : OwnerContext → Option Json → Result RpcCall
cleanup_by_parent_call owner payload = do
  value ← object_payload payload
  only_fields value ("parentSessionId" ∷ [])
  parent_session_id ← required_string value "parentSessionId"
  throw_unless FailureCode.authorization (str_eq parent_session_id owner.parent_session_id)
  ok (RpcCall.cleanup_by_parent_session parent_session_id owner.project_directory owner.capability)

abbrev pub approval_operations : List String
approval_operations =
    "approvalCreate" ∷ "approvalPrepare" ∷ "approvalClaim" ∷ "approvalDecide" ∷ "approvalWait"
    ∷ "approvalConsume" ∷ "approvalNativeApprove" ∷ "approvalListGrants" ∷ "approvalListRequests"
    ∷ "approvalRevokeGrant" ∷ "approvalCancel" ∷ "approvalCleanupByParentSession" ∷ []

unfoldable pub approval_call : Server → OwnerContext → RpcRequest → Result RpcCall
approval_call server owner request = do
  throw_unless FailureCode.validation (has approval_operations request.operation)
  _ ← approval_owner server request.owner request.approval_capability
  ok (RpcCall.approval request.operation owner request.payload)

-- The operations that send no input.
unfoldable pub session_call : Server → Registry → OwnerContext → RpcRequest → Result RpcCall
unfolding exec_wait_call resize_call wait_call read_call search_call cleanup_by_parent_call
    approval_call
session_call server registry owner request =
    let payload : Option Json = request.payload in
    if str_eq request.operation "spawn"
    then spawn_payload payload >>= spawn_call server owner
    else if str_eq request.operation "exec"
    then exec_payload payload >>= exec_call server owner
    else if str_eq request.operation "execStart"
    then exec_payload payload >>= exec_start_call server owner
    else if str_eq request.operation "execWait"
    then exec_wait_call registry owner payload
    else if str_eq request.operation "resize"
    then resize_call registry owner payload
    else if str_eq request.operation "wait"
    then wait_call registry owner payload
    else if str_eq request.operation "read"
    then read_call registry owner payload
    else if str_eq request.operation "search"
    then search_call registry owner payload
    else if str_eq request.operation "list"
    then ok (RpcCall.list owner)
    else if str_eq request.operation "get"
    then id_call registry owner payload RpcCall.get
    else if str_eq request.operation "rawOutput"
    then id_call registry owner payload RpcCall.raw_output
    else if str_eq request.operation "execOutput"
    then id_call registry owner payload RpcCall.exec_output
    else if str_eq request.operation "stop"
    then id_call registry owner payload RpcCall.stop
    else if str_eq request.operation "cleanup"
    then id_call registry owner payload RpcCall.cleanup
    else if str_eq request.operation "cleanupByParentSession"
    then cleanup_by_parent_call owner payload
    else approval_call server owner request

-- What `write` and `sendWait` read before they count their input.
unfoldable pub input_target :
    Registry → OwnerContext → Option Json → List String → Result (Fields × String × String)
input_target registry owner payload names = do
  value ← object_payload payload
  only_fields value names
  id ← required_string value "id"
  input ← required_string value "data"
  authorize registry owner id
  ok (value, id, input)

abbrev pub after_count :
    InputUsage → Result InputUsage → Result RpcCall → InputUsage × Result RpcCall
after_count usages (err code) call = (usages, err code)
after_count usages (ok used) call = (used, call)

abbrev pub counted_call :
    InputUsage
    → OwnerContext
    → ℕ
    → Result (Fields × String × String)
    → (Fields → String → String → Result RpcCall)
    → InputUsage × Result RpcCall
counted_call usages owner now (err code) next = (usages, err code)
counted_call usages owner now (ok (value, id, input)) next =
    after_count usages (use_input usages owner now input) (next value id input)

abbrev pub write_call : Fields → String → String → Result RpcCall
write_call value id input = ok (RpcCall.write id input)

abbrev pub send_wait_call : Fields → String → String → Result RpcCall
send_wait_call value id input = do
  condition ← wait_condition (get_field value "condition")
  timeout_seconds ← required_positive_integer value "timeoutSeconds"
  ok (RpcCall.send_wait id input condition timeout_seconds)

unfoldable pub dispatch_owned :
    Server → Registry → InputUsage → ℕ → OwnerContext → RpcRequest → InputUsage × Result RpcCall
unfolding session_call input_target
dispatch_owned server registry usages now owner request =
    if str_eq request.operation "write"
    then counted_call usages owner now
        (input_target registry owner request.payload ("id" ∷ "data" ∷ [])) write_call
    else if str_eq request.operation "sendWait"
    then counted_call usages owner now
        (input_target registry owner request.payload
          ("id" ∷ "data" ∷ "condition" ∷ "timeoutSeconds" ∷ []))
        send_wait_call
    else (usages, session_call server registry owner request)

abbrev pub with_owner :
    Server
    → Registry
    → InputUsage
    → ℕ
    → Result OwnerContext
    → RpcRequest
    → InputUsage × Result RpcCall
with_owner server registry usages now (err code) request = (usages, err code)
with_owner server registry usages now (ok owner) request =
    if str_eq request.operation "diagnostics"
    then (usages, ok (RpcCall.diagnostics owner))
    else dispatch_owned server registry usages now owner request

-- `request.payload ?? {}`
abbrev pub given_payload : Option Json → Option Json
given_payload none = some (Json.object Fields.end)
given_payload (some Json.null) = some (Json.object Fields.end)
given_payload (some value) = some value

abbrev pub health_call : Option Json → Result RpcCall
health_call payload = do
  value ← object_payload (given_payload payload)
  only_fields value []
  ok RpcCall.health

unfoldable pub dispatch :
    Server → Registry → InputUsage → ℕ → RpcRequest → InputUsage × Result RpcCall
unfolding dispatch_owned request_owner
dispatch server registry usages now request =
    if str_eq request.operation "health"
    then (usages, health_call request.payload)
    else with_owner server registry usages now (request_owner server request.owner) request
