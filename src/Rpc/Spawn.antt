-- ===== src/Rpc/Spawn.antt =====
-- The payloads of `spawn`, `exec` and the waits (src/daemon/server.ts).
use opencode_pty.Prelude.{
  ℕ, String, str_eq, Bool, true, false, not, ◌||◌, Option, none, some, List, [], ◌∷◌, length, any,
  ltb, ◌==◌, bool_eq, get_or_default, if◌then◌else◌,
}
use opencode_pty.Rpc.Result.{Result, ok, err, FailureCode, ◌>>=◌, ◌>>◌, throw_unless}
use opencode_pty.Rpc.Payload.{
  Json, Items, Fields, get_field, object_payload, only_fields, required_string, optional_string,
  optional_nonnegative_integer, optional_boolean, utf16_length, max_string_length,
}
use opencode_pty.Rpc.Numbers.{optional_bounded_integer}
use opencode_pty.Rpc.Body.{max_request_bytes}
use opencode_pty.Supervisor.Waits.{WaitCondition}
use opencode_pty.Session.{SessionLifecycle}
use opencode_pty.Approvals.Intent.{max_command_length}

abbrev max_arguments : ℕ
max_arguments = 256

abbrev max_environment_entries : ℕ
max_environment_entries = 128

pub record SpawnOptions : Type 0 where
  pub command : String
  pub args : Option (List String)
  pub description : Option String
  pub workdir : Option String
  pub env : Option (List (String × String))
  pub title : Option String
  pub parent_session_id : String
  pub parent_agent : Option String
  pub timeout_seconds : Option ℕ
  pub name : Option String
  pub idempotency_key : Option String
  pub inherit_env : Option Bool
  pub lifecycle : Option SessionLifecycle

abbrev prepend {ℓ} : {A : Type ℓ} → A → Option (List A) → Option (List A)
prepend a none = none
prepend a (some rest) = some (a ∷ rest)

-- The elements of an array, if all are texts.
unfoldable pub texts : Items → Option (List String)
texts Items.nil = some []
texts (Items.cons (Json.text value) rest) = prepend value (texts rest)
texts (Items.cons _ rest) = none

-- The entries of an object, if all values are texts.
unfoldable pub text_entries : Fields → Option (List (String × String))
text_entries Fields.end = some []
text_entries (Fields.field key (Json.text value) rest) = prepend (key, value) (text_entries rest)
text_entries (Fields.field key _ rest) = none

abbrev exceeds_length : String → Bool
exceeds_length value = ltb max_string_length (utf16_length value)

abbrev too_large : String × String → Bool
too_large entry = ltb 256 (utf16_length entry.0) || exceeds_length entry.1

abbrev valid_args : Option (List String) → Result (Option (List String))
valid_args none = err FailureCode.validation
valid_args (some args) =
    if ltb max_arguments (length args) || any exceeds_length args
    then err FailureCode.validation
    else ok (some args)

unfoldable pub read_args : Option Json → Result (Option (List String))
unfolding texts
read_args none = ok none
read_args (some (Json.array items)) = valid_args (texts items)
read_args (some _) = err FailureCode.validation

abbrev valid_env : Option (List (String × String)) → Result (Option (List (String × String)))
valid_env none = err FailureCode.validation
valid_env (some env) =
    if ltb max_environment_entries (length env) || any too_large env
    then err FailureCode.validation
    else ok (some env)

unfoldable pub read_env : Option Json → Result (Option (List (String × String)))
unfolding text_entries
read_env none = ok none
read_env (some (Json.object fields)) = valid_env (text_entries fields)
read_env (some _) = err FailureCode.validation

abbrev not_zero : Option ℕ → Bool
not_zero none = true
not_zero (some n) = not (n == 0)

abbrev read_lifecycle : Option String → Result (Option SessionLifecycle)
read_lifecycle none = ok none
read_lifecycle (some value) =
    if str_eq value "conversation"
    then ok (some SessionLifecycle.conversation)
    else if str_eq value "persistent"
    then ok (some SessionLifecycle.persistent)
    else err FailureCode.validation

abbrev spawn_fields : List String
spawn_fields =
    "command" ∷ "args" ∷ "description" ∷ "workdir" ∷ "env" ∷ "inheritEnv" ∷ "lifecycle" ∷ "title"
    ∷ "parentSessionId" ∷ "parentAgent" ∷ "timeoutSeconds" ∷ "name" ∷ "idempotencyKey" ∷ []

unfoldable pub spawn_payload : Option Json → Result SpawnOptions
unfolding read_args read_env
spawn_payload payload = do
  value ← object_payload payload
  only_fields value spawn_fields
  args ← read_args (get_field value "args")
  env ← read_env (get_field value "env")
  timeout_seconds ← optional_nonnegative_integer value "timeoutSeconds"
  throw_unless FailureCode.validation (not_zero timeout_seconds)
  inherit_env ← optional_boolean value "inheritEnv"
  lifecycle_text ← optional_string value "lifecycle"
  lifecycle ← read_lifecycle lifecycle_text
  command ← required_string value "command"
  throw_unless FailureCode.validation (not (ltb max_command_length (utf16_length command)))
  description ← optional_string value "description"
  workdir ← optional_string value "workdir"
  title ← optional_string value "title"
  parent_session_id ← optional_string value "parentSessionId"
  parent_agent ← optional_string value "parentAgent"
  name ← optional_string value "name"
  idempotency_key ← optional_string value "idempotencyKey"
  ok (record {
    command = command;
    args = args;
    description = description;
    workdir = workdir;
    env = env;
    title = title;
    parent_session_id = get_or_default parent_session_id "";
    parent_agent = parent_agent;
    timeout_seconds = timeout_seconds;
    name = name;
    idempotency_key = idempotency_key;
    inherit_env = inherit_env;
    lifecycle = lifecycle;
  })

pub record ExecOptions : Type 0 where
  pub spawn : SpawnOptions
  pub max_output_bytes : Option ℕ

-- `const { [key]: ignored, ...rest } = value`
unfoldable pub without_field : String → Fields → Fields
without_field key Fields.end = Fields.end
without_field key (Fields.field name value rest) =
    let others = without_field key rest in
    if str_eq name key then others else Fields.field name value others

abbrev exec_fields : List String
exec_fields =
    "command" ∷ "args" ∷ "description" ∷ "workdir" ∷ "env" ∷ "inheritEnv" ∷ "lifecycle" ∷ "title"
    ∷ "parentSessionId" ∷ "parentAgent" ∷ "timeoutSeconds" ∷ "maxOutputBytes" ∷ []

unfoldable pub exec_payload : Option Json → Result ExecOptions
unfolding without_field
exec_payload payload = do
  value ← object_payload payload
  only_fields value exec_fields
  spawn ← spawn_payload (some (Json.object (without_field "maxOutputBytes" value)))
  max_output_bytes ← optional_bounded_integer value "maxOutputBytes" max_request_bytes
  throw_unless FailureCode.validation (not_zero max_output_bytes)
  ok (record { spawn = spawn; max_output_bytes = max_output_bytes })

-- `Boolean(text)` of an optional text.
abbrev is_given : Option String → Bool
is_given none = false
is_given (some value) = not (str_eq value "")

abbrev output_condition : Fields → Result WaitCondition
output_condition condition = do
  only_fields condition ("kind" ∷ "literal" ∷ "regex" ∷ [])
  literal ← optional_string condition "literal"
  regex ← optional_string condition "regex"
  throw_unless FailureCode.validation (not (bool_eq (is_given literal) (is_given regex)))
  ok (WaitCondition.output (record { literal = literal; regex = regex; after_sequence = none }))

abbrev exit_condition : Fields → Result WaitCondition
exit_condition condition = only_fields condition ("kind" ∷ []) >> ok WaitCondition.exit

unfoldable pub wait_condition : Option Json → Result WaitCondition
wait_condition value = do
  condition ← object_payload value
  kind ← required_string condition "kind"
  elim (str_eq kind "exit") [
    | true ↦ exit_condition condition
    | false ↦
        throw_unless FailureCode.validation (str_eq kind "output") >> output_condition condition
  ]
