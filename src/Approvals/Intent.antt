-- ===== src/Approvals/Intent.antt =====
-- What a request asks approval for: `approvalPayload`, `approvalIntent`, `approvalText` and `approvalUiLease` of
-- src/daemon/server.ts. The Unicode normal form, the canonical path of an existing directory and
-- the hash of an intent belong to the runtime, and are a `Host`.
use opencode_pty.Prelude.{ℕ, String, ◌||◌, Option, none, some, List, ltb, if◌then◌else◌, is_some}
use opencode_pty.Rpc.Result.{Result, ok, err, FailureCode, ◌>>=◌, ◌>>◌}
use opencode_pty.Rpc.Payload.{
  Json, Fields, object_payload, only_fields, get_field, required_string,
  optional_nonnegative_integer, utf16_length, has_nul, max_string_length,
}

pub record Intent : Type 0 where
  pub command : String
  pub reason : Option String
  pub capability : String
  pub workdir : String

pub record Host : Type 0 where
  pub nfc : String → String
  pub real_path : String → Option String
  pub hash : Intent → String

abbrev pub max_command_length : ℕ
max_command_length = 4096

abbrev checked_text : ℕ → String → Result String
checked_text maximum value =
    if ltb maximum (utf16_length value) || has_nul value
    then err FailureCode.validation
    else ok value

unfoldable pub approval_text : Host → Fields → String → ℕ → Result String
approval_text host payload key maximum = do
  value ← required_string payload key
  checked_text maximum (host.nfc value)

-- `approvalText` with `optional`.
unfoldable pub approval_text_optional : Host → Fields → String → ℕ → Result (Option String)
unfolding approval_text
approval_text_optional host payload key maximum =
    if is_some (get_field payload key)
    then (approval_text host payload key maximum >>= λ value. ok (some value))
    else ok none

abbrev existing : Option String → Result String
existing none = err FailureCode.validation
existing (some path) = ok path

unfoldable pub approval_intent : Host → Fields → Result Intent
unfolding approval_text approval_text_optional
approval_intent host payload = do
  command ← approval_text host payload "command" max_command_length
  capability ← approval_text host payload "capability" 1024
  directory ← approval_text host payload "workdir" max_string_length
  workdir ← existing (host.real_path directory)
  reason ← approval_text_optional host payload "reason" max_string_length
  ok (record { command = command; reason = reason; capability = capability; workdir = workdir })

abbrev lease_in_range : Option ℕ → Result (Option ℕ)
lease_in_range none = ok none
lease_in_range (some seconds) =
    if ltb seconds 2 || ltb 5 seconds then err FailureCode.validation else ok (some seconds)

-- `approvalPayload`
unfoldable pub approval_payload : Option Json → List String → Result Fields
approval_payload payload fields = do
  value ← object_payload payload
  only_fields value fields
  ok value

abbrev pub id_of : Fields → Result String
id_of value = required_string value "id"

unfoldable pub approval_ui_lease : Fields → Result (Option ℕ)
approval_ui_lease payload = do
  seconds ← optional_nonnegative_integer payload "uiLeaseSeconds"
  lease_in_range seconds
