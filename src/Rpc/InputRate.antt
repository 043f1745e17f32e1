-- ===== src/Rpc/InputRate.antt =====
-- `useInput` of `DaemonServer` (src/daemon/server.ts): at most `max_input_bytes` in one request,
-- and at most `max_input_bytes_per_minute` of an owner in one window. Times are milliseconds.
use opencode_pty.Prelude.{ℕ, ◌+◌, ◌-◌, ◌*◌, String, Option, none, some, leb, ltb, if◌then◌else◌}
use opencode_pty.Rpc.Result.{Result, ok, err, FailureCode}
use opencode_pty.Rpc.Owner.{OwnerContext}
use opencode_pty.Registry.Maps.{Map, get, set}
use opencode_pty.Registry.State.{key_of}
use opencode_pty.Journal.Bytes.{byte_length}

abbrev pub max_input_bytes : ℕ
max_input_bytes = 64 * 1024

abbrev pub max_input_bytes_per_minute : ℕ
max_input_bytes_per_minute = 256 * 1024

abbrev pub window_ms : ℕ
window_ms = 60000

pub record Usage : Type 0 where
  pub started_at : ℕ
  pub bytes : ℕ

abbrev pub InputUsage : Type 0
InputUsage = Map Usage

abbrev pub usage_key : OwnerContext → String
usage_key owner = key_of owner.parent_session_id owner.project_directory owner.capability

-- The window that the request falls in.
abbrev pub current_window : ℕ → Option Usage → Usage
current_window now none = record { started_at = now; bytes = 0 }
current_window now (some usage) =
    if leb window_ms (now - usage.started_at) then record { started_at = now; bytes = 0 } else usage

abbrev count_input : InputUsage → String → ℕ → Usage → Result InputUsage
count_input usages key bytes current =
    if ltb max_input_bytes_per_minute (current.bytes + bytes)
    then err FailureCode.limit
    else ok (set usages key (record current { bytes = current.bytes + bytes }))

unfoldable pub use_input : InputUsage → OwnerContext → ℕ → String → Result InputUsage
use_input usages owner now input =
    if ltb max_input_bytes (byte_length input)
    then err FailureCode.limit
    else count_input usages (usage_key owner) (byte_length input)
        (current_window now (get usages (usage_key owner)))
