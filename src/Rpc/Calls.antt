-- ===== src/Rpc/Calls.antt =====
-- What a request of `dispatch` (src/daemon/server.ts) asks of the supervisor, of the ledger of
-- approvals, or of the server itself.
use opencode_pty.Prelude.{ℕ, String, Bool, Option, ltb, if◌then◌else◌, get_or_default}
use opencode_pty.Rpc.Result.{Result, ok, err, FailureCode}
use opencode_pty.Rpc.Payload.{Json}
use opencode_pty.Rpc.Owner.{Server, OwnerContext}
use opencode_pty.Rpc.Spawn.{SpawnOptions, ExecOptions}
use opencode_pty.Supervisor.Waits.{WaitCondition, max_exec_runtime_seconds}

-- The options with the owner's fields, and the bound on the owner's sessions.
pub record OwnedSpawn : Type 0 where
  pub options : SpawnOptions
  pub owner_project_directory : String
  pub owner_capability_hash : String
  pub max_sessions_per_owner : ℕ

pub record ReadOptions : Type 0 where
  pub offset : Option ℕ
  pub limit : Option ℕ
  pub sequence : Option ℕ

pub data RpcCall : Type 0 where
  health : RpcCall
  diagnostics list : OwnerContext → RpcCall
  spawn : OwnedSpawn → RpcCall
  exec exec_start : OwnedSpawn → Option ℕ → RpcCall
  exec_wait : (id : String) (timeout_seconds : ℕ) → RpcCall
  write : (id input : String) → RpcCall
  resize : (id : String) (cols rows : ℕ) → RpcCall
  wait : (id : String) → WaitCondition → (timeout_seconds : ℕ) → RpcCall
  send_wait : (id input : String) → WaitCondition → (timeout_seconds : ℕ) → RpcCall
  read : (id : String) → ReadOptions → RpcCall
  search : (id pattern_text : String) (ignore_case : Bool) → ReadOptions → RpcCall
  get raw_output exec_output stop cleanup : (id : String) → RpcCall
  cleanup_by_parent_session : (parent_session_id project_directory capability : String) → RpcCall
  approval : (operation : String) → OwnerContext → Option Json → RpcCall

abbrev pub owned_spawn : Server → OwnerContext → SpawnOptions → OwnedSpawn
owned_spawn server owner options = record {
  options = record options { parent_session_id = owner.parent_session_id };
  owner_project_directory = owner.project_directory;
  owner_capability_hash = owner.capability;
  max_sessions_per_owner = server.max_sessions_per_owner;
}

abbrev pub spawn_call : Server → OwnerContext → SpawnOptions → Result RpcCall
spawn_call server owner options = ok (RpcCall.spawn (owned_spawn server owner options))

abbrev pub runs_too_long : SpawnOptions → Bool
runs_too_long options = ltb max_exec_runtime_seconds (get_or_default options.timeout_seconds 0)

abbrev pub exec_call : Server → OwnerContext → ExecOptions → Result RpcCall
exec_call server owner options =
    if runs_too_long options.spawn
    then err FailureCode.limit
    else ok (RpcCall.exec (owned_spawn server owner options.spawn) options.max_output_bytes)

abbrev pub exec_start_call : Server → OwnerContext → ExecOptions → Result RpcCall
exec_start_call server owner options =
    if runs_too_long options.spawn
    then err FailureCode.limit
    else ok (RpcCall.exec_start (owned_spawn server owner options.spawn) options.max_output_bytes)
