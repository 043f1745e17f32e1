-- ===== src/Supervisor/Reuses.antt =====
-- `idempotentSession` of src/daemon/supervisor.ts at a concrete request.
use opencode_pty.Prelude.{any, keep, true, false, none, some, [], ◌∷◌, ◌≡◌, refl}
use opencode_pty.Session.{SessionRecord}
use opencode_pty.Lifecycle.Project.{project_status, project_session_state}
use opencode_pty.Lifecycle.Reduce.{is_active_daemon_status}
use opencode_pty.Environment.Runtime.{
  runtime_environment, composed, trusted_path, from_entries, base_entries, environment_profile,
}
use opencode_pty.Supervisor.Examples.{session}
use opencode_pty.Supervisor.Reuse.{
  SpawnRequest, SpawnHost, Reuse, has_key, same_texts, idempotent_session,
}
use opencode_pty.Supervisor.Reused.{IsListed, IsMatch, IsSame, idempotent_session-IsReused}

abbrev host : SpawnHost
host = record {
  real_path = some;
  current_directory = "/";
  casing = record { upper = λ s. s; lower = λ s. s };
  windows = false;
  source = [];
  sort = λ names. names;
  fingerprint = λ _. "f";
}

abbrev with_key : SessionRecord
with_key = record session { idempotency_key = some "k" }

abbrev request : SpawnRequest
request = record {
  options = record {
    command = "make";
    args = none;
    description = none;
    workdir = none;
    env = none;
    title = none;
    parent_session_id = "p";
    parent_agent = none;
    timeout_seconds = none;
    name = none;
    idempotency_key = some "k";
    inherit_env = none;
    lifecycle = none;
  };
  owner_project_directory = some "/work";
  owner_capability_hash = some "c0";
}

reuse_test : idempotent_session host request (with_key ∷ []) ≡ Reuse.existing with_key
unfolding idempotent_session project_status is_active_daemon_status project_session_state
    runtime_environment any composed trusted_path from_entries keep base_entries same_texts
    environment_profile
reuse_test = refl

idempotent_session-IsReused_example :
    (has_key request.options.idempotency_key ≡ true)
    × IsListed with_key (with_key ∷ [])
    × IsMatch host request with_key
    × IsSame host request with_key
idempotent_session-IsReused_example =
    idempotent_session-IsReused host request (with_key ∷ []) with_key reuse_test
