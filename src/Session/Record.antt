-- ===== src/Session/Record.antt =====
-- `SessionRecord` of src/daemon/types.ts, and the chunks of its output journal.
-- The constants `recordVersion` and `outputJournalVersion` are left out: both are always 2.
use opencode_pty.Prelude.{ℕ, String, Bool, Option, List}
use opencode_pty.Session.State.{SessionState, DaemonStatus, LifecycleView}

pub data ExecutionMode : Type 0 where
  pty exec : ExecutionMode

pub data SessionLifecycle : Type 0 where
  conversation persistent : SessionLifecycle

pub data EnvironmentKind : Type 0 where
  safe inherit : EnvironmentKind

pub record EnvironmentProfile : Type 0 where
  pub kind : EnvironmentKind
  pub keys : List String
  pub fingerprint : String
  pub sensitive : Bool

-- `status` and `view` are the flat compatibility fields of the lifecycle. The status is `none` only
-- where an invalid state was projected.
pub record SessionRecord : Type 0 where
  pub id : String
  pub title : String
  pub description : Option String
  pub command : String
  pub args : List String
  pub mode : ExecutionMode
  pub session_name : Option String
  pub idempotency_key : Option String
  pub workdir : String
  pub owner_project_directory : String
  pub owner_capability_hash : String
  pub lifecycle : SessionLifecycle
  pub environment : EnvironmentProfile
  pub state : SessionState
  pub status : Option DaemonStatus
  pub view : LifecycleView
  pub created_at : String
  pub last_output_at : Option String
  pub updated_at : String
  pub parent_session_id : String
  pub parent_agent : Option String
  pub timeout_seconds : Option ℕ
  pub next_sequence : ℕ
  pub first_retained_sequence : ℕ
  pub output_bytes : ℕ
  pub output_limit_bytes : Option ℕ
  pub output_truncated : Bool
  pub line_count : ℕ
  pub output_has_partial_line : Bool

pub record OutputChunk : Type 0 where
  pub start_sequence : ℕ
  pub end_sequence : ℕ
  pub timestamp : String
  pub text : String
