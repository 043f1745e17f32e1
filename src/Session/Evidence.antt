-- ===== src/Session/Evidence.antt =====
-- What was observed of a session's process (src/daemon/types.ts).
use opencode_pty.Prelude.{ℕ, String, Bool, Option, List}

pub data CleanupMethod : Type 0 where
  shutdown rollback kill nothing : CleanupMethod

pub record SpawnCleanup : Type 0 where
  pub requested : Bool
  pub termination_confirmed : Bool
  pub method : CleanupMethod
  pub direct_child_started : Option Bool
  pub direct_child_pid : Option ℕ
  pub message : Option String

pub data ExitReason : Type 0 where
  exit_code : ℕ → ExitReason
  signal : String → ExitReason
  timeout : Option String → ExitReason
  stopped : ExitReason
  spawn_error : String → Option SpawnCleanup → ExitReason
  output_limit : Option String → ExitReason
  unknown : Option String → ExitReason

pub data ContainmentPlatform : Type 0 where
  linux_proc windows_job posix_verification_unavailable not_applicable : ContainmentPlatform

pub data ContainmentStatus : Type 0 where
  posix_best_effort_empty posix_processes_remaining posix_escape_observed : ContainmentStatus
  posix_containment_unknown windows_job_empty windows_job_processes_remaining : ContainmentStatus
  windows_job_unknown not_applicable : ContainmentStatus

pub record ContainmentReport : Type 0 where
  pub platform : ContainmentPlatform
  pub status : ContainmentStatus
  pub root_pid : ℕ
  pub process_group_id : Option ℕ
  pub session_id : Option ℕ
  pub root_start_identity : String
  pub root_identity_verified : Bool
  pub observed_group_pids : List ℕ
  pub observed_session_pids : List ℕ
  pub observed_escaped_descendant_pids : List ℕ
  pub observed_escaped_descendants : Option (List (ℕ × String))
  pub verified_at : String

pub record TerminationResult : Type 0 where
  pub requested : Bool
  pub term_signal_sent : Bool
  pub kill_signal_sent : Bool
  pub root_exited : Bool
  pub direct_child_exited : Bool
  pub containment : ContainmentReport

-- `exitSignal?: number | string`
pub data ExitSignal : Type 0 where
  number : ℕ → ExitSignal
  name : String → ExitSignal

pub record ExecOutput : Type 0 where
  pub stdout : String
  pub stderr : String
  pub stdout_bytes : ℕ
  pub stderr_bytes : ℕ
  pub stdout_truncated : Bool
  pub stderr_truncated : Bool
  pub containment : Option ContainmentReport
  pub termination : Option TerminationResult

pub data WaitReason : Type 0 where
  output exit deadline : WaitReason

pub record WaitResult : Type 0 where
  pub satisfied : Bool
  pub reason : WaitReason
  pub observed_at : String
  pub matched : Option String
  pub exit_code : Option ℕ
  pub exit_signal : Option ExitSignal
  pub output_truncated : Bool
  pub containment : Option ContainmentReport
  pub termination : Option TerminationResult

pub record WorkerReference : Type 0 where
  pub pid : ℕ
  pub start_identity : String
  pub process_identity : String
  pub endpoint : String
  pub token_fingerprint : Option String
  pub protocol_version : ℕ
  pub executable : Option String

pub record WorkerPrestartAuthority : Type 0 where
  pub worker_id : String
  pub token_fingerprint : String
  pub protocol_version : ℕ

pub data StreamDrain : Type 0 where
  drained unknown : StreamDrain
