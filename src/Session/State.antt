-- ===== src/Session/State.antt =====
-- The lifecycle state of a session and the flat view of it (src/daemon/types.ts).
use opencode_pty.Prelude.{ℕ, String, Bool, Option, List}
use opencode_pty.Session.Evidence.{
  ExitReason, ContainmentReport, TerminationResult, ExitSignal, ExecOutput, WaitResult,
  WorkerReference, WorkerPrestartAuthority, StreamDrain,
}

pub data DaemonStatus : Type 0 where
  starting running stopping exited timed_out lost spawn_failed output_limited : DaemonStatus

-- `SessionStateTarget`, and also `LegacyTombstone['lastKnown']`, which has the same five values.
pub data SessionStateTarget : Type 0 where
  creating running stopping terminal unreachable : SessionStateTarget

pub data TerminalSessionOutcome : Type 0 where
  exited timed_out spawn_failed output_limited : TerminalSessionOutcome

pub data SourceRecordVersion : Type 0 where
  v0 v1 : SourceRecordVersion

pub record LegacyTombstone : Type 0 where
  pub source_record_version : SourceRecordVersion
  pub last_known : SessionStateTarget

-- `outputCleanupPending?: true`: `true` if the key is there.
pub record Legacy : Type 0 where
  pub tombstone : Option LegacyTombstone
  pub output_cleanup_pending : Bool

pub record Child : Type 0 where
  pub pid : ℕ
  pub direct_exited : Option Bool

pub record Termination : Type 0 where
  pub requested : Bool
  pub confirmed : Bool
  pub result : Option TerminationResult

pub record SessionStateEvidence : Type 0 where
  pub child : Child
  pub started_at : Option String
  pub exited_at : Option String
  pub timed_out : Bool
  pub termination : Termination
  pub containment : Option ContainmentReport
  pub exit_code : Option ℕ
  pub exit_signal : Option ExitSignal
  pub exit_reason : Option ExitReason
  pub worker : Option WorkerReference
  pub prestart : Option WorkerPrestartAuthority
  pub start_attempted : Option Bool
  pub stream_drain : StreamDrain
  pub exec_output : Option ExecOutput
  pub storage_failure : Option String
  pub diagnostics : Option (List String)
  pub last_wait_result : Option WaitResult
  pub legacy : Option Legacy

-- The outcome is `none` where a cast of the source lets `undefined` through (lifecycle.ts, line
-- 349); it is present in every valid state.
pub record TerminalSessionPayload : Type 0 where
  pub outcome : Option TerminalSessionOutcome
  pub evidence : SessionStateEvidence

-- The evidence is spread into each variant; the other arguments are the variant's own keys, in the
-- order `target`, `outcome`, `lastKnown`, `terminal`.
pub data SessionState : Type 0 where
  creating : SessionStateEvidence → SessionState
  running : SessionStateEvidence → SessionState
  stopping : SessionStateEvidence → SessionState
  terminal : SessionStateEvidence → TerminalSessionOutcome → SessionState
  unreachable :
      SessionStateEvidence → SessionStateTarget → Option TerminalSessionPayload → SessionState
  cleaning :
      SessionStateEvidence
      → SessionStateTarget
      → Option TerminalSessionOutcome
      → Option SessionStateTarget
      → Option TerminalSessionPayload
      → SessionState

-- `LifecycleProjection` without its `status`, which `refreshSessionState` does not read.
pub record LifecycleView : Type 0 where
  pub pid : ℕ
  pub started_at : Option String
  pub exited_at : Option String
  pub timed_out : Bool
  pub termination_requested : Bool
  pub termination_confirmed : Bool
  pub pending_cleanup : Option Bool
  pub direct_child_exited : Option Bool
  pub exit_code : Option ℕ
  pub exit_signal : Option ExitSignal
  pub exit_reason : Option ExitReason
  pub worker : Option WorkerReference
  pub worker_prestart : Option WorkerPrestartAuthority
  pub worker_start_attempted : Option Bool
  pub containment : Option ContainmentReport
  pub termination : Option TerminationResult
  pub exec_output : Option ExecOutput
  pub storage_failure : Option String
  pub diagnostics : Option (List String)
  pub last_wait_result : Option WaitResult
  pub legacy_tombstone : Option LegacyTombstone
  pub legacy_output_cleanup_pending : Option Bool
  pub stream_drain : Option StreamDrain
  pub last_known : Option SessionStateTarget
