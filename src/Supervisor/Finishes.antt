-- ===== src/Supervisor/Finishes.antt =====
-- The theorems on the end of a session (src/daemon/supervisor.ts) at one snapshot of a worker.
use opencode_pty.Prelude.{ℕ, true, false, Bool, none, some, [], ◌∷◌, ◌≡◌, ◌⊎◌, refl}
use opencode_pty.Lifecycle.Examples.{empty_report, ended-IsCurrent}
use opencode_pty.Lifecycle.Reduce.{evidence_from_state}
use opencode_pty.Lifecycle.Project.{project_session_state}
use opencode_pty.Storage.ValidState.{valid_v2_state}
use opencode_pty.Registry.Examples.{empty_registry}
use opencode_pty.Supervisor.Snapshot.{WorkerSnapshot, WorkerStatus, WorkerExit}
use opencode_pty.Supervisor.Cleanup.{Supervisor, Answers}
use opencode_pty.Supervisor.Finish.{FinishEnd, finish_native_in_lane}
use opencode_pty.Supervisor.Reported.{NoLegacy}
use opencode_pty.Supervisor.Proven.{IsWritten, finish_native_in_lane-IsWritten}
use opencode_pty.Supervisor.Examples.{session}

abbrev snapshot : WorkerSnapshot
snapshot = record {
  status = WorkerStatus.exited;
  pid = 7;
  stdout = none;
  stderr = none;
  stdout_bytes = 0;
  stderr_bytes = 0;
  stdout_truncated = false;
  stderr_truncated = false;
  next_sequence = 12;
  first_retained_sequence = 0;
  output_truncated = false;
  output_line_count = 2;
  output_has_partial_line = false;
  exit_code = some 0;
  exit_signal = none;
  exit_reason = some WorkerExit.exit_code;
  exited_at = some "2026-01-01T00:00:01.000Z";
  timed_out = false;
  termination_requested = false;
  termination_confirmed = true;
  direct_child_exited = true;
  storage_failure = none;
  output_incomplete = false;
  reader_failure = none;
  diagnostics = none;
  containment = empty_report;
  termination = none;
}

session-NoLegacy : NoLegacy session
unfolding project_session_state
session-NoLegacy = record { no_tombstone = refl; no_pending = refl }

finish_native_in_lane-IsWritten_example :
    (finish_native_in_lane false true "t" "" true 3 3 snapshot session
      ≡ record { session = session; writes = []; end = FinishEnd.refused })
    ⊎ ◌≡◌ {A = Bool} true true
      × ◌≡◌ {A = ℕ} 3 3
      × IsWritten false "t" snapshot session
          (finish_native_in_lane false true "t" "" true 3 3 snapshot session)
unfolding valid_v2_state evidence_from_state
finish_native_in_lane-IsWritten_example =
    finish_native_in_lane-IsWritten false true "t" "" true 3 3 snapshot session refl ended-IsCurrent
      session-NoLegacy

abbrev supervisor : Supervisor
supervisor = record {
  records = ("s1", session) ∷ [];
  workers = "s1" ∷ [];
  versions = [];
  confirmed_shutdowns = [];
  stored = ("s1", session) ∷ [];
  registry = empty_registry;
}

abbrev answers : Answers
answers = record {
  prestart_receipt = false;
  failure_receipt = false;
  reconnected = false;
  shutdown = some snapshot;
  same_record = true;
}
