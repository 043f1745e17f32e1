-- ===== src/Lifecycle/Project.antt =====
-- The flat view of a state (`projectSessionState` of src/daemon/lifecycle.ts).
use opencode_pty.Prelude.{Bool, true, Option, none, some, if◌then◌else◌, or_else}
use opencode_pty.Session.{
  DaemonStatus, SessionStateTarget as Target, TerminalSessionOutcome as Outcome, LegacyTombstone,
  Legacy, SessionStateEvidence, SessionState, LifecycleView,
}
use opencode_pty.Lifecycle.Reduce.{evidence_from_state, is_unreachable_target}

abbrev pub outcome_status : Outcome → DaemonStatus
outcome_status Outcome.exited = DaemonStatus.exited
outcome_status Outcome.timed_out = DaemonStatus.timed_out
outcome_status Outcome.spawn_failed = DaemonStatus.spawn_failed
outcome_status Outcome.output_limited = DaemonStatus.output_limited

abbrev pub optional_outcome_status : Option Outcome → Option DaemonStatus
optional_outcome_status none = none
optional_outcome_status (some outcome) = some (outcome_status outcome)

cleaning_status : Target → Option Outcome → Option DaemonStatus
cleaning_status Target.creating outcome = some DaemonStatus.starting
cleaning_status Target.running outcome = some DaemonStatus.running
cleaning_status Target.stopping outcome = some DaemonStatus.stopping
cleaning_status Target.terminal outcome = optional_outcome_status outcome
cleaning_status Target.unreachable outcome = some DaemonStatus.lost

-- The field `status`: `none` is the `undefined` outcome of an invalid cleaning state.
unfoldable pub project_status : SessionState → Option DaemonStatus
unfolding cleaning_status
project_status (SessionState.creating ev) = some DaemonStatus.starting
project_status (SessionState.running ev) = some DaemonStatus.running
project_status (SessionState.stopping ev) = some DaemonStatus.stopping
project_status (SessionState.terminal ev outcome) = some (outcome_status outcome)
project_status (SessionState.unreachable ev known terminal) = some DaemonStatus.lost
project_status (SessionState.cleaning ev target outcome known terminal) =
    cleaning_status target outcome

abbrev pub legacy_tombstone : Option Legacy → Option LegacyTombstone
legacy_tombstone none = none
legacy_tombstone (some legacy) = legacy.tombstone

abbrev pub legacy_cleanup_pending : Option Legacy → Option Bool
legacy_cleanup_pending none = none
legacy_cleanup_pending (some legacy) = if legacy.output_cleanup_pending then some true else none

abbrev pub tombstone_last_known : Option LegacyTombstone → Option Target
tombstone_last_known none = none
tombstone_last_known (some tombstone) = some tombstone.last_known

abbrev pub state_last_known : SessionState → Option Target
state_last_known (SessionState.unreachable ev known terminal) = some known
state_last_known (SessionState.cleaning ev target outcome known terminal) =
    if is_unreachable_target target then known else none
state_last_known _ = none

abbrev pub state_pending_cleanup : SessionState → Option Bool
state_pending_cleanup (SessionState.cleaning ev target outcome known terminal) = some true
state_pending_cleanup _ = none

-- The other fields.
unfoldable pub project_session_state : SessionState → LifecycleView
unfolding evidence_from_state
project_session_state state =
    let ev : SessionStateEvidence = evidence_from_state state in
    record {
      pid = ev.child.pid;
      started_at = ev.started_at;
      exited_at = ev.exited_at;
      timed_out = ev.timed_out;
      termination_requested = ev.termination.requested;
      termination_confirmed = ev.termination.confirmed;
      pending_cleanup = state_pending_cleanup state;
      direct_child_exited = ev.child.direct_exited;
      exit_code = ev.exit_code;
      exit_signal = ev.exit_signal;
      exit_reason = ev.exit_reason;
      worker = ev.worker;
      worker_prestart = ev.prestart;
      worker_start_attempted = ev.start_attempted;
      containment = ev.containment;
      termination = ev.termination.result;
      exec_output = ev.exec_output;
      storage_failure = ev.storage_failure;
      diagnostics = ev.diagnostics;
      last_wait_result = ev.last_wait_result;
      legacy_tombstone = legacy_tombstone ev.legacy;
      legacy_output_cleanup_pending = legacy_cleanup_pending ev.legacy;
      stream_drain = some ev.stream_drain;
      last_known =
          or_else (state_last_known state) (tombstone_last_known (legacy_tombstone ev.legacy));
    }
