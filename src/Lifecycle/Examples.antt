-- ===== src/Lifecycle/Examples.antt =====
-- Tests of the reducer of src/daemon/lifecycle.ts, and its theorems at concrete sessions.
use opencode_pty.Prelude.{true, false, none, some, [], ◌≡◌, ◌⊎◌, refl, arith}
use opencode_pty.Session.{
  ContainmentReport, ContainmentPlatform, ContainmentStatus, DaemonStatus,
  SessionStateTarget as Target, TerminalSessionOutcome as Outcome, StreamDrain,
  SessionStateEvidence, SessionState,
}
use opencode_pty.Lifecycle.Reduce.{
  LifecycleEvent, evidence_from_state, terminal_payload, terminal_proven, reduce_session_state,
  reduce_daemon_status, payload, terminal_or_unreachable, to_unreachable,
}
use opencode_pty.Lifecycle.Project.{project_status, project_session_state}
use opencode_pty.Lifecycle.Refresh.{refresh_session_state, evidence_from_view}
use opencode_pty.Lifecycle.Validity.{IsCurrent, reduce_session_state-valid}
use opencode_pty.Lifecycle.Roundtrip.{IsNormal, refresh-project}
use opencode_pty.Lifecycle.Status.{IsUnproven, reduce-status}
use opencode_pty.Lifecycle.Runs.{Reach, Reach-payload, recovery_after_loss}
use opencode_pty.Storage.ValidState.{valid_v2_state}

abbrev pub empty_report : ContainmentReport
empty_report = record {
  platform = ContainmentPlatform.linux_proc;
  status = ContainmentStatus.posix_best_effort_empty;
  root_pid = 7;
  process_group_id = some 7;
  session_id = some 7;
  root_start_identity = "boot:7";
  root_identity_verified = true;
  observed_group_pids = [];
  observed_session_pids = [];
  observed_escaped_descendant_pids = [];
  observed_escaped_descendants = none;
  verified_at = "2026-01-01T00:00:00.000Z";
}

-- The child ended and its containment is empty.
abbrev pub ended : SessionStateEvidence
ended = record {
  child = record { pid = 7; direct_exited = some true };
  started_at = some "2026-01-01T00:00:00.000Z";
  exited_at = none;
  timed_out = false;
  termination = record { requested = false; confirmed = true; result = none };
  containment = some empty_report;
  exit_code = some 0;
  exit_signal = none;
  exit_reason = none;
  worker = none;
  prestart = none;
  start_attempted = some true;
  stream_drain = StreamDrain.drained;
  exec_output = none;
  storage_failure = none;
  diagnostics = none;
  last_wait_result = none;
  legacy = none;
}

-- Nothing is known of the child's end.
abbrev unproven : SessionStateEvidence
unproven = record ended {
  termination = record { requested = false; confirmed = false; result = none };
  containment = none;
}

pub ended-IsCurrent : IsCurrent ended
ended-IsCurrent = record { no_legacy = refl; confirmed = λ h. refl }

ended-IsNormal : IsNormal ended
ended-IsNormal = record { failure_text = ground arith; legacy_part = λ l e. ground arith }

exits :
    reduce_session_state false (SessionState.running ended) LifecycleEvent.child_exited
    ≡ some (SessionState.terminal ended Outcome.exited)
unfolding reduce_session_state terminal_or_unreachable terminal_proven evidence_from_state
exits = refl

is_lost :
    reduce_session_state false (SessionState.running unproven) LifecycleEvent.child_exited
    ≡ some
        (SessionState.unreachable unproven Target.terminal (some (payload Outcome.exited unproven)))
unfolding reduce_session_state terminal_or_unreachable terminal_proven evidence_from_state
    to_unreachable
is_lost = refl

reduce_session_state-valid_example :
    valid_v2_state false (SessionState.terminal ended Outcome.exited) ≡ true
unfolding valid_v2_state evidence_from_state
reduce_session_state-valid_example =
    reduce_session_state-valid false (SessionState.running ended) LifecycleEvent.child_exited
      {next = SessionState.terminal ended Outcome.exited} ended-IsCurrent refl exits

projected-IsCurrent :
    IsCurrent (evidence_from_view (project_session_state (SessionState.running ended)))
unfolding evidence_from_view project_session_state
projected-IsCurrent = record { no_legacy = refl; confirmed = λ h. refl }

refresh-project_example :
    refresh_session_state false
      (SessionState.terminal ended Outcome.exited)
      (project_session_state (SessionState.terminal ended Outcome.exited))
    ≡ SessionState.terminal ended Outcome.exited
unfolding valid_v2_state evidence_from_state
refresh-project_example =
    refresh-project false (SessionState.terminal ended Outcome.exited) ended-IsNormal refl

reduce-status_example :
    (project_status (SessionState.terminal ended Outcome.exited) ≡ some DaemonStatus.exited)
    ⊎ (project_status (SessionState.terminal ended Outcome.exited) ≡ some DaemonStatus.lost)
      × IsUnproven false ended LifecycleEvent.child_exited
unfolding project_status reduce_daemon_status evidence_from_state
reduce-status_example =
    reduce-status false (SessionState.running ended) LifecycleEvent.child_exited
      {next = SessionState.terminal ended Outcome.exited} {status = DaemonStatus.running}
      {status' = DaemonStatus.exited} refl exits refl

starts :
    reduce_session_state false (SessionState.creating ended) LifecycleEvent.worker_ready
    ≡ some (SessionState.running ended)
unfolding reduce_session_state evidence_from_state
starts = refl

ran : Reach false (SessionState.creating ended) (SessionState.terminal ended Outcome.exited)
ran =
    Reach.next LifecycleEvent.child_exited
      (Reach.next LifecycleEvent.worker_ready Reach.here starts) exits

abbrev lost_end : SessionState
lost_end = SessionState.unreachable ended Target.terminal (some (payload Outcome.exited ended))

loses_end :
    reduce_session_state false
      (SessionState.terminal ended Outcome.exited)
      LifecycleEvent.unreachable
    ≡ some lost_end
unfolding reduce_session_state to_unreachable
loses_end = refl

Reach-payload_example :
    (terminal_payload lost_end ≡ some (payload Outcome.exited ended))
    × ((project_status lost_end ≡ some DaemonStatus.exited)
        ⊎ (project_status lost_end ≡ some DaemonStatus.lost))
unfolding terminal_payload valid_v2_state evidence_from_state
Reach-payload_example =
    Reach-payload false {s = SessionState.terminal ended Outcome.exited} {t = lost_end}
      (payload Outcome.exited ended) Outcome.exited ended-IsCurrent refl refl refl
      (Reach.next LifecycleEvent.unreachable Reach.here loses_end)

abbrev lost_once : SessionState
lost_once = SessionState.unreachable ended Target.running none

abbrev lost_twice : SessionState
lost_twice = SessionState.unreachable ended Target.unreachable none

loses_once :
    reduce_session_state false (SessionState.running ended) LifecycleEvent.unreachable
    ≡ some lost_once
unfolding reduce_session_state to_unreachable
loses_once = refl

loses_twice : reduce_session_state false lost_once LifecycleEvent.unreachable ≡ some lost_twice
unfolding reduce_session_state to_unreachable
loses_twice = refl

recovery_after_loss_example :
    (reduce_session_state false lost_once LifecycleEvent.recovered
      ≡ some (SessionState.running ended))
    × (reduce_session_state false lost_twice LifecycleEvent.recovered ≡ none)
unfolding evidence_from_state
recovery_after_loss_example =
    recovery_after_loss false (SessionState.running ended) {one = lost_once} {two = lost_twice} refl
      loses_once loses_twice
