-- ===== src/Lifecycle/Refresh.antt =====
-- `refreshSessionState` and `sessionStateFromCompatibility` of src/daemon/lifecycle.ts: a state
-- rebuilt from the flat view of its evidence.
use opencode_pty.Prelude.{
  String, str_eq, Bool, ◌||◌, Option, none, some, if◌then◌else◌, is_true, is_some, or_else,
  get_or_default,
}
use opencode_pty.Session.{
  DaemonStatus, SessionStateTarget as Target, TerminalSessionOutcome as Outcome, LegacyTombstone,
  TerminalSessionPayload, Legacy, SessionStateEvidence, SessionState, LifecycleView, StreamDrain,
}
use opencode_pty.Lifecycle.Reduce.{terminal_proven, cleaning_terminal_or_unreachable, cleaning}

-- A string stays only if it is truthy.
abbrev pub nonempty : Option String → Option String
nonempty none = none
nonempty (some text) = if str_eq text "" then none else some text

abbrev pub legacy_evidence : Option LegacyTombstone → Option Bool → Option Legacy
legacy_evidence tombstone pending =
    if is_some tombstone || is_true pending
    then some (record { tombstone = tombstone; output_cleanup_pending = is_true pending })
    else none

-- The `evidence` that the function builds from a record.
unfoldable pub evidence_from_view : LifecycleView → SessionStateEvidence
evidence_from_view view = record {
  child = record { pid = view.pid; direct_exited = view.direct_child_exited };
  started_at = view.started_at;
  exited_at = view.exited_at;
  timed_out = view.timed_out;
  termination = record {
    requested = view.termination_requested;
    confirmed = view.termination_confirmed;
    result = view.termination;
  };
  containment = view.containment;
  exit_code = view.exit_code;
  exit_signal = view.exit_signal;
  exit_reason = view.exit_reason;
  worker = view.worker;
  prestart = view.worker_prestart;
  start_attempted = view.worker_start_attempted;
  stream_drain = get_or_default view.stream_drain StreamDrain.unknown;
  exec_output = view.exec_output;
  storage_failure = nonempty view.storage_failure;
  diagnostics = view.diagnostics;
  last_wait_result = view.last_wait_result;
  legacy = legacy_evidence view.legacy_tombstone view.legacy_output_cleanup_pending;
}

-- `{ ...state, ...evidence }`: a key that the new evidence lacks stays as it was.
unfoldable pub merge_evidence : SessionStateEvidence → SessionStateEvidence → SessionStateEvidence
merge_evidence old new = record {
  child = new.child;
  started_at = or_else new.started_at old.started_at;
  exited_at = or_else new.exited_at old.exited_at;
  timed_out = new.timed_out;
  termination = new.termination;
  containment = or_else new.containment old.containment;
  exit_code = or_else new.exit_code old.exit_code;
  exit_signal = or_else new.exit_signal old.exit_signal;
  exit_reason = or_else new.exit_reason old.exit_reason;
  worker = or_else new.worker old.worker;
  prestart = or_else new.prestart old.prestart;
  start_attempted = or_else new.start_attempted old.start_attempted;
  stream_drain = new.stream_drain;
  exec_output = or_else new.exec_output old.exec_output;
  storage_failure = or_else new.storage_failure old.storage_failure;
  diagnostics = or_else new.diagnostics old.diagnostics;
  last_wait_result = or_else new.last_wait_result old.last_wait_result;
  legacy = or_else new.legacy old.legacy;
}

abbrev pub when_pending : Bool → SessionState → SessionState
when_pending pending state = if pending then cleaning state else state

-- The branch of a terminal state, which is demoted where the evidence no longer proves it.
unfoldable pub refresh_terminal : Bool → SessionStateEvidence → Outcome → Bool → SessionState
refresh_terminal darwin ev outcome pending =
    if terminal_proven darwin (some outcome) ev
    then when_pending pending (SessionState.terminal ev outcome)
    else when_pending pending (
        SessionState.unreachable ev Target.terminal
          (some (record { outcome = some outcome; evidence = ev })))

-- A live state: the merged evidence if a cleanup is pending, the new evidence if not.
abbrev pub refresh_live :
    (SessionStateEvidence → SessionState)
    → SessionStateEvidence
    → SessionStateEvidence
    → Bool
    → SessionState
refresh_live kind old ev pending =
    if pending then cleaning (kind (merge_evidence old ev)) else kind ev

unfoldable pub refresh_cleaning :
    Bool
    → SessionStateEvidence
    → Target
    → Option Outcome
    → Option Target
    → Option TerminalSessionPayload
    → SessionState
refresh_cleaning darwin ev Target.terminal outcome known terminal =
    cleaning_terminal_or_unreachable darwin ev outcome
refresh_cleaning darwin ev target outcome known terminal =
    SessionState.cleaning ev target outcome known terminal

unfoldable pub refresh_session_state : Bool → SessionState → LifecycleView → SessionState
unfolding refresh_cleaning
refresh_session_state darwin (SessionState.terminal old outcome) view =
    refresh_terminal darwin (evidence_from_view view) outcome (is_true view.pending_cleanup)
refresh_session_state darwin (SessionState.unreachable old known terminal) view =
    refresh_live (λ ev. SessionState.unreachable ev known terminal) old (evidence_from_view view)
      (is_true view.pending_cleanup)
refresh_session_state darwin (SessionState.cleaning old target outcome known terminal) view =
    refresh_cleaning darwin (evidence_from_view view) target outcome known terminal
refresh_session_state darwin (SessionState.creating old) view =
    refresh_live SessionState.creating old (evidence_from_view view) (is_true view.pending_cleanup)
refresh_session_state darwin (SessionState.running old) view =
    refresh_live SessionState.running old (evidence_from_view view) (is_true view.pending_cleanup)
refresh_session_state darwin (SessionState.stopping old) view =
    refresh_live SessionState.stopping old (evidence_from_view view) (is_true view.pending_cleanup)

-- The evidence of the state that the conversion starts from.
abbrev pub bare_evidence : LifecycleView → SessionStateEvidence
bare_evidence view = record {
  child = record { pid = view.pid; direct_exited = none };
  started_at = none;
  exited_at = none;
  timed_out = view.timed_out;
  termination = record {
    requested = view.termination_requested;
    confirmed = view.termination_confirmed;
    result = none;
  };
  containment = none;
  exit_code = none;
  exit_signal = none;
  exit_reason = none;
  worker = none;
  prestart = none;
  start_attempted = none;
  stream_drain = get_or_default view.stream_drain StreamDrain.unknown;
  exec_output = none;
  storage_failure = none;
  diagnostics = none;
  last_wait_result = none;
  legacy = none;
}

abbrev pub tombstone_known : Option LegacyTombstone → Option Target
tombstone_known none = none
tombstone_known (some tombstone) = some tombstone.last_known

-- The state of a status, over the bare evidence.
pub state_of_status : DaemonStatus → LifecycleView → SessionState
state_of_status DaemonStatus.starting view = SessionState.creating (bare_evidence view)
state_of_status DaemonStatus.running view = SessionState.running (bare_evidence view)
state_of_status DaemonStatus.stopping view = SessionState.stopping (bare_evidence view)
state_of_status DaemonStatus.lost view =
    SessionState.unreachable (bare_evidence view)
      (get_or_default (or_else view.last_known (tombstone_known view.legacy_tombstone))
        Target.unreachable)
      none
state_of_status DaemonStatus.exited view = SessionState.terminal (bare_evidence view) Outcome.exited
state_of_status DaemonStatus.timed_out view =
    SessionState.terminal (bare_evidence view) Outcome.timed_out
state_of_status DaemonStatus.spawn_failed view =
    SessionState.terminal (bare_evidence view) Outcome.spawn_failed
state_of_status DaemonStatus.output_limited view =
    SessionState.terminal (bare_evidence view) Outcome.output_limited

-- What happens to the refreshed state.
pub settle_converted : Bool → SessionState → Bool → SessionState
settle_converted darwin (SessionState.terminal ev outcome) pending =
    if terminal_proven darwin (some outcome) ev
    then when_pending pending (SessionState.terminal ev outcome)
    else when_pending pending (
        SessionState.unreachable ev Target.terminal
          (some (record { outcome = some outcome; evidence = ev })))
settle_converted darwin state pending = when_pending pending state

unfoldable pub session_state_from_compatibility : Bool → DaemonStatus → LifecycleView → SessionState
unfolding state_of_status settle_converted
session_state_from_compatibility darwin status view =
    settle_converted darwin (refresh_session_state darwin (state_of_status status view) view)
      (is_true view.pending_cleanup)
