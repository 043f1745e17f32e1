-- ===== src/Lifecycle/Reduce.antt =====
-- The reducer of session states and of statuses (src/daemon/lifecycle.ts).
-- `darwin` is `process.platform === 'darwin'`. A result `none` is `invalid_transition`.
use opencode_pty.Prelude.{
  Bool, true, false, not, ◌&&◌, ◌||◌, Option, none, some, if◌then◌else◌, is_true, is_some,
  get_or_default,
}
use opencode_pty.Session.{
  ExitReason, ContainmentReport, ContainmentStatus, DaemonStatus, SessionStateTarget as Target,
  TerminalSessionOutcome as Outcome, TerminalSessionPayload, SessionStateEvidence, SessionState,
}

pub data LifecycleEvent : Type 0 where
  worker_ready stop_requested child_exited timed_out output_limited : LifecycleEvent
  spawn_failed unreachable recovered : LifecycleEvent

unfoldable pub evidence_from_state : SessionState → SessionStateEvidence
evidence_from_state (SessionState.creating ev) = ev
evidence_from_state (SessionState.running ev) = ev
evidence_from_state (SessionState.stopping ev) = ev
evidence_from_state (SessionState.terminal ev outcome) = ev
evidence_from_state (SessionState.unreachable ev known terminal) = ev
evidence_from_state (SessionState.cleaning ev target outcome known terminal) = ev

abbrev pub is_terminal_target : Target → Bool
is_terminal_target Target.terminal = true
is_terminal_target _ = false

abbrev pub is_unreachable_target : Target → Bool
is_unreachable_target Target.unreachable = true
is_unreachable_target _ = false

abbrev pub payload : Outcome → SessionStateEvidence → TerminalSessionPayload
payload outcome ev = record { outcome = some outcome; evidence = ev }

-- The payload of a cleaning state with the given keys.
cleaning_payload :
    SessionStateEvidence
    → Target
    → Option Outcome
    → Option TerminalSessionPayload
    → Option TerminalSessionPayload
cleaning_payload ev Target.terminal (some outcome) terminal = some (payload outcome ev)
cleaning_payload ev _ _ terminal = terminal

unfoldable pub terminal_payload : SessionState → Option TerminalSessionPayload
unfolding cleaning_payload
terminal_payload (SessionState.terminal ev outcome) = some (payload outcome ev)
terminal_payload (SessionState.cleaning ev target outcome known terminal) =
    cleaning_payload ev target outcome terminal
terminal_payload (SessionState.unreachable ev known terminal) = terminal
terminal_payload _ = none

unfoldable pub last_known : SessionState → Target
last_known (SessionState.cleaning ev target outcome known terminal) =
    if is_unreachable_target target then get_or_default known Target.unreachable else target
last_known (SessionState.creating ev) = Target.creating
last_known (SessionState.running ev) = Target.running
last_known (SessionState.stopping ev) = Target.stopping
last_known (SessionState.terminal ev outcome) = Target.terminal
last_known (SessionState.unreachable ev known terminal) = Target.unreachable

abbrev pub drained_status : ContainmentStatus → Bool
drained_status ContainmentStatus.posix_best_effort_empty = true
drained_status ContainmentStatus.windows_job_empty = true
drained_status ContainmentStatus.not_applicable = true
drained_status _ = false

-- The three statuses that the daemon takes for an empty containment.
abbrev pub drained_containment : Option ContainmentReport → Bool
drained_containment none = false
drained_containment (some report) = drained_status report.status

-- `cleanup?.directChildStarted === false`
abbrev pub child_not_started : Option Bool → Bool
child_not_started (some started) = not started
child_not_started none = false

-- `exitReason` is a `spawn_error` whose cleanup says that no direct child was started, confirmed.
abbrev pub no_child_cleanup : Option ExitReason → Bool
no_child_cleanup (some (ExitReason.spawn_error message (some cleanup))) =
    child_not_started cleanup.direct_child_started && cleanup.termination_confirmed
no_child_cleanup _ = false

abbrev pub is_spawn_failed : Option Outcome → Bool
is_spawn_failed (some Outcome.spawn_failed) = true
is_spawn_failed _ = false

-- `terminalProven` of a state of kind `terminal`, as every caller passes it.
unfoldable pub terminal_proven : Bool → Option Outcome → SessionStateEvidence → Bool
terminal_proven darwin outcome ev =
    (is_spawn_failed outcome && no_child_cleanup ev.exit_reason)
    || (ev.termination.confirmed
        && (is_true ev.child.direct_exited && (drained_containment ev.containment || darwin)))

-- `terminalOrUnreachable` with `cleaning` true, for `undefined` outcomes too.
unfoldable pub cleaning_terminal_or_unreachable :
    Bool → SessionStateEvidence → Option Outcome → SessionState
cleaning_terminal_or_unreachable darwin ev outcome =
    if terminal_proven darwin outcome ev
    then SessionState.cleaning ev Target.terminal outcome none none
    else SessionState.cleaning ev Target.unreachable none (some Target.terminal)
        (some (record { outcome = outcome; evidence = ev }))

unfoldable pub terminal_or_unreachable : Bool → SessionState → Outcome → Bool → SessionState
unfolding evidence_from_state
terminal_or_unreachable darwin state outcome true =
    cleaning_terminal_or_unreachable darwin (evidence_from_state state) (some outcome)
terminal_or_unreachable darwin state outcome false =
    let ev = evidence_from_state state in
    if terminal_proven darwin (some outcome) ev
    then SessionState.terminal ev outcome
    else SessionState.unreachable ev Target.terminal (some (payload outcome ev))

unfoldable pub to_unreachable : SessionState → Bool → SessionState
unfolding terminal_payload last_known evidence_from_state
to_unreachable state cleaning =
    let terminal = terminal_payload state in
    let known = if is_some terminal then Target.terminal else last_known state in
    let ev = evidence_from_state state in
    if cleaning
    then SessionState.cleaning ev Target.unreachable none (some known) terminal
    else SessionState.unreachable ev known terminal

unfoldable pub cleaning : SessionState → SessionState
cleaning (SessionState.cleaning ev target outcome known terminal) =
    SessionState.cleaning ev target outcome known terminal
cleaning (SessionState.terminal ev outcome) =
    SessionState.cleaning ev Target.terminal (some outcome) none none
cleaning (SessionState.unreachable ev known terminal) =
    SessionState.cleaning ev Target.unreachable none (some known) terminal
cleaning (SessionState.creating ev) = SessionState.cleaning ev Target.creating none none none
cleaning (SessionState.running ev) = SessionState.cleaning ev Target.running none none none
cleaning (SessionState.stopping ev) = SessionState.cleaning ev Target.stopping none none none

unfoldable pub terminal_event : LifecycleEvent → Option Outcome
terminal_event LifecycleEvent.child_exited = some Outcome.exited
terminal_event LifecycleEvent.timed_out = some Outcome.timed_out
terminal_event LifecycleEvent.output_limited = some Outcome.output_limited
terminal_event LifecycleEvent.spawn_failed = some Outcome.spawn_failed
terminal_event _ = none

abbrev pub same_outcome : Outcome → Option Outcome → Bool
same_outcome Outcome.exited (some Outcome.exited) = true
same_outcome Outcome.timed_out (some Outcome.timed_out) = true
same_outcome Outcome.spawn_failed (some Outcome.spawn_failed) = true
same_outcome Outcome.output_limited (some Outcome.output_limited) = true
same_outcome _ _ = false

abbrev pub stoppable : Target → Bool
stoppable Target.running = true
stoppable Target.stopping = true
stoppable _ = false

-- The stop branch of a cleaning state.
cleaning_stop : SessionStateEvidence → Target → LifecycleEvent → Option SessionState
cleaning_stop ev target LifecycleEvent.stop_requested =
    if stoppable target
    then some (SessionState.cleaning ev Target.stopping none none none)
    else none
cleaning_stop ev target _ = none

reduce_cleaning :
    Bool → SessionState → SessionStateEvidence → Target → LifecycleEvent → Option SessionState
unfolding cleaning_stop terminal_event
reduce_cleaning darwin state ev target event = elim (terminal_event event) [
  | none ↦ cleaning_stop ev target event
  | some outcome ↦
      if not (is_terminal_target target) && not (is_unreachable_target target)
      then some (terminal_or_unreachable darwin state outcome true)
      else cleaning_stop ev target event
]

-- The terminal branch of a running or stopping state.
end_running : Bool → SessionState → LifecycleEvent → Option SessionState
unfolding terminal_event
end_running darwin state event = elim (terminal_event event) [
  | none ↦ none
  | some outcome ↦ some (terminal_or_unreachable darwin state outcome false)
]

-- `reduceSessionState` for every event but `unreachable`.
reduce_by_kind : Bool → SessionState → LifecycleEvent → Option SessionState
unfolding reduce_cleaning end_running terminal_event
reduce_by_kind darwin (SessionState.unreachable ev known terminal) LifecycleEvent.recovered =
    if not (is_terminal_target known) && not (is_unreachable_target known)
    then some (SessionState.running ev)
    else none
reduce_by_kind darwin (SessionState.unreachable ev known terminal) _ = none
reduce_by_kind darwin (SessionState.cleaning ev target outcome known terminal) event =
    reduce_cleaning darwin (SessionState.cleaning ev target outcome known terminal) ev target event
reduce_by_kind darwin (SessionState.creating ev) LifecycleEvent.worker_ready =
    some (SessionState.running ev)
reduce_by_kind darwin (SessionState.creating ev) LifecycleEvent.spawn_failed =
    some (terminal_or_unreachable darwin (SessionState.creating ev) Outcome.spawn_failed false)
reduce_by_kind darwin (SessionState.creating ev) _ = none
reduce_by_kind darwin (SessionState.running ev) LifecycleEvent.worker_ready =
    some (SessionState.running ev)
reduce_by_kind darwin (SessionState.running ev) LifecycleEvent.stop_requested =
    some (SessionState.stopping ev)
reduce_by_kind darwin (SessionState.running ev) event =
    end_running darwin (SessionState.running ev) event
reduce_by_kind darwin (SessionState.stopping ev) LifecycleEvent.stop_requested =
    some (SessionState.stopping ev)
reduce_by_kind darwin (SessionState.stopping ev) event =
    end_running darwin (SessionState.stopping ev) event
reduce_by_kind darwin (SessionState.terminal ev outcome) event =
    if same_outcome outcome (terminal_event event)
    then some (SessionState.terminal ev outcome)
    else none

abbrev pub is_cleaning : SessionState → Bool
is_cleaning (SessionState.cleaning ev target outcome known terminal) = true
is_cleaning _ = false

unfoldable pub reduce_session_state : Bool → SessionState → LifecycleEvent → Option SessionState
unfolding reduce_by_kind
reduce_session_state darwin current LifecycleEvent.unreachable =
    some (to_unreachable current (is_cleaning current))
reduce_session_state darwin current event = reduce_by_kind darwin current event

unfoldable pub reduce_daemon_status : DaemonStatus → LifecycleEvent → Option DaemonStatus
reduce_daemon_status current LifecycleEvent.unreachable = some DaemonStatus.lost
reduce_daemon_status DaemonStatus.lost LifecycleEvent.recovered = some DaemonStatus.running
reduce_daemon_status DaemonStatus.starting LifecycleEvent.worker_ready = some DaemonStatus.running
reduce_daemon_status DaemonStatus.starting LifecycleEvent.spawn_failed =
    some DaemonStatus.spawn_failed
reduce_daemon_status DaemonStatus.running LifecycleEvent.worker_ready = some DaemonStatus.running
reduce_daemon_status DaemonStatus.running LifecycleEvent.stop_requested = some DaemonStatus.stopping
reduce_daemon_status DaemonStatus.running LifecycleEvent.child_exited = some DaemonStatus.exited
reduce_daemon_status DaemonStatus.running LifecycleEvent.timed_out = some DaemonStatus.timed_out
reduce_daemon_status DaemonStatus.running LifecycleEvent.output_limited =
    some DaemonStatus.output_limited
reduce_daemon_status DaemonStatus.stopping LifecycleEvent.stop_requested =
    some DaemonStatus.stopping
reduce_daemon_status DaemonStatus.stopping LifecycleEvent.child_exited = some DaemonStatus.exited
reduce_daemon_status DaemonStatus.stopping LifecycleEvent.timed_out = some DaemonStatus.timed_out
reduce_daemon_status DaemonStatus.stopping LifecycleEvent.output_limited =
    some DaemonStatus.output_limited
reduce_daemon_status DaemonStatus.exited LifecycleEvent.child_exited = some DaemonStatus.exited
reduce_daemon_status DaemonStatus.timed_out LifecycleEvent.timed_out = some DaemonStatus.timed_out
reduce_daemon_status DaemonStatus.output_limited LifecycleEvent.output_limited =
    some DaemonStatus.output_limited
reduce_daemon_status DaemonStatus.spawn_failed LifecycleEvent.spawn_failed =
    some DaemonStatus.spawn_failed
reduce_daemon_status current event = none

unfoldable pub is_active_daemon_status : DaemonStatus → Bool
is_active_daemon_status DaemonStatus.starting = true
is_active_daemon_status DaemonStatus.running = true
is_active_daemon_status DaemonStatus.stopping = true
is_active_daemon_status _ = false
