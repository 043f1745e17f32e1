-- ===== src/Storage/ValidState.antt =====
-- `validV2State` and `validV2TerminalProof` of src/daemon/storage.ts: what a session's state must
-- satisfy to be persisted or loaded. The `typeof` tests of the source hold by the model's types.
use opencode_pty.Prelude.{
  Bool, true, false, not, ◌&&◌, ◌||◌, Option, none, some, is_true, is_some, bool_eq,
}
use opencode_pty.Session.{
  SessionStateTarget as Target, TerminalSessionOutcome as Outcome, TerminalSessionPayload,
  LegacyTombstone, Legacy, SessionStateEvidence, SessionState,
}
use opencode_pty.Lifecycle.Reduce.{
  is_terminal_target, is_unreachable_target, drained_containment, no_child_cleanup, is_spawn_failed,
}

abbrev pub valid_v2_terminal_proof : Bool → SessionStateEvidence → Option Outcome → Bool
valid_v2_terminal_proof darwin ev outcome =
    (is_spawn_failed outcome && no_child_cleanup ev.exit_reason)
    || (is_true ev.child.direct_exited && (drained_containment ev.containment || darwin))

-- The test of a terminal state, or of a cleaning state whose target is terminal.
abbrev pub valid_terminal : Bool → SessionStateEvidence → Option Outcome → Bool
valid_terminal darwin ev outcome =
    is_some outcome && (ev.termination.confirmed && valid_v2_terminal_proof darwin ev outcome)

abbrev pub valid_terminal_payload : Option TerminalSessionPayload → Bool
valid_terminal_payload none = true
valid_terminal_payload (some payload) = is_some payload.outcome

abbrev pub cleanup_pending : Option Legacy → Bool
cleanup_pending none = false
cleanup_pending (some legacy) = legacy.output_cleanup_pending

abbrev pub is_terminal_known : Option Target → Bool
is_terminal_known none = false
is_terminal_known (some known) = is_terminal_target known

abbrev pub same_target : Target → Option Target → Bool
same_target Target.creating (some Target.creating) = true
same_target Target.running (some Target.running) = true
same_target Target.stopping (some Target.stopping) = true
same_target Target.terminal (some Target.terminal) = true
same_target Target.unreachable (some Target.unreachable) = true
same_target _ _ = false

abbrev pub valid_tombstone : Option LegacyTombstone → Target → Option Target → Bool
valid_tombstone none target known = true
valid_tombstone (some tombstone) target known =
    is_unreachable_target target && same_target tombstone.last_known known

abbrev pub tombstone_of : Option Legacy → Option LegacyTombstone
tombstone_of none = none
tombstone_of (some legacy) = legacy.tombstone

abbrev pub valid_cleaning :
    Bool
    → SessionStateEvidence
    → Target
    → Option Outcome
    → Option Target
    → Option TerminalSessionPayload
    → Bool
valid_cleaning darwin ev target outcome known terminal =
    valid_terminal_payload terminal
    && ((not (is_terminal_target target) || valid_terminal darwin ev outcome)
        && ((not (cleanup_pending ev.legacy) || is_terminal_target target)
            && (bool_eq (is_terminal_target target) (is_some outcome)
                && (bool_eq (is_unreachable_target target) (is_some known)
                    && (bool_eq (is_some terminal)
                          (is_unreachable_target target && is_terminal_known known)
                        && valid_tombstone (tombstone_of ev.legacy) target known)))))

unfoldable pub valid_v2_state : Bool → SessionState → Bool
valid_v2_state darwin (SessionState.terminal ev outcome) = valid_terminal darwin ev (some outcome)
valid_v2_state darwin (SessionState.unreachable ev known terminal) =
    valid_terminal_payload terminal
    && (not (cleanup_pending ev.legacy) && bool_eq (is_terminal_target known) (is_some terminal))
valid_v2_state darwin (SessionState.cleaning ev target outcome known terminal) =
    valid_cleaning darwin ev target outcome known terminal
valid_v2_state darwin (SessionState.creating ev) = not (is_some ev.legacy)
valid_v2_state darwin (SessionState.running ev) = not (is_some ev.legacy)
valid_v2_state darwin (SessionState.stopping ev) = not (is_some ev.legacy)
