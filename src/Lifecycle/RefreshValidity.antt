-- ===== src/Lifecycle/RefreshValidity.antt =====
-- `refreshSessionState` of lifecycle.ts gives states that storage.ts accepts.
use opencode_pty.Prelude.{
  Bool, true, Option, none, some, ◌≡◌, inl, inr, arith, Bool-cases, or_else, is_true,
}
use opencode_pty.Session.{
  TerminalSessionOutcome as Outcome, SessionStateTarget as Target, TerminalSessionPayload,
  SessionState, SessionStateEvidence, LifecycleView,
}
use opencode_pty.Lifecycle.Reduce.{evidence_from_state, terminal_proven, cleaning}
use opencode_pty.Lifecycle.Refresh.{
  evidence_from_view, merge_evidence, refresh_terminal, refresh_cleaning, refresh_session_state,
}
use opencode_pty.Lifecycle.Validity.{
  IsCurrent, proven-valid, cleaning_terminal_or_unreachable-valid,
}
use opencode_pty.Storage.ValidState.{valid_v2_state}

refresh_terminal-valid :
    (darwin : Bool) (ev : SessionStateEvidence) (outcome : Outcome) (pending : Bool)
    → IsCurrent ev
    → valid_v2_state darwin (refresh_terminal darwin ev outcome pending) ≡ true
unfolding refresh_terminal cleaning valid_v2_state
refresh_terminal-valid darwin ev outcome pending c =
    elim (Bool-cases (terminal_proven darwin (some outcome) ev)) [
      | inl p ↦ rw p (ground (arith, proven-valid darwin ev outcome c p))
      | inr p ↦ rw p (ground arith)
    ]

merge-legacy :
    (old new : SessionStateEvidence)
    → (merge_evidence old new).legacy ≡ or_else new.legacy old.legacy
unfolding merge_evidence
merge-legacy old new = ground arith

refresh_cleaning-valid :
    (darwin : Bool) (old ev : SessionStateEvidence) (target : Target) (outcome : Option Outcome)
    (known : Option Target) (terminal : Option TerminalSessionPayload)
    → IsCurrent ev
    → valid_v2_state darwin (SessionState.cleaning old target outcome known terminal) ≡ true
    → valid_v2_state darwin (refresh_cleaning darwin ev target outcome known terminal) ≡ true
unfolding refresh_cleaning valid_v2_state
refresh_cleaning-valid darwin old ev Target.terminal (some outcome) known terminal c v =
    cleaning_terminal_or_unreachable-valid darwin ev outcome c
refresh_cleaning-valid darwin old ev Target.terminal none known terminal c v = ground arith
refresh_cleaning-valid darwin old ev target outcome known terminal c v = ground (arith, c.no_legacy)

-- `refreshSessionState` of a state that `validV2State` accepts, with a flat view, is a state that
-- `validV2State` accepts, if the state's evidence and the view's are those of a current session.
pub refresh-valid :
    (darwin : Bool) (state : SessionState) (view : LifecycleView)
    → IsCurrent (evidence_from_state state)
    → IsCurrent (evidence_from_view view)
    → valid_v2_state darwin state ≡ true
    → valid_v2_state darwin (refresh_session_state darwin state view) ≡ true
unfolding refresh_session_state evidence_from_state
refresh-valid darwin (SessionState.terminal ev outcome) view c d v =
    refresh_terminal-valid darwin (evidence_from_view view) outcome (is_true view.pending_cleanup) d
refresh-valid darwin (SessionState.cleaning ev target outcome known terminal) view c d v =
    refresh_cleaning-valid darwin ev (evidence_from_view view) target outcome known terminal d v
refresh-valid darwin (SessionState.unreachable ev known terminal) view c d v =
    unfold valid_v2_state cleaning in
    ground (arith, c.no_legacy, d.no_legacy, merge-legacy ev (evidence_from_view view))
refresh-valid darwin (SessionState.creating ev) view c d v =
    unfold valid_v2_state cleaning in
    ground (arith, c.no_legacy, d.no_legacy, merge-legacy ev (evidence_from_view view))
refresh-valid darwin (SessionState.running ev) view c d v =
    unfold valid_v2_state cleaning in
    ground (arith, c.no_legacy, d.no_legacy, merge-legacy ev (evidence_from_view view))
refresh-valid darwin (SessionState.stopping ev) view c d v =
    unfold valid_v2_state cleaning in
    ground (arith, c.no_legacy, d.no_legacy, merge-legacy ev (evidence_from_view view))
