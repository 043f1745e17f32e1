-- ===== src/Lifecycle/Validity.antt =====
-- The states that the reducer of lifecycle.ts produces are states that storage.ts accepts.
use opencode_pty.Prelude.{
  Bool, true, false, Option, none, some, ◌≡◌, refl, inl, inr, arith, Bool-cases,
}
use opencode_pty.Session.{
  SessionStateTarget as Target, TerminalSessionPayload, TerminalSessionOutcome as Outcome,
  SessionStateEvidence, SessionState,
}
use opencode_pty.Lifecycle.Reduce.{
  LifecycleEvent, no_child_cleanup, evidence_from_state, reduce_session_state, terminal_proven,
  terminal_or_unreachable, to_unreachable, is_cleaning, cleaning_terminal_or_unreachable,
}
use opencode_pty.Storage.ValidState.{valid_v2_state}

-- The evidence is of a current session, with no legacy part, and a confirmed cleanup of a spawn
-- that started no child is also a confirmed termination.
pub record IsCurrent (ev : SessionStateEvidence) : Type 0 where
  pub no_legacy : ev.legacy ≡ none
  pub confirmed : no_child_cleanup ev.exit_reason ≡ true → ev.termination.confirmed ≡ true

-- A proven terminal outcome passes the tests of storage.ts.
pub proven-valid :
    (darwin : Bool) (ev : SessionStateEvidence) (outcome : Outcome)
    → IsCurrent ev
    → terminal_proven darwin (some outcome) ev ≡ true
    → valid_v2_state darwin (SessionState.terminal ev outcome) ≡ true
unfolding valid_v2_state terminal_proven
proven-valid darwin ev Outcome.spawn_failed c p = ground arith
proven-valid darwin ev _ c p = ground arith

terminal_or_unreachable-valid :
    (darwin : Bool) (state : SessionState) (outcome : Outcome)
    → IsCurrent (evidence_from_state state)
    → valid_v2_state darwin (terminal_or_unreachable darwin state outcome false) ≡ true
unfolding valid_v2_state terminal_or_unreachable
terminal_or_unreachable-valid darwin state outcome c =
    elim (Bool-cases (terminal_proven darwin (some outcome) (evidence_from_state state))) [
      | inl p ↦ rw p (proven-valid darwin (evidence_from_state state) outcome c p)
      | inr p ↦ rw (p, c.no_legacy)
    ]

to_unreachable-valid :
    (darwin : Bool) (state : SessionState)
    → IsCurrent (evidence_from_state state)
    → valid_v2_state darwin state ≡ true
    → valid_v2_state darwin (to_unreachable state false) ≡ true
unfolding valid_v2_state to_unreachable
to_unreachable-valid darwin (SessionState.terminal ev outcome) c v = ground arith
to_unreachable-valid darwin (SessionState.cleaning ev target outcome known terminal) c v =
    ground arith
to_unreachable-valid darwin (SessionState.creating ev) c v = ground arith
to_unreachable-valid darwin (SessionState.running ev) c v = ground arith
to_unreachable-valid darwin (SessionState.stopping ev) c v = ground arith
to_unreachable-valid darwin (SessionState.unreachable ev known terminal) c v = ground arith

pub cleaning_terminal_or_unreachable-valid :
    (darwin : Bool) (ev : SessionStateEvidence) (outcome : Outcome)
    → IsCurrent ev
    → valid_v2_state darwin (cleaning_terminal_or_unreachable darwin ev (some outcome)) ≡ true
unfolding valid_v2_state cleaning_terminal_or_unreachable
cleaning_terminal_or_unreachable-valid darwin ev outcome c =
    elim (Bool-cases (terminal_proven darwin (some outcome) ev)) [
      | inl p ↦ rw (p, c.no_legacy) (ground (arith, proven-valid darwin ev outcome c p))
      | inr p ↦ rw (p, c.no_legacy)
    ]

to_unreachable-cleaning-valid :
    (darwin : Bool) (ev : SessionStateEvidence) (target : Target) (outcome : Option Outcome)
    (known : Option Target) (terminal : Option TerminalSessionPayload)
    → IsCurrent ev
    → valid_v2_state darwin (SessionState.cleaning ev target outcome known terminal) ≡ true
    → valid_v2_state darwin
        (to_unreachable (SessionState.cleaning ev target outcome known terminal) true)
      ≡ true
unfolding valid_v2_state to_unreachable
to_unreachable-cleaning-valid darwin ev target outcome known terminal c v = ground arith

reduce_cleaning-valid :
    (darwin : Bool) (ev : SessionStateEvidence) (target : Target) (outcome : Option Outcome)
    (known : Option Target) (terminal : Option TerminalSessionPayload) (event : LifecycleEvent)
    {next : SessionState}
    → IsCurrent ev
    → valid_v2_state darwin (SessionState.cleaning ev target outcome known terminal) ≡ true
    → reduce_session_state darwin (SessionState.cleaning ev target outcome known terminal) event
      ≡ some next
    → valid_v2_state darwin next ≡ true
unfolding reduce_session_state terminal_or_unreachable
reduce_cleaning-valid darwin ev target outcome known terminal LifecycleEvent.unreachable c v r =
    ground (arith, to_unreachable-cleaning-valid darwin ev target outcome known terminal c v)
reduce_cleaning-valid darwin ev target outcome known terminal LifecycleEvent.stop_requested c v r =
    unfold valid_v2_state in ground arith
reduce_cleaning-valid darwin ev target outcome known terminal LifecycleEvent.child_exited c v r =
    ground (arith, cleaning_terminal_or_unreachable-valid darwin ev Outcome.exited c)
reduce_cleaning-valid darwin ev target outcome known terminal LifecycleEvent.timed_out c v r =
    ground (arith, cleaning_terminal_or_unreachable-valid darwin ev Outcome.timed_out c)
reduce_cleaning-valid darwin ev target outcome known terminal LifecycleEvent.output_limited c v r =
    ground (arith, cleaning_terminal_or_unreachable-valid darwin ev Outcome.output_limited c)
reduce_cleaning-valid darwin ev target outcome known terminal LifecycleEvent.spawn_failed c v r =
    ground (arith, cleaning_terminal_or_unreachable-valid darwin ev Outcome.spawn_failed c)
reduce_cleaning-valid darwin ev target outcome known terminal _ c v r = ground arith

-- A state that is not being cleaned up and is not unreachable ends by a terminal event.
live-valid :
    (darwin : Bool) (state : SessionState) (event : LifecycleEvent) {next : SessionState}
    → IsCurrent (evidence_from_state state)
    → valid_v2_state darwin state ≡ true
    → is_cleaning state ≡ false
    → reduce_session_state darwin state event ≡ some next
    → valid_v2_state darwin next ≡ true
unfolding reduce_session_state
live-valid darwin state LifecycleEvent.unreachable c v l r =
    ground (arith, to_unreachable-valid darwin state c v)
live-valid darwin state LifecycleEvent.child_exited c v l r =
    ground (arith, terminal_or_unreachable-valid darwin state Outcome.exited c)
live-valid darwin state LifecycleEvent.timed_out c v l r =
    ground (arith, terminal_or_unreachable-valid darwin state Outcome.timed_out c)
live-valid darwin state LifecycleEvent.output_limited c v l r =
    ground (arith, terminal_or_unreachable-valid darwin state Outcome.output_limited c)
live-valid darwin state LifecycleEvent.spawn_failed c v l r =
    ground (arith, terminal_or_unreachable-valid darwin state Outcome.spawn_failed c)
live-valid darwin (SessionState.terminal ev outcome) event c v l r = ground arith
live-valid darwin (SessionState.unreachable ev known terminal) event c v l r =
    unfold valid_v2_state evidence_from_state in ground (arith, c.no_legacy)
live-valid darwin state event c v l r = unfold valid_v2_state in ground arith

-- For a current session (no legacy part, and a confirmed cleanup that started no child is a
-- confirmed termination), the reducer takes a state that `validV2State` accepts, by any event that
-- it accepts, to a state that `validV2State` accepts.
pub reduce_session_state-valid :
    (darwin : Bool) (state : SessionState) (event : LifecycleEvent) {next : SessionState}
    → IsCurrent (evidence_from_state state)
    → valid_v2_state darwin state ≡ true
    → reduce_session_state darwin state event ≡ some next
    → valid_v2_state darwin next ≡ true
unfolding evidence_from_state
reduce_session_state-valid darwin (SessionState.cleaning ev target outcome known terminal) event c v
      r =
    reduce_cleaning-valid darwin ev target outcome known terminal event c v r
reduce_session_state-valid darwin state event c v r = live-valid darwin state event c v refl r
