-- ===== src/Lifecycle/Runs.antt =====
-- Runs of the reducer of lifecycle.ts over any events.
use opencode_pty.Prelude.{Bool, true, false, none, some, ◌≡◌, ◌⊎◌, arith}
use opencode_pty.Session.{
  DaemonStatus, TerminalSessionOutcome as Outcome, TerminalSessionPayload, SessionState,
}
use opencode_pty.Lifecycle.Reduce.{
  LifecycleEvent, evidence_from_state, terminal_payload, terminal_or_unreachable,
  cleaning_terminal_or_unreachable, to_unreachable, reduce_session_state,
}
use opencode_pty.Lifecycle.Project.{outcome_status, project_status}
use opencode_pty.Lifecycle.Validity.{IsCurrent, reduce_session_state-valid}
use opencode_pty.Storage.ValidState.{valid_v2_state}

-- `t` comes from `s` by accepted events.
pub data Reach (darwin : Bool) (s : SessionState) : SessionState → Type 0 where
  here : Reach darwin s s
  next :
      {t u : SessionState} (event : LifecycleEvent)
      → Reach darwin s t
      → reduce_session_state darwin t event ≡ some u
      → Reach darwin s u

-- An event changes the kind of a state and none of its evidence.
pub reduce-evidence :
    (darwin : Bool) (state : SessionState) (event : LifecycleEvent) {next : SessionState}
    → reduce_session_state darwin state event ≡ some next
    → evidence_from_state next ≡ evidence_from_state state
unfolding reduce_session_state evidence_from_state terminal_or_unreachable
    cleaning_terminal_or_unreachable to_unreachable
reduce-evidence darwin (SessionState.terminal ev outcome) event r = ground arith
reduce-evidence darwin (SessionState.cleaning ev target outcome known terminal) event r =
    ground arith
reduce-evidence darwin state event r = ground arith

-- A state that is reached from a valid state of a current session by any accepted events is a valid
-- state of a current session.
pub Reach-valid :
    (darwin : Bool) {s t : SessionState}
    → IsCurrent (evidence_from_state s)
    → valid_v2_state darwin s ≡ true
    → Reach darwin s t
    → IsCurrent (evidence_from_state t) × (valid_v2_state darwin t ≡ true)
Reach-valid darwin c v here = (c, v)
Reach-valid darwin c v (next {t = t} event p e) =
    let (c', v') = Reach-valid darwin c v p in
    (rw (reduce-evidence darwin t event e) c', reduce_session_state-valid darwin t event c' v' e)

abbrev pub is_live : SessionState → Bool
is_live (SessionState.creating ev) = true
is_live (SessionState.running ev) = true
is_live (SessionState.stopping ev) = true
is_live _ = false

-- One event keeps a recorded end.
reduce-payload :
    (darwin : Bool) (state : SessionState) (event : LifecycleEvent) {next : SessionState}
    (payload : TerminalSessionPayload)
    → valid_v2_state darwin state ≡ true
    → reduce_session_state darwin state event ≡ some next
    → terminal_payload state ≡ some payload
    → terminal_payload next ≡ some payload
unfolding reduce_session_state to_unreachable terminal_payload
reduce-payload darwin (SessionState.terminal ev outcome) event payload v r p = ground arith
reduce-payload darwin (SessionState.cleaning ev target outcome known terminal) event payload v r p =
    unfold valid_v2_state in ground arith
reduce-payload darwin (SessionState.unreachable ev known terminal) event payload v r p =
    unfold valid_v2_state in ground arith
reduce-payload darwin state event payload v r p = ground arith

payload-status :
    (darwin : Bool) (state : SessionState) (payload : TerminalSessionPayload) (outcome : Outcome)
    → valid_v2_state darwin state ≡ true
    → terminal_payload state ≡ some payload
    → payload.outcome ≡ some outcome
    → (project_status state ≡ some (outcome_status outcome))
      ⊎ (project_status state ≡ some DaemonStatus.lost)
unfolding terminal_payload project_status valid_v2_state
payload-status darwin (SessionState.terminal ev outcome) payload o v p e = ground arith
payload-status darwin (SessionState.cleaning ev target outcome known terminal) payload o v p e =
    ground arith
payload-status darwin state payload o v p e = ground arith

-- Once a valid state of a current session has recorded how it ended, every state that is reached from
-- it by accepted events has the same record, and its status is that outcome's or `lost`.
pub Reach-payload :
    (darwin : Bool) {s t : SessionState} (payload : TerminalSessionPayload) (outcome : Outcome)
    → IsCurrent (evidence_from_state s)
    → valid_v2_state darwin s ≡ true
    → terminal_payload s ≡ some payload
    → payload.outcome ≡ some outcome
    → Reach darwin s t
    → (terminal_payload t ≡ some payload)
      × ((project_status t ≡ some (outcome_status outcome))
          ⊎ (project_status t ≡ some DaemonStatus.lost))
Reach-payload darwin payload outcome c v p o here =
    (p, payload-status darwin _ payload outcome v p o)
Reach-payload darwin payload outcome c v p o (next {t = t} {u = u} event r e) =
    let (q, s) = Reach-payload darwin payload outcome c v p o r in
    let (c', v') = Reach-valid darwin c v r in
    let q' = reduce-payload darwin t event payload v' e q in
    (
      q',
      payload-status darwin u payload outcome (reduce_session_state-valid darwin t event c' v' e) q'
          o,
    )

-- A creating, running or stopping session that becomes unreachable is running again after
-- `recovered`; if it becomes unreachable a second time before that, `recovered` is refused.
pub recovery_after_loss :
    (darwin : Bool) (state : SessionState) {one two : SessionState}
    → is_live state ≡ true
    → reduce_session_state darwin state LifecycleEvent.unreachable ≡ some one
    → reduce_session_state darwin one LifecycleEvent.unreachable ≡ some two
    → (reduce_session_state darwin one LifecycleEvent.recovered
        ≡ some (SessionState.running (evidence_from_state state)))
      × (reduce_session_state darwin two LifecycleEvent.recovered ≡ none)
unfolding reduce_session_state to_unreachable evidence_from_state
recovery_after_loss darwin (SessionState.creating ev) l r q = ground arith
recovery_after_loss darwin (SessionState.running ev) l r q = ground arith
recovery_after_loss darwin (SessionState.stopping ev) l r q = ground arith
recovery_after_loss darwin state l r q = cc
