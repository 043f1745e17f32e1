-- ===== src/Lifecycle/Status.antt =====
-- The state reducer against the status reducer of lifecycle.ts.
use opencode_pty.Prelude.{
  Bool, true, false, some, ◌≡◌, ◌≢◌, ◌⊎◌, refl, inl, inr, arith, is_some, Bool-cases,
}
use opencode_pty.Session.{
  DaemonStatus, TerminalSessionOutcome as Outcome, SessionState, SessionStateEvidence,
}
use opencode_pty.Lifecycle.Reduce.{
  LifecycleEvent, evidence_from_state, terminal_proven, terminal_event, terminal_or_unreachable,
  cleaning_terminal_or_unreachable, to_unreachable, is_cleaning, reduce_session_state,
  reduce_daemon_status,
}
use opencode_pty.Lifecycle.Project.{outcome_status, project_status}

-- The event ends the child, and the evidence does not prove the end.
pub record IsUnproven (darwin : Bool) (ev : SessionStateEvidence) (event : LifecycleEvent)
    : Type 0 where
  pub outcome : Outcome
  pub ends : terminal_event event ≡ some outcome
  pub unproven : terminal_proven darwin (some outcome) ev ≡ false

-- The status of an ended session: its outcome if the evidence proves it, `lost` if not.
end_status :
    (darwin : Bool) (state : SessionState) (outcome : Outcome) (cleaning : Bool)
    → ((terminal_proven darwin (some outcome) (evidence_from_state state) ≡ true)
        × (project_status (terminal_or_unreachable darwin state outcome cleaning)
            ≡ some (outcome_status outcome)))
      ⊎ ((terminal_proven darwin (some outcome) (evidence_from_state state) ≡ false)
          × (project_status (terminal_or_unreachable darwin state outcome cleaning)
              ≡ some DaemonStatus.lost))
unfolding terminal_or_unreachable cleaning_terminal_or_unreachable project_status
end_status darwin state outcome true =
    elim (Bool-cases (terminal_proven darwin (some outcome) (evidence_from_state state))) [
      | inl p ↦ inl (p, rw p)
      | inr p ↦ inr (p, rw p)
    ]
end_status darwin state outcome false =
    elim (Bool-cases (terminal_proven darwin (some outcome) (evidence_from_state state))) [
      | inl p ↦ inl (p, rw p)
      | inr p ↦ inr (p, rw p)
    ]

lost_status :
    (state : SessionState)
    → project_status (to_unreachable state (is_cleaning state)) ≡ some DaemonStatus.lost
unfolding to_unreachable project_status
lost_status (SessionState.cleaning ev target outcome known terminal) = refl
lost_status _ = refl

-- A terminal event leaves an ended state alone, or ends the state.
reduce_end :
    (darwin : Bool) (state : SessionState) (event : LifecycleEvent) (outcome : Outcome)
    {next : SessionState}
    → terminal_event event ≡ some outcome
    → reduce_session_state darwin state event ≡ some next
    → ((next ≡ state) × (project_status state ≡ some (outcome_status outcome)))
      ⊎ ((cleaning : Bool) × (next ≡ terminal_or_unreachable darwin state outcome cleaning))
unfolding reduce_session_state project_status
reduce_end darwin (SessionState.terminal ev known) event outcome t r =
    inl (unfold terminal_event in ground arith)
reduce_end darwin (SessionState.cleaning ev target known last terminal) event outcome t r =
    inr (true, ground arith)
reduce_end darwin state event outcome t r = inr (false, ground arith)

daemon_end :
    (status : DaemonStatus) (event : LifecycleEvent) (outcome : Outcome) {status' : DaemonStatus}
    → terminal_event event ≡ some outcome
    → reduce_daemon_status status event ≡ some status'
    → status' ≡ outcome_status outcome
unfolding reduce_daemon_status terminal_event
daemon_end status event outcome t d = ground arith

end_case :
    (darwin : Bool) (state : SessionState) (event : LifecycleEvent) (outcome : Outcome)
    {next : SessionState} {status status' : DaemonStatus}
    → terminal_event event ≡ some outcome
    → project_status state ≡ some status
    → ((next ≡ state) × (project_status state ≡ some (outcome_status outcome)))
      ⊎ ((cleaning : Bool) × (next ≡ terminal_or_unreachable darwin state outcome cleaning))
    → reduce_daemon_status status event ≡ some status'
    → (project_status next ≡ some status')
      ⊎ ((project_status next ≡ some DaemonStatus.lost)
          × IsUnproven darwin (evidence_from_state state) event)
end_case darwin state event outcome {status = status} t s (inl (e, p)) d =
    inl (ground (arith, daemon_end status event outcome t d))
end_case darwin state event outcome {status = status} t s (inr (cleaning, e)) d =
    elim (end_status darwin state outcome cleaning) [
      | inl (p, q) ↦ inl (ground (arith, daemon_end status event outcome t d))
      | inr (p, q) ↦ inr (rw e q, record { outcome = outcome; ends = t; unproven = p })
    ]

-- Where the state reducer and the status reducer both accept an event, the status of the new state
-- is the new status, or it is `lost`, the event ends the child and the evidence does not prove that.
pub reduce-status :
    (darwin : Bool) (state : SessionState) (event : LifecycleEvent) {next : SessionState}
    {status status' : DaemonStatus}
    → project_status state ≡ some status
    → reduce_session_state darwin state event ≡ some next
    → reduce_daemon_status status event ≡ some status'
    → (project_status next ≡ some status')
      ⊎ ((project_status next ≡ some DaemonStatus.lost)
          × IsUnproven darwin (evidence_from_state state) event)
unfolding reduce_session_state
reduce-status darwin state LifecycleEvent.unreachable s r d =
    inl (unfold reduce_daemon_status in ground (arith, lost_status state))
reduce-status darwin state LifecycleEvent.child_exited s r d =
    end_case darwin state LifecycleEvent.child_exited Outcome.exited refl s
      (reduce_end darwin state LifecycleEvent.child_exited Outcome.exited refl r) d
reduce-status darwin state LifecycleEvent.timed_out s r d =
    end_case darwin state LifecycleEvent.timed_out Outcome.timed_out refl s
      (reduce_end darwin state LifecycleEvent.timed_out Outcome.timed_out refl r) d
reduce-status darwin state LifecycleEvent.output_limited s r d =
    end_case darwin state LifecycleEvent.output_limited Outcome.output_limited refl s
      (reduce_end darwin state LifecycleEvent.output_limited Outcome.output_limited refl r) d
reduce-status darwin state LifecycleEvent.spawn_failed s r d =
    end_case darwin state LifecycleEvent.spawn_failed Outcome.spawn_failed refl s
      (reduce_end darwin state LifecycleEvent.spawn_failed Outcome.spawn_failed refl r) d
reduce-status darwin state LifecycleEvent.worker_ready s r d =
    inl (unfold reduce_daemon_status project_status in ground arith)
reduce-status darwin state event s r d =
    inl (unfold reduce_daemon_status project_status in ground arith)

-- For a state that is not being cleaned up, and an event that is neither `spawn_failed` nor
-- `recovered`, the state reducer accepts the event exactly when the status reducer does.
pub reduce_acceptance :
    (darwin : Bool) (state : SessionState) (event : LifecycleEvent) {status : DaemonStatus}
    → is_cleaning state ≡ false
    → event ≢ LifecycleEvent.spawn_failed
    → event ≢ LifecycleEvent.recovered
    → project_status state ≡ some status
    → is_some (reduce_session_state darwin state event)
      ≡ is_some (reduce_daemon_status status event)
unfolding reduce_session_state reduce_daemon_status project_status
reduce_acceptance darwin (SessionState.terminal ev Outcome.exited) event c f g s = ground arith
reduce_acceptance darwin (SessionState.terminal ev _) event c f g s = ground arith
reduce_acceptance darwin state event c f g s = ground arith
