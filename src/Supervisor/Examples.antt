-- ===== src/Supervisor/Examples.antt =====
-- The theorem on `transition` of src/daemon/supervisor.ts at a concrete session.
use opencode_pty.Prelude.{true, false, none, [], ◌≡◌, ◌⊎◌, refl}
use opencode_pty.Session.{
  SessionState, SessionRecord, ExecutionMode, SessionLifecycle, EnvironmentKind,
}
use opencode_pty.Lifecycle.Reduce.{LifecycleEvent, evidence_from_state}
use opencode_pty.Lifecycle.Project.{project_status, project_session_state}
use opencode_pty.Lifecycle.Refresh.{evidence_from_view, refresh_session_state, merge_evidence}
use opencode_pty.Lifecycle.Validity.{IsCurrent}
use opencode_pty.Lifecycle.Examples.{ended, ended-IsCurrent}
use opencode_pty.Storage.ValidState.{valid_v2_state}
use opencode_pty.Supervisor.Transition.{transition}
use opencode_pty.Supervisor.TransitionValidity.{IsCoherent, transition-valid}

abbrev pub session : SessionRecord
session = record {
  id = "s1";
  title = "build";
  description = none;
  command = "make";
  args = [];
  mode = ExecutionMode.pty;
  session_name = none;
  idempotency_key = none;
  workdir = "/work";
  owner_project_directory = "/work";
  owner_capability_hash = "c0";
  lifecycle = SessionLifecycle.conversation;
  environment = record {
    kind = EnvironmentKind.safe;
    keys = [];
    fingerprint = "f";
    sensitive = false;
  };
  state = SessionState.running ended;
  status = project_status (SessionState.running ended);
  view = project_session_state (SessionState.running ended);
  created_at = "2026-01-01T00:00:00.000Z";
  last_output_at = none;
  updated_at = "2026-01-01T00:00:00.000Z";
  parent_session_id = "p";
  parent_agent = none;
  timeout_seconds = none;
  next_sequence = 0;
  first_retained_sequence = 0;
  output_bytes = 0;
  output_limit_bytes = none;
  output_truncated = false;
  line_count = 0;
  output_has_partial_line = false;
}

abbrev unchanged : SessionRecord → SessionRecord
unchanged r = r

view-IsCurrent : IsCurrent (evidence_from_view session.view)
unfolding evidence_from_view project_session_state
view-IsCurrent = record { no_legacy = refl; confirmed = λ h. refl }

refreshed-IsCurrent :
    IsCurrent (evidence_from_state (refresh_session_state false session.state session.view))
unfolding evidence_from_state refresh_session_state evidence_from_view project_session_state
    merge_evidence
refreshed-IsCurrent = record { no_legacy = refl; confirmed = λ h. refl }

transition-valid_example :
    (transition false session LifecycleEvent.child_exited unchanged ≡ (session, false))
    ⊎ ((transition false session LifecycleEvent.child_exited unchanged).1 ≡ true)
      × (valid_v2_state false
            (transition false session LifecycleEvent.child_exited unchanged).0.state
          ≡ true)
      × IsCoherent (transition false session LifecycleEvent.child_exited unchanged).0
unfolding valid_v2_state evidence_from_state
transition-valid_example =
    transition-valid false session LifecycleEvent.child_exited unchanged refl ended-IsCurrent
      view-IsCurrent refreshed-IsCurrent
