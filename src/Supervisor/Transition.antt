-- ===== src/Supervisor/Transition.antt =====
-- `transition` of src/daemon/supervisor.ts: one lifecycle event applied to a session record.
use opencode_pty.Prelude.{Bool, true, false, Option, none, some}
use opencode_pty.Session.{SessionState, SessionRecord}
use opencode_pty.Lifecycle.Reduce.{LifecycleEvent, reduce_session_state}
use opencode_pty.Lifecycle.Project.{project_status, project_session_state}
use opencode_pty.Lifecycle.Refresh.{refresh_session_state}

-- `Object.assign(record, projectSessionState(record.state))`
unfoldable pub assign_state : SessionRecord → SessionState → SessionRecord
assign_state record' state = record record' {
  state = state;
  status = project_status state;
  view = project_session_state state;
}

-- The reducer's part, over the observed record.
unfoldable pub apply_reduction :
    SessionRecord → SessionRecord → Option SessionState → SessionRecord × Bool
apply_reduction original observed none = (original, false)
apply_reduction original observed (some next) = (assign_state observed next, true)

-- `observe` spreads the observations over a record; it gives no `state` of its own.
unfoldable pub transition :
    Bool → SessionRecord → LifecycleEvent → (SessionRecord → SessionRecord) → SessionRecord × Bool
unfolding apply_reduction
transition darwin original event observe =
    let observed = observe original in
    let current = refresh_session_state darwin original.state observed.view in
    apply_reduction original observed (reduce_session_state darwin current event)
