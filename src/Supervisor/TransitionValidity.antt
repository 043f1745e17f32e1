-- ===== src/Supervisor/TransitionValidity.antt =====
-- Every accepted transition of supervisor.ts leaves a record that storage.ts persists.
use opencode_pty.Prelude.{Bool, true, false, ◌≡◌, ◌⊎◌, refl, inl, inr, Option-cases}
use opencode_pty.Session.{SessionRecord}
use opencode_pty.Lifecycle.Reduce.{LifecycleEvent, evidence_from_state, reduce_session_state}
use opencode_pty.Lifecycle.Project.{project_status, project_session_state}
use opencode_pty.Lifecycle.Refresh.{evidence_from_view, refresh_session_state}
use opencode_pty.Lifecycle.Validity.{IsCurrent, reduce_session_state-valid}
use opencode_pty.Lifecycle.RefreshValidity.{refresh-valid}
use opencode_pty.Storage.ValidState.{valid_v2_state}
use opencode_pty.Supervisor.Transition.{assign_state, apply_reduction, transition}

-- The flat fields are those of the state.
pub record IsCoherent (r : SessionRecord) : Type 0 where
  pub status_of_state : r.status ≡ project_status r.state
  pub view_of_state : r.view ≡ project_session_state r.state

-- If the record's state is valid and the evidence of the state, of the observed view and of the
-- refreshed state is that of a current session, then a transition is refused and leaves the record as
-- it is, or it is accepted and leaves a valid state, with the flat fields that the state projects to.
pub transition-valid :
    (darwin : Bool) (r : SessionRecord) (event : LifecycleEvent)
    (observe : SessionRecord → SessionRecord)
    → valid_v2_state darwin r.state ≡ true
    → IsCurrent (evidence_from_state r.state)
    → IsCurrent (evidence_from_view (observe r).view)
    → IsCurrent (evidence_from_state (refresh_session_state darwin r.state (observe r).view))
    → (transition darwin r event observe ≡ (r, false))
      ⊎ ((transition darwin r event observe).1 ≡ true)
        × (valid_v2_state darwin (transition darwin r event observe).0.state ≡ true)
        × IsCoherent (transition darwin r event observe).0
unfolding transition assign_state
transition-valid darwin r event observe v c d m =
    let current = refresh_session_state darwin r.state (observe r).view in
    elim (Option-cases (reduce_session_state darwin current event)) [
      | inl e ↦ inl (rw (e, apply_reduction))
      | inr (next, e) ↦ inr (
          rw (e, apply_reduction)
            (
              refl,
              reduce_session_state-valid darwin current event m
                  (refresh-valid darwin r.state (observe r).view c d v) e,
              record { status_of_state = refl; view_of_state = refl },
            ))
    ]
