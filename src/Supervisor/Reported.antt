-- ===== src/Supervisor/Reported.antt =====
-- What the evidence of a session says after a worker's snapshot (src/daemon/supervisor.ts).
use opencode_pty.Prelude.{
  Bool, false, none, some, is_true, ◌≡◌, ◌⊎◌, inl, inr, refl, ap, arith, Bool-cases,
}
use opencode_pty.Session.{SessionRecord, SessionState, SessionStateEvidence, LifecycleView}
use opencode_pty.Lifecycle.Reduce.{
  evidence_from_state, no_child_cleanup, cleaning, cleaning_terminal_or_unreachable,
}
use opencode_pty.Lifecycle.Refresh.{
  evidence_from_view, merge_evidence, refresh_session_state, refresh_terminal, refresh_cleaning,
}
use opencode_pty.Lifecycle.Validity.{IsCurrent}
use opencode_pty.Supervisor.Snapshot.{WorkerSnapshot, snapshot_exit_reason}
use opencode_pty.Supervisor.Finish.{observe}

-- A snapshot never says that no child was started.
pub snapshot-child :
    (result : WorkerSnapshot) → no_child_cleanup (some (snapshot_exit_reason result)) ≡ false
unfolding snapshot_exit_reason
snapshot-child result = ground arith

-- The refreshed evidence is the view's, over the old one where a cleanup is pending.
refresh-evidence :
    (darwin : Bool) (state : SessionState) (view : LifecycleView)
    → (evidence_from_state (refresh_session_state darwin state view) ≡ evidence_from_view view)
      ⊎ (evidence_from_state (refresh_session_state darwin state view)
          ≡ merge_evidence (evidence_from_state state) (evidence_from_view view))
unfolding refresh_session_state evidence_from_state refresh_terminal refresh_cleaning cleaning
    cleaning_terminal_or_unreachable
refresh-evidence darwin (SessionState.terminal old outcome) view = inl (ground arith)
refresh-evidence darwin (SessionState.unreachable old known terminal) view =
    elim (Bool-cases (is_true view.pending_cleanup)) [
      | inl p ↦ inr (ground (arith, p))
      | inr p ↦ inl (ground (arith, p))
    ]
refresh-evidence darwin (SessionState.cleaning old target outcome known terminal) view =
    inl (ground arith)
refresh-evidence darwin (SessionState.creating old) view =
    elim (Bool-cases (is_true view.pending_cleanup)) [
      | inl p ↦ inr (ground (arith, p))
      | inr p ↦ inl (ground (arith, p))
    ]
refresh-evidence darwin (SessionState.running old) view =
    elim (Bool-cases (is_true view.pending_cleanup)) [
      | inl p ↦ inr (ground (arith, p))
      | inr p ↦ inl (ground (arith, p))
    ]
refresh-evidence darwin (SessionState.stopping old) view =
    elim (Bool-cases (is_true view.pending_cleanup)) [
      | inl p ↦ inr (ground (arith, p))
      | inr p ↦ inl (ground (arith, p))
    ]

-- The evidence says what the snapshot says.
pub record Reports (result : WorkerSnapshot) (ev : SessionStateEvidence) : Type 0 where
  pub reason : ev.exit_reason ≡ some (snapshot_exit_reason result)
  pub confirmed : ev.termination.confirmed ≡ result.termination_confirmed
  pub direct : ev.child.direct_exited ≡ some result.direct_child_exited
  pub containment : ev.containment ≡ some result.containment
  pub legacy : ev.legacy ≡ none

-- The record was never migrated from an older version.
pub record NoLegacy (r : SessionRecord) : Type 0 where
  pub no_tombstone : r.view.legacy_tombstone ≡ none
  pub no_pending : r.view.legacy_output_cleanup_pending ≡ none

pub observed-Reports :
    (result : WorkerSnapshot) (r : SessionRecord)
    → NoLegacy r
    → Reports result (evidence_from_view (observe result r).view)
unfolding evidence_from_view observe
observed-Reports result r n = record {
  reason = refl;
  confirmed = refl;
  direct = refl;
  containment = refl;
  legacy = ground (arith, n.no_tombstone, n.no_pending);
}

merged-Reports :
    (result : WorkerSnapshot) (old new : SessionStateEvidence)
    → old.legacy ≡ none
    → Reports result new
    → Reports result (merge_evidence old new)
unfolding merge_evidence
merged-Reports result old new l n = record {
  reason = ground (arith, n.reason);
  confirmed = n.confirmed;
  direct = n.direct;
  containment = ground (arith, n.containment);
  legacy = ground (arith, n.legacy, l);
}

pub Reports-IsCurrent :
    (result : WorkerSnapshot) (ev : SessionStateEvidence) → Reports result ev → IsCurrent ev
Reports-IsCurrent result ev n = record {
  no_legacy = n.legacy;
  confirmed = λ h. ground (arith, h, ap no_child_cleanup n.reason, snapshot-child result);
}

pub refreshed-Reports :
    (darwin : Bool) (result : WorkerSnapshot) (r : SessionRecord)
    → IsCurrent (evidence_from_state r.state)
    → NoLegacy r
    → Reports result
        (evidence_from_state (refresh_session_state darwin r.state (observe result r).view))
refreshed-Reports darwin result r c n =
    elim (refresh-evidence darwin r.state (observe result r).view) [
      | inl e ↦ rw e (observed-Reports result r n)
      | inr e ↦ rw e (
          merged-Reports result (evidence_from_state r.state)
            (evidence_from_view (observe result r).view) c.no_legacy (observed-Reports result r n))
    ]
