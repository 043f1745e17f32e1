-- ===== src/Supervisor/Proven.antt =====
-- What a worker's snapshot makes of a session (src/daemon/supervisor.ts).
use opencode_pty.Prelude.{
  ℕ, String, Bool, true, false, not, ◌&&◌, ◌||◌, some, List, [], ◌∷◌, ◌≡◌, ◌⊎◌, inl, inr, refl,
  ◌==◌, ap, arith, Bool-cases, Option-cases,
}
use opencode_pty.Session.{SessionRecord, SessionState, SessionStateTarget as Target}
use opencode_pty.Lifecycle.Reduce.{
  evidence_from_state, no_child_cleanup, drained_containment, reduce_session_state,
}
use opencode_pty.Lifecycle.Refresh.{evidence_from_view, refresh_session_state}
use opencode_pty.Lifecycle.Validity.{IsCurrent, reduce_session_state-valid}
use opencode_pty.Lifecycle.RefreshValidity.{refresh-valid}
use opencode_pty.Lifecycle.Runs.{reduce-evidence}
use opencode_pty.Storage.ValidState.{valid_v2_state}
use opencode_pty.Supervisor.Transition.{transition, assign_state, apply_reduction}
use opencode_pty.Supervisor.Snapshot.{WorkerSnapshot, worker_event}
use opencode_pty.Supervisor.Finish.{
  FinishEnd, Finishing, observe, assign_output, finish_accepted, finish_native_version,
  finish_native_in_lane,
}
use opencode_pty.Supervisor.Reported.{
  Reports, NoLegacy, snapshot-child, observed-Reports, Reports-IsCurrent, refreshed-Reports,
}

-- The session has ended, or is to be cleaned up after its end.
abbrev pub has_ended : SessionState → Bool
has_ended (SessionState.terminal ev outcome) = true
has_ended (SessionState.cleaning ev Target.terminal outcome known terminal) = true
has_ended _ = false

-- The snapshot proves that the child and all that it started are gone.
abbrev pub proves_end : Bool → WorkerSnapshot → Bool
proves_end darwin result =
    result.termination_confirmed
    && (result.direct_child_exited && (drained_containment (some result.containment) || darwin))

has_ended-proves_end :
    (darwin : Bool) (result : WorkerSnapshot) (state : SessionState)
    → Reports result (evidence_from_state state)
    → valid_v2_state darwin state ≡ true
    → has_ended state ≡ true
    → proves_end darwin result ≡ true
unfolding valid_v2_state evidence_from_state
has_ended-proves_end darwin result (SessionState.terminal ev outcome) n v h = ground (
  arith,
  v,
  n.confirmed,
  n.direct,
  n.containment,
  ap no_child_cleanup n.reason,
  snapshot-child result,
)
has_ended-proves_end darwin result (SessionState.cleaning ev Target.terminal outcome known terminal)
      n v h =
    ground (
      arith,
      v,
      n.confirmed,
      n.direct,
      n.containment,
      ap no_child_cleanup n.reason,
      snapshot-child result,
    )
has_ended-proves_end darwin result (SessionState.cleaning ev Target.creating outcome known terminal)
      n v h =
    ground (arith, h)
has_ended-proves_end darwin result (SessionState.cleaning ev Target.running outcome known terminal)
      n v h =
    ground (arith, h)
has_ended-proves_end darwin result (SessionState.cleaning ev Target.stopping outcome known terminal)
      n v h =
    ground (arith, h)
has_ended-proves_end darwin result
      (SessionState.cleaning ev Target.unreachable outcome known terminal) n v h =
    ground (arith, h)
has_ended-proves_end darwin result (SessionState.unreachable ev known terminal) n v h =
    ground (arith, h)
has_ended-proves_end darwin result (SessionState.creating ev) n v h = ground (arith, h)
has_ended-proves_end darwin result (SessionState.running ev) n v h = ground (arith, h)
has_ended-proves_end darwin result (SessionState.stopping ev) n v h = ground (arith, h)

-- What the first write of a finished snapshot holds.
pub record IsWritten (darwin : Bool) (now : String) (result : WorkerSnapshot) (r : SessionRecord)
    (f : Finishing) : Type 0 where
  pub first : SessionRecord
  pub rest : List SessionRecord
  pub in_order : f.writes ≡ first ∷ rest
  pub valid : valid_v2_state darwin first.state ≡ true
  pub ended : has_ended first.state ≡ true → proves_end darwin result ≡ true
  pub same_id : first.id ≡ r.id
  pub counted : first.next_sequence ≡ result.next_sequence
  pub lines : first.line_count ≡ result.output_line_count
  pub updated : first.updated_at ≡ now

accepted-IsWritten :
    (darwin stored : Bool) (now error : String) (result : WorkerSnapshot) (r : SessionRecord)
    (next : SessionState)
    → valid_v2_state darwin next ≡ true
    → (has_ended next ≡ true → proves_end darwin result ≡ true)
    → IsWritten darwin now result r (
        finish_accepted darwin stored now error result r
          (assign_state (observe result r) next, true))
unfolding assign_output assign_state observe
accepted-IsWritten darwin true now error result r next v p = record {
  first = assign_output result now (assign_state (observe result r) next);
  rest = _;
  in_order = refl;
  valid = v;
  ended = p;
  same_id = refl;
  counted = refl;
  lines = refl;
  updated = refl;
}
accepted-IsWritten darwin false now error result r next v p = record {
  first = assign_output result now (assign_state (observe result r) next);
  rest = _;
  in_order = refl;
  valid = v;
  ended = p;
  same_id = refl;
  counted = refl;
  lines = refl;
  updated = refl;
}

-- For a session with a valid state that was never migrated: a snapshot is dropped and changes and
-- writes nothing, if the record was replaced, the version went on, or the transition is refused; or
-- the record that is written first has a state that storage.ts accepts, the session's id, the
-- snapshot's cursor and lines and the time, and it says that the session has ended only if the
-- snapshot proves it: the termination is confirmed, the direct child is gone, and the containment is
-- empty or the platform is darwin.
pub finish_native_in_lane-IsWritten :
    (darwin stored : Bool) (now error : String) (same_record : Bool) (taken version : ℕ)
    (result : WorkerSnapshot) (r : SessionRecord)
    → valid_v2_state darwin r.state ≡ true
    → IsCurrent (evidence_from_state r.state)
    → NoLegacy r
    → (finish_native_in_lane darwin stored now error same_record taken version result r
        ≡ record { session = r; writes = []; end = FinishEnd.refused })
      ⊎ (same_record ≡ true)
        × (taken ≡ version)
        × IsWritten darwin now result r
            (finish_native_in_lane darwin stored now error same_record taken version result r)
unfolding finish_native_in_lane finish_native_version transition
finish_native_in_lane-IsWritten darwin stored now error same_record taken version result r v c n =
    elim (Bool-cases (not same_record || not (taken == version))) [
      | inl drop ↦ inl (rw drop refl)
      | inr go ↦ elim (Option-cases (reduce_session_state darwin current (worker_event result))) [
        | inl e ↦ inl (rw (go, e, apply_reduction) refl)
        | inr (next, e) ↦
            let valid : valid_v2_state darwin next ≡ true =
              reduce_session_state-valid darwin current (worker_event result)
                (Reports-IsCurrent result (evidence_from_state current) reports)
                (refresh-valid darwin r.state (observe result r).view c
                  (Reports-IsCurrent result (evidence_from_view (observe result r).view)
                    (observed-Reports result r n))
                  v)
                e in
            let same : evidence_from_state next ≡ evidence_from_state current =
              reduce-evidence darwin current (worker_event result) e in
            inr (
              ground (arith, go),
              ground (arith, go),
              rw (go, e, apply_reduction)
                  (accepted-IsWritten darwin stored now error result r next valid
                    (has_ended-proves_end darwin result next (rw same reports) valid)),
            )
      ]
    ]
  where
    current : SessionState
    current = refresh_session_state darwin r.state (observe result r).view

    reports : Reports result (evidence_from_state current)
    reports = refreshed-Reports darwin result r c n
