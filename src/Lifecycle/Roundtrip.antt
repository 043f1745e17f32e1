-- ===== src/Lifecycle/Roundtrip.antt =====
-- `refreshSessionState` after `projectSessionState`: the flat view keeps what a state holds.
use opencode_pty.Prelude.{
  String, eq_iff, Bool, true, false, Option, none, some, ◌≡◌, ◌≢◌, refl, arith,
}
use opencode_pty.Session.{
  SessionStateTarget as Target, TerminalSessionOutcome as Outcome, TerminalSessionPayload, Legacy,
  SessionStateEvidence, SessionState,
}
use opencode_pty.Lifecycle.Reduce.{
  evidence_from_state, terminal_proven, cleaning_terminal_or_unreachable,
}
use opencode_pty.Lifecycle.Project.{
  project_session_state, legacy_tombstone, legacy_cleanup_pending, state_pending_cleanup,
}
use opencode_pty.Lifecycle.Refresh.{
  nonempty, legacy_evidence, evidence_from_view, refresh_terminal, refresh_session_state,
}
use opencode_pty.Storage.ValidState.{valid_terminal, valid_cleaning, valid_v2_state}

-- The keys that JavaScript's truthiness drops are not there: an empty failure text, and a legacy
-- part with nothing in it.
pub record IsNormal (ev : SessionStateEvidence) : Type 0 where
  pub failure_text : ev.storage_failure ≢ some ""
  pub legacy_part :
      (legacy : Legacy)
      → ev.legacy ≡ some legacy
      → legacy ≢ record { tombstone = none; output_cleanup_pending = false }

nonempty_id : (text : Option String) → text ≢ some "" → nonempty text ≡ text
nonempty_id none h = refl
nonempty_id (some text) h = ground (arith, eq_iff text "")

legacy_id :
    (legacy : Option Legacy)
    → ((l : Legacy)
        → legacy ≡ some l
        → l ≢ record { tombstone = none; output_cleanup_pending = false })
    → legacy_evidence (legacy_tombstone legacy) (legacy_cleanup_pending legacy) ≡ legacy
legacy_id none h = refl
legacy_id (some l) h = ground (arith, h l refl)

evidence_id :
    (state : SessionState)
    → IsNormal (evidence_from_state state)
    → evidence_from_view (project_session_state state) ≡ evidence_from_state state
unfolding evidence_from_view project_session_state
evidence_id state n = cc (
  nonempty_id (evidence_from_state state).storage_failure n.failure_text,
  legacy_id (evidence_from_state state).legacy n.legacy_part,
)

pending_id :
    (state : SessionState)
    → (project_session_state state).pending_cleanup ≡ state_pending_cleanup state
unfolding project_session_state
pending_id state = refl

proven :
    (darwin : Bool) (ev : SessionStateEvidence) (outcome : Option Outcome)
    → valid_terminal darwin ev outcome ≡ true
    → terminal_proven darwin outcome ev ≡ true
unfolding terminal_proven
proven darwin ev outcome v = ground arith

refresh_terminal_id :
    (darwin : Bool) (ev : SessionStateEvidence) (outcome : Outcome)
    → valid_terminal darwin ev (some outcome) ≡ true
    → refresh_terminal darwin ev outcome false ≡ SessionState.terminal ev outcome
unfolding refresh_terminal
refresh_terminal_id darwin ev outcome v = rw (proven darwin ev (some outcome) v)

cleaning_terminal_id :
    (darwin : Bool) (ev : SessionStateEvidence) (outcome : Option Outcome) (known : Option Target)
    (terminal : Option TerminalSessionPayload)
    → valid_cleaning darwin ev Target.terminal outcome known terminal ≡ true
    → cleaning_terminal_or_unreachable darwin ev outcome
      ≡ SessionState.cleaning ev Target.terminal outcome known terminal
unfolding cleaning_terminal_or_unreachable
cleaning_terminal_id darwin ev outcome known terminal v = ground (arith, proven darwin ev outcome)

-- Refreshing a state by its own flat view gives the state back, if `validV2State` accepts the state
-- and its evidence has no empty failure text and no empty legacy part.
pub refresh-project :
    (darwin : Bool) (state : SessionState)
    → IsNormal (evidence_from_state state)
    → valid_v2_state darwin state ≡ true
    → refresh_session_state darwin state (project_session_state state) ≡ state
unfolding refresh_session_state evidence_from_state valid_v2_state
refresh-project darwin (SessionState.terminal ev outcome) n v =
    rw
      (
        evidence_id (SessionState.terminal ev outcome) n,
        pending_id (SessionState.terminal ev outcome),
      )
      (refresh_terminal_id darwin ev outcome v)
refresh-project darwin (SessionState.cleaning ev Target.terminal outcome known terminal) n v =
    rw (evidence_id (SessionState.cleaning ev Target.terminal outcome known terminal) n)
      (cleaning_terminal_id darwin ev outcome known terminal v)
refresh-project darwin (SessionState.cleaning ev Target.creating outcome known terminal) n v =
    rw (evidence_id (SessionState.cleaning ev Target.creating outcome known terminal) n)
refresh-project darwin (SessionState.cleaning ev Target.running outcome known terminal) n v =
    rw (evidence_id (SessionState.cleaning ev Target.running outcome known terminal) n)
refresh-project darwin (SessionState.cleaning ev Target.stopping outcome known terminal) n v =
    rw (evidence_id (SessionState.cleaning ev Target.stopping outcome known terminal) n)
refresh-project darwin (SessionState.cleaning ev Target.unreachable outcome known terminal) n v =
    rw (evidence_id (SessionState.cleaning ev Target.unreachable outcome known terminal) n)
refresh-project darwin (SessionState.unreachable ev known terminal) n v = rw (
  evidence_id (SessionState.unreachable ev known terminal) n,
  pending_id (SessionState.unreachable ev known terminal),
)
refresh-project darwin (SessionState.creating ev) n v =
    rw (evidence_id (SessionState.creating ev) n, pending_id (SessionState.creating ev))
refresh-project darwin (SessionState.running ev) n v =
    rw (evidence_id (SessionState.running ev) n, pending_id (SessionState.running ev))
refresh-project darwin (SessionState.stopping ev) n v =
    rw (evidence_id (SessionState.stopping ev) n, pending_id (SessionState.stopping ev))
