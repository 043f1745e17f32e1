-- ===== src/Approvals/Runs.antt =====
-- The approval ledger over a sequence of operations, by any owners at any times.
use opencode_pty.Prelude.{
  ℕ, String, none, some, Option, List, [], ◌∷◌, ◌≡◌, ◌≢◌, inl, inr, arith, Option-cases,
}
use opencode_pty.Approvals.Ledger.{ApprovalRequest, Owner, find_request}
use opencode_pty.Approvals.Intent.{Host}
use opencode_pty.Approvals.Queue.{Daemon}
use opencode_pty.Approvals.Calls.{Call, step}
use opencode_pty.Approvals.Find.{UniqueIds}
use opencode_pty.Approvals.Keeps.{Keeps, Keeps-refl, Keeps-trans}
use opencode_pty.Approvals.Change.{drawn_id}
use opencode_pty.Approvals.StepKeeps.{Later, IsNew, step-Later, step-none, step-UniqueIds}

pub record Event : Type 0 where
  pub owner : Owner
  pub now : ℕ
  pub call : Call

unfoldable pub run : Host → List Event → Daemon → Daemon
run host [] d = d
run host (e ∷ events) d = run host events (step host e.owner e.now e.call d)

-- Every id that is drawn is new when it is drawn, and none is `id`.
unfoldable pub DrawsNew : Host → String → List Event → Daemon → Type 0
DrawsNew host id [] d = Unit
DrawsNew host id (e ∷ events) d =
    (drawn_id e.call ≢ some id)
    × IsNew (drawn_id e.call) d.ledger.requests
    × DrawsNew host id events (step host e.owner e.now e.call d)

run-none :
    (host : Host) (id : String) (events : List Event) (d : Daemon)
    → DrawsNew host id events d
    → find_request id d.ledger.requests ≡ none
    → find_request id (run host events d).ledger.requests ≡ none
unfolding run DrawsNew
run-none host id [] d n h = h
run-none host id (e ∷ events) d n h =
    run-none host id events _ n.2 (step-none host e.owner e.now e.call d id n.0 h)

trans-Later :
    {r s : ApprovalRequest} (last : Option ApprovalRequest)
    → Keeps r s
    → Later s last
    → Later r last
trans-Later none k l = tt
trans-Later (some t) k l = Keeps-trans k l

-- A request over any sequence of operations, by any owners, if the ids of the ledger are apart and
-- every id drawn is new and is not the request's: the request is gone afterwards, or it asks for the
-- same as before, its status has moved along its life, and if it was closed, then it is unchanged.
pub run-Later :
    (host : Host) (id : String) (events : List Event) (d : Daemon) (r : ApprovalRequest)
    → UniqueIds d.ledger.requests
    → DrawsNew host id events d
    → find_request id d.ledger.requests ≡ some r
    → Later r (find_request id (run host events d).ledger.requests)
unfolding run DrawsNew
run-Later host id [] d r u n h = ground (arith, Keeps-refl r)
run-Later host id (e ∷ events) d r u n h =
    let d' = step host e.owner e.now e.call d in
    elim (Option-cases (find_request id d'.ledger.requests)) [
      | inl gone ↦ ground (arith, run-none host id events d' n.2 gone)
      | inr (s, there) ↦
          trans-Later (find_request id (run host events d').ledger.requests)
            (ground (arith, step-Later host e.owner e.now e.call d u id r h))
            (run-Later host id events d' s (step-UniqueIds host e.owner e.now e.call d n.1 u) n.2
              there)
    ]
