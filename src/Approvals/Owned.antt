-- ===== src/Approvals/Owned.antt =====
-- What a handler on an owned request does, by the request that its id finds.
use opencode_pty.Prelude.{String, true, some, ◌≡◌, ◌⊎◌, inl, inr, arith, Bool-cases, Option-cases}
use opencode_pty.Rpc.Result.{ok, err, FailureCode}
use opencode_pty.Approvals.Ledger.{
  ApprovalRequest, ApprovalLedger, Owner, find_request, approval_owned, owns_request,
}

-- What the handler needs to answer.
pub record IsOwned (ledger : ApprovalLedger) (owner : Owner) (id : String) : Type 0 where
  pub request : ApprovalRequest
  pub found : find_request id ledger.requests ≡ some request
  pub owns : owns_request owner request ≡ true

pub owned_ok :
    (ledger : ApprovalLedger) (owner : Owner) (id : String) (o : IsOwned ledger owner id)
    → approval_owned ledger owner id ≡ ok o.request
unfolding approval_owned
owned_ok ledger owner id o = ground (arith, o.found, o.owns)

pub owned_or_refused :
    (ledger : ApprovalLedger) (owner : Owner) (id : String)
    → IsOwned ledger owner id ⊎ ((code : FailureCode) × (approval_owned ledger owner id ≡ err code))
unfolding approval_owned
owned_or_refused ledger owner id = elim (Option-cases (find_request id ledger.requests)) [
  | inl h ↦ inr (FailureCode.not_found, ground (arith, h))
  | inr (r, h) ↦ elim (Bool-cases (owns_request owner r)) [
    | inl o ↦ inl (record { request = r; found = h; owns = o })
    | inr n ↦ inr (FailureCode.authorization, ground (arith, h, n))
  ]
]
