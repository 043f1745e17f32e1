-- ===== src/Approvals/Queue.antt =====
-- The daemon's approval state, and `withApprovals` of src/daemon/server.ts: an update reads the
-- ledger and its result is written back, unless the update throws. The claim tokens are in memory
-- and keep what the update did to them in either case.
use opencode_pty.Prelude.{ℕ, String, List, ◌++◌}
use opencode_pty.Rpc.Result.{Result, ok, err, ◌>>=◌}
use opencode_pty.Approvals.Ledger.{
  ApprovalRequest, ApprovalGrant, ApprovalLedger, Owner, Tokens, approval_owned, put_request,
}
use opencode_pty.Approvals.Refresh.{refresh_approval}

pub record Daemon : Type 0 where
  pub ledger : ApprovalLedger
  pub tokens : Tokens

abbrev pub Update : Type 0 → Type 0
Update A = ApprovalLedger → Tokens → Tokens × Result (ApprovalLedger × A)

abbrev pub write_back :
    {A : Type 0} → ApprovalLedger → Tokens × Result (ApprovalLedger × A) → Daemon × Result A
write_back ledger (tokens, ok (ledger', a)) = (record { ledger = ledger'; tokens = tokens }, ok a)
write_back ledger (tokens, err e) = (record { ledger = ledger; tokens = tokens }, err e)

abbrev pub with_approvals : {A : Type 0} → Daemon → Update A → Daemon × Result A
with_approvals d update = write_back d.ledger (update d.ledger d.tokens)

-- A handler whose payload is read before the queue.
abbrev pub with_payload :
    {P A : Type 0} → Daemon → Result P → (P → Daemon × Result A) → Daemon × Result A
with_payload d (err e) run = (d, err e)
with_payload d (ok p) run = run p

-- What a handler does to the refreshed request: the tokens, and either an error or the changed
-- request, the grants to add and the answer.
abbrev pub Act : Type 0 → Type 0
Act A =
    ApprovalLedger
    → ApprovalRequest
    → Tokens
    → Tokens × Result (ApprovalRequest × List ApprovalGrant × A)

abbrev pub settle :
    {A : Type 0}
    → ApprovalLedger
    → String
    → Tokens × Result (ApprovalRequest × List ApprovalGrant × A)
    → Tokens × Result (ApprovalLedger × A)
settle ledger id (tokens, err e) = (tokens, err e)
settle ledger id (tokens, ok (request, grants, a)) = (
  tokens,
  ok (
    record { requests = put_request id request ledger.requests; grants = ledger.grants ++ grants },
    a,
  ),
)

abbrev pub act_on :
    {A : Type 0}
    → ℕ
    → Act A
    → ApprovalLedger
    → Tokens
    → Result ApprovalRequest
    → Tokens × Result (ApprovalLedger × A)
act_on now act ledger tokens (err e) = (tokens, err e)
act_on now act ledger tokens (ok request) =
    let refreshed = refresh_approval now request tokens in
    settle ledger request.id (act ledger refreshed.0 refreshed.1)

-- `approvalOwned`, `refreshApproval`, and then the handler's own part.
abbrev pub with_owned_request : {A : Type 0} → Owner → ℕ → Result String → Act A → Update A
with_owned_request owner now id act ledger tokens =
    act_on now act ledger tokens (id >>= approval_owned ledger owner)
