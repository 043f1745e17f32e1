-- ===== src/Approvals/Decide.antt =====
-- `approvalClaim` and `approvalDecide` of src/daemon/server.ts. `fresh` is the random token or id
-- that the handler draws.
use opencode_pty.Prelude.{
  ℕ, ◌+◌, ◌*◌, String, str_eq, Bool, false, not, ◌&&◌, Option, none, some, List, [], ◌∷◌,
  if◌then◌else◌, is_true,
}
use opencode_pty.Rpc.Result.{Result, ok, err, FailureCode, ◌>>=◌}
use opencode_pty.Rpc.Payload.{Json, required_string}
use opencode_pty.Approvals.Ledger.{
  ApprovalStatus, ApprovalRequest, ApprovalGrant, Owner, get_token, delete_token, set_token,
  is_later,
}
use opencode_pty.Approvals.Refresh.{is_pending, is_claimed}
use opencode_pty.Approvals.Intent.{approval_payload, id_of}
use opencode_pty.Approvals.Queue.{Daemon, Act, with_approvals, with_payload, with_owned_request}

abbrev pub max_session_grant_seconds : ℕ
max_session_grant_seconds = 86400

abbrev pub claim_lease_ms : ℕ
claim_lease_ms = 5000

unfoldable pub claim_act : ℕ → String → Act (ApprovalRequest × Option String)
claim_act now fresh ledger request tokens =
    let claimed = record request {
      status = ApprovalStatus.claimed;
      updated_at = now;
      claim_expires_at = some (now + claim_lease_ms);
    } in
    if is_pending request.status
      && (is_true request.ui_eligible && is_later request.ui_expires_at now)
    then (set_token tokens request.id fresh, ok (claimed, [], (claimed, some fresh)))
    else (tokens, ok (request, [], (request, none)))

-- The answer is the request, with the claim token if the request was claimed.
unfoldable pub approval_claim :
    Daemon → Option Json → Owner → ℕ → String → Daemon × Result (ApprovalRequest × Option String)
approval_claim d payload owner now fresh =
    with_payload d (approval_payload payload ("id" ∷ []))
      λ value. with_approvals d (with_owned_request owner now (id_of value) (claim_act now fresh))

pub data Decision : Type 0 where
  approve_once approve_session reject : Decision

unfoldable pub parse_decision : String → Result Decision
parse_decision word =
    if str_eq word "approve_once"
    then ok Decision.approve_once
    else if str_eq word "approve_session"
    then ok Decision.approve_session
    else if str_eq word "reject"
    then ok Decision.reject
    else err FailureCode.validation

abbrev pub decided_status : Decision → ApprovalStatus
decided_status Decision.approve_once = ApprovalStatus.approved_once
decided_status Decision.approve_session = ApprovalStatus.approved_session
decided_status Decision.reject = ApprovalStatus.rejected

abbrev pub session_grants : Decision → ApprovalGrant → List ApprovalGrant
session_grants Decision.approve_session grant = grant ∷ []
session_grants _ grant = []

unfoldable pub session_grant : Owner → ℕ → String → ApprovalRequest → ApprovalGrant
session_grant owner now fresh request = record {
  id = fresh;
  parent_session_id = owner.parent_session_id;
  project_directory = owner.project_directory;
  digest = request.digest;
  capability = request.capability;
  workdir = request.workdir;
  created_at = now;
  expires_at = now + max_session_grant_seconds * 1000;
}

abbrev same_token : Option String → String → Bool
same_token none token = false
same_token (some held) token = str_eq held token

unfoldable pub decide_act : Owner → ℕ → String → Decision → Result String → Act ApprovalRequest
decide_act owner now fresh decision (err e) ledger request tokens = (tokens, err e)
decide_act owner now fresh decision (ok token) ledger request tokens =
    let decided = record request {
      status = decided_status decision;
      updated_at = now;
      claim_expires_at = none;
    } in
    if not (same_token (get_token tokens request.id) token)
    then (tokens, err FailureCode.authorization)
    else if is_claimed request.status
    then (
      delete_token tokens request.id,
      ok (decided, session_grants decision (session_grant owner now fresh request), decided),
    )
    else (delete_token tokens request.id, ok (request, [], request))

unfoldable pub approval_decide :
    Daemon → Option Json → Owner → ℕ → String → Daemon × Result ApprovalRequest
approval_decide d payload owner now fresh =
    with_payload d (approval_payload payload ("id" ∷ "decision" ∷ "claimToken" ∷ [])) λ value.
      with_payload d (required_string value "decision" >>= parse_decision) λ decision.
        with_approvals d (
          with_owned_request owner now (id_of value)
            (decide_act owner now fresh decision (required_string value "claimToken")))
