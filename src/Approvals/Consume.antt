-- ===== src/Approvals/Consume.antt =====
-- `approvalConsume`, `approvalNativeApprove` and `approvalCancel` of src/daemon/server.ts.
use opencode_pty.Prelude.{
  any, ℕ, String, str_eq, not, ◌&&◌, ◌||◌, Option, none, List, [], ◌∷◌, if◌then◌else◌, is_true,
}
use opencode_pty.Rpc.Result.{Result, ok, err, FailureCode, ◌>>=◌}
use opencode_pty.Rpc.Payload.{Json}
use opencode_pty.Approvals.Ledger.{
  ApprovalStatus, ApprovalRequest, ApprovalGrant, ApprovalLedger, Owner, delete_token,
  is_live_grant, grant_covers,
}
use opencode_pty.Approvals.Refresh.{is_open, is_pending, is_native_fallback}
use opencode_pty.Approvals.Intent.{Host, approval_payload, approval_intent, id_of}
use opencode_pty.Approvals.Queue.{Daemon, Act, with_approvals, with_payload, with_owned_request}

-- The answer to a request that is neither final nor approved once.
abbrev grant_answer : Owner → ℕ → ApprovalLedger → ApprovalRequest → ApprovalStatus
grant_answer owner now ledger request =
    if any
      (λ grant.
        grant_covers owner request.digest request.capability request.workdir grant
        && is_live_grant now grant)
      ledger.grants
    then ApprovalStatus.approved_session
    else ApprovalStatus.rejected

unfoldable pub consume_by_status :
    Owner
    → ℕ
    → ApprovalStatus
    → ApprovalLedger
    → ApprovalRequest
    → Result (ApprovalRequest × List ApprovalGrant × ApprovalRequest)
consume_by_status owner now ApprovalStatus.rejected ledger request = ok (request, [], request)
consume_by_status owner now ApprovalStatus.cancelled ledger request = ok (request, [], request)
consume_by_status owner now ApprovalStatus.expired ledger request = ok (request, [], request)
consume_by_status owner now ApprovalStatus.approved_once ledger request =
    let used = record request { status = ApprovalStatus.consumed; updated_at = now } in
    ok (used, [], used)
consume_by_status owner now ApprovalStatus.consumed ledger request = err FailureCode.validation
consume_by_status owner now _ ledger request =
    ok (request, [], record request { status = grant_answer owner now ledger request })

unfoldable pub consume_act : Owner → ℕ → String → Act ApprovalRequest
unfolding consume_by_status
consume_act owner now digest ledger request tokens =
    if str_eq request.digest digest
    then (tokens, consume_by_status owner now request.status ledger request)
    else (tokens, err FailureCode.authorization)

pub record ConsumeInput : Type 0 where
  pub id : Result String
  pub digest : String

unfoldable pub consume_input : Host → Option Json → Result ConsumeInput
consume_input host payload = do
  value ← approval_payload payload ("id" ∷ "command" ∷ "reason" ∷ "capability" ∷ "workdir" ∷ [])
  intent ← approval_intent host value
  ok (record { id = id_of value; digest = host.hash intent })

unfoldable pub approval_consume :
    Host → Daemon → Option Json → Owner → ℕ → Daemon × Result ApprovalRequest
approval_consume host d payload owner now = with_payload d (consume_input host payload) λ input.
    with_approvals d (with_owned_request owner now input.id (consume_act owner now input.digest))

unfoldable pub native_act : ℕ → Act ApprovalRequest
native_act now ledger request tokens =
    let approved = record request { status = ApprovalStatus.approved_once; updated_at = now } in
    if is_native_fallback request.status
      || (is_pending request.status && not (is_true request.ui_eligible))
    then (tokens, ok (approved, [], approved))
    else (tokens, ok (request, [], request))

unfoldable pub approval_native_approve :
    Daemon → Option Json → Owner → ℕ → Daemon × Result ApprovalRequest
approval_native_approve d payload owner now =
    with_payload d (approval_payload payload ("id" ∷ []))
      λ value. with_approvals d (with_owned_request owner now (id_of value) (native_act now))

unfoldable pub cancel_act : ℕ → Act ApprovalRequest
cancel_act now ledger request tokens =
    let cancelled = record request {
      status = ApprovalStatus.cancelled;
      updated_at = now;
      claim_expires_at = none;
    } in
    if is_open request.status
    then (delete_token tokens request.id, ok (cancelled, [], cancelled))
    else (tokens, ok (request, [], request))

unfoldable pub approval_cancel : Daemon → Option Json → Owner → ℕ → Daemon × Result ApprovalRequest
approval_cancel d payload owner now =
    with_payload d (approval_payload payload ("id" ∷ []))
      λ value. with_approvals d (with_owned_request owner now (id_of value) (cancel_act now))
