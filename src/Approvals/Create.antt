-- ===== src/Approvals/Create.antt =====
-- `approvalCreate` and `approvalPrepare` of src/daemon/server.ts. `fresh` is the random id drawn.
use opencode_pty.Prelude.{
  keep, any, ℕ, ◌+◌, ◌*◌, String, Bool, true, false, Option, none, some, List, [], ◌∷◌, ◌++◌, leb,
}
use opencode_pty.Rpc.Result.{Result, ok, FailureCode, ◌>>=◌, ◌>>◌, throw_unless}
use opencode_pty.Rpc.Payload.{Json, required_positive_integer}
use opencode_pty.Approvals.Ledger.{
  ApprovalStatus, ApprovalRequest, ApprovalGrant, ApprovalLedger, Owner, Tokens, is_live_grant,
  grant_covers,
}
use opencode_pty.Approvals.Intent.{
  Intent, Host, approval_payload, approval_intent, approval_ui_lease,
}
use opencode_pty.Approvals.Queue.{Daemon, with_approvals, with_payload}

abbrev pub max_approval_expiry_seconds : ℕ
max_approval_expiry_seconds = 3600

abbrev request_fields : List String
request_fields =
    "command" ∷ "reason" ∷ "capability" ∷ "workdir" ∷ "expirySeconds" ∷ "uiLeaseSeconds" ∷ []

pub record RequestInput : Type 0 where
  pub expiry_seconds : ℕ
  pub intent : Intent
  pub ui_lease_seconds : Option ℕ

-- What `approvalCreate` and `approvalPrepare` read from their payload.
unfoldable pub request_input : Host → Option Json → Result RequestInput
request_input host payload = do
  value ← approval_payload payload request_fields
  expiry_seconds ← required_positive_integer value "expirySeconds"
  throw_unless FailureCode.validation (leb expiry_seconds max_approval_expiry_seconds)
  intent ← approval_intent host value
  ui_lease_seconds ← approval_ui_lease value
  ok (record {
    expiry_seconds = expiry_seconds;
    intent = intent;
    ui_lease_seconds = ui_lease_seconds;
  })

abbrev lease_end : ℕ → Option ℕ → Option ℕ
lease_end now none = none
lease_end now (some seconds) = some (now + seconds * 1000)

abbrev lease_eligible : Option ℕ → Option Bool
lease_eligible none = none
lease_eligible (some seconds) = some true

unfoldable pub new_request : Host → Owner → ℕ → String → RequestInput → ApprovalRequest
new_request host owner now fresh input =
    let intent : Intent = input.intent in
    record {
      id = fresh;
      parent_session_id = owner.parent_session_id;
      project_directory = owner.project_directory;
      digest = host.hash intent;
      command = intent.command;
      reason = intent.reason;
      capability = intent.capability;
      workdir = intent.workdir;
      status = ApprovalStatus.pending;
      created_at = now;
      updated_at = now;
      expires_at = now + input.expiry_seconds * 1000;
      ui_eligible = lease_eligible input.ui_lease_seconds;
      ui_expires_at = lease_end now input.ui_lease_seconds;
      claim_expires_at = none;
    }

unfoldable pub approval_create :
    Host → Daemon → Option Json → Owner → ℕ → String → Daemon × Result ApprovalRequest
approval_create host d payload owner now fresh =
    with_payload d (request_input host payload) λ input. with_approvals d λ ledger tokens.
      let request = new_request host owner now fresh input in
      (tokens, ok (record ledger { requests = ledger.requests ++ request ∷ [] }, request))

-- `{ status: 'approved_session' }` is `none`.
abbrev pub prepared :
    ApprovalLedger
    → Tokens
    → List ApprovalGrant
    → Bool
    → ApprovalRequest
    → Tokens × Result (ApprovalLedger × Option ApprovalRequest)
prepared ledger tokens grants true request = (tokens, ok (record ledger { grants = grants }, none))
prepared ledger tokens grants false request = (
  tokens,
  ok (record { requests = ledger.requests ++ request ∷ []; grants = grants }, some request),
)

unfoldable pub approval_prepare :
    Host → Daemon → Option Json → Owner → ℕ → String → Daemon × Result (Option ApprovalRequest)
approval_prepare host d payload owner now fresh =
    with_payload d (request_input host payload) λ input. with_approvals d λ ledger tokens.
      let grants = keep (is_live_grant now) ledger.grants in
      let intent : Intent = input.intent in
      prepared ledger tokens grants
        (any (grant_covers owner (host.hash intent) intent.capability intent.workdir) grants)
        (new_request host owner now fresh input)
