-- ===== src/Approvals/Refresh.antt =====
-- `refreshApproval` of src/daemon/server.ts: what the clock does to a request.
use opencode_pty.Prelude.{ℕ, Bool, true, false, ◌&&◌, none, some, leb, if◌then◌else◌, is_true}
use opencode_pty.Approvals.Ledger.{ApprovalStatus, ApprovalRequest, Tokens, delete_token, is_due}

-- The statuses that expire, and that a cancellation ends.
abbrev pub is_open : ApprovalStatus → Bool
is_open ApprovalStatus.pending = true
is_open ApprovalStatus.claimed = true
is_open ApprovalStatus.native_fallback = true
is_open ApprovalStatus.approved_once = true
is_open _ = false

abbrev pub is_pending : ApprovalStatus → Bool
is_pending ApprovalStatus.pending = true
is_pending _ = false

abbrev pub is_claimed : ApprovalStatus → Bool
is_claimed ApprovalStatus.claimed = true
is_claimed _ = false

abbrev pub is_native_fallback : ApprovalStatus → Bool
is_native_fallback ApprovalStatus.native_fallback = true
is_native_fallback _ = false

unfoldable pub refresh_approval : ℕ → ApprovalRequest → Tokens → ApprovalRequest × Tokens
refresh_approval now request tokens =
    if is_open request.status && leb request.expires_at now
    then (
      record request { status = ApprovalStatus.expired; claim_expires_at = none; updated_at = now },
      delete_token tokens request.id,
    )
    else if is_pending request.status
        && (is_true request.ui_eligible && is_due request.ui_expires_at now)
    then (
      record request {
        status = ApprovalStatus.native_fallback;
        ui_eligible = some false;
        ui_expires_at = none;
        updated_at = now;
      },
      tokens,
    )
    else if is_claimed request.status && is_due request.claim_expires_at now
    then (
      record request {
        status = ApprovalStatus.native_fallback;
        ui_eligible = some false;
        ui_expires_at = none;
        claim_expires_at = none;
        updated_at = now;
      },
      delete_token tokens request.id,
    )
    else (request, tokens)
