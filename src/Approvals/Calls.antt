-- ===== src/Approvals/Calls.antt =====
-- The approval operations of `dispatch` (src/daemon/server.ts, lines 342 to 377) as calls of one
-- owner at one time, and what each leaves of the daemon's state.
use opencode_pty.Prelude.{ℕ, String, Option}
use opencode_pty.Rpc.Payload.{Json}
use opencode_pty.Approvals.Ledger.{Owner}
use opencode_pty.Approvals.Intent.{Host}
use opencode_pty.Approvals.Queue.{Daemon}
use opencode_pty.Approvals.Create.{approval_create, approval_prepare}
use opencode_pty.Approvals.Decide.{approval_claim, approval_decide}
use opencode_pty.Approvals.Consume.{approval_consume, approval_native_approve, approval_cancel}
use opencode_pty.Approvals.Listing.{
  approval_status, approval_list_grants, approval_list_requests, approval_revoke_grant,
  approval_cleanup_by_parent_session,
}

-- The text is the random id that the handler draws; `status` is a round of `approvalWait`.
pub data Call : Type 0 where
  create prepare claim decide : Option Json → String → Call
  status : String → Call
  consume native_approve revoke_grant cancel cleanup_by_parent_session : Option Json → Call
  list_grants list_requests : Call

unfoldable pub step : Host → Owner → ℕ → Call → Daemon → Daemon
step host owner now (Call.create payload fresh) d =
    (approval_create host d payload owner now fresh).0
step host owner now (Call.prepare payload fresh) d =
    (approval_prepare host d payload owner now fresh).0
step host owner now (Call.claim payload fresh) d = (approval_claim d payload owner now fresh).0
step host owner now (Call.decide payload fresh) d = (approval_decide d payload owner now fresh).0
step host owner now (Call.status id) d = (approval_status d id owner now).0
step host owner now (Call.consume payload) d = (approval_consume host d payload owner now).0
step host owner now (Call.native_approve payload) d =
    (approval_native_approve d payload owner now).0
step host owner now (Call.revoke_grant payload) d = (approval_revoke_grant d payload owner).0
step host owner now (Call.cancel payload) d = (approval_cancel d payload owner now).0
step host owner now (Call.cleanup_by_parent_session payload) d =
    (approval_cleanup_by_parent_session d payload owner).0
step host owner now Call.list_grants d = (approval_list_grants d owner now).0
step host owner now Call.list_requests d = (approval_list_requests d owner now).0
