-- ===== src/Approvals/GrantOrigin.antt =====
-- Where the grants of a session come from (src/daemon/server.ts).
use opencode_pty.Prelude.{ℕ, String, eq_iff, true, Option, some, All, keep-All, ◌≡◌, ◌∙◌, ap, arith}
use opencode_pty.Rpc.Result.{Result, ok, err, ◌>>=◌}
use opencode_pty.Rpc.Payload.{Json, Fields, required_string}
use opencode_pty.Approvals.Ledger.{
  ApprovalStatus, ApprovalRequest, ApprovalGrant, Owner, Tokens, find_request, owns_request,
  get_token,
}
use opencode_pty.Approvals.Refresh.{refresh_approval}
use opencode_pty.Approvals.Intent.{Host, approval_payload, id_of}
use opencode_pty.Approvals.Queue.{Daemon}
use opencode_pty.Approvals.Create.{approval_create, approval_prepare}
use opencode_pty.Approvals.Decide.{
  Decision, parse_decision, decide_act, session_grant, approval_claim, approval_decide,
}
use opencode_pty.Approvals.Consume.{approval_consume, approval_native_approve, approval_cancel}
use opencode_pty.Approvals.Listing.{
  approval_status, approval_list_grants, approval_list_requests, approval_revoke_grant,
  approval_cleanup_by_parent_session,
}
use opencode_pty.Approvals.Calls.{Call, step}
use opencode_pty.Approvals.Token.{decide_fields, refresh-token}
use opencode_pty.Approvals.Keeps.{refresh-Keeps}
use opencode_pty.Approvals.Grants.{
  remove-All, claim_act-no_grant, consume_act-no_grant, native_act-no_grant, cancel_act-no_grant,
  status_act-no_grant, decide_act-grant, prepared-All, revoked-All, owned-All, payload-All,
  OutGrants,
}

-- The grant that a decision of the owner adds, and the request that it is for. The payload says
-- `approve_session`, the id of a request of the owner, and the claim token that the daemon holds for
-- it; the request is claimed when the clock has been looked at.
pub record Granted (owner : Owner) (now : ℕ) (payload : Option Json) (fresh : String) (d : Daemon)
    (g : ApprovalGrant) : Type 0 where
  pub value : Fields
  pub reads : approval_payload payload decide_fields ≡ ok value
  pub decision : required_string value "decision" ≡ ok "approve_session"
  pub request : ApprovalRequest
  pub reads_id : id_of value ≡ ok request.id
  pub found : find_request request.id d.ledger.requests ≡ some request
  pub owns : owns_request owner request ≡ true
  pub token : String
  pub sent : required_string value "claimToken" ≡ ok token
  pub held : get_token d.tokens request.id ≡ some token
  pub claimed : (refresh_approval now request d.tokens).0.status ≡ ApprovalStatus.claimed
  pub grant : g ≡ session_grant owner now fresh request

abbrev pub NewGrant : Owner → ℕ → Call → Daemon → ApprovalGrant → Type 0
NewGrant owner now (Call.decide payload fresh) d g = Granted owner now payload fresh d g
NewGrant owner now _ d g = ⊥

session_grant-refresh :
    (owner : Owner) (now : ℕ) (fresh : String) (r : ApprovalRequest) (tokens : Tokens)
    → session_grant owner now fresh (refresh_approval now r tokens).0
      ≡ session_grant owner now fresh r
unfolding session_grant
session_grant-refresh owner now fresh r tokens = ground (arith, refresh-Keeps now r tokens)

session_decision :
    (word : Result String)
    → (word >>= parse_decision) ≡ ok Decision.approve_session
    → word ≡ ok "approve_session"
unfolding parse_decision
session_decision (err code) h = ground (arith, h)
session_decision (ok word) h =
    ground
      (arith, h, eq_iff word "approve_once", eq_iff word "approve_session", eq_iff word "reject")

decide-All :
    (P : ApprovalGrant → Type 0) (owner : Owner) (now : ℕ) (payload : Option Json) (fresh : String)
    (d : Daemon) (value : Fields) (decision : Decision) (r : ApprovalRequest)
    → ((g : ApprovalGrant) → Granted owner now payload fresh d g → P g)
    → approval_payload payload decide_fields ≡ ok value
    → (required_string value "decision" >>= parse_decision) ≡ ok decision
    → id_of value ≡ ok r.id
    → find_request r.id d.ledger.requests ≡ some r
    → owns_request owner r ≡ true
    → OutGrants P (
        decide_act owner now fresh decision
          (required_string value "claimToken")
          d.ledger
          (refresh_approval now r d.tokens).0
          (refresh_approval now r d.tokens).1)
decide-All P owner now payload fresh d value decision r h reads word i f o =
    let keeps = refresh-Keeps now r d.tokens in
    decide_act-grant P owner now fresh decision (required_string value "claimToken") d.ledger
      (refresh_approval now r d.tokens).0 (refresh_approval now r d.tokens).1
      λ session token sent held claimed.
        h (session_grant owner now fresh (refresh_approval now r d.tokens).0) (record {
          value = value;
          reads = reads;
          decision = session_decision (required_string value "decision") (word ∙ ap ok session);
          request = r;
          reads_id = i;
          found = f;
          owns = o;
          token = token;
          sent = sent;
          held = refresh-token now r d.tokens token (ground (arith, held, keeps.same_id));
          claimed = claimed;
          grant = session_grant-refresh owner now fresh r d.tokens;
        })

-- What holds of every grant before an operation, and of a grant that the operation may add, holds of
-- every grant after it. Only a decision may add one, and only one whose payload says
-- `approve_session`, names a request of the owner that is claimed and not expired by the clock, and
-- has the claim token that the daemon holds for it: the session grant of that request, with the
-- deciding owner's session and directory.
pub step-grants :
    (host : Host) (owner : Owner) (now : ℕ) (call : Call) (d : Daemon) (P : ApprovalGrant → Type 0)
    → All P d.ledger.grants
    → ((g : ApprovalGrant) → NewGrant owner now call d g → P g)
    → All P (step host owner now call d).ledger.grants
unfolding step approval_create approval_prepare approval_claim approval_decide approval_consume
    approval_native_approve approval_cancel approval_status approval_list_grants
    approval_list_requests approval_revoke_grant approval_cleanup_by_parent_session
step-grants host owner now (Call.create payload fresh) d P b h = search (payload-All, b)
step-grants host owner now (Call.prepare payload fresh) d P b h =
    search (payload-All, prepared-All, keep-All, b)
step-grants host owner now (Call.claim payload fresh) d P b h =
    search (payload-All, owned-All, claim_act-no_grant, b)
step-grants host owner now (Call.decide payload fresh) d P b h =
    payload-All P d b (approval_payload payload decide_fields) _ λ value reads.
      payload-All P d b (required_string value "decision" >>= parse_decision) _ λ decision word.
        owned-All P d b owner now (id_of value)
          (decide_act owner now fresh decision (required_string value "claimToken"))
          λ r i f o. decide-All P owner now payload fresh d value decision r h reads word i f o
step-grants host owner now (Call.status id) d P b h = search (owned-All, status_act-no_grant, b)
step-grants host owner now (Call.consume payload) d P b h =
    search (payload-All, owned-All, consume_act-no_grant, b)
step-grants host owner now (Call.native_approve payload) d P b h =
    search (payload-All, owned-All, native_act-no_grant, b)
step-grants host owner now (Call.revoke_grant payload) d P b h =
    search (payload-All, revoked-All, remove-All, b)
step-grants host owner now (Call.cancel payload) d P b h =
    search (payload-All, owned-All, cancel_act-no_grant, b)
step-grants host owner now (Call.cleanup_by_parent_session payload) d P b h =
    search (payload-All, keep-All, b)
step-grants host owner now Call.list_grants d P b h = keep-All P _ d.ledger.grants b
step-grants host owner now Call.list_requests d P b h = b
