-- ===== src/Approvals/Change.antt =====
-- The ways in which one approval operation changes the request list.
use opencode_pty.Prelude.{
  keep, ℕ, String, Bool, true, false, Option, none, some, List, [], ◌∷◌, ◌++◌, ◌≡◌, refl, inl, inr,
  arith, Option-cases,
}
use opencode_pty.Rpc.Result.{Result, ok, err, ◌>>=◌}
use opencode_pty.Approvals.Ledger.{
  ApprovalRequest, ApprovalGrant, ApprovalLedger, Owner, Tokens, find_request, approval_owned,
  put_request,
}
use opencode_pty.Approvals.Refresh.{refresh_approval}
use opencode_pty.Approvals.Queue.{
  Act, Daemon, settle, act_on, write_back, with_approvals, with_payload, with_owned_request,
}
use opencode_pty.Approvals.Intent.{Host}
use opencode_pty.Approvals.Create.{approval_create, approval_prepare, prepared, new_request}
use opencode_pty.Approvals.Decide.{approval_claim, approval_decide}
use opencode_pty.Approvals.Consume.{approval_consume, approval_native_approve, approval_cancel}
use opencode_pty.Approvals.Listing.{
  status_act, refresh_all, revoked, approval_status, approval_list_grants, approval_list_requests,
  approval_revoke_grant, approval_cleanup_by_parent_session,
}
use opencode_pty.Approvals.Calls.{Call, step}
use opencode_pty.Approvals.Find.{find-id}
use opencode_pty.Approvals.Keeps.{
  Keeps, Keeps-trans, KeepsOut, ActKeeps, refresh-Keeps, claim_act-Keeps, decide_act-Keeps,
  consume_act-Keeps, native_act-Keeps, cancel_act-Keeps, status_act-Keeps,
}

pub data Change (drawn : Option String) (before : List ApprovalRequest)
    : List ApprovalRequest → Type 0 where
  same : Change drawn before before
  moved :
      (r s : ApprovalRequest)
      → find_request r.id before ≡ some r
      → Keeps r s
      → Change drawn before (put_request r.id s before)
  added : (new : ApprovalRequest) → drawn ≡ some new.id → Change drawn before (before ++ new ∷ [])
  kept : (test : ApprovalRequest → Bool) → Change drawn before (keep test before)
  refreshed : (now : ℕ) (tokens : Tokens) → Change drawn before (refresh_all now before tokens).0

abbrev Found : List ApprovalRequest → Result ApprovalRequest → Type 0
Found requests (err e) = Unit
Found requests (ok r) = find_request r.id requests ≡ some r

pub owned-Found :
    (ledger : ApprovalLedger) (owner : Owner) (id : Result String)
    → Found ledger.requests (id >>= approval_owned ledger owner)
unfolding approval_owned
owned-Found ledger owner (err e) = tt
owned-Found ledger owner (ok id) = elim (Option-cases (find_request id ledger.requests)) [
  | inl h ↦ ground (arith, h)
  | inr (r, h) ↦ ground (arith, h, find-id id ledger.requests {r = r} h)
]

abbrev pub after : {A : Type 0} → Daemon × Result A → List ApprovalRequest
after (d, answer) = d.ledger.requests

settle-Change :
    {A : Type 0} {drawn : Option String}
    → (ledger : ApprovalLedger) (r : ApprovalRequest) → find_request r.id ledger.requests ≡ some r
    → (out : Tokens × Result (ApprovalRequest × List ApprovalGrant × A)) → KeepsOut r out
    → Change drawn ledger.requests (after (write_back ledger (settle ledger r.id out)))
settle-Change ledger r found (tokens, err e) k = same
settle-Change ledger r found (tokens, ok (s, grants, a)) k = moved r s found k

trans-KeepsOut :
    {A : Type 0}
    → (r s : ApprovalRequest) (out : Tokens × Result (ApprovalRequest × List ApprovalGrant × A))
    → Keeps r s
    → KeepsOut s out
    → KeepsOut r out
trans-KeepsOut r s (tokens, err e) k l = tt
trans-KeepsOut r s (tokens, ok (t, grants, a)) k l = Keeps-trans k l

act_on-Change :
    {A : Type 0} {drawn : Option String}
    → (now : ℕ) (act : Act A) (ledger : ApprovalLedger) (tokens : Tokens)
      (found : Result ApprovalRequest)
    → ActKeeps act
    → Found ledger.requests found
    → Change drawn ledger.requests (after (write_back ledger (act_on now act ledger tokens found)))
act_on-Change now act ledger tokens (err e) keeps found = same
act_on-Change now act ledger tokens (ok r) keeps found = settle-Change ledger r found _ (
    trans-KeepsOut r _
      (act ledger (refresh_approval now r tokens).0 (refresh_approval now r tokens).1)
      (refresh-Keeps now r tokens)
      (keeps ledger (refresh_approval now r tokens).0 (refresh_approval now r tokens).1))

pub owned-Change :
    {A : Type 0} {drawn : Option String}
    → (owner : Owner) (now : ℕ) (id : Result String) (act : Act A) (d : Daemon) → ActKeeps act
    → Change drawn d.ledger.requests
        (after (with_approvals d (with_owned_request owner now id act)))
owned-Change owner now id act d keeps =
    act_on-Change now act d.ledger d.tokens _ keeps (owned-Found d.ledger owner id)

payload-Change :
    {P A : Type 0} {drawn : Option String}
    → (d : Daemon) (p : Result P) (run : P → Daemon × Result A)
    → ((v : P) → Change drawn d.ledger.requests (after (run v)))
    → Change drawn d.ledger.requests (after (with_payload d p run))
payload-Change d (err e) run h = same
payload-Change d (ok v) run h = h v

prepare-Change :
    (d : Daemon) (covered : Bool) (new : ApprovalRequest) (grants : List ApprovalGrant)
    → Change
        (some new.id)
        d.ledger.requests
        (after (write_back d.ledger (prepared d.ledger d.tokens grants covered new)))
prepare-Change d true new grants = same
prepare-Change d false new grants = added new refl

revoke-Change :
    {drawn : Option String}
    → (d : Daemon) (left : Option (List ApprovalGrant))
    → Change drawn d.ledger.requests (after (write_back d.ledger (d.tokens, revoked d.ledger left)))
revoke-Change d none = same
revoke-Change d (some grants) = same

-- The id that a call draws for a request.
abbrev pub drawn_id : Call → Option String
drawn_id (Call.create payload fresh) = some fresh
drawn_id (Call.prepare payload fresh) = some fresh
drawn_id _ = none

pub step-Change :
    (host : Host) (owner : Owner) (now : ℕ) (call : Call) (d : Daemon)
    → Change (drawn_id call) d.ledger.requests (step host owner now call d).ledger.requests
unfolding step new_request approval_create approval_prepare approval_claim approval_decide
    approval_consume approval_native_approve approval_cancel approval_status approval_list_grants
    approval_list_requests approval_revoke_grant approval_cleanup_by_parent_session
step-Change host owner now (Call.create payload fresh) d = search (payload-Change, added)
step-Change host owner now (Call.prepare payload fresh) d = search (payload-Change, prepare-Change)
step-Change host owner now (Call.claim payload fresh) d =
    search (payload-Change, owned-Change, claim_act-Keeps)
step-Change host owner now (Call.decide payload fresh) d =
    search (payload-Change, owned-Change, decide_act-Keeps)
step-Change host owner now (Call.status id) d =
    owned-Change owner now (ok id) status_act d status_act-Keeps
step-Change host owner now (Call.consume payload) d =
    search (payload-Change, owned-Change, consume_act-Keeps)
step-Change host owner now (Call.native_approve payload) d =
    search (payload-Change, owned-Change, native_act-Keeps)
step-Change host owner now (Call.revoke_grant payload) d = search (payload-Change, revoke-Change)
step-Change host owner now (Call.cancel payload) d =
    search (payload-Change, owned-Change, cancel_act-Keeps)
step-Change host owner now (Call.cleanup_by_parent_session payload) d =
    search (payload-Change, kept)
step-Change host owner now Call.list_grants d = same
step-Change host owner now Call.list_requests d = refreshed now d.tokens
