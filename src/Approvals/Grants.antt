-- ===== src/Approvals/Grants.antt =====
-- Where the grants of a session come from: the handlers of src/daemon/server.ts on the grant list.
use opencode_pty.Prelude.{
  ℕ, String, Bool, true, false, Option, none, some, List, [], ◌∷◌, All, append-All, ◌≡◌, refl,
  eq_iff, Option-cases, inl, inr, arith,
}
use opencode_pty.Rpc.Result.{Result, ok, err}
use opencode_pty.Approvals.Ledger.{
  ApprovalStatus, ApprovalRequest, ApprovalGrant, ApprovalLedger, Owner, Tokens, find_request,
  owns_request, get_token,
}
use opencode_pty.Approvals.Refresh.{refresh_approval}
use opencode_pty.Approvals.Queue.{
  Act, Daemon, settle, write_back, with_approvals, with_payload, with_owned_request,
}
use opencode_pty.Approvals.Create.{prepared}
use opencode_pty.Approvals.Decide.{Decision, decide_act, claim_act, session_grant}
use opencode_pty.Approvals.Consume.{consume_act, native_act, cancel_act, consume_by_status}
use opencode_pty.Approvals.Listing.{status_act, remove_grant, revoked}
use opencode_pty.Approvals.Find.{find-id}
use opencode_pty.Approvals.Owned.{owned_or_refused, owned_ok}

abbrev pub LeftAll : (P : ApprovalGrant → Type 0) → Option (List ApprovalGrant) → Type 0
LeftAll P none = Unit
LeftAll P (some grants) = All P grants

pub remove-All :
    (P : ApprovalGrant → Type 0) (owner : Owner) (id : String) (xs : List ApprovalGrant)
    → All P xs
    → LeftAll P (remove_grant owner id xs)
unfolding remove_grant
remove-All P owner id [] h = tt
remove-All P owner id (x ∷ xs) h = ground (arith, remove-All P owner id xs h.1)

abbrev pub grants_after : {A : Type 0} → Daemon × Result A → List ApprovalGrant
grants_after (d, answer) = d.ledger.grants

abbrev pub OutGrants :
    {A : Type 0}
    → (ApprovalGrant → Type 0)
    → Tokens × Result (ApprovalRequest × List ApprovalGrant × A)
    → Type 0
OutGrants P (tokens, err e) = Unit
OutGrants P (tokens, ok (s, grants, a)) = All P grants

module _ {A : Type 0} (P : ApprovalGrant → Type 0) (d : Daemon)
    (before : All P d.ledger.grants) where
  settle-All :
      (id : String) (out : Tokens × Result (ApprovalRequest × List ApprovalGrant × A))
      → OutGrants P out
      → All P (grants_after (write_back d.ledger (settle d.ledger id out)))
  settle-All id (tokens, err e) h = before
  settle-All id (tokens, ok (s, grants, a)) h = append-All P d.ledger.grants grants before h

  pub owned-All :
      (owner : Owner) (now : ℕ) (id : Result String) (act : Act A)
      → ((r : ApprovalRequest)
          → id ≡ ok r.id
          → find_request r.id d.ledger.requests ≡ some r
          → owns_request owner r ≡ true
          → OutGrants P (
              act d.ledger (refresh_approval now r d.tokens).0 (refresh_approval now r d.tokens).1))
      → All P (grants_after (with_approvals d (with_owned_request owner now id act)))
  owned-All owner now (err e) act h = before
  owned-All owner now (ok id) act h = elim (owned_or_refused d.ledger owner id) [
    | inl o ↦ ground (
      arith,
      owned_ok d.ledger owner id o,
      settle-All o.request.id
          (act d.ledger (refresh_approval now o.request d.tokens).0
            (refresh_approval now o.request d.tokens).1)
          (h o.request (ground (arith, find-id id d.ledger.requests {r = o.request} o.found))
            (ground (arith, o.found, find-id id d.ledger.requests {r = o.request} o.found)) o.owns),
    )
    | inr (code, e) ↦ ground (arith, e, before)
  ]

  pub payload-All :
      {Q : Type 0} (p : Result Q) (run : Q → Daemon × Result A)
      → ((v : Q) → p ≡ ok v → All P (grants_after (run v)))
      → All P (grants_after (with_payload d p run))
  payload-All (err e) run h = before
  payload-All (ok v) run h = h v refl

pub claim_act-no_grant :
    (P : ApprovalGrant → Type 0) (now : ℕ) (fresh : String) (ledger : ApprovalLedger)
    (r : ApprovalRequest) (tokens : Tokens)
    → OutGrants P (claim_act now fresh ledger r tokens)
unfolding claim_act
claim_act-no_grant P now fresh ledger r tokens = ground arith

pub consume_act-no_grant :
    (P : ApprovalGrant → Type 0) (owner : Owner) (now : ℕ) (digest : String)
    (ledger : ApprovalLedger) (r : ApprovalRequest) (tokens : Tokens)
    → OutGrants P (consume_act owner now digest ledger r tokens)
unfolding consume_act consume_by_status
consume_act-no_grant P owner now digest ledger r tokens = ground arith

pub native_act-no_grant :
    (P : ApprovalGrant → Type 0) (now : ℕ) (ledger : ApprovalLedger) (r : ApprovalRequest)
    (tokens : Tokens)
    → OutGrants P (native_act now ledger r tokens)
unfolding native_act
native_act-no_grant P now ledger r tokens = ground arith

pub cancel_act-no_grant :
    (P : ApprovalGrant → Type 0) (now : ℕ) (ledger : ApprovalLedger) (r : ApprovalRequest)
    (tokens : Tokens)
    → OutGrants P (cancel_act now ledger r tokens)
unfolding cancel_act
cancel_act-no_grant P now ledger r tokens = ground arith

pub status_act-no_grant :
    (P : ApprovalGrant → Type 0) (ledger : ApprovalLedger) (r : ApprovalRequest) (tokens : Tokens)
    → OutGrants P (status_act ledger r tokens)
unfolding status_act
status_act-no_grant P ledger r tokens = tt

-- A decision adds the session grant of the claimed request whose token it sends, or nothing.
pub decide_act-grant :
    (P : ApprovalGrant → Type 0) (owner : Owner) (now : ℕ) (fresh : String) (decision : Decision)
    (token : Result String) (ledger : ApprovalLedger) (r : ApprovalRequest) (tokens : Tokens)
    → (decision ≡ Decision.approve_session
        → (held : String) → token ≡ ok held
        → get_token tokens r.id ≡ some held
        → r.status ≡ ApprovalStatus.claimed
        → P (session_grant owner now fresh r))
    → OutGrants P (decide_act owner now fresh decision token ledger r tokens)
unfolding decide_act
decide_act-grant P owner now fresh decision (err e) ledger r tokens h = tt
decide_act-grant P owner now fresh Decision.approve_session (ok token) ledger r tokens h =
    elim (Option-cases (get_token tokens r.id)) [
      | inl none_held ↦ ground (arith, none_held)
      | inr (held, e) ↦ ground (arith, e, eq_iff held token, h refl token refl)
    ]
decide_act-grant P owner now fresh Decision.approve_once (ok token) ledger r tokens h = ground arith
decide_act-grant P owner now fresh Decision.reject (ok token) ledger r tokens h = ground arith

pub prepared-All :
    (P : ApprovalGrant → Type 0) (d : Daemon) (grants : List ApprovalGrant) (covered : Bool)
    (new : ApprovalRequest)
    → All P grants
    → All P (grants_after (write_back d.ledger (prepared d.ledger d.tokens grants covered new)))
prepared-All P d grants true new h = h
prepared-All P d grants false new h = h

pub revoked-All :
    (P : ApprovalGrant → Type 0) (d : Daemon) (left : Option (List ApprovalGrant))
    → All P d.ledger.grants
    → LeftAll P left
    → All P (grants_after (write_back d.ledger (d.tokens, revoked d.ledger left)))
revoked-All P d none before h = before
revoked-All P d (some grants) before h = h
