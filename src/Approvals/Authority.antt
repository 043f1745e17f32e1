-- ===== src/Approvals/Authority.antt =====
-- What `approvalConsume` of src/daemon/server.ts needs to let a command run.
use opencode_pty.Prelude.{
  any, ℕ, ◌<◌, String, eq_iff, Bool, true, false, ◌&&◌, Option, some, ◌≡◌, ◌⊎◌, inl, inr, arith,
}
use opencode_pty.Rpc.Result.{ok}
use opencode_pty.Rpc.Payload.{Json}
use opencode_pty.Approvals.Ledger.{
  ApprovalStatus, ApprovalRequest, ApprovalLedger, Owner, find_request, approval_owned,
  grant_covers, is_live_grant,
}
use opencode_pty.Approvals.Refresh.{refresh_approval}
use opencode_pty.Approvals.Intent.{Host}
use opencode_pty.Approvals.Queue.{Daemon, act_on, write_back}
use opencode_pty.Approvals.Consume.{
  ConsumeInput, consume_input, consume_act, consume_by_status, approval_consume,
}
use opencode_pty.Approvals.Find.{find-id, find-put_self}
use opencode_pty.Approvals.Owned.{IsOwned, owned_or_refused, owned_ok}

-- The answers that let the command run.
abbrev pub lets_run : ApprovalStatus → Bool
lets_run ApprovalStatus.consumed = true
lets_run ApprovalStatus.approved_session = true
lets_run _ = false

abbrev pub has_grant : Owner → ℕ → ApprovalLedger → ApprovalRequest → Bool
has_grant owner now ledger r =
    any
      (λ grant. grant_covers owner r.digest r.capability r.workdir grant && is_live_grant now grant)
      ledger.grants

-- The request allows the run: it was approved once and has not expired, or the session has a grant
-- for it that has not.
abbrev pub Allows : Owner → ℕ → ApprovalLedger → ApprovalRequest → Type 0
Allows owner now ledger r =
    ((r.status ≡ ApprovalStatus.approved_once) × (now < r.expires_at))
    ⊎ (has_grant owner now ledger r ≡ true)

abbrev pub AllowedBy : Owner → ℕ → String → ApprovalLedger → ApprovalRequest → Type 0
AllowedBy owner now digest ledger r = (r.digest ≡ digest) × Allows owner now ledger r

act-authorized :
    (owner : Owner) (now : ℕ) (digest : String) (d : Daemon) (r a : ApprovalRequest)
    → (write_back d.ledger (act_on now (consume_act owner now digest) d.ledger d.tokens (ok r))).1
      ≡ ok a
    → lets_run a.status ≡ true
    → AllowedBy owner now digest d.ledger r
unfolding consume_act consume_by_status refresh_approval
act-authorized owner now digest d r a h l = ground (arith, eq_iff r.digest digest)

-- The request that allows the run is in the ledger and is the caller's.
pub record IsAuthorized (owner : Owner) (now : ℕ) (id digest : String) (ledger : ApprovalLedger)
    : Type 0 where
  pub owned : IsOwned ledger owner id
  pub allowed : AllowedBy owner now digest ledger owned.request

owned-IsAuthorized :
    (owner : Owner) (now : ℕ) (id digest : String) (d : Daemon) (a : ApprovalRequest)
    → (write_back d.ledger (
        act_on now
          (consume_act owner now digest)
          d.ledger
          d.tokens
          (approval_owned d.ledger owner id))).1
      ≡ ok a
    → lets_run a.status ≡ true
    → IsAuthorized owner now id digest d.ledger
owned-IsAuthorized owner now id digest d a h l = elim (owned_or_refused d.ledger owner id) [
  | inl o ↦ record {
    owned = o;
    allowed =
        act-authorized owner now digest d o.request a
          (ground (arith, owned_ok d.ledger owner id o, h)) l;
  }
  | inr (code, e) ↦ ground (arith, e, h)
]

-- If the payload of `approvalConsume` is read, its id too, and the answer is `consumed` or
-- `approved_session`, then the id names a request of the calling owner whose digest is that of the
-- command, reason, capability and directory sent, and that request was approved once and has not
-- expired, or the owner holds a grant for its digest, capability and directory that has not expired.
pub consume-IsAuthorized :
    (host : Host) (d : Daemon) (payload : Option Json) (owner : Owner) (now : ℕ)
    (input : ConsumeInput) (id : String) (a : ApprovalRequest)
    → consume_input host payload ≡ ok input
    → input.id ≡ ok id
    → (approval_consume host d payload owner now).1 ≡ ok a
    → lets_run a.status ≡ true
    → IsAuthorized owner now id input.digest d.ledger
unfolding approval_consume
consume-IsAuthorized host d payload owner now input id a e i h l =
    owned-IsAuthorized owner now id input.digest d a (ground (arith, e, i, h)) l

-- The ledger after `approvalConsume` answered `consumed` has the request as answered.
pub consumed-stored_act :
    (owner : Owner) (now : ℕ) (id digest : String) (d : Daemon) (r a : ApprovalRequest)
    → find_request id d.ledger.requests ≡ some r
    → (write_back d.ledger (act_on now (consume_act owner now digest) d.ledger d.tokens (ok r))).1
      ≡ ok a
    → a.status ≡ ApprovalStatus.consumed
    → find_request id
        (write_back d.ledger
          (act_on now (consume_act owner now digest) d.ledger d.tokens (ok r))).0.ledger.requests
      ≡ some a
unfolding consume_act consume_by_status refresh_approval
consumed-stored_act owner now id digest d r a f h l =
    ground
      (arith, find-id id d.ledger.requests {r = r} f, find-put_self id a d.ledger.requests {r = r})
