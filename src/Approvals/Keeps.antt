-- ===== src/Approvals/Keeps.antt =====
-- What every operation keeps of a request, proved of the parts of the handlers.
use opencode_pty.Prelude.{ℕ, String, Bool, true, false, List, ◌≡◌, arith}
use opencode_pty.Rpc.Result.{Result, ok, err}
use opencode_pty.Approvals.Ledger.{
  ApprovalStatus, ApprovalRequest, ApprovalGrant, ApprovalLedger, Owner, Tokens,
}
use opencode_pty.Approvals.Refresh.{is_open, refresh_approval}
use opencode_pty.Approvals.Queue.{Act}
use opencode_pty.Approvals.Decide.{Decision, claim_act, decide_act}
use opencode_pty.Approvals.Consume.{consume_act, native_act, cancel_act}
use opencode_pty.Approvals.Listing.{status_act}

-- The life of a request: it is claimed by the approval dialog or falls back to the native prompt,
-- is decided, and is consumed once, cancelled, or expires. A closed request stays as it is.
abbrev pub may_become : ApprovalStatus → ApprovalStatus → Bool
may_become ApprovalStatus.pending _ = true
may_become ApprovalStatus.claimed ApprovalStatus.pending = false
may_become ApprovalStatus.claimed _ = true
may_become ApprovalStatus.native_fallback ApprovalStatus.native_fallback = true
may_become ApprovalStatus.native_fallback ApprovalStatus.approved_once = true
may_become ApprovalStatus.native_fallback ApprovalStatus.consumed = true
may_become ApprovalStatus.native_fallback ApprovalStatus.cancelled = true
may_become ApprovalStatus.native_fallback ApprovalStatus.expired = true
may_become ApprovalStatus.approved_once ApprovalStatus.approved_once = true
may_become ApprovalStatus.approved_once ApprovalStatus.consumed = true
may_become ApprovalStatus.approved_once ApprovalStatus.cancelled = true
may_become ApprovalStatus.approved_once ApprovalStatus.expired = true
may_become ApprovalStatus.approved_session ApprovalStatus.approved_session = true
may_become ApprovalStatus.rejected ApprovalStatus.rejected = true
may_become ApprovalStatus.cancelled ApprovalStatus.cancelled = true
may_become ApprovalStatus.expired ApprovalStatus.expired = true
may_become ApprovalStatus.consumed ApprovalStatus.consumed = true
may_become _ _ = false

-- `s` is the request `r` at a later time: it asks for the same, its status moved along its life,
-- and if `r` was closed, then `s` is `r`.
pub record Keeps (r s : ApprovalRequest) : Type 0 where
  pub same_id : s.id ≡ r.id
  pub same_parent : s.parent_session_id ≡ r.parent_session_id
  pub same_directory : s.project_directory ≡ r.project_directory
  pub same_digest : s.digest ≡ r.digest
  pub same_command : s.command ≡ r.command
  pub same_reason : s.reason ≡ r.reason
  pub same_capability : s.capability ≡ r.capability
  pub same_workdir : s.workdir ≡ r.workdir
  pub same_expiry : s.expires_at ≡ r.expires_at
  pub moves : may_become r.status s.status ≡ true
  pub closed : is_open r.status ≡ false → s ≡ r

may_become_refl : (s : ApprovalStatus) → may_become s s ≡ true
may_become_refl s = ground arith

may_become_trans :
    (a b c : ApprovalStatus) → may_become a b ≡ true → may_become b c ≡ true → may_become a c ≡ true
may_become_trans a b c p q = ground arith

pub Keeps-refl : (r : ApprovalRequest) → Keeps r r
Keeps-refl r = ground (arith, may_become_refl r.status)

pub Keeps-trans : {r s t : ApprovalRequest} → Keeps r s → Keeps s t → Keeps r t
Keeps-trans {r} {s} {t} k l = record {
  same_id = cc;
  same_parent = cc;
  same_directory = cc;
  same_digest = cc;
  same_command = cc;
  same_reason = cc;
  same_capability = cc;
  same_workdir = cc;
  same_expiry = cc;
  moves = may_become_trans r.status s.status t.status k.moves l.moves;
  closed = λ o. ground (arith, k.closed o, l.closed);
}

pub refresh-Keeps :
    (now : ℕ) (r : ApprovalRequest) (tokens : Tokens) → Keeps r (refresh_approval now r tokens).0
unfolding refresh_approval
refresh-Keeps now r tokens = ground arith

-- The same of what a handler returns.
abbrev pub KeepsOut :
    {A : Type 0}
    → ApprovalRequest
    → Tokens × Result (ApprovalRequest × List ApprovalGrant × A)
    → Type 0
KeepsOut r (tokens, err e) = Unit
KeepsOut r (tokens, ok (s, grants, a)) = Keeps r s

abbrev pub ActKeeps : {A : Type 0} → Act A → Type 0
ActKeeps act =
    (ledger : ApprovalLedger) (r : ApprovalRequest) (tokens : Tokens)
    → KeepsOut r (act ledger r tokens)

pub claim_act-Keeps : (now : ℕ) (fresh : String) → ActKeeps (claim_act now fresh)
unfolding claim_act
claim_act-Keeps now fresh ledger r tokens = ground arith

pub decide_act-Keeps :
    (owner : Owner) (now : ℕ) (fresh : String) (decision : Decision) (token : Result String)
    → ActKeeps (decide_act owner now fresh decision token)
unfolding decide_act
decide_act-Keeps owner now fresh decision (err e) ledger r tokens = tt
decide_act-Keeps owner now fresh Decision.approve_once (ok token) ledger r tokens = ground arith
decide_act-Keeps owner now fresh _ (ok token) ledger r tokens = ground arith

pub consume_act-Keeps :
    (owner : Owner) (now : ℕ) (digest : String) → ActKeeps (consume_act owner now digest)
unfolding consume_act
consume_act-Keeps owner now digest ledger r tokens = ground arith

pub native_act-Keeps : (now : ℕ) → ActKeeps (native_act now)
unfolding native_act
native_act-Keeps now ledger r tokens = ground arith

pub cancel_act-Keeps : (now : ℕ) → ActKeeps (cancel_act now)
unfolding cancel_act
cancel_act-Keeps now ledger r tokens = ground arith

pub status_act-Keeps : ActKeeps status_act
unfolding status_act
status_act-Keeps ledger r tokens = Keeps-refl r
