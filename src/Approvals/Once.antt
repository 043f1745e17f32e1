-- ===== src/Approvals/Once.antt =====
-- An approval that was given once is used once: `approvalConsume` of src/daemon/server.ts and
-- whatever operations follow it.
use opencode_pty.Prelude.{ℕ, String, Bool, true, false, Option, some, List, ◌≡◌, inl, inr, arith}
use opencode_pty.Rpc.Result.{Result, ok, err}
use opencode_pty.Rpc.Payload.{Json}
use opencode_pty.Approvals.Ledger.{
  ApprovalStatus, ApprovalRequest, Owner, find_request, approval_owned,
}
use opencode_pty.Approvals.Refresh.{refresh_approval}
use opencode_pty.Approvals.Intent.{Host}
use opencode_pty.Approvals.Queue.{Daemon, act_on, write_back}
use opencode_pty.Approvals.Consume.{
  ConsumeInput, consume_input, consume_act, consume_by_status, approval_consume,
}
use opencode_pty.Approvals.Calls.{Call, step}
use opencode_pty.Approvals.Find.{UniqueIds}
use opencode_pty.Approvals.StepKeeps.{Later, step-UniqueIds}
use opencode_pty.Approvals.Runs.{Event, run, DrawsNew, run-Later}
use opencode_pty.Approvals.Owned.{owned_or_refused, owned_ok}
use opencode_pty.Approvals.Authority.{consumed-stored_act}

abbrev pub is_ok : {A : Type 0} → Result A → Bool
is_ok (ok a) = true
is_ok (err e) = false

consumed-stored :
    (owner : Owner) (now : ℕ) (id digest : String) (d : Daemon) (a : ApprovalRequest)
    → (write_back d.ledger (
        act_on now
          (consume_act owner now digest)
          d.ledger
          d.tokens
          (approval_owned d.ledger owner id))).1
      ≡ ok a
    → a.status ≡ ApprovalStatus.consumed
    → find_request id
        (write_back d.ledger (
          act_on now
            (consume_act owner now digest)
            d.ledger
            d.tokens
            (approval_owned d.ledger owner id))).0.ledger.requests
      ≡ some a
consumed-stored owner now id digest d a h l = elim (owned_or_refused d.ledger owner id) [
  | inl o ↦ ground (
    arith,
    owned_ok d.ledger owner id o,
    h,
    l,
    consumed-stored_act owner now id digest d o.request a o.found,
  )
  | inr (code, e) ↦ ground (arith, e, h)
]

-- A request that is gone or was consumed lets no command run.
used-refused_act :
    (owner : Owner) (now : ℕ) (digest : String) (d : Daemon) (s : ApprovalRequest)
    → s.status ≡ ApprovalStatus.consumed
    → is_ok
        (write_back d.ledger (act_on now (consume_act owner now digest) d.ledger d.tokens (ok s))).1
      ≡ false
unfolding consume_act consume_by_status refresh_approval
used-refused_act owner now digest d s h = ground arith

used-stays :
    (a s : ApprovalRequest)
    → Later a (some s)
    → a.status ≡ ApprovalStatus.consumed
    → s.status ≡ ApprovalStatus.consumed
used-stays a s k h = ground (arith, k.closed)

used-refused :
    (owner : Owner) (now : ℕ) (id digest : String) (d : Daemon) (a : ApprovalRequest)
    → Later a (find_request id d.ledger.requests)
    → a.status ≡ ApprovalStatus.consumed
    → is_ok
        (write_back d.ledger (
          act_on now
            (consume_act owner now digest)
            d.ledger
            d.tokens
            (approval_owned d.ledger owner id))).1
      ≡ false
used-refused owner now id digest d a k h = elim (owned_or_refused d.ledger owner id) [
  | inl o ↦ ground (
    arith,
    owned_ok d.ledger owner id o,
    used-refused_act owner now digest d o.request
        (used-stays a o.request (ground (arith, k, o.found)) h),
  )
  | inr (code, e) ↦ ground (arith, e)
]

-- If the ids of the ledger are apart and `approvalConsume` answered `consumed` for an id, then after
-- any further operations whose drawn ids are new, `approvalConsume` refuses that id, whoever calls it
-- and whatever else it sends.
pub consume-once :
    (host : Host) (d : Daemon) (payload : Option Json) (owner : Owner) (now : ℕ)
    (input : ConsumeInput) (id : String) (a : ApprovalRequest)
    → UniqueIds d.ledger.requests
    → consume_input host payload ≡ ok input
    → input.id ≡ ok id
    → (approval_consume host d payload owner now).1 ≡ ok a
    → a.status ≡ ApprovalStatus.consumed
    → (events : List Event) → DrawsNew host id events (approval_consume host d payload owner now).0
    → (payload' : Option Json) (owner' : Owner) (now' : ℕ) (input' : ConsumeInput)
    → consume_input host payload' ≡ ok input'
    → input'.id ≡ ok id
    → is_ok
        (approval_consume host
          (run host events (approval_consume host d payload owner now).0)
          payload'
          owner'
          now').1
      ≡ false
unfolding approval_consume step
consume-once host d payload owner now input id a u e i h l events n payload' owner' now' input' e'
      i' =
    let d' = (approval_consume host d payload owner now).0 in
    let stored = consumed-stored owner now id input.digest d a (ground (arith, e, i, h)) l in
    let later =
      run-Later host id events d' a (step-UniqueIds host owner now (Call.consume payload) d tt u) n
        (ground (arith, e, i, stored)) in
    ground (arith, e', i', used-refused owner' now' id input'.digest (run host events d') a later l)
