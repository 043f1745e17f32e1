-- ===== src/Approvals/Decided.antt =====
-- What a decision of the token's holder brings about (src/daemon/server.ts).
use opencode_pty.Prelude.{
  keep, any, ℕ, ◌+◌, ◌<◌, ◌*◌, String, eq_iff, Bool, true, false, Option, none, some, List, [], ◌∷◌,
  ◌++◌, ◌≡◌, lt→ltb, refl, arith,
}
use opencode_pty.Rpc.Result.{ok, ◌>>=◌}
use opencode_pty.Rpc.Payload.{Json, Fields, required_string}
use opencode_pty.Approvals.Ledger.{
  ApprovalStatus, ApprovalRequest, Owner, find_request, put_request, get_token, delete_token,
  is_due, grant_covers, is_live_grant,
}
use opencode_pty.Approvals.Refresh.{refresh_approval}
use opencode_pty.Approvals.Intent.{Host, approval_payload, id_of}
use opencode_pty.Approvals.Queue.{Daemon, act_on, write_back}
use opencode_pty.Approvals.Create.{RequestInput, request_input, approval_prepare}
use opencode_pty.Approvals.Decide.{
  Decision, parse_decision, decide_act, decided_status, session_grant, session_grants,
  approval_decide,
}
use opencode_pty.Approvals.Consume.{
  ConsumeInput, consume_input, consume_act, consume_by_status, approval_consume,
}
use opencode_pty.Approvals.Find.{find-id, find-put_self}
use opencode_pty.Approvals.Owned.{IsOwned, owned_ok}
use opencode_pty.Approvals.Token.{decide_fields}

-- The caller owns the request, which is claimed, by a claim that has not run out, and has not
-- expired, and the token is the one that the claim drew.
pub record CanDecide (owner : Owner) (now : ℕ) (id token : String) (d : Daemon) : Type 0 where
  pub owned : IsOwned d.ledger owner id
  pub claimed : owned.request.status ≡ ApprovalStatus.claimed
  pub not_expired : now < owned.request.expires_at
  pub claim_runs : is_due owned.request.claim_expires_at now ≡ false
  pub holds : get_token d.tokens owned.request.id ≡ some token

abbrev pub decided : ℕ → Decision → ApprovalRequest → ApprovalRequest
decided now decision r = record r {
  status = decided_status decision;
  updated_at = now;
  claim_expires_at = none;
}

decide_act-decided :
    (owner : Owner) (now : ℕ) (fresh id token : String) (decision : Decision) (d : Daemon)
    (can : CanDecide owner now id token d)
    → act_on now
        (decide_act owner now fresh decision (ok token))
        d.ledger
        d.tokens
        (ok can.owned.request)
      ≡ (
        delete_token d.tokens can.owned.request.id,
        ok (
          record {
            requests =
                put_request can.owned.request.id
                  (decided now decision can.owned.request)
                  d.ledger.requests;
            grants =
                d.ledger.grants
                ++ session_grants decision (session_grant owner now fresh can.owned.request);
          },
          decided now decision can.owned.request,
        ),
      )
unfolding decide_act refresh_approval
decide_act-decided owner now fresh id token decision d can =
    ground (arith, can.claimed, can.not_expired, can.claim_runs, can.holds, eq_iff token token)

-- The payload of a decision.
pub record Decides (payload : Option Json) (id token : String) (decision : Decision) : Type 0 where
  pub value : Fields
  pub reads : approval_payload payload decide_fields ≡ ok value
  pub reads_id : id_of value ≡ ok id
  pub reads_decision : (required_string value "decision" >>= parse_decision) ≡ ok decision
  pub reads_token : required_string value "claimToken" ≡ ok token

-- The state after the decision.
abbrev pub decided_daemon :
    (owner : Owner) (now : ℕ) (fresh : String) (decision : Decision) (d : Daemon)
    → ApprovalRequest
    → Daemon
decided_daemon owner now fresh decision d r = record {
  ledger = record {
    requests = put_request r.id (decided now decision r) d.ledger.requests;
    grants = d.ledger.grants ++ session_grants decision (session_grant owner now fresh r);
  };
  tokens = delete_token d.tokens r.id;
}

-- If the payload is read and the caller owns the request, which is claimed, by a claim that has not
-- run out, and has not expired, and the caller sends the token of the claim, then the request takes
-- the decision's status, a session approval adds its grant, and the token is spent.
pub decide-decided :
    (d : Daemon) (payload : Option Json) (owner : Owner) (now : ℕ) (fresh id token : String)
    (decision : Decision)
    → Decides payload id token decision
    → (can : CanDecide owner now id token d)
    → approval_decide d payload owner now fresh ≡ (
      decided_daemon owner now fresh decision d can.owned.request,
      ok (decided now decision can.owned.request),
    )
unfolding approval_decide
decide-decided d payload owner now fresh id token decision p can = ground (
  arith,
  p.reads,
  p.reads_id,
  p.reads_decision,
  p.reads_token,
  owned_ok d.ledger owner id can.owned,
  decide_act-decided owner now fresh id token decision d can,
)

any-last :
    {A : Type 0}
    → (live test : A → Bool) (xs : List A) (x : A) → live x ≡ true
    → test x ≡ true
    → any test (keep live (xs ++ x ∷ [])) ≡ true
unfolding any keep
any-last live test [] x h k = ground arith
any-last live test (y ∷ ys) x h k = ground (arith, any-last live test ys x h k)

session_grant_live :
    (owner : Owner) (now now' : ℕ) (fresh : String) (r : ApprovalRequest)
    → now' < now + 86400 * 1000
    → is_live_grant now' (session_grant owner now fresh r) ≡ true
unfolding session_grant
session_grant_live owner now now' fresh r t = lt→ltb now' (now + 86400 * 1000) t

session_grant_covers :
    (owner : Owner) (now : ℕ) (fresh digest capability workdir : String) (r : ApprovalRequest)
    → digest ≡ r.digest
    → capability ≡ r.capability
    → workdir ≡ r.workdir
    → grant_covers owner digest capability workdir (session_grant owner now fresh r) ≡ true
unfolding session_grant
session_grant_covers owner now fresh digest capability workdir r d c w = ground (
  arith,
  eq_iff owner.parent_session_id owner.parent_session_id,
  eq_iff owner.project_directory owner.project_directory,
  eq_iff r.digest digest,
  eq_iff r.capability capability,
  eq_iff r.workdir workdir,
)

find-put_found :
    (id : String) (requests : List ApprovalRequest) (r s : ApprovalRequest)
    → find_request id requests ≡ some r
    → s.id ≡ r.id
    → find_request id (put_request r.id s requests) ≡ some s
find-put_found id requests r s f e =
    ground (arith, find-id id requests {r = r} f, find-put_self id s requests {r = r})

consume_act-once :
    (owner : Owner) (now : ℕ) (d : Daemon) (r : ApprovalRequest)
    → r.status ≡ ApprovalStatus.approved_once
    → now < r.expires_at
    → (write_back d.ledger (act_on now (consume_act owner now r.digest) d.ledger d.tokens (ok r))).1
      ≡ ok (record r { status = ApprovalStatus.consumed; updated_at = now })
unfolding consume_act consume_by_status refresh_approval
consume_act-once owner now d r s t = ground (arith, eq_iff r.digest r.digest)

-- After the owner approved a request for the session, with the token of a live claim,
-- `approvalPrepare` answers `approved_session`, with no request, to the same owner for an intent with
-- the same digest, capability and directory, for 86400 seconds.
pub decide-session_covers :
    (host : Host) (d : Daemon) (payload : Option Json) (owner : Owner) (now : ℕ)
    (fresh id token : String)
    → Decides payload id token Decision.approve_session
    → (can : CanDecide owner now id token d)
    → (payload' : Option Json) (now' : ℕ) (fresh' : String) (input : RequestInput)
    → request_input host payload' ≡ ok input
    → host.hash input.intent ≡ can.owned.request.digest
    → input.intent.capability ≡ can.owned.request.capability
    → input.intent.workdir ≡ can.owned.request.workdir
    → now' < now + 86400 * 1000
    → (approval_prepare host
        (approval_decide d payload owner now fresh).0
        payload'
        owner
        now'
        fresh').1
      ≡ ok none
unfolding approval_prepare
decide-session_covers host d payload owner now fresh id token p can payload' now' fresh' input e h c
      w t =
    let r = can.owned.request in
    let test =
      grant_covers owner (host.hash input.intent) input.intent.capability input.intent.workdir in
    ground (
      arith,
      decide-decided d payload owner now fresh id token Decision.approve_session p can,
      e,
      any-last (is_live_grant now') test d.ledger.grants (session_grant owner now fresh r)
          (session_grant_live owner now now' fresh r t)
          (session_grant_covers owner now fresh (host.hash input.intent) input.intent.capability
            input.intent.workdir r h c w),
    )

-- After the owner approved a request once, with the token of a live claim, `approvalConsume` answers
-- `consumed` to the same owner for the same id and digest, until the request expires.
pub decide-once_runs :
    (host : Host) (d : Daemon) (payload : Option Json) (owner : Owner) (now : ℕ)
    (fresh id token : String)
    → Decides payload id token Decision.approve_once
    → (can : CanDecide owner now id token d)
    → (payload' : Option Json) (now' : ℕ) (input : ConsumeInput)
    → consume_input host payload' ≡ ok input
    → input.id ≡ ok id
    → input.digest ≡ can.owned.request.digest
    → now' < can.owned.request.expires_at
    → (approval_consume host (approval_decide d payload owner now fresh).0 payload' owner now').1
      ≡ ok (record can.owned.request {
        status = ApprovalStatus.consumed;
        updated_at = now';
        claim_expires_at = none;
      })
unfolding approval_consume
decide-once_runs host d payload owner now fresh id token p can payload' now' input e i h t =
    let r = can.owned.request in
    let d' = decided_daemon owner now fresh Decision.approve_once d r in
    let after : IsOwned d'.ledger owner id = record {
      request = decided now Decision.approve_once r;
      found =
          find-put_found id d.ledger.requests r (decided now Decision.approve_once r)
            can.owned.found refl;
      owns = can.owned.owns;
    } in
    ground (
      arith,
      decide-decided d payload owner now fresh id token Decision.approve_once p can,
      e,
      i,
      h,
      owned_ok d'.ledger owner id after,
      consume_act-once owner now' d' (decided now Decision.approve_once r) refl t,
    )
