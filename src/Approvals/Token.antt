-- ===== src/Approvals/Token.antt =====
-- Who may decide a request: `approvalClaim` and `approvalDecide` of src/daemon/server.ts.
use opencode_pty.Prelude.{
  ℕ, String, eq_iff, Option, none, some, List, [], ◌∷◌, ◌≡◌, ◌≢◌, ◌⊎◌, refl, inl, inr, arith,
  Option-cases,
}
use opencode_pty.Rpc.Result.{Result, ok, err, FailureCode, ◌>>=◌}
use opencode_pty.Rpc.Payload.{Json, Fields, required_string}
use opencode_pty.Approvals.Ledger.{
  ApprovalRequest, Owner, Tokens, approval_owned, get_token, delete_token,
}
use opencode_pty.Approvals.Refresh.{refresh_approval}
use opencode_pty.Approvals.Intent.{approval_payload, id_of}
use opencode_pty.Approvals.Queue.{Daemon, act_on, write_back}
use opencode_pty.Approvals.Decide.{Decision, parse_decision, decide_act, approval_decide}
use opencode_pty.Approvals.Keeps.{refresh-Keeps}
use opencode_pty.Approvals.Owned.{IsOwned, owned_or_refused, owned_ok}

get-delete_self : (tokens : Tokens) (id : String) → get_token (delete_token tokens id) id ≡ none
unfolding get_token delete_token
get-delete_self [] id = refl
get-delete_self ((key, token) ∷ rest) id = ground (arith, get-delete_self rest id)

-- The clock gives no token.
pub refresh-token :
    (now : ℕ) (r : ApprovalRequest) (tokens : Tokens) (token : String)
    → get_token (refresh_approval now r tokens).1 r.id ≡ some token
    → get_token tokens r.id ≡ some token
unfolding refresh_approval
refresh-token now r tokens token h = ground (arith, get-delete_self tokens r.id)

-- The caller that decides: it owns the request and sends the token that its claim drew.
pub record HoldsToken (owner : Owner) (id token : String) (d : Daemon) : Type 0 where
  pub owned : IsOwned d.ledger owner id
  pub holds : get_token d.tokens owned.request.id ≡ some token

act-token :
    (owner : Owner) (now : ℕ) (fresh : String) (decision : Decision) (token : String) (d : Daemon)
    (r a : ApprovalRequest)
    → (write_back d.ledger
        (act_on now (decide_act owner now fresh decision (ok token)) d.ledger d.tokens (ok r))).1
      ≡ ok a
    → get_token (refresh_approval now r d.tokens).1 (refresh_approval now r d.tokens).0.id
      ≡ some token
unfolding decide_act
act-token owner now fresh decision token d r a h =
    elim (Option-cases
      (get_token (refresh_approval now r d.tokens).1 (refresh_approval now r d.tokens).0.id)) [
        | inl n ↦ ground (arith, n, h)
        | inr (held, e) ↦ ground (arith, e, h, eq_iff held token)
      ]

pub Result-cases :
    {A : Type 0} → (x : Result A) → ((a : A) × (x ≡ ok a)) ⊎ ((code : FailureCode) × (x ≡ err code))
Result-cases (ok a) = inl (a, refl)
Result-cases (err e) = inr (e, refl)

owned-holds :
    (owner : Owner) (now : ℕ) (fresh id token : String) (decision : Decision) (d : Daemon)
    (a : ApprovalRequest)
    → (write_back d.ledger (
        act_on now
          (decide_act owner now fresh decision (ok token))
          d.ledger
          d.tokens
          (approval_owned d.ledger owner id))).1
      ≡ ok a
    → HoldsToken owner id token d
owned-holds owner now fresh id token decision d a h = elim (owned_or_refused d.ledger owner id) [
  | inl o ↦ record {
    owned = o;
    holds = refresh-token now o.request d.tokens token (
        ground (
          arith,
          (refresh-Keeps now o.request d.tokens).same_id,
          act-token owner now fresh decision token d o.request a
              (ground (arith, owned_ok d.ledger owner id o, h)),
        ));
  }
  | inr (code, e) ↦ ground (arith, e, h)
]

-- The answer of `approvalDecide` is an error if the claim token cannot be read.
no-token :
    (owner : Owner) (now : ℕ) (fresh : String) (code : FailureCode) (decision : Decision)
    (d : Daemon) (found : Result ApprovalRequest) (a : ApprovalRequest)
    → (write_back d.ledger
        (act_on now (decide_act owner now fresh decision (err code)) d.ledger d.tokens found)).1
      ≢ ok a
unfolding decide_act
no-token owner now fresh code decision d (ok r) a h = ground arith
no-token owner now fresh code decision d (err e) a h = ground arith

abbrev pub decide_fields : List String
decide_fields = "id" ∷ "decision" ∷ "claimToken" ∷ []

-- If the payload of `approvalDecide` and its id are read and it answers a request, then the payload
-- has a `claimToken`, the caller owns the request with that id, and the daemon holds that token for it.
pub decide-authorized :
    (d : Daemon) (payload : Option Json) (owner : Owner) (now : ℕ) (fresh id : String)
    (value : Fields) (a : ApprovalRequest)
    → approval_payload payload decide_fields ≡ ok value
    → id_of value ≡ ok id
    → (approval_decide d payload owner now fresh).1 ≡ ok a
    → (token : String) × (required_string value "claimToken" ≡ ok token)
      × HoldsToken owner id token d
unfolding approval_decide
decide-authorized d payload owner now fresh id value a e i h =
    elim (Result-cases (required_string value "decision" >>= parse_decision)) [
      | inl (decision, p) ↦ elim (Result-cases (required_string value "claimToken")) [
        | inl (token, t) ↦ (
          token,
          t,
          owned-holds owner now fresh id token decision d a (ground (arith, e, i, p, t, h)),
        )
        | inr (code, t) ↦ absurd (
            no-token owner now fresh code decision d (approval_owned d.ledger owner id) a
              (ground (arith, e, i, p, t, h)))
      ]
      | inr (code, p) ↦ ground (arith, e, p, h)
    ]
