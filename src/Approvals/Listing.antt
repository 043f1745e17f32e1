-- ===== src/Approvals/Listing.antt =====
-- `approvalStatus`, `approvalListGrants`, `approvalListRequests`, `approvalRevokeGrant` and
-- `approvalCleanupByParentSession` of src/daemon/server.ts.
use opencode_pty.Prelude.{
  keep, ℕ, String, str_eq, Bool, true, not, ◌&&◌, Option, none, some, List, [], ◌∷◌, if◌then◌else◌,
}
use opencode_pty.Rpc.Result.{Result, ok, err, FailureCode, ◌>>=◌}
use opencode_pty.Rpc.Payload.{Json, required_string}
use opencode_pty.Approvals.Ledger.{
  ApprovalRequest, ApprovalGrant, ApprovalLedger, Owner, Tokens, delete_token, is_live_grant,
  owns_request, owns_grant,
}
use opencode_pty.Approvals.Refresh.{refresh_approval}
use opencode_pty.Approvals.Intent.{approval_payload, id_of}
use opencode_pty.Approvals.Queue.{Daemon, Act, with_approvals, with_payload, with_owned_request}

unfoldable pub status_act : Act ApprovalRequest
status_act ledger request tokens = (tokens, ok (request, [], request))

unfoldable pub approval_status : Daemon → String → Owner → ℕ → Daemon × Result ApprovalRequest
approval_status d id owner now = with_approvals d (with_owned_request owner now (ok id) status_act)

unfoldable pub approval_list_grants : Daemon → Owner → ℕ → Daemon × Result (List ApprovalGrant)
approval_list_grants d owner now = with_approvals d λ ledger tokens.
    let grants = keep (is_live_grant now) ledger.grants in
    (tokens, ok (record ledger { grants = grants }, keep (owns_grant owner) grants))

-- The loop that refreshes every request.
unfoldable pub refresh_all : ℕ → List ApprovalRequest → Tokens → List ApprovalRequest × Tokens
refresh_all now [] tokens = ([], tokens)
refresh_all now (request ∷ rest) tokens =
    let refreshed = refresh_approval now request tokens in
    let others = refresh_all now rest refreshed.1 in (refreshed.0 ∷ others.0, others.1)

unfoldable pub approval_list_requests : Daemon → Owner → ℕ → Daemon × Result (List ApprovalRequest)
approval_list_requests d owner now = with_approvals d λ ledger tokens.
    let refreshed = refresh_all now ledger.requests tokens in
    (
      refreshed.1,
      ok (record ledger { requests = refreshed.0 }, keep (owns_request owner) refreshed.0),
    )

abbrev is_grant : Owner → String → ApprovalGrant → Bool
is_grant owner id grant = str_eq grant.id id && owns_grant owner grant

-- `findIndex` and `splice`: the list without the first such grant, if there is one.
unfoldable pub remove_grant : Owner → String → List ApprovalGrant → Option (List ApprovalGrant)
remove_grant owner id [] = none
remove_grant owner id (grant ∷ rest) =
    let others = remove_grant owner id rest in
    if is_grant owner id grant
    then some rest
    else elim others [ none ↦ none | some left ↦ some (grant ∷ left) ]

abbrev pub revoked : ApprovalLedger → Option (List ApprovalGrant) → Result (ApprovalLedger × Bool)
revoked ledger none = err FailureCode.not_found
revoked ledger (some grants) = ok (record ledger { grants = grants }, true)

unfoldable pub approval_revoke_grant : Daemon → Option Json → Owner → Daemon × Result Bool
approval_revoke_grant d payload owner =
    with_payload d (approval_payload payload ("id" ∷ []) >>= id_of) λ id.
      with_approvals d
        λ ledger tokens. (tokens, revoked ledger (remove_grant owner id ledger.grants))

-- The loop that drops the claim tokens of the owner's requests.
unfoldable pub drop_tokens : Owner → List ApprovalRequest → Tokens → Tokens
drop_tokens owner [] tokens = tokens
drop_tokens owner (request ∷ rest) tokens =
    drop_tokens owner rest
      (if owns_request owner request then delete_token tokens request.id else tokens)

abbrev pub cleanup_parent : Owner → String → Result (Unit {0})
cleanup_parent owner parent =
    if str_eq parent owner.parent_session_id then ok tt else err FailureCode.authorization

unfoldable pub approval_cleanup_by_parent_session :
    Daemon → Option Json → Owner → Daemon × Result (Unit {0})
approval_cleanup_by_parent_session d payload owner =
    with_payload d
      (approval_payload payload ("parentSessionId" ∷ [])
        >>= (λ value. required_string value "parentSessionId")
        >>= cleanup_parent owner)
      λ _. with_approvals d λ ledger tokens. (
        drop_tokens owner ledger.requests tokens,
        ok (
          record {
            requests = keep (λ request. not (owns_request owner request)) ledger.requests;
            grants = keep (λ grant. not (owns_grant owner grant)) ledger.grants;
          },
          tt,
        ),
      )
