-- ===== src/Approvals/Cleanup.antt =====
-- What `approvalCleanupByParentSession` of src/daemon/server.ts leaves.
use opencode_pty.Prelude.{
  keep, any, String, Bool, false, not, Option, none, some, List, [], ◌∷◌, ◌≡◌, refl, inl, inr,
  arith, if◌then◌else◌, str_eq, eq_iff, ◌&&◌, Option-cases,
}
use opencode_pty.Rpc.Result.{ok, ◌>>=◌}
use opencode_pty.Rpc.Payload.{Json, required_string}
use opencode_pty.Approvals.Ledger.{
  ApprovalRequest, ApprovalGrant, Owner, find_request, owns_request, owns_grant,
}
use opencode_pty.Approvals.Intent.{approval_payload}
use opencode_pty.Approvals.Queue.{Daemon}
use opencode_pty.Approvals.Listing.{approval_cleanup_by_parent_session, cleanup_parent}
use opencode_pty.Approvals.Find.{UniqueIds, find-keep, find-keep-none}
use opencode_pty.Approvals.Token.{Result-cases}

any-keep-not :
    {A : Type 0} → (test : A → Bool) (xs : List A) → any test (keep (λ x. not (test x)) xs) ≡ false
unfolding any keep
any-keep-not test [] = refl
any-keep-not test (x ∷ xs) = ground (arith, any-keep-not test xs)

-- A request of another owner.
abbrev pub not_of : Owner → Option ApprovalRequest → Option ApprovalRequest
not_of owner none = none
not_of owner (some r) = if owns_request owner r then none else some r

find-cleaned :
    (id : String) (owner : Owner) (requests : List ApprovalRequest)
    → UniqueIds requests
    → find_request id (keep (λ request. not (owns_request owner request)) requests)
      ≡ not_of owner (find_request id requests)
find-cleaned id owner requests u = elim (Option-cases (find_request id requests)) [
  | inl e ↦
      ground (arith, e, find-keep-none id (λ request. not (owns_request owner request)) requests e)
  | inr (r, e) ↦
      ground
        (arith, e, find-keep id (λ request. not (owns_request owner request)) requests {r = r} u e)
]

abbrev pub same_owner : Owner → Owner → Bool
same_owner a b =
    str_eq a.parent_session_id b.parent_session_id && str_eq a.project_directory b.project_directory

keep-others :
    (owner other : Owner) (grants : List ApprovalGrant)
    → same_owner owner other ≡ false
    → keep (owns_grant other) (keep (λ grant. not (owns_grant owner grant)) grants)
      ≡ keep (owns_grant other) grants
unfolding keep
keep-others owner other [] differ = refl
keep-others owner other (g ∷ grants) differ = ground (
  arith,
  differ,
  eq_iff g.parent_session_id owner.parent_session_id,
  eq_iff g.parent_session_id other.parent_session_id,
  eq_iff g.project_directory owner.project_directory,
  eq_iff g.project_directory other.project_directory,
  eq_iff owner.parent_session_id other.parent_session_id,
  eq_iff owner.project_directory other.project_directory,
  keep-others owner other grants differ,
)

-- If the ids of the ledger are apart and `approvalCleanupByParentSession` succeeds, then no grant of
-- the calling owner is left and the grants of other owners are as before, and for every id, a request
-- of another owner is found as before, and one of the calling owner is no longer found.
pub cleanup-exact :
    (d : Daemon) (payload : Option Json) (owner : Owner)
    → UniqueIds d.ledger.requests
    → (approval_cleanup_by_parent_session d payload owner).1 ≡ ok tt
    → let after = (approval_cleanup_by_parent_session d payload owner).0.ledger in
      (any (owns_grant owner) after.grants ≡ false)
      × ((other : Owner)
          → same_owner owner other ≡ false
          → keep (owns_grant other) after.grants ≡ keep (owns_grant other) d.ledger.grants)
      × ((id : String)
          → find_request id after.requests ≡ not_of owner (find_request id d.ledger.requests))
unfolding approval_cleanup_by_parent_session
cleanup-exact d payload owner u h =
    elim (Result-cases (
      approval_payload payload ("parentSessionId" ∷ [])
      >>= (λ value. required_string value "parentSessionId")
      >>= cleanup_parent owner)) [
        | inl (t, e) ↦ (
          ground (arith, e, any-keep-not (owns_grant owner) d.ledger.grants),
          λ other differ. ground (arith, e, keep-others owner other d.ledger.grants differ),
          λ id. ground (arith, e, find-cleaned id owner d.ledger.requests u),
        )
        | inr (code, e) ↦ ground (arith, e, h)
      ]
