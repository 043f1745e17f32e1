-- ===== src/Approvals/StepKeeps.antt =====
-- What the approval operations do to a request of the ledger, whoever calls them.
use opencode_pty.Prelude.{
  ℕ, String, eq_iff, str_eq, none, some, Option, List, [], ◌∷◌, ◌≡◌, ◌≢◌, inl, inr, arith,
  Bool-cases,
}
use opencode_pty.Approvals.Ledger.{ApprovalRequest, Owner, Tokens, find_request, put_request}
use opencode_pty.Approvals.Refresh.{refresh_approval}
use opencode_pty.Approvals.Intent.{Host}
use opencode_pty.Approvals.Queue.{Daemon}
use opencode_pty.Approvals.Listing.{refresh_all}
use opencode_pty.Approvals.Calls.{Call, step}
use opencode_pty.Approvals.Find.{
  UniqueIds, find-put_self, find-put_ne, find-put_none, find-id, find-keep, find-keep-none,
  find-append, find-append_none, put-UniqueIds, keep-UniqueIds, append-UniqueIds,
}
use opencode_pty.Approvals.Keeps.{Keeps, Keeps-refl, refresh-Keeps}
use opencode_pty.Approvals.Change.{
  Change, same, moved, added, kept, refreshed, drawn_id, step-Change,
}

-- The request is gone, or is a later state of `r`.
abbrev pub Later : ApprovalRequest → Option ApprovalRequest → Type 0
Later r none = Unit
Later r (some s) = Keeps r s

put-Later :
    (requests : List ApprovalRequest) (r s : ApprovalRequest)
    → find_request r.id requests ≡ some r
    → Keeps r s
    → (id : String) (q : ApprovalRequest) → find_request id requests ≡ some q
    → Later q (find_request id (put_request r.id s requests))
put-Later requests r s found k id q h = elim (Bool-cases (str_eq id r.id)) [
  | inl e ↦ ground (
    arith,
    eq_iff id r.id,
    find-put_self r.id s requests {r = r} k.same_id found,
    find-id id requests {r = q} h,
  )
  | inr n ↦ ground (arith, eq_iff id r.id, find-put_ne id r.id s requests k.same_id, Keeps-refl q)
]

refresh_all-Later :
    (now : ℕ) (requests : List ApprovalRequest) (tokens : Tokens) (id : String)
    (r : ApprovalRequest)
    → find_request id requests ≡ some r
    → Later r (find_request id (refresh_all now requests tokens).0)
unfolding refresh_all find_request
refresh_all-Later now [] tokens id r h = cc
refresh_all-Later now (x ∷ xs) tokens id r h = elim (Bool-cases (str_eq x.id id)) [
  | inl e ↦ ground (
    arith,
    eq_iff x.id id,
    eq_iff (refresh_approval now x tokens).0.id id,
    (refresh-Keeps now x tokens).same_id,
    refresh-Keeps now x tokens,
  )
  | inr n ↦ ground (
    arith,
    eq_iff x.id id,
    eq_iff (refresh_approval now x tokens).0.id id,
    (refresh-Keeps now x tokens).same_id,
    refresh_all-Later now xs (refresh_approval now x tokens).1 id r,
  )
]

Change-Later :
    {drawn : Option String} {before after : List ApprovalRequest}
    → Change drawn before after
    → UniqueIds before
    → (id : String) (r : ApprovalRequest) → find_request id before ≡ some r
    → Later r (find_request id after)
Change-Later same u id r h = ground (arith, Keeps-refl r)
Change-Later {before = before} (moved q s found k) u id r h = put-Later before q s found k id r h
Change-Later {before = before} (added new e) u id r h =
    ground (arith, find-append id before new, Keeps-refl r)
Change-Later {before = before} (kept test) u id r h =
    ground (arith, find-keep id test before {r = r} u h, Keeps-refl r)
Change-Later {before = before} (refreshed now tokens) u id r h =
    refresh_all-Later now before tokens id r h

refresh_all-none :
    (now : ℕ) (requests : List ApprovalRequest) (tokens : Tokens) (id : String)
    → find_request id requests ≡ none
    → find_request id (refresh_all now requests tokens).0 ≡ none
unfolding refresh_all find_request
refresh_all-none now [] tokens id h = h
refresh_all-none now (x ∷ xs) tokens id h = ground (
  arith,
  eq_iff x.id id,
  eq_iff (refresh_approval now x tokens).0.id id,
  (refresh-Keeps now x tokens).same_id,
  refresh_all-none now xs (refresh_approval now x tokens).1 id,
)

Change-none :
    {drawn : Option String} {before after : List ApprovalRequest}
    → Change drawn before after
    → (id : String) → drawn ≢ some id
    → find_request id before ≡ none
    → find_request id after ≡ none
Change-none same id n h = h
Change-none {before = before} (moved q s found k) id n h =
    find-put_none id q.id s before k.same_id h
Change-none {before = before} (added new e) id n h = ground (arith, find-append_none id before new)
Change-none {before = before} (kept test) id n h = find-keep-none id test before h
Change-none {before = before} (refreshed now tokens) id n h =
    refresh_all-none now before tokens id h

refresh_all-UniqueIds :
    (now : ℕ) (requests : List ApprovalRequest) (tokens : Tokens)
    → UniqueIds requests
    → UniqueIds (refresh_all now requests tokens).0
unfolding refresh_all
refresh_all-UniqueIds now [] tokens u = tt
refresh_all-UniqueIds now (x ∷ xs) tokens u = ground (
  arith,
  (refresh-Keeps now x tokens).same_id,
  refresh_all-none now xs (refresh_approval now x tokens).1 x.id,
  refresh_all-UniqueIds now xs (refresh_approval now x tokens).1,
)

-- The id that is drawn is in no request of the list.
abbrev pub IsNew : Option String → List ApprovalRequest → Type 0
IsNew none requests = Unit
IsNew (some id) requests = find_request id requests ≡ none

Change-UniqueIds :
    {drawn : Option String} {before after : List ApprovalRequest}
    → Change drawn before after
    → IsNew drawn before
    → UniqueIds before
    → UniqueIds after
Change-UniqueIds same n u = u
Change-UniqueIds {before = before} (moved q s found k) n u = put-UniqueIds q.id s before k.same_id u
Change-UniqueIds {before = before} (added new e) n u = ground (arith, append-UniqueIds before new)
Change-UniqueIds {before = before} (kept test) n u = keep-UniqueIds test before u
Change-UniqueIds {before = before} (refreshed now tokens) n u =
    refresh_all-UniqueIds now before tokens u

-- One operation keeps the ids of the requests apart, if they are apart and the id that the operation
-- draws, if it draws one, is in no request.
pub step-UniqueIds :
    (host : Host) (owner : Owner) (now : ℕ) (call : Call) (d : Daemon)
    → IsNew (drawn_id call) d.ledger.requests
    → UniqueIds d.ledger.requests
    → UniqueIds (step host owner now call d).ledger.requests
step-UniqueIds host owner now call d = Change-UniqueIds (step-Change host owner now call d)

-- One operation, whoever calls it and whatever its payload: a request is gone afterwards, or it is
-- as it was but for a status that moved along its life.
pub step-Later :
    (host : Host) (owner : Owner) (now : ℕ) (call : Call) (d : Daemon)
    → UniqueIds d.ledger.requests
    → (id : String) (r : ApprovalRequest) → find_request id d.ledger.requests ≡ some r
    → Later r (find_request id (step host owner now call d).ledger.requests)
step-Later host owner now call d = Change-Later (step-Change host owner now call d)

pub step-none :
    (host : Host) (owner : Owner) (now : ℕ) (call : Call) (d : Daemon) (id : String)
    → drawn_id call ≢ some id
    → find_request id d.ledger.requests ≡ none
    → find_request id (step host owner now call d).ledger.requests ≡ none
step-none host owner now call d = Change-none (step-Change host owner now call d)
