-- ===== src/Approvals/Find.antt =====
-- Lemmas on the request list: a request by its id, after the list was changed.
use opencode_pty.Prelude.{
  keep, String, eq_iff, Bool, none, some, List, [], ◌∷◌, ◌++◌, ◌≡◌, ◌≢◌, refl, arith, if◌then◌else◌,
}
use opencode_pty.Approvals.Ledger.{ApprovalRequest, find_request, put_request}

-- No two requests have one id.
abbrev pub UniqueIds : List ApprovalRequest → Type 0
UniqueIds [] = Unit {0}
UniqueIds (request ∷ rest) = (find_request request.id rest ≡ none) × UniqueIds rest

pub find-id :
    (id : String) (requests : List ApprovalRequest) {r : ApprovalRequest}
    → find_request id requests ≡ some r
    → r.id ≡ id
unfolding find_request
find-id id [] h = cc
find-id id (x ∷ xs) {r} h = ground (arith, eq_iff x.id id, find-id id xs {r = r})

pub find-put_self :
    (id : String) (changed : ApprovalRequest) (requests : List ApprovalRequest)
    {r : ApprovalRequest}
    → changed.id ≡ id
    → find_request id requests ≡ some r
    → find_request id (put_request id changed requests) ≡ some changed
unfolding find_request put_request
find-put_self id changed [] e h = cc
find-put_self id changed (x ∷ xs) {r} e h =
    ground (arith, eq_iff x.id id, eq_iff changed.id id, find-put_self id changed xs {r = r} e)

pub find-put_ne :
    (id other : String) (changed : ApprovalRequest) (requests : List ApprovalRequest)
    → changed.id ≡ other
    → id ≢ other
    → find_request id (put_request other changed requests) ≡ find_request id requests
unfolding find_request put_request
find-put_ne id other changed [] e h = refl
find-put_ne id other changed (x ∷ xs) e h = ground (
  arith,
  eq_iff x.id id,
  eq_iff x.id other,
  eq_iff changed.id id,
  find-put_ne id other changed xs e h,
)

pub find-append :
    (id : String) (requests : List ApprovalRequest) (new : ApprovalRequest)
    → find_request id requests ≢ none
    → find_request id (requests ++ new ∷ []) ≡ find_request id requests
unfolding find_request
find-append id [] new h = absurd (h refl)
find-append id (x ∷ xs) new h = ground (arith, find-append id xs new)

pub find-append_none :
    (id : String) (requests : List ApprovalRequest) (new : ApprovalRequest)
    → id ≢ new.id
    → find_request id (requests ++ new ∷ []) ≡ find_request id requests
unfolding find_request
find-append_none id [] new h = ground (arith, eq_iff new.id id)
find-append_none id (x ∷ xs) new h = ground (arith, find-append_none id xs new h)

pub find-keep-none :
    (id : String) (test : ApprovalRequest → Bool) (requests : List ApprovalRequest)
    → find_request id requests ≡ none
    → find_request id (keep test requests) ≡ none
unfolding find_request keep
find-keep-none id test [] h = refl
find-keep-none id test (x ∷ xs) h = ground (arith, find-keep-none id test xs)

pub find-keep :
    (id : String) (test : ApprovalRequest → Bool) (requests : List ApprovalRequest)
    {r : ApprovalRequest}
    → UniqueIds requests
    → find_request id requests ≡ some r
    → find_request id (keep test requests) ≡ (if test r then some r else none)
unfolding find_request keep
find-keep id test [] u h = cc
find-keep id test (x ∷ xs) {r} u h =
    ground (arith, eq_iff x.id id, find-keep id test xs {r = r} u.1, find-keep-none id test xs)

pub keep-UniqueIds :
    (test : ApprovalRequest → Bool) (requests : List ApprovalRequest)
    → UniqueIds requests
    → UniqueIds (keep test requests)
unfolding keep
keep-UniqueIds test [] u = tt
keep-UniqueIds test (x ∷ xs) u =
    ground (arith, keep-UniqueIds test xs u.1, find-keep-none x.id test xs u.0)

pub find-put_none :
    (id other : String) (changed : ApprovalRequest) (requests : List ApprovalRequest)
    → changed.id ≡ other
    → find_request id requests ≡ none
    → find_request id (put_request other changed requests) ≡ none
unfolding find_request put_request
find-put_none id other changed [] e h = refl
find-put_none id other changed (x ∷ xs) e h = ground (
  arith,
  eq_iff x.id id,
  eq_iff x.id other,
  eq_iff changed.id id,
  find-put_none id other changed xs e,
)

pub put-UniqueIds :
    (id : String) (changed : ApprovalRequest) (requests : List ApprovalRequest)
    → changed.id ≡ id
    → UniqueIds requests
    → UniqueIds (put_request id changed requests)
unfolding put_request
put-UniqueIds id changed [] e u = tt
put-UniqueIds id changed (x ∷ xs) e u = ground (
  arith,
  eq_iff x.id id,
  put-UniqueIds id changed xs e u.1,
  find-put_none x.id id changed xs e u.0,
)

pub append-UniqueIds :
    (requests : List ApprovalRequest) (new : ApprovalRequest)
    → find_request new.id requests ≡ none
    → UniqueIds requests
    → UniqueIds (requests ++ new ∷ [])
unfolding find_request
append-UniqueIds [] new h u = (refl, tt)
append-UniqueIds (x ∷ xs) new h u =
    ground (arith, eq_iff x.id new.id, find-append_none x.id xs new, append-UniqueIds xs new)
