-- ===== src/Approvals/Ledger.antt =====
-- Requests, grants, and the two lists of them (src/daemon/types.ts and server.ts).
-- Timestamps are milliseconds: the source prints them as ISO texts and parses them back.
use opencode_pty.Prelude.{
  ℕ, String, str_eq, Bool, false, ◌&&◌, Option, none, some, List, [], ◌∷◌, ltb, leb, if◌then◌else◌,
}
use opencode_pty.Rpc.Result.{Result, ok, err, FailureCode}

pub data ApprovalStatus : Type 0 where
  pending claimed native_fallback approved_once approved_session : ApprovalStatus
  rejected cancelled expired consumed : ApprovalStatus

pub record ApprovalRequest : Type 0 where
  pub id : String
  pub parent_session_id : String
  pub project_directory : String
  pub digest : String
  pub command : String
  pub reason : Option String
  pub capability : String
  pub workdir : String
  pub status : ApprovalStatus
  pub created_at : ℕ
  pub updated_at : ℕ
  pub expires_at : ℕ
  pub ui_eligible : Option Bool
  pub ui_expires_at : Option ℕ
  pub claim_expires_at : Option ℕ

pub record ApprovalGrant : Type 0 where
  pub id : String
  pub parent_session_id : String
  pub project_directory : String
  pub digest : String
  pub capability : String
  pub workdir : String
  pub created_at : ℕ
  pub expires_at : ℕ

pub record ApprovalLedger : Type 0 where
  pub requests : List ApprovalRequest
  pub grants : List ApprovalGrant

-- `OwnerContext` after `owner(request)`, by its two fields that the ledger keeps.
pub record Owner : Type 0 where
  pub parent_session_id : String
  pub project_directory : String

-- `approvalClaimTokens`, a map from request ids to tokens.
abbrev pub Tokens : Type 0
Tokens = List (String × String)

unfoldable pub get_token : Tokens → String → Option String
get_token [] id = none
get_token ((key, token) ∷ rest) id = if str_eq key id then some token else get_token rest id

unfoldable pub delete_token : Tokens → String → Tokens
delete_token [] id = []
delete_token ((key, token) ∷ rest) id =
    let rest' = delete_token rest id in if str_eq key id then rest' else (key, token) ∷ rest'

unfoldable pub set_token : Tokens → String → String → Tokens
unfolding delete_token
set_token tokens id token = (id, token) ∷ delete_token tokens id

-- `Date.parse(at ?? '') <= now` and `Date.parse(at ?? '') > now`: a missing time compares false.
abbrev pub is_due : Option ℕ → ℕ → Bool
is_due none now = false
is_due (some at) now = leb at now

abbrev pub is_later : Option ℕ → ℕ → Bool
is_later none now = false
is_later (some at) now = ltb now at

abbrev pub owns_request : Owner → ApprovalRequest → Bool
owns_request owner request =
    str_eq request.parent_session_id owner.parent_session_id
    && str_eq request.project_directory owner.project_directory

abbrev pub owns_grant : Owner → ApprovalGrant → Bool
owns_grant owner grant =
    str_eq grant.parent_session_id owner.parent_session_id
    && str_eq grant.project_directory owner.project_directory

-- `ledger.requests.find((entry) => entry.id === id)`
unfoldable pub find_request : String → List ApprovalRequest → Option ApprovalRequest
find_request id [] = none
find_request id (request ∷ rest) =
    if str_eq request.id id then some request else find_request id rest

-- The list after the found request was changed in place.
unfoldable pub put_request : String → ApprovalRequest → List ApprovalRequest → List ApprovalRequest
put_request id changed [] = []
put_request id changed (request ∷ rest) =
    if str_eq request.id id then changed ∷ rest else request ∷ put_request id changed rest

abbrev owned : Owner → Option ApprovalRequest → Result ApprovalRequest
owned owner none = err FailureCode.not_found
owned owner (some request) =
    if owns_request owner request then ok request else err FailureCode.authorization

unfoldable pub approval_owned : ApprovalLedger → Owner → String → Result ApprovalRequest
approval_owned ledger owner id = owned owner (find_request id ledger.requests)

abbrev pub is_live_grant : ℕ → ApprovalGrant → Bool
is_live_grant now grant = ltb now grant.expires_at

-- The grant lets its owner run the command with the digest, under the capability, in the directory.
abbrev pub grant_covers : Owner → String → String → String → ApprovalGrant → Bool
grant_covers owner digest capability workdir grant =
    owns_grant owner grant
    && (str_eq grant.digest digest
        && (str_eq grant.capability capability && str_eq grant.workdir workdir))
