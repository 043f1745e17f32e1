-- ===== src/Approvals/Examples.antt =====
-- The theorems on the approval ledger of src/daemon/server.ts at one request for `ls`.
use opencode_pty.Prelude.{
  keep, String, true, false, Option, none, some, List, [], ◌∷◌, All, any, ◌≡◌, refl, arith,
}
use opencode_pty.Rpc.Result.{ok}
use opencode_pty.Rpc.Payload.{
  Json, Fields, get_field, has_nul, utf16_length, object_payload, only_fields, all_included,
  includes, required_string, required_positive_integer, optional_nonnegative_integer,
}
use opencode_pty.Approvals.Ledger.{
  ApprovalStatus, ApprovalRequest, ApprovalGrant, Owner, Tokens, find_request, get_token,
  owns_grant, approval_owned,
}
use opencode_pty.Approvals.Refresh.{refresh_approval}
use opencode_pty.Approvals.Intent.{
  Host, approval_payload, approval_intent, approval_text, approval_text_optional, approval_ui_lease,
}
use opencode_pty.Approvals.Queue.{Daemon}
use opencode_pty.Approvals.Create.{RequestInput, request_input, approval_prepare}
use opencode_pty.Approvals.Decide.{Decision, parse_decision, approval_decide, session_grant}
use opencode_pty.Approvals.Consume.{
  ConsumeInput, consume_input, consume_act, consume_by_status, approval_consume,
}
use opencode_pty.Approvals.Listing.{approval_cleanup_by_parent_session}
use opencode_pty.Approvals.Calls.{Call, step}
use opencode_pty.Approvals.StepKeeps.{Later}
use opencode_pty.Approvals.Runs.{Event, run, DrawsNew, run-Later}
use opencode_pty.Approvals.Authority.{IsAuthorized, consume-IsAuthorized}
use opencode_pty.Approvals.Once.{is_ok, consume-once}
use opencode_pty.Approvals.Token.{HoldsToken, decide-authorized}
use opencode_pty.Approvals.GrantOrigin.{NewGrant, step-grants}
use opencode_pty.Approvals.Decided.{
  CanDecide, Decides, decided, decide-decided, decide-session_covers, decide-once_runs,
}
use opencode_pty.Approvals.Cleanup.{not_of, same_owner, cleanup-exact}

abbrev user : Owner
user = record { parent_session_id = "p"; project_directory = "/w" }

-- A host that stands for the runtime: texts and paths are kept, and a command is its own digest.
abbrev plain_host : Host
plain_host = record {
  nfc = λ text. text;
  real_path = λ path. some path;
  hash = λ intent. intent.command;
}

abbrev request_with : ApprovalStatus → ApprovalRequest
request_with status = record {
  id = "a";
  parent_session_id = "p";
  project_directory = "/w";
  digest = "ls";
  command = "ls";
  reason = none;
  capability = "bash";
  workdir = "/w";
  status = status;
  created_at = 0;
  updated_at = 0;
  expires_at = 60000;
  ui_eligible = some true;
  ui_expires_at = some 5000;
  claim_expires_at = some 5000;
}

abbrev daemon_with : ApprovalStatus → Tokens → Daemon
daemon_with status tokens = record {
  ledger = record { requests = request_with status ∷ []; grants = [] };
  tokens = tokens;
}

-- Approved once, and claimed with the token `t`.
abbrev approved_daemon : Daemon
approved_daemon = daemon_with ApprovalStatus.approved_once []

abbrev claimed : Daemon
claimed = daemon_with ApprovalStatus.claimed (("a", "t") ∷ [])

abbrev consume_payload : Option Json
consume_payload = some (
    Json.object (
      Fields.field "id" (Json.text "a") (
        Fields.field "command" (Json.text "ls") (
          Fields.field "capability" (Json.text "bash")
            (Fields.field "workdir" (Json.text "/w") Fields.end)))))

abbrev consumed_input : ConsumeInput
consumed_input = record { id = ok "a"; digest = "ls" }

reads_consume : consume_input plain_host consume_payload ≡ ok consumed_input
unfolding consume_input approval_payload approval_intent approval_text approval_text_optional
    object_payload only_fields all_included includes required_string get_field has_nul utf16_length
reads_consume = refl

abbrev used : ApprovalRequest
used = record (request_with ApprovalStatus.approved_once) {
  status = ApprovalStatus.consumed;
  updated_at = 100;
}

consumes : (approval_consume plain_host approved_daemon consume_payload user 100).1 ≡ ok used
unfolding approval_consume consume_act consume_by_status approval_owned refresh_approval
    find_request consume_input approval_payload approval_intent approval_text approval_text_optional
    object_payload only_fields all_included includes required_string get_field has_nul utf16_length
consumes = refl

consume-IsAuthorized_example : IsAuthorized user 100 "a" "ls" approved_daemon.ledger
consume-IsAuthorized_example =
    consume-IsAuthorized plain_host approved_daemon consume_payload user 100 consumed_input "a" used
      reads_consume refl consumes refl

abbrev id_payload : Option Json
id_payload = some (Json.object (Fields.field "id" (Json.text "a") Fields.end))

-- The native prompt tries to approve the request.
abbrev retries : List Event
retries = record { owner = user; now = 150; call = Call.native_approve id_payload } ∷ []

retries_new : (d : Daemon) → DrawsNew plain_host "a" retries d
unfolding DrawsNew
retries_new d = (ground arith, tt, tt)

consume-once_example :
    is_ok
      (approval_consume plain_host
        (run plain_host retries
          (approval_consume plain_host approved_daemon consume_payload user 100).0)
        consume_payload
        user
        200).1
    ≡ false
unfolding find_request
consume-once_example =
    consume-once plain_host approved_daemon consume_payload user 100 consumed_input "a" used
      (refl, tt) reads_consume refl consumes refl retries
      (retries_new (approval_consume plain_host approved_daemon consume_payload user 100).0)
      consume_payload user 200 consumed_input reads_consume refl

run-Later_example :
    Later
      (request_with ApprovalStatus.approved_once)
      (find_request "a" (run plain_host retries approved_daemon).ledger.requests)
unfolding find_request
run-Later_example =
    run-Later plain_host "a" retries approved_daemon (request_with ApprovalStatus.approved_once)
      (refl, tt) (retries_new approved_daemon) refl

abbrev decision_fields : String → Fields
decision_fields decision = Fields.field "id" (Json.text "a") (
    Fields.field "decision" (Json.text decision)
      (Fields.field "claimToken" (Json.text "t") Fields.end))

abbrev decision_payload : String → Option Json
decision_payload decision = some (Json.object (decision_fields decision))

Decides-once : Decides (decision_payload "approve_once") "a" "t" Decision.approve_once
unfolding approval_payload object_payload only_fields all_included includes required_string
    get_field has_nul utf16_length parse_decision
Decides-once = record {
  value = decision_fields "approve_once";
  reads = refl;
  reads_id = refl;
  reads_decision = refl;
  reads_token = refl;
}

Decides-session : Decides (decision_payload "approve_session") "a" "t" Decision.approve_session
unfolding approval_payload object_payload only_fields all_included includes required_string
    get_field has_nul utf16_length parse_decision
Decides-session = record {
  value = decision_fields "approve_session";
  reads = refl;
  reads_id = refl;
  reads_decision = refl;
  reads_token = refl;
}

can_decide : CanDecide user 100 "a" "t" claimed
unfolding find_request get_token
can_decide = record {
  owned = record { request = request_with ApprovalStatus.claimed; found = refl; owns = refl };
  claimed = refl;
  not_expired = omega arith;
  claim_runs = refl;
  holds = refl;
}

decide-authorized_example :
    (token : String) × (required_string (decision_fields "approve_once") "claimToken" ≡ ok token)
    × HoldsToken user "a" token claimed
unfolding approval_payload object_payload only_fields all_included includes required_string
    get_field has_nul utf16_length can_decide
decide-authorized_example =
    decide-authorized claimed (decision_payload "approve_once") user 100 "g" "a"
      (decision_fields "approve_once")
      (decided 100 Decision.approve_once (request_with ApprovalStatus.claimed)) refl refl
      (ground (
        arith,
        decide-decided claimed (decision_payload "approve_once") user 100 "g" "a" "t"
            Decision.approve_once Decides-once can_decide,
      ))

abbrev prepare_payload : Option Json
prepare_payload = some (
    Json.object (
      Fields.field "command" (Json.text "ls") (
        Fields.field "capability" (Json.text "bash") (
          Fields.field "workdir" (Json.text "/w")
            (Fields.field "expirySeconds" (Json.natural 60) Fields.end)))))

abbrev prepared_input : RequestInput
prepared_input = record {
  expiry_seconds = 60;
  intent = record { command = "ls"; reason = none; capability = "bash"; workdir = "/w" };
  ui_lease_seconds = none;
}

reads_prepare : request_input plain_host prepare_payload ≡ ok prepared_input
unfolding request_input approval_payload approval_intent approval_ui_lease approval_text
    approval_text_optional object_payload only_fields all_included includes required_string
    required_positive_integer optional_nonnegative_integer get_field has_nul utf16_length
reads_prepare = refl

decide-session_covers_example :
    (approval_prepare plain_host
      (approval_decide claimed (decision_payload "approve_session") user 100 "g").0
      prepare_payload
      user
      90000
      "b").1
    ≡ ok none
unfolding can_decide
decide-session_covers_example =
    decide-session_covers plain_host claimed (decision_payload "approve_session") user 100 "g" "a"
      "t" Decides-session can_decide prepare_payload 90000 "b" prepared_input reads_prepare refl
      refl refl (omega arith)

decide-once_runs_example :
    (approval_consume plain_host
      (approval_decide claimed (decision_payload "approve_once") user 100 "g").0
      consume_payload
      user
      200).1
    ≡ ok (record (request_with ApprovalStatus.claimed) {
      status = ApprovalStatus.consumed;
      updated_at = 200;
      claim_expires_at = none;
    })
unfolding can_decide
decide-once_runs_example =
    decide-once_runs plain_host claimed (decision_payload "approve_once") user 100 "g" "a" "t"
      Decides-once can_decide consume_payload 200 consumed_input reads_consume refl refl
      (omega arith)

-- Every grant is for `ls`.
abbrev ForLs : ApprovalGrant → Type 0
ForLs g = g.digest ≡ "ls"

granted_ls :
    (g : ApprovalGrant)
    → NewGrant user 100 (Call.decide (decision_payload "approve_session") "g") claimed g
    → ForLs g
unfolding find_request session_grant
granted_ls g n = ground (arith, n.found, n.grant, n)

step-grants_example :
    All ForLs
      (step plain_host user 100
        (Call.decide (decision_payload "approve_session") "g")
        claimed).ledger.grants
step-grants_example =
    step-grants plain_host user 100 (Call.decide (decision_payload "approve_session") "g") claimed
      ForLs tt granted_ls

abbrev cleanup_payload : Option Json
cleanup_payload = some (Json.object (Fields.field "parentSessionId" (Json.text "p") Fields.end))

cleanup-exact_example :
    let after = (approval_cleanup_by_parent_session claimed cleanup_payload user).0.ledger in
    (any (owns_grant user) after.grants ≡ false)
    × ((other : Owner)
        → same_owner user other ≡ false
        → keep (owns_grant other) after.grants ≡ keep (owns_grant other) claimed.ledger.grants)
    × ((id : String)
        → find_request id after.requests ≡ not_of user (find_request id claimed.ledger.requests))
unfolding find_request approval_cleanup_by_parent_session approval_payload object_payload
    only_fields all_included includes required_string get_field has_nul utf16_length
cleanup-exact_example = cleanup-exact claimed cleanup_payload user (refl, tt) refl
