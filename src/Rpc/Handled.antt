-- ===== src/Rpc/Handled.antt =====
-- Which requests `handle` of src/daemon/server.ts makes a call for.
use opencode_pty.Prelude.{
  ℕ, ◌≤◌, String, str_eq, eq_iff, Bool, true, false, Option, none, some, List, length, leb, ◌≡◌,
  ◌∙◌, ap, inl, inr, refl, sym, arith, Bool-cases, Option-cases,
}
use opencode_pty.Rpc.Result.{Result, ok, err}
use opencode_pty.Rpc.Payload.{Json, Fields, get_field}
use opencode_pty.Rpc.Body.{max_request_bytes, length_accepted, request_body}
use opencode_pty.Rpc.Received.{received, all_sent, request_body_lem}
use opencode_pty.Rpc.Owner.{Server}
use opencode_pty.Rpc.InputRate.{InputUsage}
use opencode_pty.Rpc.Calls.{RpcCall}
use opencode_pty.Rpc.Dispatch.{dispatch}
use opencode_pty.Rpc.Dispatched.{IsAllowed, every-IsAllowed}
use opencode_pty.Rpc.Ensures.{Ensures, Ensures-ok}
use opencode_pty.Rpc.Handle.{
  HttpRequest, Response, daemon_protocol_version, bearer, is_authorized, is_rpc, short_text,
  version_matches, rpc_request_of, answer_of, with_version, handle_json, handle_body, handle,
}
use opencode_pty.Registry.State.{Registry}

-- What holds of the call of a response, if it has one.
data Made (P : String → RpcCall → Type 0) : Response → Type 0 where
  no_page : Made P Response.not_found_page
  no_call : {id : String} {code : _} {status : ℕ} → Made P (Response.failure id code status)
  made : {id : String} {call : RpcCall} → P id call → Made P (Response.called id call)

Made-called :
    {P : String → RpcCall → Type 0} {response : Response} (id : String) (call : RpcCall)
    → Made P response
    → response ≡ Response.called id call
    → P id call
Made-called id call Made.no_page e = ground (arith, e)
Made-called id call Made.no_call e = ground (arith, e)
Made-called id call (Made.made {id = i} {call = c} h) e =
    let same_id : id ≡ i = ground (arith, e) in
    let same_call : call ≡ c = ground (arith, e) in rw (same_id, same_call) h

-- The object has the id and the daemon's version, and its call is allowed.
pub record IsEnvelope (server : Server) (registry : Registry) (fields : Fields) (id : String)
    (call : RpcCall) : Type 0 where
  pub id_sent : get_field fields "id" ≡ some (Json.text id)
  pub version : get_field fields "version" ≡ some (Json.natural daemon_protocol_version)
  pub operation : String
  pub operation_sent : get_field fields "operation" ≡ some (Json.text operation)
  pub allowed : IsAllowed server registry (rpc_request_of fields operation) call

-- The bytes parse to such an object.
pub record IsParsed (parse : List ℕ → Option Json) (server : Server) (registry : Registry)
    (bytes : List ℕ) (id : String) (call : RpcCall) : Type 0 where
  pub fields : Fields
  pub parsed : parse bytes ≡ some (Json.object fields)
  pub envelope : IsEnvelope server registry fields id call

-- The request is a POST to `/rpc` with the daemon's token, and its body is at most a mebibyte and
-- parses to such an object.
pub record IsGuarded (parse : List ℕ → Option Json) (token : String) (server : Server)
    (registry : Registry) (request : HttpRequest) (id : String) (call : RpcCall) : Type 0 where
  pub method : request.method ≡ "POST"
  pub path : request.path ≡ "/rpc"
  pub token_sent : request.authorization ≡ some (bearer token)
  pub small : length (all_sent request.body) ≤ max_request_bytes
  pub content : IsParsed parse server registry (all_sent request.body) id call

short_text-text :
    (maximum : ℕ) (value : Option Json) (content : String)
    → short_text maximum value ≡ some content
    → value ≡ some (Json.text content)
short_text-text maximum (some (Json.text v)) content e = ground (arith, e)
short_text-text maximum none content e = ground (arith, e)
short_text-text maximum (some Json.null) content e = ground (arith, e)
short_text-text maximum (some (Json.boolean b)) content e = ground (arith, e)
short_text-text maximum (some (Json.natural n)) content e = ground (arith, e)
short_text-text maximum (some Json.other_number) content e = ground (arith, e)
short_text-text maximum (some (Json.array items)) content e = ground (arith, e)
short_text-text maximum (some (Json.object fields)) content e = ground (arith, e)

version_matches-natural :
    (value : Option Json)
    → version_matches value ≡ some true
    → value ≡ some (Json.natural daemon_protocol_version)
version_matches-natural (some (Json.natural n)) e =
    let same : n ≡ daemon_protocol_version = ground (arith, e) in rw same refl
version_matches-natural none e = ground (arith, e)
version_matches-natural (some Json.null) e = ground (arith, e)
version_matches-natural (some (Json.boolean b)) e = ground (arith, e)
version_matches-natural (some Json.other_number) e = ground (arith, e)
version_matches-natural (some (Json.text v)) e = ground (arith, e)
version_matches-natural (some (Json.array items)) e = ground (arith, e)
version_matches-natural (some (Json.object fields)) e = ground (arith, e)

answer_of-Made :
    {P : RpcCall → Type 0} (id : String) (answer : InputUsage × Result RpcCall)
    → Ensures P answer.1
    → Made (λ i call. (i ≡ id) × P call) (answer_of id answer).1
answer_of-Made id (usages, err failed) h = Made.no_call
answer_of-Made id (usages, ok call) h = Made.made (refl, Ensures-ok call h refl)

Made-map :
    {P Q : String → RpcCall → Type 0} {response : Response}
    → Made P response
    → ((id : String) (call : RpcCall) → P id call → Q id call)
    → Made Q response
Made-map Made.no_page h = Made.no_page
Made-map Made.no_call h = Made.no_call
Made-map (Made.made {id = i} {call = c} p) h = Made.made (h i c p)

module _ (server : Server) (registry : Registry) (usages : InputUsage) (now : ℕ) where
  with_version-Made :
      (fields : Fields) (id : Option String) (version : Option Bool) (operation : Option String)
      → short_text 128 (get_field fields "id") ≡ id
      → version_matches (get_field fields "version") ≡ version
      → short_text 64 (get_field fields "operation") ≡ operation
      → Made
          (IsEnvelope server registry fields)
          (with_version server registry usages now fields id version operation).1
  with_version-Made fields (some id) (some true) (some operation) i v o =
      Made-map
        (answer_of-Made id (dispatch server registry usages now (rpc_request_of fields operation))
          (every-IsAllowed server registry usages now (rpc_request_of fields operation)))
        λ given call p. record {
          id_sent = rw (p.0) (short_text-text 128 (get_field fields "id") id i);
          version = version_matches-natural (get_field fields "version") v;
          operation = operation;
          operation_sent = short_text-text 64 (get_field fields "operation") operation o;
          allowed = p.1;
        }
  with_version-Made fields (some id) (some false) (some operation) i v o = Made.no_call
  with_version-Made fields none version operation i v o = Made.no_call
  with_version-Made fields (some id) none operation i v o = Made.no_call
  with_version-Made fields (some id) (some true) none i v o = Made.no_call
  with_version-Made fields (some id) (some false) none i v o = Made.no_call

  handle_json-Made :
      (parse : List ℕ → Option Json) (bytes : List ℕ) (value : Option Json)
      → parse bytes ≡ value
      → Made (IsParsed parse server registry bytes) (handle_json server registry usages now value).1
  unfolding handle_json
  handle_json-Made parse bytes (some (Json.object fields)) e =
      Made-map (with_version-Made fields _ _ _ refl refl refl)
        λ id call envelope. record { fields = fields; parsed = e; envelope = envelope }
  handle_json-Made parse bytes none e = Made.no_call
  handle_json-Made parse bytes (some Json.null) e = Made.no_call
  handle_json-Made parse bytes (some (Json.boolean b)) e = Made.no_call
  handle_json-Made parse bytes (some (Json.natural n)) e = Made.no_call
  handle_json-Made parse bytes (some Json.other_number) e = Made.no_call
  handle_json-Made parse bytes (some (Json.text v)) e = Made.no_call
  handle_json-Made parse bytes (some (Json.array items)) e = Made.no_call

received-small :
    (accepted : Bool) (bytes answer : List ℕ)
    → received accepted bytes ≡ ok answer
    → (answer ≡ bytes) × (length bytes ≤ max_request_bytes)
received-small false bytes answer e = ground (arith, e)
received-small true bytes answer e = elim (Bool-cases (leb (length bytes) max_request_bytes)) [
  | inl small ↦ ground (arith, small, e)
  | inr large ↦ ground (arith, large, e)
]

module _ (parse : List ℕ → Option Json) (token : String) (server : Server) (registry : Registry)
    (usages : InputUsage) (now : ℕ) (request : HttpRequest) where
  handle_body-Made :
      (read : Result (List ℕ))
      → received (length_accepted request.content_length) (all_sent request.body) ≡ read
      → Made
          (λ id call.
            (length (all_sent request.body) ≤ max_request_bytes)
            × IsParsed parse server registry (all_sent request.body) id call)
          (handle_body parse server registry usages now read).1
  handle_body-Made (err failed) e = Made.no_call
  handle_body-Made (ok bytes) e =
      let (same, small) =
        received-small (length_accepted request.content_length) (all_sent request.body) bytes e in
      rw same (
        Made-map
          (handle_json-Made server registry usages now parse (all_sent request.body)
            (parse (all_sent request.body)) refl)
          λ id call parsed. (small, parsed))

  token-given :
      is_authorized token request.authorization ≡ true → request.authorization ≡ some (bearer token)
  token-given h = elim (Option-cases request.authorization) [
    | inl e ↦ ground (arith, e, h)
    | inr (given, e) ↦
        let same : given ≡ bearer token = (eq_iff given (bearer token)).0 (ground (arith, e, h)) in
        e ∙ ap some same
  ]

  handle-Made :
      Made
        (IsGuarded parse token server registry request)
        (handle parse token server registry usages now request).1
  unfolding handle
  handle-Made = elim (Bool-cases (is_rpc request)) [
    | inr n ↦ rw n Made.no_page
    | inl rpc ↦ elim (Bool-cases (is_authorized token request.authorization)) [
      | inr n ↦ rw (rpc, n) Made.no_call
      | inl authorized ↦
          let method : str_eq request.method "POST" ≡ true = ground (arith, rpc) in
          let path : str_eq request.path "/rpc" ≡ true = ground (arith, rpc) in
          rw (rpc, authorized)
            (Made-map
              (handle_body-Made (request_body request.content_length request.body)
                (sym (request_body_lem request.content_length request.body)))
              λ id call found. record {
                method = (eq_iff request.method "POST").0 method;
                path = (eq_iff request.path "/rpc").0 path;
                token_sent = token-given authorized;
                small = found.0;
                content = found.1;
              })
    ]
  ]

-- A request leads to a call only if it is a POST to `/rpc` with the daemon's token, its body is at
-- most a mebibyte and parses to an object that has the answer's id and the daemon's version, and
-- the call is a health check or one that the authenticated owner in that object may make.
pub handle-IsGuarded :
    (parse : List ℕ → Option Json) (token : String) (server : Server) (registry : Registry)
    (usages : InputUsage) (now : ℕ) (request : HttpRequest) (id : String) (call : RpcCall)
    → (handle parse token server registry usages now request).1 ≡ Response.called id call
    → IsGuarded parse token server registry request id call
handle-IsGuarded parse token server registry usages now request id call e =
    Made-called id call (handle-Made parse token server registry usages now request) e
