-- ===== src/Rpc/Permitted.antt =====
-- What `dispatch` of src/daemon/server.ts lets an owner do.
use opencode_pty.Prelude.{
  ℕ, ◌≤◌, String, str_eq, true, Option, none, some, List, [], ◌∷◌, get_or_default, ◌≡◌, refl, arith,
  eq_iff,
}
use opencode_pty.Rpc.Result.{Result, ok, FailureCode, ◌>>=◌}
use opencode_pty.Rpc.Payload.{
  Json, Fields, get_field, object_payload, only_fields, required_string, optional_boolean,
  optional_nonnegative_integer, required_positive_integer, nonnegative, positive, max_page_size,
}
use opencode_pty.Rpc.Numbers.{required_bounded_integer, one_or_more}
use opencode_pty.Rpc.Owner.{OwnerContext, Server, is_owned, authorize, same_capability}
use opencode_pty.Rpc.InputRate.{max_input_bytes}
use opencode_pty.Rpc.Spawn.{SpawnOptions, ExecOptions, wait_condition}
use opencode_pty.Rpc.Calls.{
  RpcCall, OwnedSpawn, owned_spawn, runs_too_long, exec_call, exec_start_call,
}
use opencode_pty.Rpc.Ensures.{
  Ensures, bind-Ensures, then-Ensures, throw_unless-Ensures, if-Ensures, Ensures-bind, ok-Ensures,
}
use opencode_pty.Rpc.Dispatch.{
  read_options, search_fields, owned_id, id_call, exec_wait_call, resize_call, wait_call, read_call,
  search_call, cleanup_by_parent_call, input_target,
}
use opencode_pty.Registry.State.{Registry}
use opencode_pty.Journal.Bytes.{byte_length}
use opencode_pty.Supervisor.Waits.{max_exec_runtime_seconds}

-- A session is made for the owner, whatever the payload says.
pub record IsFor (server : Server) (owner : OwnerContext) (c : OwnedSpawn) : Type 0 where
  pub parent : c.options.parent_session_id ≡ owner.parent_session_id
  pub directory : c.owner_project_directory ≡ owner.project_directory
  pub capability_hash : c.owner_capability_hash ≡ owner.capability
  pub limit : c.max_sessions_per_owner ≡ server.max_sessions_per_owner

pub owned_spawn-IsFor :
    (server : Server) (owner : OwnerContext) (options : SpawnOptions)
    → IsFor server owner (owned_spawn server owner options)
owned_spawn-IsFor server owner options = record {
  parent = refl;
  directory = refl;
  capability_hash = refl;
  limit = refl;
}

abbrev pub IsIn : ℕ → ℕ → Type 0
IsIn maximum n = (1 ≤ n) × (n ≤ maximum)

abbrev IsShort : OwnedSpawn → Type 0
IsShort c = get_or_default c.options.timeout_seconds 0 ≤ max_exec_runtime_seconds

abbrev pub Owns : Registry → OwnerContext → String → Type 0
Owns registry owner id = is_owned registry owner id ≡ true

-- What the owner of a request may ask for.
abbrev pub IsPermitted : Server → Registry → OwnerContext → Option Json → RpcCall → Type 0
IsPermitted server registry owner given RpcCall.health = Unit {0}
IsPermitted server registry owner given (RpcCall.diagnostics asking) = asking ≡ owner
IsPermitted server registry owner given (RpcCall.list asking) = asking ≡ owner
IsPermitted server registry owner given (RpcCall.spawn c) = IsFor server owner c
IsPermitted server registry owner given (RpcCall.exec c max_output_bytes) =
    IsFor server owner c × IsShort c
IsPermitted server registry owner given (RpcCall.exec_start c max_output_bytes) =
    IsFor server owner c × IsShort c
IsPermitted server registry owner given (RpcCall.exec_wait id seconds) =
    Owns registry owner id × IsIn max_page_size seconds
IsPermitted server registry owner given (RpcCall.write id input) =
    Owns registry owner id × (byte_length input ≤ max_input_bytes)
IsPermitted server registry owner given (RpcCall.resize id cols rows) =
    Owns registry owner id × IsIn 1000 cols × IsIn 1000 rows
IsPermitted server registry owner given (RpcCall.wait id condition seconds) =
    Owns registry owner id × IsIn max_page_size seconds
IsPermitted server registry owner given (RpcCall.send_wait id input condition seconds) =
    Owns registry owner id × (byte_length input ≤ max_input_bytes) × IsIn max_page_size seconds
IsPermitted server registry owner given (RpcCall.read id options) = Owns registry owner id
IsPermitted server registry owner given (RpcCall.search id pattern_text ignore_case options) =
    Owns registry owner id
IsPermitted server registry owner given (RpcCall.get id) = Owns registry owner id
IsPermitted server registry owner given (RpcCall.raw_output id) = Owns registry owner id
IsPermitted server registry owner given (RpcCall.exec_output id) = Owns registry owner id
IsPermitted server registry owner given (RpcCall.stop id) = Owns registry owner id
IsPermitted server registry owner given (RpcCall.cleanup id) = Owns registry owner id
IsPermitted server registry owner given (RpcCall.cleanup_by_parent_session parent directory hash) =
    (parent ≡ owner.parent_session_id)
    × (directory ≡ owner.project_directory)
    × (hash ≡ owner.capability)
IsPermitted server registry owner given (RpcCall.approval operation asking payload) =
    (asking ≡ owner) × (same_capability server owner given ≡ true)

positive-IsIn :
    (value : Option Json) (n : ℕ) → nonnegative value >>= positive ≡ ok n → IsIn max_page_size n
positive-IsIn none n e = ground (arith, e)
positive-IsIn (some (Json.natural m)) n e = ground (arith, e)
positive-IsIn (some Json.null) n e = ground (arith, e)
positive-IsIn (some (Json.boolean b)) n e = ground (arith, e)
positive-IsIn (some Json.other_number) n e = ground (arith, e)
positive-IsIn (some (Json.text s)) n e = ground (arith, e)
positive-IsIn (some (Json.array items)) n e = ground (arith, e)
positive-IsIn (some (Json.object fields)) n e = ground (arith, e)

bounded-IsIn :
    (maximum : ℕ) (value : Option Json) (n : ℕ) → one_or_more maximum value ≡ ok n → IsIn maximum n
bounded-IsIn maximum none n e = ground (arith, e)
bounded-IsIn maximum (some (Json.natural m)) n e = ground (arith, e)
bounded-IsIn maximum (some Json.null) n e = ground (arith, e)
bounded-IsIn maximum (some (Json.boolean b)) n e = ground (arith, e)
bounded-IsIn maximum (some Json.other_number) n e = ground (arith, e)
bounded-IsIn maximum (some (Json.text s)) n e = ground (arith, e)
bounded-IsIn maximum (some (Json.array items)) n e = ground (arith, e)
bounded-IsIn maximum (some (Json.object fields)) n e = ground (arith, e)

pub required_positive_integer-IsIn :
    (value : Fields) (key : String)
    → Ensures (IsIn max_page_size) (required_positive_integer value key)
unfolding required_positive_integer optional_nonnegative_integer
required_positive_integer-IsIn value key =
    ok-Ensures (required_positive_integer value key) (positive-IsIn (get_field value key))

required_bounded_integer-IsIn :
    (value : Fields) (key : String) (maximum : ℕ)
    → Ensures (IsIn maximum) (required_bounded_integer value key maximum)
unfolding required_bounded_integer
required_bounded_integer-IsIn value key maximum =
    ok-Ensures (required_bounded_integer value key maximum)
      (bounded-IsIn maximum (get_field value key))

module _ (registry : Registry) (owner : OwnerContext) where
  owned_id-Owns :
      (payload : Option Json) (names : List String)
      → Ensures (λ p. Owns registry owner p.1) (owned_id registry owner payload names)
  unfolding owned_id authorize
  owned_id-Owns payload names = bind-Ensures (object_payload payload) _ λ value _.
      then-Ensures (only_fields value names) _ λ _.
        bind-Ensures (required_string value "id") _ λ id _.
          throw_unless-Ensures FailureCode.authorization (is_owned registry owner id) _
            λ owned. Ensures.answered owned

  pub input_target-Owns :
      (payload : Option Json) (names : List String)
      → Ensures (λ t. Owns registry owner t.1) (input_target registry owner payload names)
  unfolding input_target authorize
  input_target-Owns payload names = bind-Ensures (object_payload payload) _ λ value _.
      then-Ensures (only_fields value names) _ λ _.
        bind-Ensures (required_string value "id") _ λ id _.
          bind-Ensures (required_string value "data") _ λ input _.
            throw_unless-Ensures FailureCode.authorization (is_owned registry owner id) _
              λ owned. Ensures.answered owned

module _ (server : Server) (registry : Registry) (owner : OwnerContext) (given : Option Json) where
  abbrev pub Permits : Result RpcCall → Type 0
  Permits r = Ensures (IsPermitted server registry owner given) r

  pub id_call-Permits :
      (payload : Option Json) (call : String → RpcCall)
      → ((id : String) → Owns registry owner id → IsPermitted server registry owner given (call id))
      → Permits (id_call registry owner payload call)
  id_call-Permits payload call h =
      Ensures-bind (owned_id-Owns registry owner payload ("id" ∷ []))
        λ p owned. Ensures.answered (h p.1 owned)

  pub exec_wait_call-Permits :
      (payload : Option Json) → Permits (exec_wait_call registry owner payload)
  unfolding exec_wait_call
  exec_wait_call-Permits payload =
      Ensures-bind (owned_id-Owns registry owner payload ("id" ∷ "timeoutSeconds" ∷ [])) λ p owned.
        Ensures-bind (required_positive_integer-IsIn p.0 "timeoutSeconds")
          λ n small. Ensures.answered (owned, small)

  pub resize_call-Permits : (payload : Option Json) → Permits (resize_call registry owner payload)
  unfolding resize_call
  resize_call-Permits payload =
      Ensures-bind (owned_id-Owns registry owner payload ("id" ∷ "cols" ∷ "rows" ∷ [])) λ p owned.
        Ensures-bind (required_bounded_integer-IsIn p.0 "cols" 1000) λ cols small_cols.
          Ensures-bind (required_bounded_integer-IsIn p.0 "rows" 1000)
            λ rows small_rows. Ensures.answered (owned, small_cols, small_rows)

  pub wait_call-Permits : (payload : Option Json) → Permits (wait_call registry owner payload)
  unfolding wait_call
  wait_call-Permits payload =
      Ensures-bind
        (owned_id-Owns registry owner payload ("id" ∷ "condition" ∷ "timeoutSeconds" ∷ []))
        λ p owned. bind-Ensures (wait_condition (get_field p.0 "condition")) _ λ condition _.
          Ensures-bind (required_positive_integer-IsIn p.0 "timeoutSeconds")
            λ n small. Ensures.answered (owned, small)

  pub read_call-Permits : (payload : Option Json) → Permits (read_call registry owner payload)
  unfolding read_call
  read_call-Permits payload =
      Ensures-bind
        (owned_id-Owns registry owner payload ("id" ∷ "offset" ∷ "limit" ∷ "sequence" ∷ []))
        λ p owned. bind-Ensures (read_options p.0) _ λ options _. Ensures.answered owned

  pub search_call-Permits : (payload : Option Json) → Permits (search_call registry owner payload)
  unfolding search_call
  search_call-Permits payload =
      Ensures-bind (owned_id-Owns registry owner payload search_fields) λ p owned.
        bind-Ensures (required_string p.0 "pattern") _ λ pattern_text _.
          bind-Ensures (optional_boolean p.0 "ignoreCase") _
            λ ignore_case _. bind-Ensures (read_options p.0) _ λ options _. Ensures.answered owned

  pub cleanup_by_parent_call-Permits :
      (payload : Option Json) → Permits (cleanup_by_parent_call owner payload)
  unfolding cleanup_by_parent_call
  cleanup_by_parent_call-Permits payload = bind-Ensures (object_payload payload) _ λ value _.
      then-Ensures (only_fields value ("parentSessionId" ∷ [])) _ λ _.
        bind-Ensures (required_string value "parentSessionId") _ λ parent _.
          throw_unless-Ensures FailureCode.authorization (str_eq parent owner.parent_session_id) _
            λ same. Ensures.answered ((eq_iff parent owner.parent_session_id).0 same, refl, refl)

  pub exec_call-Permits : (options : ExecOptions) → Permits (exec_call server owner options)
  exec_call-Permits options =
      if-Ensures (runs_too_long options.spawn) _ _ (λ _. Ensures.refused)
        λ short.
          Ensures.answered (owned_spawn-IsFor server owner options.spawn, ground (arith, short))

  pub exec_start_call-Permits :
      (options : ExecOptions) → Permits (exec_start_call server owner options)
  exec_start_call-Permits options =
      if-Ensures (runs_too_long options.spawn) _ _ (λ _. Ensures.refused)
        λ short.
          Ensures.answered (owned_spawn-IsFor server owner options.spawn, ground (arith, short))
