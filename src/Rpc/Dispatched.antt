-- ===== src/Rpc/Dispatched.antt =====
-- Every call that `dispatch` of src/daemon/server.ts comes to is one its owner may make.
use opencode_pty.Prelude.{
  ℕ, ◌≤◌, String, Bool, str_eq, Option, [], ◌∷◌, ltb, ◌≡◌, inl, inr, refl, arith, Bool-cases,
}
use opencode_pty.Rpc.Result.{Result, ok, err, FailureCode}
use opencode_pty.Rpc.Payload.{Json, Fields, get_field, object_payload, only_fields}
use opencode_pty.Rpc.Owner.{OwnerContext, Server, request_owner}
use opencode_pty.Rpc.InputRate.{InputUsage, use_input, max_input_bytes}
use opencode_pty.Rpc.Spawn.{spawn_payload, exec_payload, wait_condition}
use opencode_pty.Rpc.Calls.{RpcCall}
use opencode_pty.Rpc.Ensures.{
  Ensures, bind-Ensures, then-Ensures, throw_unless-Ensures, Ensures-bind, ◌<|>◌, Ensures-ok,
  map-Ensures,
}
use opencode_pty.Rpc.Authenticated.{
  IsAuthenticated, request_owner-IsAuthenticated, approval_owner-same,
}
use opencode_pty.Rpc.Dispatch.{
  RpcRequest, approval_operations, approval_call, session_call, after_count, counted_call,
  write_call, send_wait_call, dispatch_owned, with_owner, health_call, given_payload, dispatch,
}
use opencode_pty.Rpc.Permitted.{
  IsPermitted, owned_spawn-IsFor, required_positive_integer-IsIn, input_target-Owns, Permits,
  id_call-Permits, exec_wait_call-Permits, resize_call-Permits, wait_call-Permits,
  read_call-Permits, search_call-Permits, cleanup_by_parent_call-Permits, exec_call-Permits,
  exec_start_call-Permits,
}
use opencode_pty.Registry.Maps.{has}
use opencode_pty.Registry.State.{Registry}
use opencode_pty.Journal.Bytes.{byte_length}

use_input-small :
    (usages : InputUsage) (owner : OwnerContext) (now : ℕ) (input : String) (used : InputUsage)
    → use_input usages owner now input ≡ ok used
    → byte_length input ≤ max_input_bytes
unfolding use_input
use_input-small usages owner now input used e =
    elim (Bool-cases (ltb max_input_bytes (byte_length input))) [
      | inl large ↦ ground (arith, large, e)
      | inr small ↦ ground (arith, small)
    ]

after_count-Ensures :
    {P : RpcCall → Type 0} (usages : InputUsage) (answer : Result InputUsage)
    (call : Result RpcCall)
    → ((used : InputUsage) → answer ≡ ok used → Ensures P call)
    → Ensures P (after_count usages answer call).1
after_count-Ensures usages (err code) call h = Ensures.refused
after_count-Ensures usages (ok used) call h = h used refl

counted_call-Ensures :
    {P : RpcCall → Type 0} {Q : Fields × String × String → Type 0} (usages : InputUsage)
    (owner : OwnerContext) (now : ℕ) (next : Fields → String → String → Result RpcCall)
    {target : Result (Fields × String × String)}
    → Ensures Q target
    → ((value : Fields) (id input : String)
        → Q (value, id, input)
        → byte_length input ≤ max_input_bytes
        → Ensures P (next value id input))
    → Ensures P (counted_call usages owner now target next).1
counted_call-Ensures usages owner now next Ensures.refused h = Ensures.refused
counted_call-Ensures usages owner now next (Ensures.answered {a = (value, id, input)} q) h =
    after_count-Ensures usages (use_input usages owner now input) (next value id input)
      λ used e. h value id input q (use_input-small usages owner now input used e)

module _ (server : Server) (registry : Registry) (owner : OwnerContext) (request : RpcRequest) where
  approval_call-Permits :
      request_owner server request.owner ≡ ok owner
      → Permits server registry owner request.approval_capability
          (approval_call server owner request)
  unfolding approval_call
  approval_call-Permits e =
      throw_unless-Ensures FailureCode.validation (has approval_operations request.operation) _ λ _.
        Ensures-bind (approval_owner-same server request.owner request.approval_capability owner e)
          λ _ same. Ensures.answered (refl, same)

  session_call-Permits :
      request_owner server request.owner ≡ ok owner
      → Permits server registry owner request.approval_capability
          (session_call server registry owner request)
  unfolding session_call
  session_call-Permits e =
      let given : Option Json = request.approval_capability in
      let payload : Option Json = request.payload in
      let of_id = id_call-Permits server registry owner given payload in
      let is : String → Bool = str_eq request.operation in
      (
        is "spawn",
        bind-Ensures (spawn_payload payload) _
            (λ options _. Ensures.answered (owned_spawn-IsFor server owner options)),
      )
      <|> (
        is "exec",
        bind-Ensures (exec_payload payload) _
            (λ options _. exec_call-Permits server registry owner given options),
      )
      <|> (
        is "execStart",
        bind-Ensures (exec_payload payload) _
            (λ options _. exec_start_call-Permits server registry owner given options),
      )
      <|> (is "execWait", exec_wait_call-Permits server registry owner given payload)
      <|> (is "resize", resize_call-Permits server registry owner given payload)
      <|> (is "wait", wait_call-Permits server registry owner given payload)
      <|> (is "read", read_call-Permits server registry owner given payload)
      <|> (is "search", search_call-Permits server registry owner given payload)
      <|> (is "list", Ensures.answered refl)
      <|> (is "get", of_id RpcCall.get (λ id owned. owned))
      <|> (is "rawOutput", of_id RpcCall.raw_output (λ id owned. owned))
      <|> (is "execOutput", of_id RpcCall.exec_output (λ id owned. owned))
      <|> (is "stop", of_id RpcCall.stop (λ id owned. owned))
      <|> (is "cleanup", of_id RpcCall.cleanup (λ id owned. owned))
      <|> (
        is "cleanupByParentSession",
        cleanup_by_parent_call-Permits server registry owner given payload,
      )
      <|> approval_call-Permits e

  dispatch_owned-Permits :
      (usages : InputUsage) (now : ℕ)
      → request_owner server request.owner ≡ ok owner
      → Permits server registry owner request.approval_capability
          (dispatch_owned server registry usages now owner request).1
  unfolding dispatch_owned
  dispatch_owned-Permits usages now e = elim (Bool-cases (str_eq request.operation "write")) [
    | inl w ↦ rw w (
        counted_call-Ensures usages owner now write_call
          (input_target-Owns registry owner request.payload ("id" ∷ "data" ∷ []))
          λ value id input owned small. Ensures.answered (owned, small))
    | inr n ↦ elim (Bool-cases (str_eq request.operation "sendWait")) [
      | inl w ↦
          rw (n, w)
            (counted_call-Ensures usages owner now send_wait_call
              (input_target-Owns registry owner request.payload
                ("id" ∷ "data" ∷ "condition" ∷ "timeoutSeconds" ∷ []))
              λ value id input owned small.
                bind-Ensures (wait_condition (get_field value "condition")) _ λ condition _.
                  Ensures-bind (required_positive_integer-IsIn value "timeoutSeconds")
                    λ seconds short. Ensures.answered (owned, small, short))
      | inr m ↦ rw (n, m) (session_call-Permits e)
    ]
  ]

-- The call is a health check, or the owner of the request is authenticated and may make it.
pub data IsAllowed (server : Server) (registry : Registry) (request : RpcRequest) (call : RpcCall)
    : Type 0 where
  healthy : call ≡ RpcCall.health → IsAllowed server registry request call
  owned :
      {owner : OwnerContext}
      → IsAuthenticated server request.owner owner
      → IsPermitted server registry owner request.approval_capability call
      → IsAllowed server registry request call

module _ (server : Server) (registry : Registry) (usages : InputUsage) (now : ℕ)
    (request : RpcRequest) where
  health_call-healthy : Ensures (IsAllowed server registry request) (health_call request.payload)
  health_call-healthy = bind-Ensures (object_payload (given_payload request.payload)) _ λ value _.
      then-Ensures (only_fields value []) _ λ _. Ensures.answered (IsAllowed.healthy refl)

  of_owner-IsAllowed :
      (owner : OwnerContext)
      → request_owner server request.owner ≡ ok owner
      → Ensures
          (IsAllowed server registry request)
          (with_owner server registry usages now (ok owner) request).1
  of_owner-IsAllowed owner e =
      let authenticated = Ensures-ok owner (request_owner-IsAuthenticated server request.owner) e in
      elim (Bool-cases (str_eq request.operation "diagnostics")) [
        | inl d ↦ rw d (Ensures.answered (IsAllowed.owned authenticated refl))
        | inr n ↦ rw n (
            map-Ensures (dispatch_owned-Permits server registry owner request usages now e)
              λ call permitted. IsAllowed.owned authenticated permitted)
      ]

  with_owner-IsAllowed :
      (answer : Result OwnerContext)
      → request_owner server request.owner ≡ answer
      → Ensures
          (IsAllowed server registry request)
          (with_owner server registry usages now answer request).1
  with_owner-IsAllowed (err code) e = Ensures.refused
  with_owner-IsAllowed (ok owner) e = of_owner-IsAllowed owner e

  pub every-IsAllowed :
      Ensures (IsAllowed server registry request) (dispatch server registry usages now request).1
  unfolding dispatch
  every-IsAllowed = elim (Bool-cases (str_eq request.operation "health")) [
    | inl h ↦ rw h health_call-healthy
    | inr n ↦ rw n (with_owner-IsAllowed (request_owner server request.owner) refl)
  ]

-- Whatever the payload of a request holds, the call that it comes to is a health check, or the
-- capability of the request is the server's digest of its secret, the parent session and the real
-- path of the project directory, and the call is one that this owner may make: it is about
-- sessions that the registry says it owns, a new session is made in the owner's name and under the
-- server's bound, a cleanup is of the owner's own parent session, an approval comes with the
-- approval capability of the owner, an input is at most `max_input_bytes` long, and sizes and times
-- to wait or run are within their bounds.
pub dispatch-IsAllowed :
    (server : Server) (registry : Registry) (usages : InputUsage) (now : ℕ) (request : RpcRequest)
    (call : RpcCall)
    → (dispatch server registry usages now request).1 ≡ ok call
    → IsAllowed server registry request call
dispatch-IsAllowed server registry usages now request call e =
    Ensures-ok call (every-IsAllowed server registry usages now request) e
