-- ===== src/Rpc/Authenticated.antt =====
-- Who the owner of a request is, by `owner` and `approvalOwner` of src/daemon/server.ts.
use opencode_pty.Prelude.{String, str_eq, eq_iff, true, Option, none, some, ◌≡◌, refl, arith}
use opencode_pty.Rpc.Result.{ok, FailureCode}
use opencode_pty.Rpc.Payload.{Json}
use opencode_pty.Rpc.Owner.{
  OwnerContext, Server, capability_of, owner_context, existing_directory, request_owner,
  same_capability, approval_owner,
}
use opencode_pty.Rpc.Ensures.{Ensures, bind-Ensures, throw_unless-Ensures}

-- The owner is the one that the request names, by the real path of its directory, and the request
-- holds the capability that the secret of the server gives for both.
pub record IsAuthenticated (server : Server) (value : Option Json) (owner : OwnerContext)
    : Type 0 where
  pub named : OwnerContext
  pub is_named : owner_context value ≡ ok named
  pub directory : server.real_path named.project_directory ≡ some owner.project_directory
  pub parent : owner.parent_session_id ≡ named.parent_session_id
  pub capability :
      owner.capability ≡ capability_of server owner.parent_session_id owner.project_directory

existing-some :
    (o : Option String) (directory : String)
    → existing_directory o ≡ ok directory
    → o ≡ some directory
existing-some none directory h = ground (arith, h)
existing-some (some d) directory h = ground (arith, h)

pub request_owner-IsAuthenticated :
    (server : Server) (value : Option Json)
    → Ensures (IsAuthenticated server value) (request_owner server value)
unfolding request_owner
request_owner-IsAuthenticated server value = bind-Ensures (owner_context value) _ λ named is_named.
    bind-Ensures (existing_directory (server.real_path named.project_directory)) _
      λ directory exists.
        throw_unless-Ensures FailureCode.authorization
          (str_eq named.capability (capability_of server named.parent_session_id directory)) _
          λ same. Ensures.answered (record {
            named = named;
            is_named = is_named;
            directory = existing-some (server.real_path named.project_directory) directory exists;
            parent = refl;
            capability =
                (eq_iff named.capability (capability_of server named.parent_session_id directory)).0
                  same;
          })

pub approval_owner-same :
    (server : Server) (value given : Option Json) (owner : OwnerContext)
    → request_owner server value ≡ ok owner
    → Ensures (λ _. same_capability server owner given ≡ true) (approval_owner server value given)
unfolding approval_owner
approval_owner-same server value given owner e = rw e (
    throw_unless-Ensures FailureCode.authorization (same_capability server owner given) (ok owner)
      λ same. Ensures.answered same)
