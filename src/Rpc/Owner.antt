-- ===== src/Rpc/Owner.antt =====
-- The owner of a request (src/daemon/server.ts). The digest (SHA-256, as hexadecimal text) and the
-- real path of a resolved directory, which may not exist, are arguments.
use Prim.Native.Char.{Char, code}
use Prim.Native.String.{◌++◌ as str_append}
use opencode_pty.Prelude.{
  ℕ, String, str_eq, Bool, true, false, ◌&&◌, ◌||◌, Option, none, some, leb, ◌==◌, if◌then◌else◌,
}
use opencode_pty.Rpc.Result.{Result, ok, err, FailureCode, ◌>>=◌, ◌>>◌, throw_unless}
use opencode_pty.Rpc.Payload.{Json, get_field, utf16_length}
use opencode_pty.Registry.State.{Registry, owns, key_of}

pub record OwnerContext : Type 0 where
  pub parent_session_id : String
  pub project_directory : String
  pub capability : String

-- The fields of `DaemonServer` that a request reads.
pub record Server : Type 0 where
  pub ownership_secret : String
  pub max_sessions_per_owner : ℕ
  pub digest : String → String
  pub real_path : String → Option String

unfoldable pub capability_of : Server → String → String → String
capability_of server parent_session_id project_directory =
    server.digest (key_of server.ownership_secret parent_session_id project_directory)

unfoldable pub approval_capability : Server → String → String → String
approval_capability server parent_session_id project_directory =
    server.digest
      (str_append "approval\0" (key_of server.ownership_secret parent_session_id project_directory))

abbrev is_hexadecimal : Char → Bool
is_hexadecimal c = (leb 97 (code c) && leb (code c) 102) || (leb 48 (code c) && leb (code c) 57)

-- `/^[a-f0-9]{64}$/`
unfoldable pub all_hexadecimal : String → Bool
all_hexadecimal String.[] = true
all_hexadecimal (String.◌∷◌ c s) = is_hexadecimal c && all_hexadecimal s

abbrev is_capability : String → Bool
is_capability text = (utf16_length text == 64) && all_hexadecimal text

-- A text that is not empty.
abbrev nonempty_text : Option Json → Option String
nonempty_text (some (Json.text value)) = if str_eq value "" then none else some value
nonempty_text _ = none

abbrev text_field : Option Json → Option String
text_field (some (Json.text value)) = some value
text_field _ = none

abbrev valid_context : Option String → Option String → Option String → Result OwnerContext
valid_context (some parent_session_id) (some project_directory) (some capability) =
    if is_capability capability
    then ok (record {
      parent_session_id = parent_session_id;
      project_directory = project_directory;
      capability = capability;
    })
    else err FailureCode.validation
valid_context _ _ _ = err FailureCode.validation

unfoldable pub owner_context : Option Json → Result OwnerContext
owner_context (some (Json.object fields)) =
    valid_context (nonempty_text (get_field fields "parentSessionId"))
      (nonempty_text (get_field fields "projectDirectory"))
      (text_field (get_field fields "capability"))
owner_context _ = err FailureCode.validation

abbrev pub existing_directory : Option String → Result String
existing_directory none = err FailureCode.validation
existing_directory (some directory) = ok directory

unfoldable pub request_owner : Server → Option Json → Result OwnerContext
request_owner server value = do
  owner ← owner_context value
  project_directory ← existing_directory (server.real_path owner.project_directory)
  throw_unless FailureCode.authorization
      (str_eq owner.capability (capability_of server owner.parent_session_id project_directory))
  ok (record owner { project_directory = project_directory })

abbrev pub is_owned : Registry → OwnerContext → String → Bool
is_owned registry owner id =
    owns registry id owner.parent_session_id owner.project_directory owner.capability

unfoldable pub authorize : Registry → OwnerContext → String → Result (Unit {0})
authorize registry owner id = throw_unless FailureCode.authorization (is_owned registry owner id)

abbrev pub same_capability : Server → OwnerContext → Option Json → Bool
same_capability server owner (some (Json.text value)) =
    (utf16_length value == 64)
    && str_eq value (approval_capability server owner.parent_session_id owner.project_directory)
same_capability server owner _ = false

-- The owner's JSON value, and the request's `approvalCapability`.
unfoldable pub approval_owner : Server → Option Json → Option Json → Result OwnerContext
unfolding request_owner
approval_owner server value given = do
  owner ← request_owner server value
  throw_unless FailureCode.authorization (same_capability server owner given)
  ok owner
