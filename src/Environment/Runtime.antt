-- ===== src/Environment/Runtime.antt =====
-- `runtimeEnvironment`, `environmentProfile` and `redactionSecrets` of src/daemon/supervisor.ts. An
-- object is the list of its entries, in their order; sorting and the digest are arguments.
use opencode_pty.Prelude.{
  ℕ, String, str_eq, Bool, not, ◌&&◌, ◌||◌, Option, none, some, List, [], ◌∷◌, ◌++◌, map, keep, any,
  ltb, leb, if◌then◌else◌,
}
use opencode_pty.Session.{EnvironmentProfile, EnvironmentKind}
use opencode_pty.Registry.Maps.{Map}
use opencode_pty.Journal.Bytes.{byte_length}
use opencode_pty.Journal.Lines.{starts_with}
use opencode_pty.Rpc.Payload.{utf16_length}
use opencode_pty.Environment.Keys.{Casing, is_path, is_safe, is_worker_knob, is_sensitive}

abbrev pub Variables : Type 0
Variables = Map String

abbrev pub max_redaction_secret_bytes : ℕ
max_redaction_secret_bytes = 4096

-- `object[key] = value`: a key that is there keeps its place.
unfoldable pub put : Variables → String → String → Variables
put [] key value = (key, value) ∷ []
put ((k, v) ∷ rest) key value =
    if str_eq k key then (k, value) ∷ rest else (k, v) ∷ put rest key value

-- `Object.fromEntries(entries)`, onto what is there.
unfoldable pub from_entries : Variables → Variables → Variables
from_entries object [] = object
from_entries object ((k, v) ∷ entries) = from_entries (put object k v) entries

-- `entries.find(([key]) => isPath(key))?.[1]`
unfoldable pub trusted_path : Casing → Bool → Variables → Option String
trusted_path casing windows [] = none
trusted_path casing windows ((k, v) ∷ rest) =
    if is_path casing windows k then some v else trusted_path casing windows rest

abbrev pub may_pass : Casing → Bool → String × String → Bool
may_pass casing windows (k, v) =
    is_path casing windows k || (is_safe casing windows k || starts_with k "LC_")

unfoldable pub base_entries : Casing → Bool → Bool → Variables → Variables
base_entries casing windows inherit source =
    if inherit then source else keep (may_pass casing windows) source

abbrev pub is_kept : Casing → Bool → String × String → Bool
is_kept casing windows (k, v) = not (is_path casing windows k) && not (is_worker_knob k)

abbrev pub with_path : Option String → Variables → Variables
with_path none environment = environment
with_path (some path) environment = put environment "PATH" path

abbrev pub is_too_long : Casing → String × String → Bool
is_too_long casing (k, v) = is_sensitive casing k && ltb max_redaction_secret_bytes (byte_length v)

unfoldable pub composed : Casing → Bool → Bool → Variables → Variables → Variables
composed casing windows inherit source requested = with_path (trusted_path casing windows source) (
    from_entries []
      (keep (is_kept casing windows) (base_entries casing windows inherit source ++ requested)))

-- `none` is the error of a sensitive value that is too long.
unfoldable pub runtime_environment : Casing → Bool → Bool → Variables → Variables → Option Variables
runtime_environment casing windows inherit source requested =
    let environment = composed casing windows inherit source requested in
    if any (is_too_long casing) environment then none else some environment

abbrev key_name : Casing → String × String → String
key_name casing (k, v) = if is_sensitive casing k then "[REDACTED_ENV_KEY]" else k

abbrev has_sensitive_key : Casing → String × String → Bool
has_sensitive_key casing (k, v) = is_sensitive casing k

-- `sort` is that of the names, `fingerprint` the digest of `canonicalEnv(env)`.
unfoldable pub environment_profile :
    Casing
    → (List String → List String)
    → (Variables → String)
    → Variables
    → Bool
    → EnvironmentProfile
environment_profile casing sort fingerprint env inherited = record {
  kind = if inherited then EnvironmentKind.inherit else EnvironmentKind.safe;
  keys = sort (map (key_name casing) env);
  fingerprint = fingerprint env;
  sensitive = any (has_sensitive_key casing) env;
}

abbrev is_secret : Casing → String × String → Bool
is_secret casing (k, v) = is_sensitive casing k && leb 4 (utf16_length v)

abbrev value_of : String × String → String
value_of (k, v) = v

unfoldable pub redaction_secrets : Casing → Variables → List String
redaction_secrets casing environment = map value_of (keep (is_secret casing) environment)
