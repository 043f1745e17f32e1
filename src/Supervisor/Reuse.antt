-- ===== src/Supervisor/Reuse.antt =====
-- `idempotentSession` of src/daemon/supervisor.ts. The file system's real paths, the process's
-- directory and environment, the order of names and the digest of an environment are arguments.
use opencode_pty.Prelude.{
  ℕ, String, str_eq, Bool, true, false, not, ◌&&◌, Option, none, some, is_true, is_some, or_else,
  get_or_default, List, [], ◌∷◌, ◌==◌, if◌then◌else◌,
}
use opencode_pty.Session.{
  SessionRecord, ExecutionMode, EnvironmentKind, EnvironmentProfile, LifecycleView,
}
use opencode_pty.Environment.Keys.{Casing}
use opencode_pty.Environment.Runtime.{Variables, runtime_environment, environment_profile}
use opencode_pty.Rpc.Spawn.{SpawnOptions}
use opencode_pty.Supervisor.Cleanup.{active_status}

pub record SpawnRequest : Type 0 where
  pub options : SpawnOptions
  pub owner_project_directory : Option String
  pub owner_capability_hash : Option String

-- `real_path` is `realpathSync(resolve(…))`, `none` where it throws.
pub record SpawnHost : Type 0 where
  pub real_path : String → Option String
  pub current_directory : String
  pub casing : Casing
  pub windows : Bool
  pub source : Variables
  pub sort : List String → List String
  pub fingerprint : Variables → String

unfoldable pub canonical_workdir : SpawnHost → Option String → Option String → Option String
canonical_workdir host workdir owner_project_directory =
    host.real_path (get_or_default (or_else workdir owner_project_directory) host.current_directory)

abbrev pub same_text : Option String → Option String → Bool
same_text none none = true
same_text (some a) (some b) = str_eq a b
same_text _ _ = false

abbrev pub same_number : Option ℕ → Option ℕ → Bool
same_number none none = true
same_number (some a) (some b) = a == b
same_number _ _ = false

-- `JSON.stringify(a) === JSON.stringify(b)`
unfoldable pub same_texts : List String → List String → Bool
same_texts [] [] = true
same_texts (a ∷ left) (b ∷ right) = str_eq a b && same_texts left right
same_texts _ _ = false

abbrev is_pty : ExecutionMode → Bool
is_pty ExecutionMode.pty = true
is_pty ExecutionMode.exec = false

abbrev pub same_kind : EnvironmentKind → EnvironmentKind → Bool
same_kind EnvironmentKind.safe EnvironmentKind.safe = true
same_kind EnvironmentKind.inherit EnvironmentKind.inherit = true
same_kind _ _ = false

-- The tests before the first path is looked up.
unfoldable pub is_reusable : SpawnRequest → SessionRecord → Bool
is_reusable request r =
    let view : LifecycleView = r.view in
    active_status r.status
    && (not (is_true view.pending_cleanup)
        && (not (is_some view.legacy_tombstone)
            && (is_pty r.mode && str_eq r.parent_session_id request.options.parent_session_id)))

-- A path that does not exist makes the search throw.
pub data Search : Type 0 where
  thrown : Search
  absent : Search
  found : SessionRecord → Search

-- What a record means for the search, and the search in the other records.
abbrev pub in_workdir : SpawnRequest → SessionRecord → Option String → Search → Search
in_workdir request r none rest = Search.thrown
in_workdir request r (some workdir) rest =
    if str_eq r.workdir workdir && same_text r.idempotency_key request.options.idempotency_key
    then Search.found r
    else rest

abbrev pub in_project : SpawnHost → SpawnRequest → SessionRecord → Option String → Search → Search
in_project host request r none rest = Search.thrown
in_project host request r (some directory) rest =
    if str_eq r.owner_project_directory directory
      && str_eq r.owner_capability_hash (get_or_default request.owner_capability_hash "")
    then in_workdir request r
        (canonical_workdir host request.options.workdir request.owner_project_directory) rest
    else rest

unfoldable pub find_session : SpawnHost → SpawnRequest → List SessionRecord → Search
unfolding is_reusable canonical_workdir
find_session host request [] = Search.absent
find_session host request (r ∷ records) =
    let rest = find_session host request records in
    if is_reusable request r
    then in_project host request r
        (canonical_workdir host (or_else request.owner_project_directory request.options.workdir)
          none)
        rest
    else rest

abbrev profile_of : SpawnHost → Bool → Option Variables → Option EnvironmentProfile
profile_of host inherited none = none
profile_of host inherited (some environment) =
    some (environment_profile host.casing host.sort host.fingerprint environment inherited)

unfoldable pub requested_profile : SpawnHost → SpawnOptions → Option EnvironmentProfile
requested_profile host options =
    let inherited = is_true options.inherit_env in
    profile_of host inherited (
      runtime_environment host.casing host.windows inherited host.source
        (get_or_default options.env []))

abbrev pub same_command : SpawnOptions → EnvironmentProfile → SessionRecord → Bool
same_command options profile r =
    str_eq r.command options.command
    && (same_texts r.args (get_or_default options.args [])
        && (same_kind r.environment.kind profile.kind
            && (str_eq r.environment.fingerprint profile.fingerprint
                && (same_text r.session_name options.name
                    && same_number r.timeout_seconds options.timeout_seconds))))

-- The session that is given back, none, or an error.
pub data Reuse : Type 0 where
  refused fresh : Reuse
  existing : SessionRecord → Reuse

abbrev pub compare_session : SpawnOptions → SessionRecord → Option EnvironmentProfile → Reuse
compare_session options r none = Reuse.refused
compare_session options r (some profile) =
    if same_command options profile r then Reuse.existing r else Reuse.refused

abbrev pub reuse_found : SpawnHost → SpawnRequest → Search → Reuse
reuse_found host request Search.thrown = Reuse.refused
reuse_found host request Search.absent = Reuse.fresh
reuse_found host request (Search.found r) =
    compare_session request.options r (requested_profile host request.options)

abbrev pub has_key : Option String → Bool
has_key none = false
has_key (some key) = not (str_eq key "")

unfoldable pub idempotent_session : SpawnHost → SpawnRequest → List SessionRecord → Reuse
unfolding find_session requested_profile
idempotent_session host request records =
    if has_key request.options.idempotency_key
    then reuse_found host request (find_session host request records)
    else Reuse.fresh
