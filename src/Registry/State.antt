-- ===== src/Registry/State.antt =====
-- The fields of `SessionRegistry`, the owner's key, and what a session occupies.
use Prim.Native.String.{◌++◌ as str_append}
use opencode_pty.Prelude.{
  ℕ, String, Bool, false, not, ◌&&◌, ◌||◌, Option, none, some, List, [], ◌∷◌, ltb, str_eq, is_true,
  get_or_default, if◌then◌else◌,
}
use opencode_pty.Session.{SessionRecord, LifecycleView}
use opencode_pty.Lifecycle.Reduce.{drained_containment, no_child_cleanup}
use opencode_pty.Registry.Maps.{Map}
use opencode_pty.Registry.Limits.{max_output_bytes}

pub record Registry : Type 0 where
  pub records : List SessionRecord
  pub owner_slots : Map (List String)
  pub slot_owner_by_session_id : Map String
  pub records_by_owner : Map (List String)
  pub record_owner_by_session_id : Map String
  pub output_by_session_id : Map ℕ
  pub output_by_owner : Map ℕ
  pub output_total : ℕ
  pub waits_by_session : Map (List ℕ)
  pub waits_by_owner : Map (List ℕ)
  pub waits : List ℕ
  pub next_wait_id : ℕ
  pub input_bytes_by_session : Map ℕ
  pub input_bytes_by_owner : Map ℕ
  pub input_bytes : ℕ

-- The three texts, with a NUL character between them.
unfoldable pub key_of : String → String → String → String
key_of parent_session_id project_directory capability_hash =
    str_append parent_session_id
      (str_append "\0" (str_append project_directory (str_append "\0" capability_hash)))

abbrev pub owner_key : SessionRecord → String
owner_key r = key_of r.parent_session_id r.owner_project_directory r.owner_capability_hash

unfoldable pub containment_drained : SessionRecord → Bool
containment_drained r = let view : LifecycleView = r.view in drained_containment view.containment

unfoldable pub terminal_direct_child : Bool → SessionRecord → Bool
unfolding containment_drained
terminal_direct_child darwin r =
    let view : LifecycleView = r.view in
    view.termination_confirmed
    && (is_true view.direct_child_exited && (containment_drained r || darwin))

unfoldable pub occupies_slot : Bool → SessionRecord → Bool
occupies_slot darwin r =
    let view : LifecycleView = r.view in
    not (terminal_direct_child darwin r || no_child_cleanup view.exit_reason)

abbrev max : ℕ → ℕ → ℕ
max a b = if ltb a b then b else a

unfoldable pub output_reservation : Bool → SessionRecord → ℕ
output_reservation darwin r =
    if occupies_slot darwin r
    then max (get_or_default r.output_limit_bytes max_output_bytes) r.output_bytes
    else r.output_bytes

abbrev owned_record : String → String → String → Option SessionRecord → Bool
owned_record parent_session_id project_directory capability_hash none = false
owned_record parent_session_id project_directory capability_hash (some r) =
    str_eq r.parent_session_id parent_session_id
    && (str_eq r.owner_project_directory project_directory
        && str_eq r.owner_capability_hash capability_hash)

unfoldable pub get_record : List SessionRecord → String → Option SessionRecord
get_record [] id = none
get_record (r ∷ rest) id = if str_eq r.id id then some r else get_record rest id

unfoldable pub owns : Registry → String → String → String → String → Bool
owns registry id parent_session_id project_directory capability_hash =
    owned_record parent_session_id project_directory capability_hash
      (get_record registry.records id)
