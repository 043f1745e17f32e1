-- ===== src/Supervisor/Cleanup.antt =====
-- `cleanup` and `deleteNativeSession` of src/daemon/supervisor.ts. `Answers` are what the worker and
-- the files of the session say when they are asked. Of the operations that may run in between, only
-- the replacement of the record is looked at.
use opencode_pty.Prelude.{
  ℕ, String, Bool, true, false, not, ◌&&◌, ◌||◌, Option, none, some, is_some, List, [], ◌∷◌, str_eq,
  ◌==◌, if◌then◌else◌,
}
use opencode_pty.Session.{
  SessionRecord, SessionLifecycle, DaemonStatus, LifecycleView, WorkerReference,
}
use opencode_pty.Lifecycle.Reduce.{no_child_cleanup, is_active_daemon_status}
use opencode_pty.Registry.Maps.{Map, get, delete, has, add, remove}
use opencode_pty.Registry.State.{Registry, terminal_direct_child}
use opencode_pty.Registry.Slots.{release}
use opencode_pty.Router.Lanes.{bump_version}
use opencode_pty.Supervisor.Snapshot.{WorkerSnapshot, native_terminal_proof}

-- The maps of the supervisor that `cleanup` reads or writes, and the stored sessions.
pub record Supervisor : Type 0 where
  pub records : Map SessionRecord
  pub workers : List String
  pub versions : Map ℕ
  pub confirmed_shutdowns : List String
  pub stored : Map SessionRecord
  pub registry : Registry

-- Whether the prestart receipt and the receipt of a spawn failure verify, whether `reconnect` finds
-- the worker, and what its `shutdown` answers (`none` where it throws); and whether the record is
-- still the one of its id when the session is to be deleted.
pub record Answers : Type 0 where
  pub prestart_receipt : Bool
  pub failure_receipt : Bool
  pub reconnected : Bool
  pub shutdown : Option WorkerSnapshot
  pub same_record : Bool

abbrev pub native_worker_protocol_version : ℕ
native_worker_protocol_version = 5

abbrev other_version : Option WorkerReference → Bool
other_version none = false
other_version (some worker) = not (worker.protocol_version == native_worker_protocol_version)

unfoldable pub incompatible_worker : SessionRecord → Bool
incompatible_worker r = let view : LifecycleView = r.view in other_version view.worker

abbrev may_have_receipt : Option DaemonStatus → Bool
may_have_receipt (some DaemonStatus.starting) = true
may_have_receipt (some DaemonStatus.lost) = true
may_have_receipt (some DaemonStatus.spawn_failed) = true
may_have_receipt _ = false

-- `=== false` and `=== true` on a Boolean that may be missing.
abbrev is_false : Option Bool → Bool
is_false (some false) = true
is_false _ = false

abbrev is_set : Option Bool → Bool
is_set (some true) = true
is_set _ = false

-- Whether `prestartReceiptAuthority` gives an authority.
unfoldable pub has_prestart_authority : SessionRecord → Bool
has_prestart_authority r =
    let view : LifecycleView = r.view in
    is_false view.worker_start_attempted
    && (may_have_receipt r.status && (is_some view.worker || is_some view.worker_prestart))

unfoldable pub no_child_spawn_failure : SessionRecord → Bool
no_child_spawn_failure r =
    let view : LifecycleView = r.view in
    not (is_some view.worker)
    && (not (is_some view.worker_prestart) && no_child_cleanup view.exit_reason)

abbrev failed_or_lost : Option DaemonStatus → Bool
failed_or_lost (some DaemonStatus.spawn_failed) = true
failed_or_lost (some DaemonStatus.lost) = true
failed_or_lost _ = false

unfoldable pub post_start_no_child_failure_eligible : SessionRecord → Bool
post_start_no_child_failure_eligible r =
    let view : LifecycleView = r.view in
    is_some view.worker && (is_set view.worker_start_attempted && failed_or_lost r.status)

abbrev pub verified_no_child_spawn_failure : SessionRecord → Answers → Bool
verified_no_child_spawn_failure r answers =
    not (incompatible_worker r)
    && (post_start_no_child_failure_eligible r && answers.failure_receipt)

abbrev pub active_status : Option DaemonStatus → Bool
active_status none = false
active_status (some status) = is_active_daemon_status status

unfoldable pub is_terminal : Bool → SessionRecord → Bool
is_terminal darwin r = not (active_status r.status) && terminal_direct_child darwin r

abbrev pub is_lost_status : Option DaemonStatus → Bool
is_lost_status (some DaemonStatus.lost) = true
is_lost_status _ = false

-- `records.delete(id)` in the registry, whose map the supervisor's `records` is.
unfoldable pub delete_record : List SessionRecord → String → List SessionRecord
delete_record [] id = []
delete_record (r ∷ records) id =
    let rest = delete_record records id in if str_eq r.id id then rest else r ∷ rest

unfoldable pub without_session : String → Supervisor → Supervisor
unfolding delete_record
without_session id s = record s {
  records = delete s.records id;
  workers = remove s.workers id;
  versions = (bump_version s.versions id).0;
  confirmed_shutdowns = remove s.confirmed_shutdowns id;
  stored = delete s.stored id;
  registry = record (release s.registry id) { records = delete_record s.registry.records id };
}

-- `deleteNativeSession`; `same_record` is `this.records.get(record.id) === record`.
unfoldable pub delete_native_session : Bool → String → Supervisor → Supervisor × Bool
unfolding without_session
delete_native_session same_record id s =
    if same_record then (without_session id s, true) else (s, false)

-- What a branch of `cleanup` does: the session is deleted, is kept, or is kept and the end of its
-- worker asked for; a confirmed shutdown is noted.
pub data Verdict : Type 0 where
  deleted kept orphan_terminated : Verdict
  noted_deleted : Verdict

-- `nativeTerminalProof(await worker.shutdown())`, and whether the call threw.
abbrev proves : Bool → Option WorkerSnapshot → Bool
proves darwin none = false
proves darwin (some result) = native_terminal_proof darwin result

abbrev pub shutdown_lost : Bool → Option WorkerSnapshot → Verdict
shutdown_lost darwin none = Verdict.orphan_terminated
shutdown_lost darwin (some result) =
    if native_terminal_proof darwin result then Verdict.deleted else Verdict.kept

-- The worker that `reconnect` is asked for where there is a reference.
abbrev found : Bool → Option WorkerReference → Answers → Bool
found known reference answers = known || (is_some reference && answers.reconnected)

unfoldable pub cleanup_lost : Bool → Bool → SessionRecord → Answers → Verdict
cleanup_lost darwin known r answers =
    let view : LifecycleView = r.view in
    if terminal_direct_child darwin r
    then Verdict.deleted
    else if incompatible_worker r
    then Verdict.kept
    else if found known view.worker answers
    then shutdown_lost darwin answers.shutdown
    else if is_some view.worker
    then Verdict.orphan_terminated
    else Verdict.kept

abbrev is_conversation : SessionLifecycle → Bool
is_conversation SessionLifecycle.conversation = true
is_conversation SessionLifecycle.persistent = false

unfoldable pub requires_fresh_proof : Bool → Bool → SessionRecord → Bool
requires_fresh_proof known confirmed r =
    let view : LifecycleView = r.view in
    is_conversation r.lifecycle && (is_some view.worker && (not known && not confirmed))

abbrev shutdown_terminal : Bool → Bool → SessionRecord → Option WorkerSnapshot → Verdict
shutdown_terminal darwin fresh r none =
    if fresh
    then Verdict.kept
    else if terminal_direct_child darwin r
    then Verdict.deleted
    else Verdict.kept
shutdown_terminal darwin fresh r (some result) =
    if native_terminal_proof darwin result then Verdict.noted_deleted else Verdict.kept

unfoldable pub cleanup_terminal : Bool → Bool → Bool → SessionRecord → Answers → Verdict
cleanup_terminal darwin known confirmed r answers =
    let fresh = requires_fresh_proof known confirmed r in
    let worker = known || (fresh && (not (incompatible_worker r) && answers.reconnected)) in
    if fresh && not worker
    then Verdict.kept
    else if worker
    then shutdown_terminal darwin fresh r answers.shutdown
    else Verdict.deleted

-- `cleanup` of a record that is there; `known` and `confirmed` are whether its id is in
-- `nativeWorkers` and in `confirmedWorkerShutdowns`.
unfoldable pub cleanup_record : Bool → Bool → Bool → SessionRecord → Answers → Verdict
cleanup_record darwin known confirmed r answers =
    if no_child_spawn_failure r
    then Verdict.deleted
    else if has_prestart_authority r && answers.prestart_receipt
    then Verdict.deleted
    else if verified_no_child_spawn_failure r answers
    then Verdict.deleted
    else if is_lost_status r.status
    then cleanup_lost darwin known r answers
    else if is_terminal darwin r
    then cleanup_terminal darwin known confirmed r answers
    else Verdict.kept

abbrev pub noted : String → Supervisor → Supervisor
noted id s = record s { confirmed_shutdowns = add s.confirmed_shutdowns id }

abbrev pub apply_verdict : Bool → String → Supervisor → Verdict → Supervisor × Bool
apply_verdict same_record id s Verdict.deleted = delete_native_session same_record id s
apply_verdict same_record id s Verdict.noted_deleted =
    delete_native_session same_record id (noted id s)
apply_verdict same_record id s Verdict.kept = (s, false)
apply_verdict same_record id s Verdict.orphan_terminated = (s, false)

abbrev pub cleanup_found :
    Bool → String → Supervisor → Answers → Option SessionRecord → Supervisor × Bool
cleanup_found darwin id s answers none = (s, false)
cleanup_found darwin id s answers (some r) =
    apply_verdict answers.same_record id s
      (cleanup_record darwin (has s.workers id) (has s.confirmed_shutdowns id) r answers)

unfoldable pub cleanup_session : Bool → String → Supervisor → Answers → Supervisor × Bool
cleanup_session darwin id s answers = cleanup_found darwin id s answers (get s.records id)
