-- ===== src/Supervisor/Deleted.antt =====
-- When `cleanup` of src/daemon/supervisor.ts deletes a session, and what is left of it then.
use opencode_pty.Prelude.{String, str_eq, Bool, true, false, none, some, ◌≡◌, ◌⊎◌, ◌+◌}
use opencode_pty.Session.{SessionRecord}
use opencode_pty.Registry.Maps.{get, has}
use opencode_pty.Registry.State.{Registry, terminal_direct_child, get_record}
use opencode_pty.Registry.Released.{Freed}
use opencode_pty.Router.Lanes.{version}
use opencode_pty.Supervisor.Snapshot.{WorkerSnapshot, native_terminal_proof}
use opencode_pty.Supervisor.Cleanup.{
  Supervisor, Answers, Verdict, has_prestart_authority, no_child_spawn_failure,
  post_start_no_child_failure_eligible, incompatible_worker, is_lost_status, requires_fresh_proof,
  noted,
}

-- Why no process of the session can be left.
pub data NoProcess (darwin known confirmed : Bool) (r : SessionRecord) (answers : Answers)
    : Type 0 where
  never_started : no_child_spawn_failure r ≡ true → NoProcess darwin known confirmed r answers
  not_attempted :
      has_prestart_authority r ≡ true
      → answers.prestart_receipt ≡ true
      → NoProcess darwin known confirmed r answers
  start_failed :
      incompatible_worker r ≡ false
      → post_start_no_child_failure_eligible r ≡ true
      → answers.failure_receipt ≡ true
      → NoProcess darwin known confirmed r answers
  recorded :
      terminal_direct_child darwin r ≡ true
      → (is_lost_status r.status ≡ true) ⊎ (requires_fresh_proof known confirmed r ≡ false)
      → NoProcess darwin known confirmed r answers
  shut_down :
      (result : WorkerSnapshot)
      → answers.shutdown ≡ some result
      → native_terminal_proof darwin result ≡ true
      → NoProcess darwin known confirmed r answers

abbrev pub deletes : Verdict → Bool
deletes Verdict.deleted = true
deletes Verdict.noted_deleted = true
deletes _ = false

-- The session is in no map of the supervisor or the registry, in no set and no file, and nobody owns
-- it; its version is raised, so that older snapshots of it are dropped; and every other session is as
-- it was.
pub record Removed (id : String) (before after : Supervisor) : Type 0 where
  pub no_record : get after.records id ≡ none
  pub no_file : get after.stored id ≡ none
  pub no_worker : has after.workers id ≡ false
  pub no_mark : has after.confirmed_shutdowns id ≡ false
  pub no_owner : get_record after.registry.records id ≡ none
  pub freed : Freed id before.registry after.registry
  pub raised : version after.versions id ≡ version before.versions id + 1
  pub other_record : (x : String) → str_eq id x ≡ false → get after.records x ≡ get before.records x
  pub other_file : (x : String) → str_eq id x ≡ false → get after.stored x ≡ get before.stored x
  pub other_worker : (x : String) → str_eq id x ≡ false → has after.workers x ≡ has before.workers x
  pub other_mark :
      (x : String)
      → str_eq id x ≡ false
      → has after.confirmed_shutdowns x ≡ has before.confirmed_shutdowns x
  pub other_owner :
      (x : String)
      → str_eq id x ≡ false
      → get_record after.registry.records x ≡ get_record before.registry.records x
  pub other_version :
      (x : String) → str_eq id x ≡ false → version after.versions x ≡ version before.versions x

-- What `cleanup` of a session that is there comes to: nothing; or the record was replaced while the
-- worker ended, and only the note of its end is made; or the session is deleted.
pub data Cleaned (darwin : Bool) (id : String) (s : Supervisor) (answers : Answers)
    (r : SessionRecord) (result : Supervisor × Bool) : Type 0 where
  unchanged : result ≡ (s, false) → Cleaned darwin id s answers r result
  replaced :
      answers.same_record ≡ false
      → NoProcess darwin (has s.workers id) (has s.confirmed_shutdowns id) r answers
      → result ≡ (noted id s, false)
      → Cleaned darwin id s answers r result
  removed :
      answers.same_record ≡ true
      → NoProcess darwin (has s.workers id) (has s.confirmed_shutdowns id) r answers
      → result.1 ≡ true
      → Removed id s result.0
      → Cleaned darwin id s answers r result
