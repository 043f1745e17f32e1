-- ===== src/Registry/Waits.antt =====
-- `reserveWait` and `releaseWait` of src/daemon/session-registry.ts.
use opencode_pty.Prelude.{ℕ, ◌+◌, String, Bool, true, false, ◌||◌, leb, length, if◌then◌else◌}
use opencode_pty.Rpc.Result.{Result, ok, err, FailureCode}
use opencode_pty.Session.{SessionRecord}
use opencode_pty.Registry.Maps.{set, add_number, remove_number, set_of, size_of, put_set}
use opencode_pty.Registry.Limits.{SessionLimits}
use opencode_pty.Registry.State.{Registry, owner_key}

pub record WaitReservation : Type 0 where
  pub id : ℕ
  pub session_id : String
  pub owner_key : String
  pub released : Bool

abbrev pub waits_exceed : SessionLimits → Registry → String → String → Bool
waits_exceed limits registry session owner =
    leb limits.max_pending_waits_per_session (size_of registry.waits_by_session session)
    || (leb limits.max_pending_waits_per_owner (size_of registry.waits_by_owner owner)
        || leb limits.max_pending_waits (length registry.waits))

-- The sets after the next id was added.
abbrev pub with_wait : Registry → String → String → Registry
with_wait registry session owner =
    let id = registry.next_wait_id in
    record registry {
      next_wait_id = id + 1;
      waits_by_session =
          set registry.waits_by_session session
            (add_number (set_of registry.waits_by_session session) id);
      waits_by_owner =
          set registry.waits_by_owner owner (add_number (set_of registry.waits_by_owner owner) id);
      waits = add_number registry.waits id;
    }

-- `reserveWait` of a record with the id and the owner's key.
unfoldable pub reserve_wait_for :
    SessionLimits → Registry → String → String → Registry × Result WaitReservation
reserve_wait_for limits registry session owner =
    if waits_exceed limits registry session owner then (registry, err FailureCode.limit) else (
      with_wait registry session owner,
      ok (record {
        id = registry.next_wait_id;
        session_id = session;
        owner_key = owner;
        released = false;
      }),
    )

abbrev pub reserve_wait :
    SessionLimits → Registry → SessionRecord → Registry × Result WaitReservation
reserve_wait limits registry r = reserve_wait_for limits registry r.id (owner_key r)

-- The sets after the reservation's id was deleted.
abbrev pub without_wait : Registry → WaitReservation → Registry
without_wait registry reservation = record registry {
  waits = remove_number registry.waits reservation.id;
  waits_by_session =
      put_set registry.waits_by_session reservation.session_id
        (remove_number (set_of registry.waits_by_session reservation.session_id) reservation.id);
  waits_by_owner =
      put_set registry.waits_by_owner reservation.owner_key
        (remove_number (set_of registry.waits_by_owner reservation.owner_key) reservation.id);
}

unfoldable pub release_wait : Registry → WaitReservation → Registry × WaitReservation
release_wait registry reservation =
    if reservation.released
    then (registry, reservation)
    else (without_wait registry reservation, record reservation { released = true })
