-- ===== src/Registry/Slots.antt =====
-- The active slots, the records and the retained output of src/daemon/session-registry.ts.
use opencode_pty.Prelude.{
  ℕ, ◌+◌, ◌-◌, String, str_eq, Bool, true, false, ◌||◌, Option, none, some, List, [], ◌∷◌, ltb, leb,
  ◌==◌, length, if◌then◌else◌,
}
use opencode_pty.Rpc.Result.{Result, ok, err, FailureCode}
use opencode_pty.Session.{SessionRecord}
use opencode_pty.Registry.Maps.{
  Map, get, set, delete, count_of, add, remove, set_of, size_of, put_set,
}
use opencode_pty.Registry.Limits.{SessionLimits}
use opencode_pty.Registry.State.{Registry, owner_key, occupies_slot, output_reservation}

pub data ReservationState : Type 0 where
  reserved committed released : ReservationState

pub record SessionReservation : Type 0 where
  pub id : String
  pub owner_key : String
  pub state : ReservationState

unfoldable pub add_active : Registry → String → String → Registry
add_active registry id owner = record registry {
  owner_slots = set registry.owner_slots owner (add (set_of registry.owner_slots owner) id);
  slot_owner_by_session_id = set registry.slot_owner_by_session_id id owner;
}

abbrev pub nonempty_owner : Option String → Option String
nonempty_owner none = none
nonempty_owner (some owner) = if str_eq owner "" then none else some owner

-- `if (!ownerKey)`: a missing owner, or an empty text.
abbrev pub owner_of : Map String → String → Option String
owner_of owners id = nonempty_owner (get owners id)

-- What `releaseActive` does, by the owner of the slot.
abbrev pub release_slot : Registry → String → Option String → Registry
release_slot registry id none = registry
release_slot registry id (some owner) = record registry {
  owner_slots = put_set registry.owner_slots owner (remove (set_of registry.owner_slots owner) id);
  slot_owner_by_session_id = delete registry.slot_owner_by_session_id id;
}

unfoldable pub release_active : Registry → String → Registry
release_active registry id =
    release_slot registry id (owner_of registry.slot_owner_by_session_id id)

unfoldable pub add_record : Registry → String → String → Registry
add_record registry id owner = record registry {
  records_by_owner =
      set registry.records_by_owner owner (add (set_of registry.records_by_owner owner) id);
  record_owner_by_session_id = set registry.record_owner_by_session_id id owner;
}

-- `map.delete(key)` for 0, and `map.set(key, bytes)` else.
abbrev pub put_count : Map ℕ → String → ℕ → Map ℕ
put_count entries key n = if n == 0 then delete entries key else set entries key n

unfoldable pub set_output : Registry → String → String → ℕ → Registry
set_output registry id owner bytes =
    let previous = count_of registry.output_by_session_id id in
    record registry {
      output_by_session_id = put_count registry.output_by_session_id id bytes;
      output_total = registry.output_total + bytes - previous;
      output_by_owner =
          put_count registry.output_by_owner owner
            (count_of registry.output_by_owner owner + bytes - previous);
    }

abbrev pub without_record : Registry → String → String → Registry
without_record registry id owner = record registry {
  records_by_owner =
      put_set registry.records_by_owner owner (remove (set_of registry.records_by_owner owner) id);
  record_owner_by_session_id = delete registry.record_owner_by_session_id id;
}

-- What `release` does after the slot was released, by the record's owner.
abbrev pub release_record : Registry → String → Option String → Registry
release_record registry id none = registry
release_record registry id (some owner) = set_output (without_record registry id owner) id owner 0

unfoldable pub release : Registry → String → Registry
release registry id =
    let inactive = release_active registry id in
    release_record inactive id (owner_of inactive.record_owner_by_session_id id)

unfoldable pub update_output : Bool → Registry → SessionRecord → Registry
update_output darwin registry r = elim (owner_of registry.record_owner_by_session_id r.id) [
  | none ↦ registry
  | some owner ↦ set_output registry r.id owner (output_reservation darwin r)
]

unfoldable pub release_if_settled : Bool → Registry → SessionRecord → Registry
release_if_settled darwin registry r =
    update_output darwin (if occupies_slot darwin r then registry else release_active registry r.id)
      r

-- One turn of the loop of `rebuildSlots`.
abbrev pub rebuild_record : Bool → Registry → SessionRecord → Registry
rebuild_record darwin registry r =
    let recorded = add_record registry r.id (owner_key r) in
    set_output (if occupies_slot darwin r then add_active recorded r.id (owner_key r) else recorded)
      r.id (owner_key r) (output_reservation darwin r)

unfoldable pub rebuild_records : Bool → Registry → List SessionRecord → Registry
rebuild_records darwin registry [] = registry
rebuild_records darwin registry (r ∷ rest) =
    rebuild_records darwin (rebuild_record darwin registry r) rest

unfoldable pub rebuild_slots : Bool → Registry → Registry
rebuild_slots darwin registry =
    rebuild_records darwin
      (record registry {
        owner_slots = [];
        slot_owner_by_session_id = [];
        records_by_owner = [];
        record_owner_by_session_id = [];
        output_by_session_id = [];
        output_by_owner = [];
        output_total = 0;
      })
      registry.records

-- The three refusals of `reserve`.
abbrev pub no_slot : SessionLimits → Registry → String → ℕ → Bool
no_slot limits registry owner max_sessions_per_owner =
    leb max_sessions_per_owner (size_of registry.owner_slots owner)
    || leb limits.max_active_sessions (length registry.slot_owner_by_session_id)

abbrev pub no_record : SessionLimits → Registry → String → Bool
no_record limits registry owner =
    leb limits.max_records_per_owner (size_of registry.records_by_owner owner)
    || leb limits.max_records (length registry.record_owner_by_session_id)

abbrev pub no_output : SessionLimits → Registry → String → ℕ → Bool
no_output limits registry owner output =
    ltb limits.max_retained_output_bytes_per_owner
      (count_of registry.output_by_owner owner + output)
    || ltb limits.max_retained_output_bytes (registry.output_total + output)

-- `reserve` of a record with the id, the owner's key and the output reservation.
unfoldable pub reserve_for :
    SessionLimits → Registry → String → String → ℕ → ℕ → Registry × Result SessionReservation
reserve_for limits registry id owner output max_sessions_per_owner =
    if no_slot limits registry owner max_sessions_per_owner
      || (no_record limits registry owner || no_output limits registry owner output)
    then (registry, err FailureCode.limit)
    else (
      set_output (add_record (add_active registry id owner) id owner) id owner output,
      ok (record { id = id; owner_key = owner; state = ReservationState.reserved }),
    )

abbrev pub reserve :
    Bool → SessionLimits → Registry → SessionRecord → ℕ → Registry × Result SessionReservation
reserve darwin limits registry r max_sessions_per_owner =
    reserve_for limits registry r.id (owner_key r) (output_reservation darwin r)
      max_sessions_per_owner

abbrev pub commit_reserved : ReservationState → SessionReservation → Option SessionReservation
commit_reserved ReservationState.reserved reservation =
    some (record reservation { state = ReservationState.committed })
commit_reserved _ reservation = none

-- `none` is the error of a reservation that is no longer valid.
unfoldable pub commit : SessionReservation → Option SessionReservation
commit reservation = commit_reserved reservation.state reservation

abbrev pub is_released : ReservationState → Bool
is_released ReservationState.released = true
is_released _ = false

unfoldable pub release_reservation : Registry → SessionReservation → Registry × SessionReservation
release_reservation registry reservation =
    if is_released reservation.state
    then (registry, reservation)
    else (release registry reservation.id, record reservation { state = ReservationState.released })

pub record SessionUsage : Type 0 where
  pub active_sessions : ℕ
  pub records : ℕ
  pub pending_waits : ℕ
  pub queued_input_bytes : ℕ
  pub retained_output_bytes : ℕ

unfoldable pub total_usage : Registry → SessionUsage
total_usage registry = record {
  active_sessions = length registry.slot_owner_by_session_id;
  records = length registry.record_owner_by_session_id;
  pending_waits = length registry.waits;
  queued_input_bytes = registry.input_bytes;
  retained_output_bytes = registry.output_total;
}

unfoldable pub usage : Registry → String → SessionUsage
usage registry owner = record {
  active_sessions = size_of registry.owner_slots owner;
  records = size_of registry.records_by_owner owner;
  pending_waits = size_of registry.waits_by_owner owner;
  queued_input_bytes = count_of registry.input_bytes_by_owner owner;
  retained_output_bytes = count_of registry.output_by_owner owner;
}
