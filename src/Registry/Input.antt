-- ===== src/Registry/Input.antt =====
-- `reserveInput` and `releaseInput` of src/daemon/session-registry.ts.
use opencode_pty.Prelude.{ℕ, ◌+◌, ◌-◌, String, Bool, true, false, ◌||◌, ltb, leb, if◌then◌else◌}
use opencode_pty.Rpc.Result.{Result, ok, err, FailureCode}
use opencode_pty.Session.{SessionRecord}
use opencode_pty.Registry.Maps.{Map, set, delete, count_of}
use opencode_pty.Registry.Limits.{SessionLimits}
use opencode_pty.Registry.State.{Registry, owner_key}

pub record InputReservation : Type 0 where
  pub session_id : String
  pub owner_key : String
  pub bytes : ℕ
  pub released : Bool

abbrev pub input_exceeds : SessionLimits → Registry → String → String → ℕ → Bool
input_exceeds limits registry id owner bytes =
    ltb limits.max_queued_input_bytes_per_session
      (count_of registry.input_bytes_by_session id + bytes)
    || (ltb limits.max_queued_input_bytes_per_owner
          (count_of registry.input_bytes_by_owner owner + bytes)
        || ltb limits.max_queued_input_bytes (registry.input_bytes + bytes))

-- The counters after the bytes were reserved.
abbrev pub with_input : Registry → String → String → ℕ → Registry
with_input registry id owner bytes = record registry {
  input_bytes_by_session =
      set registry.input_bytes_by_session id (count_of registry.input_bytes_by_session id + bytes);
  input_bytes_by_owner =
      set registry.input_bytes_by_owner owner
        (count_of registry.input_bytes_by_owner owner + bytes);
  input_bytes = registry.input_bytes + bytes;
}

-- `reserveInput` of a record with the id and the owner's key.
unfoldable pub reserve_input_for :
    SessionLimits → Registry → String → String → ℕ → Registry × Result InputReservation
reserve_input_for limits registry id owner bytes =
    if input_exceeds limits registry id owner bytes then (registry, err FailureCode.limit) else (
      with_input registry id owner bytes,
      ok (record { session_id = id; owner_key = owner; bytes = bytes; released = false }),
    )

abbrev pub reserve_input :
    SessionLimits → Registry → SessionRecord → ℕ → Registry × Result InputReservation
reserve_input limits registry r bytes = reserve_input_for limits registry r.id (owner_key r) bytes

-- `subtract`: `next <= 0` is `values.get(key) ?? 0 <= amount`.
unfoldable pub subtract : Map ℕ → String → ℕ → Map ℕ
subtract values key amount =
    if leb (count_of values key) amount
    then delete values key
    else set values key (count_of values key - amount)

-- The counters after the reservation's bytes were given back.
abbrev pub without_input : Registry → InputReservation → Registry
without_input registry reservation = record registry {
  input_bytes_by_session =
      subtract registry.input_bytes_by_session reservation.session_id reservation.bytes;
  input_bytes_by_owner =
      subtract registry.input_bytes_by_owner reservation.owner_key reservation.bytes;
  input_bytes = registry.input_bytes - reservation.bytes;
}

unfoldable pub release_input : Registry → InputReservation → Registry × InputReservation
release_input registry reservation =
    if reservation.released
    then (registry, reservation)
    else (without_input registry reservation, record reservation { released = true })
