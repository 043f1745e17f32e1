-- ===== src/Registry/InputAccounts.antt =====
-- The queued-input counters of src/daemon/session-registry.ts against the reservations that are out.
use opencode_pty.Prelude.{
  ℕ, ◌+◌, ◌≤◌, String, str_eq, eq_iff, Bool, true, false, List, [], ◌∷◌, ◌++◌, ◌≡◌, refl, arith,
  inl, inr, Bool-cases, if◌then◌else◌,
}
use opencode_pty.Rpc.Result.{Result, ok, err}
use opencode_pty.Registry.Maps.{count_of}
use opencode_pty.Registry.MapLaws.{count_of-set, count_of-subtract}
use opencode_pty.Registry.Limits.{SessionLimits}
use opencode_pty.Registry.State.{Registry}
use opencode_pty.Registry.Input.{
  InputReservation, input_exceeds, with_input, without_input, reserve_input_for, release_input,
}

-- The bytes of the reservations that pass a test.
abbrev pub bytes_where : (InputReservation → Bool) → List InputReservation → ℕ
bytes_where test [] = 0
bytes_where test (r ∷ rest) = (if test r then r.bytes else 0) + bytes_where test rest

abbrev pub of_session : String → InputReservation → Bool
of_session id r = str_eq r.session_id id

abbrev pub of_owner : String → InputReservation → Bool
of_owner owner r = str_eq r.owner_key owner

abbrev pub of_any : InputReservation → Bool
of_any r = true

-- Every counter is the sum of the reservations that are out.
pub record Accounts (registry : Registry) (out : List InputReservation) : Type 0 where
  pub by_session :
      (id : String) → count_of registry.input_bytes_by_session id ≡ bytes_where (of_session id) out
  pub by_owner :
      (owner : String)
      → count_of registry.input_bytes_by_owner owner ≡ bytes_where (of_owner owner) out
  pub total : registry.input_bytes ≡ bytes_where of_any out

with_input-Accounts :
    (registry : Registry) (id owner : String) (bytes : ℕ) (out : List InputReservation)
    → Accounts registry out
    → Accounts
        (with_input registry id owner bytes)
        (record { session_id = id; owner_key = owner; bytes = bytes; released = false } ∷ out)
with_input-Accounts registry id owner bytes out a = record {
  by_session = λ id'. ground (
    arith,
    eq_iff id id',
    a.by_session id,
    a.by_session id',
    count_of-set registry.input_bytes_by_session id id'
        (count_of registry.input_bytes_by_session id + bytes),
  );
  by_owner = λ owner'. ground (
    arith,
    eq_iff owner owner',
    a.by_owner owner,
    a.by_owner owner',
    count_of-set registry.input_bytes_by_owner owner owner'
        (count_of registry.input_bytes_by_owner owner + bytes),
  );
  total = ground (arith, a.total);
}

bytes_where-middle :
    (test : InputReservation → Bool) (before after : List InputReservation) (r : InputReservation)
    → bytes_where test (before ++ r ∷ after)
      ≡ (if test r then r.bytes else 0) + bytes_where test (before ++ after)
bytes_where-middle test [] after r = refl
bytes_where-middle test (x ∷ before) after r =
    ground (arith, bytes_where-middle test before after r)

without_input-Accounts :
    (registry : Registry) (r : InputReservation) (before after : List InputReservation)
    → Accounts registry (before ++ r ∷ after)
    → Accounts (without_input registry r) (before ++ after)
without_input-Accounts registry r before after a = record {
  by_session = λ id'. ground (
    arith,
    a.by_session id',
    bytes_where-middle (of_session id') before after r,
    count_of-subtract registry.input_bytes_by_session r.session_id id' r.bytes,
  );
  by_owner = λ owner'. ground (
    arith,
    a.by_owner owner',
    bytes_where-middle (of_owner owner') before after r,
    count_of-subtract registry.input_bytes_by_owner r.owner_key owner' r.bytes,
  );
  total = ground (arith, a.total, bytes_where-middle of_any before after r);
}

-- No session, no owner and not the daemon has more bytes reserved than its limit.
pub record InLimits (limits : SessionLimits) (registry : Registry) : Type 0 where
  pub session_limit :
      (id : String)
      → count_of registry.input_bytes_by_session id ≤ limits.max_queued_input_bytes_per_session
  pub owner_limit :
      (owner : String)
      → count_of registry.input_bytes_by_owner owner ≤ limits.max_queued_input_bytes_per_owner
  pub total_limit : registry.input_bytes ≤ limits.max_queued_input_bytes

with_input-InLimits :
    (limits : SessionLimits) (registry : Registry) (id owner : String) (bytes : ℕ)
    → input_exceeds limits registry id owner bytes ≡ false
    → InLimits limits registry
    → InLimits limits (with_input registry id owner bytes)
with_input-InLimits limits registry id owner bytes h l = record {
  session_limit = λ id'. ground (
    arith,
    l.session_limit id',
    count_of-set registry.input_bytes_by_session id id'
        (count_of registry.input_bytes_by_session id + bytes),
  );
  owner_limit = λ owner'. ground (
    arith,
    l.owner_limit owner',
    count_of-set registry.input_bytes_by_owner owner owner'
        (count_of registry.input_bytes_by_owner owner + bytes),
  );
  total_limit = ground arith;
}

-- What `reserveInput` leaves: the registry and what is out then.
abbrev pub Reserved :
    SessionLimits → List InputReservation → Registry × Result InputReservation → Type 0
Reserved limits out (registry, ok r) = Accounts registry (r ∷ out) × InLimits limits registry
Reserved limits out (registry, err code) = Accounts registry out × InLimits limits registry

-- If every input counter is the sum of the reservations that are out, and within its limit, then
-- `reserveInput` keeps that, with the new reservation out if it gives one.
pub reserve_input-Reserved :
    (limits : SessionLimits) (registry : Registry) (id owner : String) (bytes : ℕ)
    (out : List InputReservation)
    → Accounts registry out
    → InLimits limits registry
    → Reserved limits out (reserve_input_for limits registry id owner bytes)
unfolding reserve_input_for
reserve_input-Reserved limits registry id owner bytes out a l =
    elim (Bool-cases (input_exceeds limits registry id owner bytes)) [
      | inl over ↦ rw over (a, l)
      | inr within ↦ rw within (
        with_input-Accounts registry id owner bytes out a,
        with_input-InLimits limits registry id owner bytes within l,
      )
    ]

-- If every input counter is the sum of the reservations that are out, then releasing one that is out
-- and not released leaves counters that are the sums of the others, and marks it released; releasing
-- it again changes nothing.
pub release_input-Accounts :
    (registry : Registry) (r : InputReservation) (before after : List InputReservation)
    → Accounts registry (before ++ r ∷ after)
    → r.released ≡ false
    → Accounts (release_input registry r).0 (before ++ after)
      × (release_input (release_input registry r).0 (release_input registry r).1
          ≡ release_input registry r)
unfolding release_input
release_input-Accounts registry r before after a h =
    rw h (without_input-Accounts registry r before after a, refl)
