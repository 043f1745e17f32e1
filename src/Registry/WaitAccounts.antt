-- ===== src/Registry/WaitAccounts.antt =====
-- The pending waits of src/daemon/session-registry.ts against the reservations that are out.
use opencode_pty.Prelude.{
  ℕ, ◌+◌, ◌≤◌, ◌<◌, String, str_eq, eq_iff, Bool, true, false, List, [], ◌∷◌, ◌++◌, length, ◌≡◌,
  refl, arith, inl, inr, Bool-cases, if◌then◌else◌,
}
use opencode_pty.Rpc.Result.{Result, ok, err}
use opencode_pty.Registry.Maps.{Map, set, set_of, put_set, has_number, add_number, remove_number}
use opencode_pty.Registry.MapLaws.{get-set, get-delete}
use opencode_pty.Registry.Limits.{SessionLimits}
use opencode_pty.Registry.State.{Registry}
use opencode_pty.Registry.Waits.{
  WaitReservation, waits_exceed, with_wait, without_wait, reserve_wait_for, release_wait,
}

-- The ids of the reservations that pass a test.
abbrev pub ids_where : (WaitReservation → Bool) → List WaitReservation → List ℕ
ids_where test [] = []
ids_where test (r ∷ rest) = if test r then r.id ∷ ids_where test rest else ids_where test rest

abbrev pub of_session : String → WaitReservation → Bool
of_session id r = str_eq r.session_id id

abbrev pub of_owner : String → WaitReservation → Bool
of_owner owner r = str_eq r.owner_key owner

abbrev pub of_any : WaitReservation → Bool
of_any r = true

-- The newest reservation is first, and its id is below the bound.
abbrev pub Descending : ℕ → List WaitReservation → Type 0
Descending bound [] = Unit
Descending bound (r ∷ rest) = (r.id < bound) × Descending r.id rest

-- The sets hold exactly the ids of the reservations that are out.
pub record Pending (registry : Registry) (out : List WaitReservation) : Type 0 where
  pub all : registry.waits ≡ ids_where of_any out
  pub by_session :
      (id : String) → set_of registry.waits_by_session id ≡ ids_where (of_session id) out
  pub by_owner :
      (owner : String) → set_of registry.waits_by_owner owner ≡ ids_where (of_owner owner) out
  pub ids : Descending registry.next_wait_id out

set_of-set :
    (entries : Map (List ℕ)) (key other : String) (xs : List ℕ)
    → set_of (set entries key xs) other ≡ (if str_eq key other then xs else set_of entries other)
set_of-set entries key other xs = ground (arith, get-set entries key other xs)

set_of-put_set :
    (entries : Map (List ℕ)) (key other : String) (xs : List ℕ)
    → set_of (put_set entries key xs) other
      ≡ (if str_eq key other then xs else set_of entries other)
set_of-put_set entries key other [] = ground (arith, get-delete entries key other)
set_of-put_set entries key other (x ∷ xs) = ground (arith, get-set entries key other (x ∷ xs))

has-ids :
    (test : WaitReservation → Bool) (out : List WaitReservation) (n bound : ℕ)
    → Descending bound out
    → bound ≤ n
    → has_number (ids_where test out) n ≡ false
unfolding has_number
has-ids test [] n bound d b = refl
has-ids test (r ∷ rest) n bound d b = ground (arith, has-ids test rest n r.id d.1)

remove-ids :
    (test : WaitReservation → Bool) (out : List WaitReservation) (n bound : ℕ)
    → Descending bound out
    → bound ≤ n
    → remove_number (ids_where test out) n ≡ ids_where test out
unfolding remove_number
remove-ids test [] n bound d b = refl
remove-ids test (r ∷ rest) n bound d b = ground (arith, remove-ids test rest n r.id d.1)

middle_lt :
    (before after : List WaitReservation) (r : WaitReservation) (bound : ℕ)
    → Descending bound (before ++ r ∷ after)
    → r.id < bound
middle_lt [] after r bound d = d.0
middle_lt (x ∷ before) after r bound d = ground (arith, middle_lt before after r x.id d.1)

remove-middle :
    (test : WaitReservation → Bool) (before after : List WaitReservation) (r : WaitReservation)
    (bound : ℕ)
    → Descending bound (before ++ r ∷ after)
    → remove_number (ids_where test (before ++ r ∷ after)) r.id ≡ ids_where test (before ++ after)
unfolding remove_number
remove-middle test [] after r bound d = ground (arith, remove-ids test after r.id r.id d.1)
remove-middle test (x ∷ before) after r bound d =
    ground (arith, remove-middle test before after r x.id d.1, middle_lt before after r x.id d.1)

Descending-drop :
    (before after : List WaitReservation) (r : WaitReservation) (bound : ℕ)
    → Descending bound (before ++ r ∷ after)
    → Descending bound (before ++ after)
Descending-drop [] [] r bound d = tt
Descending-drop [] (x ∷ after) r bound d = ground arith
Descending-drop (x ∷ before) after r bound d = (d.0, Descending-drop before after r x.id d.1)

skip-ids :
    (test : WaitReservation → Bool) (before after : List WaitReservation) (r : WaitReservation)
    → test r ≡ false
    → ids_where test (before ++ r ∷ after) ≡ ids_where test (before ++ after)
skip-ids test [] after r h = ground arith
skip-ids test (x ∷ before) after r h = ground (arith, skip-ids test before after r h)

-- No session, no owner and not the daemon has more waits pending than its limit.
pub record InLimits (limits : SessionLimits) (registry : Registry) : Type 0 where
  pub session_limit :
      (id : String)
      → length (set_of registry.waits_by_session id) ≤ limits.max_pending_waits_per_session
  pub owner_limit :
      (owner : String)
      → length (set_of registry.waits_by_owner owner) ≤ limits.max_pending_waits_per_owner
  pub total_limit : length registry.waits ≤ limits.max_pending_waits

add-new :
    (test : WaitReservation → Bool) (out : List WaitReservation) (n : ℕ)
    → Descending n out
    → add_number (ids_where test out) n ≡ n ∷ ids_where test out
unfolding add_number
add-new test out n d = ground (arith, has-ids test out n n d (ground arith))

length-add : (ns : List ℕ) (n : ℕ) → length (add_number ns n) ≤ length ns + 1
unfolding add_number
length-add ns n = ground arith

with_wait-Pending :
    (registry : Registry) (session owner : String) (out : List WaitReservation)
    → Pending registry out
    → Pending (with_wait registry session owner) (
        record {
          id = registry.next_wait_id;
          session_id = session;
          owner_key = owner;
          released = false;
        }
        ∷ out)
with_wait-Pending registry session owner out p =
    let n = registry.next_wait_id in
    record {
      all = ground (arith, p.all, add-new of_any out n p.ids);
      by_session = λ id'. ground (
        arith,
        eq_iff session id',
        p.by_session session,
        p.by_session id',
        add-new (of_session session) out n p.ids,
        set_of-set registry.waits_by_session session id'
            (add_number (set_of registry.waits_by_session session) n),
      );
      by_owner = λ owner'. ground (
        arith,
        eq_iff owner owner',
        p.by_owner owner,
        p.by_owner owner',
        add-new (of_owner owner) out n p.ids,
        set_of-set registry.waits_by_owner owner owner'
            (add_number (set_of registry.waits_by_owner owner) n),
      );
      ids = ground (arith, p.ids);
    }

without_wait-Pending :
    (registry : Registry) (r : WaitReservation) (before after : List WaitReservation)
    → Pending registry (before ++ r ∷ after)
    → Pending (without_wait registry r) (before ++ after)
without_wait-Pending registry r before after p =
    let n = registry.next_wait_id in
    record {
      all = ground (arith, p.all, remove-middle of_any before after r n p.ids);
      by_session = λ id'. ground (
        arith,
        eq_iff r.session_id id',
        p.by_session r.session_id,
        p.by_session id',
        remove-middle (of_session r.session_id) before after r n p.ids,
        skip-ids (of_session id') before after r,
        set_of-put_set registry.waits_by_session r.session_id id'
            (remove_number (set_of registry.waits_by_session r.session_id) r.id),
      );
      by_owner = λ owner'. ground (
        arith,
        eq_iff r.owner_key owner',
        p.by_owner r.owner_key,
        p.by_owner owner',
        remove-middle (of_owner r.owner_key) before after r n p.ids,
        skip-ids (of_owner owner') before after r,
        set_of-put_set registry.waits_by_owner r.owner_key owner'
            (remove_number (set_of registry.waits_by_owner r.owner_key) r.id),
      );
      ids = Descending-drop before after r n p.ids;
    }

with_wait-InLimits :
    (limits : SessionLimits) (registry : Registry) (session owner : String)
    → waits_exceed limits registry session owner ≡ false
    → InLimits limits registry
    → InLimits limits (with_wait registry session owner)
with_wait-InLimits limits registry session owner h l =
    let n = registry.next_wait_id in
    record {
      session_limit = λ id'. ground (
        arith,
        l.session_limit id',
        length-add (set_of registry.waits_by_session session) n,
        set_of-set registry.waits_by_session session id'
            (add_number (set_of registry.waits_by_session session) n),
      );
      owner_limit = λ owner'. ground (
        arith,
        l.owner_limit owner',
        length-add (set_of registry.waits_by_owner owner) n,
        set_of-set registry.waits_by_owner owner owner'
            (add_number (set_of registry.waits_by_owner owner) n),
      );
      total_limit = ground (arith, length-add registry.waits n);
    }

-- What `reserveWait` leaves: the registry and what is out then.
abbrev pub WaitReserved :
    SessionLimits → List WaitReservation → Registry × Result WaitReservation → Type 0
WaitReserved limits out (registry, ok r) = Pending registry (r ∷ out) × InLimits limits registry
WaitReserved limits out (registry, err code) = Pending registry out × InLimits limits registry

-- If the sets of pending waits hold exactly the reservations that are out, and no set is larger than
-- its limit, then `reserveWait` keeps that, with the new reservation out if it gives one.
pub reserve_wait-WaitReserved :
    (limits : SessionLimits) (registry : Registry) (session owner : String)
    (out : List WaitReservation)
    → Pending registry out
    → InLimits limits registry
    → WaitReserved limits out (reserve_wait_for limits registry session owner)
unfolding reserve_wait_for
reserve_wait-WaitReserved limits registry session owner out p l =
    elim (Bool-cases (waits_exceed limits registry session owner)) [
      | inl over ↦ rw over (p, l)
      | inr within ↦ rw within (
        with_wait-Pending registry session owner out p,
        with_wait-InLimits limits registry session owner within l,
      )
    ]

-- If the sets of pending waits hold exactly the reservations that are out, then releasing one that is
-- out and not released leaves exactly the others, and a second release changes nothing.
pub release_wait-Pending :
    (registry : Registry) (r : WaitReservation) (before after : List WaitReservation)
    → Pending registry (before ++ r ∷ after)
    → r.released ≡ false
    → Pending (release_wait registry r).0 (before ++ after)
      × (release_wait (release_wait registry r).0 (release_wait registry r).1
          ≡ release_wait registry r)
unfolding release_wait
release_wait-Pending registry r before after p h =
    rw h (without_wait-Pending registry r before after p, refl)
