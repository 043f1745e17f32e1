-- ===== src/Registry/Totals.antt =====
-- The totals of src/daemon/session-registry.ts: sums of the sessions' parts, and within the limits.
use opencode_pty.Prelude.{
  ℕ, ◌+◌, ◌≤◌, String, eq_iff, false, ◌||◌, Option, none, some, [], ◌∷◌, ◌≡◌, refl, arith, length,
  inl, inr, Bool-cases,
}
use opencode_pty.Registry.Maps.{Map, get, set, delete, count_of}
use opencode_pty.Registry.MapLaws.{get-delete, length-delete}
use opencode_pty.Registry.Limits.{SessionLimits}
use opencode_pty.Registry.State.{Registry}
use opencode_pty.Registry.Slots.{
  owner_of, add_active, release_active, add_record, put_count, set_output, without_record,
  release_record, release, no_slot, no_record, no_output, reserve_for,
}

-- No key has two entries.
abbrev pub Distinct : {V : Type 0} → Map V → Type 0
Distinct [] = Unit
Distinct ((key, v) ∷ entries) = (get entries key ≡ none) × Distinct entries

abbrev pub sum : Map ℕ → ℕ
sum [] = 0
sum ((key, n) ∷ entries) = n + sum entries

delete-Distinct :
    {V : Type 0}
    → (entries : Map V) (key : String) → Distinct entries
    → Distinct (delete entries key)
unfolding delete
delete-Distinct [] key d = tt
delete-Distinct ((k, v) ∷ entries) key d =
    ground (arith, delete-Distinct entries key d.1, get-delete entries key k)

sum-delete-none :
    (entries : Map ℕ) (key : String)
    → get entries key ≡ none
    → sum (delete entries key) ≡ sum entries
unfolding delete get
sum-delete-none [] key h = refl
sum-delete-none ((k, n) ∷ entries) key h = ground (arith, sum-delete-none entries key)

sum-delete :
    (entries : Map ℕ) (key : String)
    → Distinct entries
    → sum (delete entries key) + count_of entries key ≡ sum entries
unfolding delete get
sum-delete [] key d = refl
sum-delete ((k, n) ∷ entries) key d =
    ground (arith, eq_iff k key, sum-delete entries key d.1, sum-delete-none entries key)

put_count-Distinct :
    (entries : Map ℕ) (key : String) (n : ℕ) → Distinct entries → Distinct (put_count entries key n)
unfolding set
put_count-Distinct entries key n d =
    ground (arith, delete-Distinct entries key d, get-delete entries key key, eq_iff key key)

sum-put_count :
    (entries : Map ℕ) (key : String) (n : ℕ)
    → Distinct entries
    → sum (put_count entries key n) + count_of entries key ≡ sum entries + n
unfolding set
sum-put_count entries key n d = ground (arith, sum-delete entries key d)

-- The numbers of active sessions and of records and the retained output are within the limits, and
-- the retained output is the sum of what the sessions have reserved.
pub record IsSound (limits : SessionLimits) (registry : Registry) : Type 0 where
  pub active : length registry.slot_owner_by_session_id ≤ limits.max_active_sessions
  pub recorded : length registry.record_owner_by_session_id ≤ limits.max_records
  pub retained : registry.output_total ≤ limits.max_retained_output_bytes
  pub distinct : Distinct registry.output_by_session_id
  pub total : registry.output_total ≡ sum registry.output_by_session_id

set_output-IsSound :
    (limits : SessionLimits) (registry : Registry) (id owner : String) (bytes : ℕ)
    → length registry.slot_owner_by_session_id ≤ limits.max_active_sessions
    → length registry.record_owner_by_session_id ≤ limits.max_records
    → registry.output_total + bytes ≤ limits.max_retained_output_bytes
    → Distinct registry.output_by_session_id
    → registry.output_total ≡ sum registry.output_by_session_id
    → IsSound limits (set_output registry id owner bytes)
unfolding set_output
set_output-IsSound limits registry id owner bytes a r o d t = record {
  active = a;
  recorded = r;
  retained = ground arith;
  distinct = put_count-Distinct registry.output_by_session_id id bytes d;
  total = ground (arith, sum-put_count registry.output_by_session_id id bytes d);
}

release_active-IsSound :
    (limits : SessionLimits) (registry : Registry) (id : String)
    → IsSound limits registry
    → IsSound limits (release_active registry id)
unfolding release_active
release_active-IsSound limits registry id s =
    ground (arith, s, length-delete registry.slot_owner_by_session_id id)

release_record-IsSound :
    (limits : SessionLimits) (registry : Registry) (id : String) (owner : Option String)
    → IsSound limits registry
    → IsSound limits (release_record registry id owner)
release_record-IsSound limits registry id none s = s
release_record-IsSound limits registry id (some owner) s =
    set_output-IsSound limits (without_record registry id owner) id owner 0 s.active
      (ground (arith, s.recorded, length-delete registry.record_owner_by_session_id id))
      (ground (arith, s.retained)) s.distinct s.total

-- If the numbers of active sessions and of records and the retained output are within the limits,
-- and the retained output is the sum of the sessions' parts, then that is so after `release`.
pub release-IsSound :
    (limits : SessionLimits) (registry : Registry) (id : String)
    → IsSound limits registry
    → IsSound limits (release registry id)
unfolding release
release-IsSound limits registry id s =
    release_record-IsSound limits (release_active registry id) id
      (owner_of (release_active registry id).record_owner_by_session_id id)
      (release_active-IsSound limits registry id s)

added-IsSound :
    (limits : SessionLimits) (registry : Registry) (id owner : String) (output most : ℕ)
    → no_slot limits registry owner most
        || (no_record limits registry owner || no_output limits registry owner output)
      ≡ false
    → IsSound limits registry
    → IsSound limits
        (set_output (add_record (add_active registry id owner) id owner) id owner output)
unfolding add_active add_record set
added-IsSound limits registry id owner output most fits s =
    set_output-IsSound limits (add_record (add_active registry id owner) id owner) id owner output
      (ground (arith, fits, length-delete registry.slot_owner_by_session_id id))
      (ground (arith, fits, length-delete registry.record_owner_by_session_id id))
      (ground (arith, fits)) s.distinct s.total

-- If the numbers of active sessions and of records and the retained output are within the limits,
-- and the retained output is the sum of the sessions' parts, then that is so after `reserve`, whether
-- it reserves or refuses.
pub reserve-IsSound :
    (limits : SessionLimits) (registry : Registry) (id owner : String)
    (output max_sessions_per_owner : ℕ)
    → IsSound limits registry
    → IsSound limits (reserve_for limits registry id owner output max_sessions_per_owner).0
unfolding reserve_for
reserve-IsSound limits registry id owner output most s =
    elim (Bool-cases (
      no_slot limits registry owner most
      || (no_record limits registry owner || no_output limits registry owner output))) [
        | inl over ↦ rw over s
        | inr fits ↦ rw fits (added-IsSound limits registry id owner output most fits s)
      ]
