-- ===== src/Registry/Released.antt =====
-- What `release` of src/daemon/session-registry.ts takes back.
use opencode_pty.Prelude.{
  ℕ, String, str_eq, eq_iff, Bool, true, false, not, Option, none, some, List, [], ◌∷◌, ◌==◌,
  if◌then◌else◌, ◌≡◌, ◌∙◌, ap, refl, arith,
}
use opencode_pty.Registry.Maps.{Map, get, count_of, has, remove, set_of, put_set}
use opencode_pty.Registry.MapLaws.{get-delete, get-set}
use opencode_pty.Registry.State.{Registry}
use opencode_pty.Registry.Slots.{
  owner_of, release_slot, release_active, put_count, set_output, release_record, release,
}

pub has-remove :
    (xs : List String) (x y : String)
    → has (remove xs x) y ≡ (if str_eq x y then false else has xs y)
unfolding has remove
has-remove [] x y = ground arith
has-remove (z ∷ zs) x y = ground (arith, eq_iff z x, eq_iff z y, eq_iff x y, has-remove zs x y)

get-put_set :
    (entries : Map (List String)) (key : String) (xs : List String)
    → set_of (put_set entries key xs) key ≡ xs
get-put_set entries key [] = ground (arith, get-delete entries key key, eq_iff key key)
get-put_set entries key (x ∷ xs) = ground (arith, get-set entries key key (x ∷ xs), eq_iff key key)

count-put :
    (entries : Map ℕ) (key other : String) (n : ℕ)
    → count_of (put_count entries key n) other
      ≡ (if str_eq key other then n else count_of entries other)
count-put entries key other n =
    ground (arith, get-delete entries key other, get-set entries key other n)

-- The set of the owner does not have the id; the session of the owner has no bytes.
abbrev pub left_out : Map (List String) → String → Option String → Bool
left_out sets id none = true
left_out sets id (some owner) = not (has (set_of sets owner) id)

abbrev pub no_bytes : Map ℕ → String → Option String → Bool
no_bytes bytes id none = true
no_bytes bytes id (some owner) = count_of bytes id == 0

-- The session has no slot, no record and no output in the registry, and other sessions keep theirs.
pub record Freed (id : String) (before after : Registry) : Type 0 where
  pub no_slot : owner_of after.slot_owner_by_session_id id ≡ none
  pub no_record : owner_of after.record_owner_by_session_id id ≡ none
  pub not_in_slots :
      left_out after.owner_slots id (owner_of before.slot_owner_by_session_id id) ≡ true
  pub not_in_records :
      left_out after.records_by_owner id (owner_of before.record_owner_by_session_id id) ≡ true
  pub no_output :
      no_bytes after.output_by_session_id id (owner_of before.record_owner_by_session_id id) ≡ true
  pub other_slot :
      (x : String)
      → str_eq id x ≡ false
      → get after.slot_owner_by_session_id x ≡ get before.slot_owner_by_session_id x
  pub other_owner :
      (x : String)
      → str_eq id x ≡ false
      → get after.record_owner_by_session_id x ≡ get before.record_owner_by_session_id x
  pub other_output :
      (x : String)
      → str_eq id x ≡ false
      → count_of after.output_by_session_id x ≡ count_of before.output_by_session_id x

record SlotFreed (id : String) (o : Option String) (before after : Registry) : Type 0 where
  no_slot : owner_of after.slot_owner_by_session_id id ≡ none
  not_in_slots : left_out after.owner_slots id o ≡ true
  other_slot :
      (x : String)
      → str_eq id x ≡ false
      → get after.slot_owner_by_session_id x ≡ get before.slot_owner_by_session_id x

release_slot-SlotFreed :
    (id : String) (r : Registry) (o : Option String)
    → owner_of r.slot_owner_by_session_id id ≡ o
    → SlotFreed id o r (release_slot r id o)
release_slot-SlotFreed id r none e = record {
  no_slot = e;
  not_in_slots = refl;
  other_slot = λ x h. refl;
}
release_slot-SlotFreed id r (some owner) e = record {
  no_slot = ground (arith, get-delete r.slot_owner_by_session_id id id, eq_iff id id);
  not_in_slots = ground (
    arith,
    get-put_set r.owner_slots owner (remove (set_of r.owner_slots owner) id),
    has-remove (set_of r.owner_slots owner) id id,
    eq_iff id id,
  );
  other_slot = λ x h. ground (arith, h, get-delete r.slot_owner_by_session_id id x);
}

record RecordFreed (id : String) (o : Option String) (before after : Registry) : Type 0 where
  no_record : owner_of after.record_owner_by_session_id id ≡ none
  not_in_records : left_out after.records_by_owner id o ≡ true
  no_output : no_bytes after.output_by_session_id id o ≡ true
  other_owner :
      (x : String)
      → str_eq id x ≡ false
      → get after.record_owner_by_session_id x ≡ get before.record_owner_by_session_id x
  other_output :
      (x : String)
      → str_eq id x ≡ false
      → count_of after.output_by_session_id x ≡ count_of before.output_by_session_id x
  same_slots : after.owner_slots ≡ before.owner_slots
  same_slot : after.slot_owner_by_session_id ≡ before.slot_owner_by_session_id

release_record-RecordFreed :
    (id : String) (r : Registry) (o : Option String)
    → owner_of r.record_owner_by_session_id id ≡ o
    → RecordFreed id o r (release_record r id o)
unfolding set_output
release_record-RecordFreed id r none e = record {
  no_record = e;
  not_in_records = refl;
  no_output = refl;
  other_owner = λ x h. refl;
  other_output = λ x h. refl;
  same_slots = refl;
  same_slot = refl;
}
release_record-RecordFreed id r (some owner) e = record {
  no_record = ground (arith, get-delete r.record_owner_by_session_id id id, eq_iff id id);
  not_in_records = ground (
    arith,
    get-put_set r.records_by_owner owner (remove (set_of r.records_by_owner owner) id),
    has-remove (set_of r.records_by_owner owner) id id,
    eq_iff id id,
  );
  no_output = ground (arith, count-put r.output_by_session_id id id 0, eq_iff id id);
  other_owner = λ x h. ground (arith, h, get-delete r.record_owner_by_session_id id x);
  other_output = λ x h. ground (arith, h, count-put r.output_by_session_id id x 0);
  same_slots = refl;
  same_slot = refl;
}

release_slot-records :
    (id : String) (r : Registry) (o : Option String)
    → ((release_slot r id o).record_owner_by_session_id ≡ r.record_owner_by_session_id)
      × ((release_slot r id o).output_by_session_id ≡ r.output_by_session_id)
release_slot-records id r none = (refl, refl)
release_slot-records id r (some owner) = (refl, refl)

pub release-Freed : (id : String) (r : Registry) → Freed id r (release r id)
unfolding release release_active
release-Freed id r =
    let o : Option String = owner_of r.slot_owner_by_session_id id in
    let a : Registry = release_slot r id o in
    let slot : SlotFreed id o r a = release_slot-SlotFreed id r o refl in
    let (owners, bytes) = release_slot-records id r o in
    let p : Option String = owner_of r.record_owner_by_session_id id in
    let same : owner_of a.record_owner_by_session_id id ≡ p =
      ap (λ (m : Map String). owner_of m id) owners in
    let freed : RecordFreed id p a (release_record a id p) =
      release_record-RecordFreed id a p same in
    rw same (record {
      no_slot = ap (λ (m : Map String). owner_of m id) freed.same_slot ∙ slot.no_slot;
      no_record = freed.no_record;
      not_in_slots =
          ap (λ (m : Map (List String)). left_out m id o) freed.same_slots ∙ slot.not_in_slots;
      not_in_records = freed.not_in_records;
      no_output = freed.no_output;
      other_slot = λ x h. ap (λ (m : Map String). get m x) freed.same_slot ∙ slot.other_slot x h;
      other_owner = λ x h. freed.other_owner x h ∙ ap (λ (m : Map String). get m x) owners;
      other_output = λ x h. freed.other_output x h ∙ ap (λ (m : Map ℕ). count_of m x) bytes;
    })
