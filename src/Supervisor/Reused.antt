-- ===== src/Supervisor/Reused.antt =====
-- Which session `idempotentSession` of src/daemon/supervisor.ts gives back.
use opencode_pty.Prelude.{
  String, str_eq, eq_iff, true, ◌&&◌, Option, none, some, or_else, get_or_default, List, [], ◌∷◌,
  ◌≡◌, inl, inr, refl, arith, Bool-cases,
}
use opencode_pty.Session.{SessionRecord, EnvironmentProfile}
use opencode_pty.Supervisor.Reuse.{
  SpawnRequest, SpawnHost, canonical_workdir, same_text, is_reusable, Search, in_workdir,
  in_project, find_session, requested_profile, same_command, Reuse, compare_session, reuse_found,
  has_key, idempotent_session,
}

-- The record is one of these.
pub data IsListed (r : SessionRecord) : List SessionRecord → Type 0 where
  first : {rest : List SessionRecord} → IsListed r (r ∷ rest)
  later : {x : SessionRecord} {rest : List SessionRecord} → IsListed r rest → IsListed r (x ∷ rest)

-- The record is of the same owner and directories, and has the same key.
pub record IsMatch (host : SpawnHost) (request : SpawnRequest) (r : SessionRecord) : Type 0 where
  pub reusable : is_reusable request r ≡ true
  pub project :
      canonical_workdir host (or_else request.owner_project_directory request.options.workdir) none
      ≡ some r.owner_project_directory
  pub capability_hash : r.owner_capability_hash ≡ get_or_default request.owner_capability_hash ""
  pub workdir :
      canonical_workdir host request.options.workdir request.owner_project_directory
      ≡ some r.workdir
  pub key : r.idempotency_key ≡ request.options.idempotency_key

same_text-eq : (a b : Option String) → same_text a b ≡ true → a ≡ b
same_text-eq none none h = refl
same_text-eq none (some b) h = ground (arith, h)
same_text-eq (some a) none h = ground (arith, h)
same_text-eq (some a) (some b) h = let same : a ≡ b = (eq_iff a b).0 h in rw same refl

-- What holds of the record that a search finds.
data Finds (P : SessionRecord → Type 0) : Search → Type 0 where
  by_error : Finds P Search.thrown
  nothing : Finds P Search.absent
  one : {r : SessionRecord} → P r → Finds P (Search.found r)

Finds-map :
    {P Q : SessionRecord → Type 0} {search : Search}
    → Finds P search
    → ((r : SessionRecord) → P r → Q r)
    → Finds Q search
Finds-map Finds.by_error h = Finds.by_error
Finds-map Finds.nothing h = Finds.nothing
Finds-map (Finds.one {r = r} p) h = Finds.one (h r p)

module _ (host : SpawnHost) (request : SpawnRequest) (r : SessionRecord) where
  in_workdir-Finds :
      {P : SessionRecord → Type 0} {rest : Search} (workdir : Option String)
      → canonical_workdir host request.options.workdir request.owner_project_directory ≡ workdir
      → ((canonical_workdir host request.options.workdir request.owner_project_directory
            ≡ some r.workdir)
          → r.idempotency_key ≡ request.options.idempotency_key
          → P r)
      → Finds P rest
      → Finds P (in_workdir request r workdir rest)
  in_workdir-Finds none e h found = Finds.by_error
  in_workdir-Finds (some workdir) e h found =
      let key = request.options.idempotency_key in
      elim (Bool-cases (str_eq r.workdir workdir && same_text r.idempotency_key key)) [
        | inr n ↦ rw n found
        | inl t ↦
            let same : str_eq r.workdir workdir ≡ true = ground (arith, t) in
            let same_key : same_text r.idempotency_key key ≡ true = ground (arith, t) in
            rw t (
              Finds.one (
                h (rw ((eq_iff r.workdir workdir).0 same) e)
                  (same_text-eq r.idempotency_key key same_key)))
      ]

  in_project-Finds :
      {P : SessionRecord → Type 0} {rest : Search} (directory : Option String)
      → canonical_workdir host
          (or_else request.owner_project_directory request.options.workdir)
          none
        ≡ directory
      → is_reusable request r ≡ true
      → (IsMatch host request r → P r)
      → Finds P rest
      → Finds P (in_project host request r directory rest)
  in_project-Finds none e reusable h found = Finds.by_error
  in_project-Finds (some directory) e reusable h found =
      let hash = get_or_default request.owner_capability_hash "" in
      let workdir =
        canonical_workdir host request.options.workdir request.owner_project_directory in
      elim (Bool-cases
        (str_eq r.owner_project_directory directory && str_eq r.owner_capability_hash hash)) [
          | inr n ↦ rw n found
          | inl t ↦
              let same : str_eq r.owner_project_directory directory ≡ true = ground (arith, t) in
              let same_hash : str_eq r.owner_capability_hash hash ≡ true = ground (arith, t) in
              rw t (
                in_workdir-Finds workdir refl
                  (λ there key. h (record {
                    reusable = reusable;
                    project = rw ((eq_iff r.owner_project_directory directory).0 same) e;
                    capability_hash = (eq_iff r.owner_capability_hash hash).0 same_hash;
                    workdir = there;
                    key = key;
                  }))
                  found)
        ]

find_session-Finds :
    (host : SpawnHost) (request : SpawnRequest) (records : List SessionRecord)
    → Finds (λ r. IsListed r records × IsMatch host request r) (find_session host request records)
unfolding find_session
find_session-Finds host request [] = Finds.nothing
find_session-Finds host request (r ∷ records) =
    let rest =
      Finds-map (find_session-Finds host request records) λ x p. (IsListed.later p.0, p.1) in
    elim (Bool-cases (is_reusable request r)) [
      | inr n ↦ rw n rest
      | inl reusable ↦ rw reusable (
          in_project-Finds host request r
            (canonical_workdir host
              (or_else request.owner_project_directory request.options.workdir) none)
            refl reusable (λ m. (IsListed.first, m)) rest)
    ]

-- The command, the arguments, the environment, the name and the time limit are the same.
pub record IsSame (host : SpawnHost) (request : SpawnRequest) (r : SessionRecord) : Type 0 where
  pub profile : EnvironmentProfile
  pub is_requested : requested_profile host request.options ≡ some profile
  pub same : same_command request.options profile r ≡ true

module _ (host : SpawnHost) (request : SpawnRequest) where
  compare_session-IsSame :
      (x : SessionRecord) (profile : Option EnvironmentProfile) (r : SessionRecord)
      → requested_profile host request.options ≡ profile
      → compare_session request.options x profile ≡ Reuse.existing r
      → (r ≡ x) × IsSame host request x
  compare_session-IsSame x none r p e = ground (arith, e)
  compare_session-IsSame x (some profile) r p e =
      elim (Bool-cases (same_command request.options profile x)) [
        | inl t ↦ (ground (arith, t, e), record { profile = profile; is_requested = p; same = t })
        | inr n ↦ ground (arith, n, e)
      ]

  reuse_found-IsSame :
      {P : SessionRecord → Type 0} {search : Search} (r : SessionRecord)
      → Finds P search
      → reuse_found host request search ≡ Reuse.existing r
      → P r × IsSame host request r
  reuse_found-IsSame r Finds.by_error e = ground (arith, e)
  reuse_found-IsSame r Finds.nothing e = ground (arith, e)
  reuse_found-IsSame r (Finds.one {r = x} p) e =
      let (same, found) =
        compare_session-IsSame x (requested_profile host request.options) r refl e in
      rw same (p, found)

-- A spawn request gives back a session only if it has a key that is not empty and the session is
-- one of the records, active, without a pending cleanup, of the same parent session, project,
-- capability hash, directory and key, and has the command, the arguments, the kind and the
-- fingerprint of the environment, the name and the time limit that the request asks for.
pub idempotent_session-IsReused :
    (host : SpawnHost) (request : SpawnRequest) (records : List SessionRecord) (r : SessionRecord)
    → idempotent_session host request records ≡ Reuse.existing r
    → (has_key request.options.idempotency_key ≡ true)
      × IsListed r records
      × IsMatch host request r
      × IsSame host request r
unfolding idempotent_session
idempotent_session-IsReused host request records r e =
    elim (Bool-cases (has_key request.options.idempotency_key)) [
      | inr n ↦ ground (arith, n, e)
      | inl k ↦
          let found : reuse_found host request (find_session host request records)
              ≡ Reuse.existing r =
            ground (arith, k, e) in
          let ((listed, match_of), same) =
            reuse_found-IsSame host request r (find_session-Finds host request records) found in
          (k, listed, match_of, same)
    ]
