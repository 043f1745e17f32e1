-- ===== src/Journal/Trim.antt =====
-- What `trimOutput` of src/daemon/storage.ts keeps.
use opencode_pty.Prelude.{
  ℕ, ◌+◌, ◌-◌, ◌≤◌, ◌<◌, true, false, none, some, List, [], ◌∷◌, ◌++◌, All, ltb, ◌≡◌, refl, arith,
  inl, inr, Bool-cases, if◌then◌else◌,
}
use opencode_pty.Session.{OutputChunk}
use opencode_pty.Journal.Segments.{Journal, size}
use opencode_pty.Journal.Retain.{
  total_bytes, Split, drop_oldest, first_start, is_empty, Retained, retained_output, retained_of,
  remove_file, remove_files, trim_output,
}
use opencode_pty.Journal.Append.{Chain, Chain-le, IsJournal}
use opencode_pty.Journal.AppendRun.{Chain-read}

total_bytes-Chain :
    (total first : ℕ) (files : List OutputChunk) (next : ℕ)
    → Chain first files next
    → total_bytes total files + first ≡ total + next
unfolding total_bytes
total_bytes-Chain total first [] next c = ground arith
total_bytes-Chain total first (f ∷ files) next c = ground (
  arith,
  total_bytes-Chain (total + f.end_sequence - f.start_sequence) f.end_sequence files next c.2,
  Chain-le f.end_sequence files next c.2,
)

-- The bytes from the segment's start on are more than the bound.
abbrev pub IsExcess : ℕ → ℕ → OutputChunk → Type 0
IsExcess max_bytes next chunk = chunk.start_sequence + max_bytes < next

record IsSplit (max_bytes first next : ℕ) (files : List OutputChunk) (split : Split) : Type 0 where
  pub parts : split.dropped ++ split.retained ≡ files
  pub chain : Chain split.first_retained_sequence split.retained next
  pub bytes : split.retained_bytes + split.first_retained_sequence ≡ next
  pub bound : split.retained_bytes ≤ max_bytes
  pub start :
      first_start split.retained split.first_retained_sequence ≡ split.first_retained_sequence
  pub excess : All (IsExcess max_bytes next) split.dropped

drop_oldest-IsSplit :
    (max_bytes bytes first : ℕ) (files : List OutputChunk) (next : ℕ)
    → Chain first files next
    → bytes + first ≡ next
    → IsSplit max_bytes first next files (drop_oldest max_bytes bytes first files)
unfolding drop_oldest
drop_oldest-IsSplit max_bytes bytes first [] next c b = record {
  parts = refl;
  chain = c;
  bytes = b;
  bound = ground arith;
  start = refl;
  excess = tt;
}
drop_oldest-IsSplit max_bytes bytes first (f ∷ files) next c b =
    elim (Bool-cases (ltb max_bytes bytes)) [
      | inl more ↦
          let s =
            drop_oldest-IsSplit max_bytes (bytes - size f) f.end_sequence files next c.2
              (ground (arith, Chain-le f.end_sequence files next c.2)) in
          ground (arith, s)
      | inr enough ↦ ground arith
    ]

remove_files-prefix :
    (dropped retained : List OutputChunk) → remove_files dropped (dropped ++ retained) ≡ retained
unfolding remove_files remove_file
remove_files-prefix [] retained = refl
remove_files-prefix (c ∷ dropped) retained = ground (arith, remove_files-prefix dropped retained)

-- The journal and the answer after `trimOutput`.
pub record IsTrimmed (max_bytes next : ℕ) (files : List OutputChunk) (journal : Journal)
    (answer : Retained) : Type 0 where
  pub stays : IsJournal answer.first_retained_sequence next journal
  pub parts : answer.chunks ++ journal.files ≡ files
  pub bytes : answer.output_bytes + answer.first_retained_sequence ≡ next
  pub bound : answer.output_bytes ≤ max_bytes
  pub excess : All (IsExcess max_bytes next) answer.chunks
  pub truncated : answer.output_truncated ≡ (if is_empty answer.chunks then false else true)

-- Trimming a continuous journal succeeds, if an empty journal starts at 0. The journal left is
-- continuous from the answer's first sequence to the same end, the removed and the left segments are
-- those from before in their order, the answer's bytes are those left and are within the bound, and
-- from the start of every removed segment on there were more bytes than the bound.
pub trim_output-IsTrimmed :
    (max_bytes first next : ℕ) (journal : Journal)
    → IsJournal first next journal
    → first_start journal.files 0 ≡ first
    → (journal' : Journal) × (answer : Retained) × (trim_output max_bytes journal
        ≡ some (journal', answer))
      × IsTrimmed max_bytes next journal.files journal' answer
unfolding trim_output retained_output
trim_output-IsTrimmed max_bytes first next journal j h =
    let split = drop_oldest max_bytes (total_bytes 0 journal.files) first journal.files in
    let s =
      drop_oldest-IsSplit max_bytes (total_bytes 0 journal.files) first journal.files next j.chain
        (ground (arith, total_bytes-Chain 0 first journal.files next j.chain)) in
    let left : Journal = record { files = split.retained; tail = none } in
    (
      left,
      retained_of split,
      ground (
        arith,
        h,
        Chain-read first journal.files next j.chain,
        s.parts,
        remove_files-prefix split.dropped split.retained,
      ),
      record {
        stays = record { chain = ground (arith, s.start, s.chain); tail_last = tt };
        parts = s.parts;
        bytes = ground (arith, s.start, s.bytes);
        bound = s.bound;
        excess = s.excess;
        truncated = refl;
      },
    )
