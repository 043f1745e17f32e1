-- ===== src/Journal/Retain.antt =====
-- `retainedOutput`, `trimOutput` and `discardOutputBefore` of `DaemonStorage`
-- (src/daemon/storage.ts): the oldest segments go until the bound holds.
use opencode_pty.Prelude.{
  ℕ, ◌+◌, ◌-◌, Bool, true, false, Option, none, some, List, [], ◌∷◌, ltb, leb, ◌==◌, if◌then◌else◌,
}
use opencode_pty.Session.{OutputChunk}
use opencode_pty.Journal.Segments.{Journal, size, read_output_chunks}

unfoldable pub total_bytes : ℕ → List OutputChunk → ℕ
total_bytes total [] = total
total_bytes total (chunk ∷ rest) =
    total_bytes (total + chunk.end_sequence - chunk.start_sequence) rest

-- The state of the loop when it ends: the segments before and after `first`, and its variables.
pub record Split : Type 0 where
  pub dropped : List OutputChunk
  pub retained : List OutputChunk
  pub retained_bytes : ℕ
  pub first_retained_sequence : ℕ

unfoldable pub drop_oldest : ℕ → ℕ → ℕ → List OutputChunk → Split
drop_oldest max_bytes bytes sequence [] = record {
  dropped = [];
  retained = [];
  retained_bytes = bytes;
  first_retained_sequence = sequence;
}
drop_oldest max_bytes bytes sequence (chunk ∷ rest) =
    let others = drop_oldest max_bytes (bytes - size chunk) chunk.end_sequence rest in
    if ltb max_bytes bytes then record others { dropped = chunk ∷ others.dropped } else record {
      dropped = [];
      retained = chunk ∷ rest;
      retained_bytes = bytes;
      first_retained_sequence = sequence;
    }

-- `chunks[0]?.startSequence ?? sequence`
abbrev pub first_start : List OutputChunk → ℕ → ℕ
first_start [] sequence = sequence
first_start (chunk ∷ rest) sequence = chunk.start_sequence

abbrev pub is_empty : List OutputChunk → Bool
is_empty [] = true
is_empty (chunk ∷ rest) = false

pub record Retained : Type 0 where
  pub chunks : List OutputChunk
  pub output_bytes : ℕ
  pub first_retained_sequence : ℕ
  pub output_truncated : Bool

abbrev pub retained_of : Split → Retained
retained_of split = record {
  chunks = split.dropped;
  output_bytes = split.retained_bytes;
  first_retained_sequence = first_start split.retained split.first_retained_sequence;
  output_truncated = if is_empty split.dropped then false else true;
}

abbrev pub retained_from : ℕ → Option (List OutputChunk) → Option Retained
retained_from max_bytes none = none
retained_from max_bytes (some chunks) =
    some (retained_of (drop_oldest max_bytes (total_bytes 0 chunks) (first_start chunks 0) chunks))

unfoldable pub retained_output : ℕ → List OutputChunk → Option Retained
retained_output max_bytes files = retained_from max_bytes (read_output_chunks files)

-- `rm` of the file that is named by the start sequence.
unfoldable pub remove_file : ℕ → List OutputChunk → List OutputChunk
remove_file start [] = []
remove_file start (file ∷ files) =
    if file.start_sequence == start then files else file ∷ remove_file start files

unfoldable pub remove_files : List OutputChunk → List OutputChunk → List OutputChunk
remove_files [] files = files
remove_files (chunk ∷ chunks) files = remove_files chunks (remove_file chunk.start_sequence files)

abbrev pub trimmed : Journal → Option Retained → Option (Journal × Retained)
trimmed journal none = none
trimmed journal (some retained) =
    some (record { files = remove_files retained.chunks journal.files; tail = none }, retained)

-- The answer leaves `chunks` out.
unfoldable pub trim_output : ℕ → Journal → Option (Journal × Retained)
trim_output max_bytes journal = trimmed journal (retained_output max_bytes journal.files)

unfoldable pub ended_by : ℕ → List OutputChunk → List OutputChunk
ended_by sequence [] = []
ended_by sequence (chunk ∷ rest) =
    let others = ended_by sequence rest in
    if leb chunk.end_sequence sequence then chunk ∷ others else others

abbrev pub discarded : ℕ → List OutputChunk → Option (List OutputChunk) → Option (List OutputChunk)
discarded sequence files none = none
discarded sequence files (some chunks) = some (remove_files (ended_by sequence chunks) files)

unfoldable pub discard_output_before : ℕ → List OutputChunk → Option (List OutputChunk)
discard_output_before sequence files = discarded sequence files (read_output_chunks files)
