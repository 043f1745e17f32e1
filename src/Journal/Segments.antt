-- ===== src/Journal/Segments.antt =====
-- The segment files of `DaemonStorage` (src/daemon/storage.ts): writing, reading, and the checks.
use Prim.Native.String.{◌++◌ as str_append}
use opencode_pty.Prelude.{
  ℕ, ◌+◌, ◌-◌, ◌*◌, String, Bool, true, ◌&&◌, Option, none, some, List, [], ◌∷◌, ltb, leb, ◌==◌,
  if◌then◌else◌,
}
use opencode_pty.Session.{OutputChunk}
use opencode_pty.Journal.Bytes.{byte_length}

abbrev pub output_segment_bytes : ℕ
output_segment_bytes = 64 * 1024

-- A session's directory of segments, and its entry of `outputTails`.
pub record Journal : Type 0 where
  pub files : List OutputChunk
  pub tail : Option OutputChunk

-- `writeAtomic` to the file that is named by the start sequence: the file is replaced or added.
unfoldable pub write_file : OutputChunk → List OutputChunk → List OutputChunk
write_file chunk [] = chunk ∷ []
write_file chunk (file ∷ files) =
    let rest = write_file chunk files in
    if chunk.start_sequence == file.start_sequence
    then chunk ∷ files
    else if ltb chunk.start_sequence file.start_sequence
    then chunk ∷ file ∷ files
    else file ∷ rest

abbrev pub size : OutputChunk → ℕ
size chunk = chunk.end_sequence - chunk.start_sequence

-- The checks of `readOutputChunk` on a parsed file, whose name is made of its start sequence.
abbrev pub valid_chunk : OutputChunk → Bool
valid_chunk chunk =
    leb chunk.start_sequence chunk.end_sequence
    && (ltb 0 (byte_length chunk.text) && (size chunk == byte_length chunk.text))

-- The loop of `readOutputChunks` over neighbours.
unfoldable pub is_continuous : List OutputChunk → Bool
is_continuous [] = true
is_continuous (chunk ∷ []) = true
is_continuous (chunk ∷ next ∷ rest) =
    (chunk.end_sequence == next.start_sequence) && is_continuous (next ∷ rest)

unfoldable pub all_valid : List OutputChunk → Bool
all_valid [] = true
all_valid (chunk ∷ rest) = valid_chunk chunk && all_valid rest

-- `none` is an `InvalidJournalError`.
unfoldable pub read_output_chunks : List OutputChunk → Option (List OutputChunk)
read_output_chunks files = if all_valid files && is_continuous files then some files else none

unfoldable pub joined : List OutputChunk → String
joined [] = ""
joined (chunk ∷ rest) = str_append chunk.text (joined rest)

abbrev joined_option : Option (List OutputChunk) → Option String
joined_option none = none
joined_option (some chunks) = some (joined chunks)

unfoldable pub read_output : List OutputChunk → Option String
read_output files = joined_option (read_output_chunks files)

-- One turn of the loop of `appendOutput`.
abbrev pub grown : OutputChunk → OutputChunk → OutputChunk
grown previous chunk = record previous {
  end_sequence = chunk.end_sequence;
  text = str_append previous.text chunk.text;
}

abbrev pub fits : OutputChunk → OutputChunk → Bool
fits previous chunk =
    (previous.end_sequence == chunk.start_sequence)
    && leb (size previous + size chunk) output_segment_bytes

unfoldable pub append_chunk : Journal → OutputChunk → Journal
append_chunk journal chunk = elim journal.tail [
  | none ↦ record { files = write_file chunk journal.files; tail = some chunk }
  | some previous ↦
      if fits previous chunk
      then record {
        files = write_file (grown previous chunk) journal.files;
        tail = some (grown previous chunk);
      }
      else record {
        files = write_file chunk journal.files;
        tail = if ltb previous.end_sequence chunk.end_sequence then some chunk else some previous;
      }
]

unfoldable pub append_output : Journal → List OutputChunk → Journal
append_output journal [] = journal
append_output journal (chunk ∷ chunks) = append_output (append_chunk journal chunk) chunks
