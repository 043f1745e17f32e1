-- ===== src/Journal/Examples.antt =====
-- The theorems on the output journal at two short chunks (src/daemon/storage.ts and
-- journal-reader.ts).
use Prim.Native.String.{◌++◌ as str_append}
use opencode_pty.Prelude.{ℕ, String, true, none, some, [], ◌∷◌, All, drop, ◌≡◌, refl, arith}
use opencode_pty.Session.{OutputChunk, SessionRecord}
use opencode_pty.Supervisor.Examples.{session}
use opencode_pty.Journal.Bytes.{byte_length}
use opencode_pty.Journal.Segments.{Journal, append_output, read_output, joined}
use opencode_pty.Journal.Append.{Chain, IsJournal}
use opencode_pty.Journal.AppendRun.{append_output-read}
use opencode_pty.Journal.Retain.{Retained, trim_output}
use opencode_pty.Journal.Trim.{IsTrimmed, trim_output-IsTrimmed}
use opencode_pty.Journal.Lines.{number_lines, ends_with_newline, split_lines, output_lines}
use opencode_pty.Journal.Located.{Located, output_lines-Located}
use opencode_pty.Journal.Paging.{read_all, read_all-drop}
use opencode_pty.Journal.Reconcile.{reconcile_session, same_journal_state}
use opencode_pty.Journal.Reconciled.{IsJournalOf, IsReconciled, reconcile_session-IsReconciled}

abbrev chunk : ℕ → ℕ → String → OutputChunk
chunk first next text = record {
  start_sequence = first;
  end_sequence = next;
  timestamp = "2026-01-01T00:00:00.000Z";
  text = text;
}

abbrev one_chunk : Journal
one_chunk = record { files = chunk 0 3 "ab\n" ∷ []; tail = some (chunk 0 3 "ab\n") }

one_chunk-IsJournal : IsJournal 0 3 one_chunk
unfolding byte_length
one_chunk-IsJournal = record { chain = (refl, (refl, omega arith), refl); tail_last = refl }

more : Chain 3 (chunk 3 5 "λ" ∷ []) 5
unfolding byte_length
more = (refl, (refl, omega arith), refl)

append_output-read_example :
    IsJournal 0 5 (append_output one_chunk (chunk 3 5 "λ" ∷ []))
    × (read_output (append_output one_chunk (chunk 3 5 "λ" ∷ [])).files
        ≡ some (str_append (joined one_chunk.files) (joined (chunk 3 5 "λ" ∷ []))))
append_output-read_example =
    append_output-read 0 3 one_chunk (chunk 3 5 "λ" ∷ []) 5 one_chunk-IsJournal more

-- Two segments, as after a restart.
abbrev two_chunks : Journal
two_chunks = record { files = chunk 0 3 "ab\n" ∷ chunk 3 5 "λ" ∷ []; tail = none }

two_chunks-IsJournal : IsJournal 0 5 two_chunks
unfolding byte_length
two_chunks-IsJournal = record {
  chain = (refl, (refl, omega arith), (refl, (refl, omega arith), refl));
  tail_last = tt;
}

trim_output-IsTrimmed_example :
    (journal : Journal) × (answer : Retained) × (trim_output 2 two_chunks ≡ some (journal, answer))
    × IsTrimmed 2 5 two_chunks.files journal answer
trim_output-IsTrimmed_example = trim_output-IsTrimmed 2 0 5 two_chunks two_chunks-IsJournal refl

output_lines-Located_example : All (Located "ab\nλc\n" 10) (output_lines "ab\nλc\n" 10)
output_lines-Located_example = output_lines-Located "ab\nλc\n" 10

abbrev same_text : String → String
same_text text = text

read_all-drop_example :
    read_all 3 (output_lines "a\nb\nc" 0) 0 2 ≡ drop 0 (output_lines "a\nb\nc" 0)
unfolding output_lines number_lines ends_with_newline split_lines byte_length
read_all-drop_example = read_all-drop 3 (output_lines "a\nb\nc" 0) 0 2 (omega arith) (ground arith)

-- Tests.
lines_of :
    output_lines "ab\nλc\n" 10
    ≡ record { line_number = 1; sequence = 10; text = "ab" }
      ∷ record { line_number = 2; sequence = 13; text = "λc" }
      ∷ []
unfolding output_lines number_lines ends_with_newline split_lines byte_length
lines_of = refl

-- A session whose record is behind its journal in all counters but the cursor.
-- The session was stored before its last chunk was.
abbrev stale : SessionRecord
stale = record session { next_sequence = 3 }

reconcile_session-IsReconciled_example :
    IsReconciled stale (reconcile_session stale two_chunks.files) two_chunks.files 0 5
    × (same_journal_state
          (reconcile_session stale two_chunks.files)
          (reconcile_session (reconcile_session stale two_chunks.files) two_chunks.files)
        ≡ true)
reconcile_session-IsReconciled_example =
    reconcile_session-IsReconciled stale two_chunks.files 0 5 refl
      (IsJournalOf.chained two_chunks-IsJournal.chain)
