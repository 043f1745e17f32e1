-- ===== src/Journal/Reconcile.antt =====
-- `reconcileSession` and `sameJournalState` of src/daemon/storage.ts: the counters of a session record
-- from its journal, when the session is loaded. The journal version is left out: it is always 2.
use opencode_pty.Prelude.{
  ℕ, ◌-◌, String, Bool, not, ◌&&◌, List, [], ◌∷◌, length, ltb, ◌==◌, bool_eq, if◌then◌else◌,
}
use opencode_pty.Session.{SessionRecord, OutputChunk, ExecutionMode}
use opencode_pty.Journal.Bytes.{byte_length}
use opencode_pty.Journal.Segments.{joined}
use opencode_pty.Journal.Retain.{first_start}
use opencode_pty.Journal.Lines.{split_lines, ends_with_newline, is_empty_text}

-- `chunks.at(-1)?.endSequence ?? sequence`
abbrev pub last_end : List OutputChunk → ℕ → ℕ
last_end [] sequence = sequence
last_end (chunk ∷ []) sequence = chunk.end_sequence
last_end (chunk ∷ next ∷ rest) sequence = last_end (next ∷ rest) sequence

abbrev pub larger : ℕ → ℕ → ℕ
larger a b = if ltb a b then b else a

-- `output ? output.split('\n').length - Number(output.endsWith('\n')) : 0`
abbrev pub counted_lines : String → ℕ
counted_lines output =
    if is_empty_text output
    then 0
    else if ends_with_newline output
    then length (split_lines output) - 1
    else length (split_lines output)

-- The record with the counters of the journal, the cursor and the first sequence.
abbrev pub counted : SessionRecord → List OutputChunk → ℕ → ℕ → SessionRecord
counted r chunks next first =
    let output = joined chunks in
    record r {
      next_sequence = next;
      first_retained_sequence = first;
      output_bytes = byte_length output;
      output_truncated = ltb 0 first;
      line_count = counted_lines output;
      output_has_partial_line = not (is_empty_text output) && not (ends_with_newline output);
    }

abbrev pub reconciled : SessionRecord → List OutputChunk → SessionRecord
reconciled r chunks =
    let first = first_start chunks r.next_sequence in
    counted r chunks (larger r.next_sequence (last_end chunks first)) first

abbrev pub by_mode : ExecutionMode → SessionRecord → List OutputChunk → SessionRecord
by_mode ExecutionMode.exec r chunks = r
by_mode ExecutionMode.pty r chunks = reconciled r chunks

unfoldable pub reconcile_session : SessionRecord → List OutputChunk → SessionRecord
reconcile_session r chunks = by_mode r.mode r chunks

unfoldable pub same_journal_state : SessionRecord → SessionRecord → Bool
same_journal_state left right =
    (left.next_sequence == right.next_sequence)
    && ((left.first_retained_sequence == right.first_retained_sequence)
        && ((left.output_bytes == right.output_bytes)
            && (bool_eq left.output_truncated right.output_truncated
                && ((left.line_count == right.line_count)
                    && bool_eq left.output_has_partial_line right.output_has_partial_line))))
