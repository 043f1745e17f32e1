-- ===== src/Journal/Reconciled.antt =====
-- The counters that `reconcileSession` of src/daemon/storage.ts gives a session.
use opencode_pty.Prelude.{
  ℕ, ◌+◌, ◌≤◌, ◌⊎◌, not, ◌&&◌, String, Bool, true, false, List, [], ◌∷◌, ltb, ◌≡◌, refl, arith, inl,
  inr, Bool-cases, bool_eq, ◌==◌, ap, sym, ◌∙◌,
}
use opencode_pty.Session.{SessionRecord, OutputChunk, ExecutionMode}
use opencode_pty.Journal.Bytes.{byte_length, byte_length-append}
use opencode_pty.Journal.Segments.{joined}
use opencode_pty.Journal.Retain.{first_start}
use opencode_pty.Journal.Append.{Chain}
use opencode_pty.Journal.Lines.{line_count, is_empty_text, ends_with_newline}
use opencode_pty.Journal.LineCount.{split-last}
use opencode_pty.Journal.Reconcile.{
  last_end, larger, counted_lines, counted, reconciled, by_mode, reconcile_session,
  same_journal_state,
}

joined-bytes :
    (first : ℕ) (chunks : List OutputChunk) (next : ℕ)
    → Chain first chunks next
    → byte_length (joined chunks) + first ≡ next
unfolding joined byte_length
joined-bytes first [] next c = ground arith
joined-bytes first (chunk ∷ rest) next c = ground (
  arith,
  byte_length-append chunk.text (joined rest),
  joined-bytes chunk.end_sequence rest next c.2,
)

last-Chain :
    (first : ℕ) (chunk : OutputChunk) (rest : List OutputChunk) (next sequence : ℕ)
    → Chain first (chunk ∷ rest) next
    → last_end (chunk ∷ rest) sequence ≡ next
last-Chain first chunk [] next sequence c = c.2
last-Chain first chunk (chunk' ∷ rest) next sequence c =
    last-Chain chunk.end_sequence chunk' rest next sequence c.2

Chain-last_end :
    (first : ℕ) (chunks : List OutputChunk) (next : ℕ)
    → Chain first chunks next
    → last_end chunks first ≡ next
Chain-last_end first [] next c = c
Chain-last_end first (chunk ∷ rest) next c = last-Chain first chunk rest next first c

Chain-first :
    (first : ℕ) (chunks : List OutputChunk) (next : ℕ)
    → Chain first chunks next
    → first_start chunks next ≡ first
Chain-first first [] next c = ground arith
Chain-first first (chunk ∷ rest) next c = c.0

counted_lines-lem : (output : String) → counted_lines output ≡ line_count output
unfolding line_count
counted_lines-lem output = elim (Bool-cases (is_empty_text output)) [
  | inl e ↦ ground (arith, e)
  | inr n ↦ ground (arith, n, split-last output n)
]

-- The journal of a session with the cursor `next`: it is empty, and then starts and ends at the
-- cursor, or it is continuous from its first to its last sequence, wherever the cursor is.
pub data IsJournalOf (next first last : ℕ) : List OutputChunk → Type 0 where
  nothing : first ≡ next → last ≡ next → IsJournalOf next first last []
  chained :
      {chunk : OutputChunk} {rest : List OutputChunk}
      → Chain first (chunk ∷ rest) last
      → IsJournalOf next first last (chunk ∷ rest)

journal-Chain :
    (next first last : ℕ) (chunks : List OutputChunk)
    → IsJournalOf next first last chunks
    → Chain first chunks last
journal-Chain next first last [] (IsJournalOf.nothing e f) = e ∙ sym f
journal-Chain next first last (chunk ∷ rest) (IsJournalOf.chained c) = c

journal-first :
    (next first last : ℕ) (chunks : List OutputChunk)
    → IsJournalOf next first last chunks
    → first_start chunks next ≡ first
journal-first next first last [] (IsJournalOf.nothing e f) = sym e
journal-first next first last (chunk ∷ rest) (IsJournalOf.chained c) = c.0

-- The cursor after the journal has been looked at.
journal-next :
    (next first last : ℕ) (chunks : List OutputChunk)
    → IsJournalOf next first last chunks
    → larger next (last_end chunks (first_start chunks next)) ≡ larger next last
journal-next next first last chunks j = ground (
  arith,
  journal-first next first last chunks j,
  Chain-last_end first chunks last (journal-Chain next first last chunks j),
)

raised-IsJournalOf :
    (next first last : ℕ) (chunks : List OutputChunk)
    → IsJournalOf next first last chunks
    → IsJournalOf (larger next last) first last chunks
raised-IsJournalOf next first last [] (IsJournalOf.nothing e f) =
    IsJournalOf.nothing (ground (arith, e, f)) (ground (arith, e, f))
raised-IsJournalOf next first last (chunk ∷ rest) (IsJournalOf.chained c) = IsJournalOf.chained c

same_bool : (b : Bool) → bool_eq b b ≡ true
same_bool true = refl
same_bool false = refl

same_number : (n : ℕ) → (n == n) ≡ true
same_number n = ground arith

same_journal_state_refl : (r : SessionRecord) → same_journal_state r r ≡ true
unfolding same_journal_state
same_journal_state_refl r =
    ground (arith, same_bool r.output_truncated, same_bool r.output_has_partial_line)

reconciled_lem :
    (r : SessionRecord) (chunks : List OutputChunk) (first last : ℕ)
    → IsJournalOf r.next_sequence first last chunks
    → reconciled r chunks ≡ counted r chunks (larger r.next_sequence last) first
reconciled_lem r chunks first last j =
    ap
      (counted r chunks
        (larger r.next_sequence (last_end chunks (first_start chunks r.next_sequence))))
      (journal-first r.next_sequence first last chunks j)
    ∙ ap (λ n. counted r chunks n first) (journal-next r.next_sequence first last chunks j)

reconciled_twice :
    (r : SessionRecord) (chunks : List OutputChunk) (first last : ℕ)
    → IsJournalOf r.next_sequence first last chunks
    → reconciled (reconciled r chunks) chunks ≡ reconciled r chunks
reconciled_twice r chunks first last j =
    let next : ℕ = larger r.next_sequence last in
    let once = reconciled_lem r chunks first last j in
    let again : reconciled (counted r chunks next first) chunks
        ≡ counted r chunks (larger next last) first =
      reconciled_lem (counted r chunks next first) chunks first last
        (raised-IsJournalOf r.next_sequence first last chunks j) in
    let same : larger next last ≡ next = ground arith in
    ap (λ s. reconciled s chunks) once
    ∙ (again ∙ (ap (λ n. counted r chunks n first) same ∙ sym once))

reconcile_session_pty :
    (r : SessionRecord) (chunks : List OutputChunk)
    → r.mode ≡ ExecutionMode.pty
    → reconcile_session r chunks ≡ reconciled r chunks
unfolding reconcile_session
reconcile_session_pty r chunks m = ap (λ mode. by_mode mode r chunks) m

reconcile_session_twice :
    (r : SessionRecord) (chunks : List OutputChunk) (first last : ℕ)
    → r.mode ≡ ExecutionMode.pty
    → IsJournalOf r.next_sequence first last chunks
    → reconcile_session (reconcile_session r chunks) chunks ≡ reconcile_session r chunks
reconcile_session_twice r chunks first last m j =
    ap (λ s. reconcile_session s chunks) (reconcile_session_pty r chunks m)
    ∙ (reconcile_session_pty (reconciled r chunks) chunks m
        ∙ (reconciled_twice r chunks first last j ∙ sym (reconcile_session_pty r chunks m)))

-- The cursor is the larger of the old cursor and the journal's end, and the counters describe the
-- journal.
pub record IsReconciled (old r : SessionRecord) (chunks : List OutputChunk) (first last : ℕ)
    : Type 0 where
  pub not_lowered : old.next_sequence ≤ r.next_sequence
  pub covers : last ≤ r.next_sequence
  pub reached : (r.next_sequence ≡ old.next_sequence) ⊎ (r.next_sequence ≡ last)
  pub start : r.first_retained_sequence ≡ first
  pub bytes : r.output_bytes + first ≡ last
  pub lines : r.line_count ≡ line_count (joined chunks)
  pub partial_line :
      r.output_has_partial_line
      ≡ not (is_empty_text (joined chunks)) && not (ends_with_newline (joined chunks))
  pub truncated : r.output_truncated ≡ ltb 0 first

-- For a `pty` session whose journal is empty, or continuous from `first` to `last`, whether the
-- session's cursor lies before, at or after `last`: `reconcileSession` sets the cursor to the larger
-- of itself and `last`, the first sequence, the bytes, the number of lines and the mark of a partial
-- line to those of the journal, and the truncation mark to whether the journal starts after 0; doing
-- it again is seen by `sameJournalState` as no change.
pub reconcile_session-IsReconciled :
    (r : SessionRecord) (chunks : List OutputChunk) (first last : ℕ)
    → r.mode ≡ ExecutionMode.pty
    → IsJournalOf r.next_sequence first last chunks
    → IsReconciled r (reconcile_session r chunks) chunks first last
      × (same_journal_state
            (reconcile_session r chunks)
            (reconcile_session (reconcile_session r chunks) chunks)
          ≡ true)
reconcile_session-IsReconciled r chunks first last m j =
    let chain = journal-Chain r.next_sequence first last chunks j in
    let once : reconcile_session r chunks ≡ counted r chunks (larger r.next_sequence last) first =
      reconcile_session_pty r chunks m ∙ reconciled_lem r chunks first last j in
    (
      rw once (record {
        not_lowered = ground arith;
        covers = ground arith;
        reached = ground arith;
        start = refl;
        bytes = joined-bytes first chunks last chain;
        lines = counted_lines-lem (joined chunks);
        partial_line = refl;
        truncated = refl;
      }),
      ap (same_journal_state (reconcile_session r chunks))
            (reconcile_session_twice r chunks first last m j)
          ∙ same_journal_state_refl (reconcile_session r chunks),
    )
