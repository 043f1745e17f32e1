-- ===== src/Journal/AppendRun.antt =====
-- `appendOutput` of a list of chunks, and the reads after it (src/daemon/storage.ts).
use Prim.Native.String.{◌++◌ as str_append}
use text.Mathlib.TextLemmas.{append-nil, append_assoc}
use opencode_pty.Prelude.{
  ℕ, ◌≤◌, true, Option, none, some, List, [], ◌∷◌, All, ◌≡◌, refl, arith, inl, inr, Bool-cases,
}
use opencode_pty.Session.{OutputChunk}
use opencode_pty.Journal.Segments.{
  Journal, write_file, append_chunk, append_output, joined, size, fits, grown, is_continuous,
  all_valid, read_output, read_output_chunks, output_segment_bytes,
}
use opencode_pty.Journal.Append.{IsChunk, Chain, IsJournal, append_chunk-Appended, Last_end}

Chain-valid :
    (first : ℕ) (files : List OutputChunk) (next : ℕ)
    → Chain first files next
    → (all_valid files ≡ true) × (is_continuous files ≡ true)
unfolding all_valid is_continuous
Chain-valid first [] next c = (refl, refl)
Chain-valid first (f ∷ []) next c = ground arith
Chain-valid first (f ∷ g ∷ rest) next c =
    ground (arith, Chain-valid f.end_sequence (g ∷ rest) next c.2)

-- The files of a continuous journal are read without an error.
pub Chain-read :
    (first : ℕ) (files : List OutputChunk) (next : ℕ)
    → Chain first files next
    → read_output_chunks files ≡ some files
unfolding read_output_chunks
Chain-read first files next c = ground (arith, Chain-valid first files next c)

append_output-run :
    (first next : ℕ) (journal : Journal) (chunks : List OutputChunk) (next' : ℕ)
    → IsJournal first next journal
    → Chain next chunks next'
    → IsJournal first next' (append_output journal chunks)
      × (joined (append_output journal chunks).files
          ≡ str_append (joined journal.files) (joined chunks))
unfolding append_output joined
append_output-run first next journal [] next' j c =
    (ground (arith, j), ground (arith, append-nil (joined journal.files)))
append_output-run first next journal (chunk ∷ chunks) next' j c =
    let a = append_chunk-Appended first next journal.files journal.tail chunk j c.1 c.0 in
    let r =
      append_output-run first chunk.end_sequence (append_chunk journal chunk) chunks next' a.stays
        c.2 in
    (
      r.0,
      ground (arith, a.text, r.1, append_assoc (joined journal.files) chunk.text (joined chunks)),
    )

-- If the journal is continuous from `first` to `next` and the chunks continue it to `next'`, then the
-- journal after `appendOutput` is continuous from `first` to `next'`, and `readOutput` returns the
-- text from before followed by the texts of the chunks.
pub append_output-read :
    (first next : ℕ) (journal : Journal) (chunks : List OutputChunk) (next' : ℕ)
    → IsJournal first next journal
    → Chain next chunks next'
    → IsJournal first next' (append_output journal chunks)
      × (read_output (append_output journal chunks).files
          ≡ some (str_append (joined journal.files) (joined chunks)))
unfolding read_output
append_output-read first next journal chunks next' j c =
    let r = append_output-run first next journal chunks next' j c in
    (
      r.0,
      ground (arith, r.1, Chain-read first (append_output journal chunks).files next' r.0.chain),
    )

abbrev pub Within : ℕ → List OutputChunk → Type 0
Within bound files = All (λ file. size file ≤ bound) files

write-Within :
    (bound : ℕ) (chunk : OutputChunk) (files : List OutputChunk)
    → size chunk ≤ bound
    → Within bound files
    → Within bound (write_file chunk files)
unfolding write_file
write-Within bound chunk [] h w = (h, tt)
write-Within bound chunk (f ∷ files) h w = ground (arith, write-Within bound chunk files h w.1)

append_chunk-Within :
    (bound first next : ℕ) (files : List OutputChunk) (tail : Option OutputChunk)
    (chunk : OutputChunk)
    → output_segment_bytes ≤ bound
    → IsJournal first next (record { files = files; tail = tail })
    → IsChunk chunk
    → size chunk ≤ bound
    → Within bound files
    → Within bound (append_chunk (record { files = files; tail = tail }) chunk).files
unfolding append_chunk
append_chunk-Within bound first next files none chunk b j i h w = write-Within bound chunk files h w
append_chunk-Within bound first next files (some t) chunk b j i h w =
    let e = Last_end t first files next j.chain j.tail_last in
    elim (Bool-cases (fits t chunk)) [
      | inl fit ↦ ground (arith, write-Within bound (grown t chunk) files (ground arith) w)
      | inr full ↦ ground (arith, write-Within bound chunk files h w)
    ]

-- If the journal and the appended chunks are continuous, and no segment and no chunk is larger than a
-- bound of at least 64 KiB, then no segment is larger than the bound after `appendOutput`.
pub append_output-Within :
    (bound first next : ℕ) (journal : Journal) (chunks : List OutputChunk) (next' : ℕ)
    → output_segment_bytes ≤ bound
    → IsJournal first next journal
    → Chain next chunks next'
    → Within bound journal.files
    → Within bound chunks
    → Within bound (append_output journal chunks).files
unfolding append_output
append_output-Within bound first next journal [] next' b j c w v = w
append_output-Within bound first next journal (chunk ∷ chunks) next' b j c w v =
    let a = append_chunk-Appended first next journal.files journal.tail chunk j c.1 c.0 in
    append_output-Within bound first chunk.end_sequence (append_chunk journal chunk) chunks next' b
      a.stays c.2
      (append_chunk-Within bound first next journal.files journal.tail chunk b j c.1 v.0 w) v.1
