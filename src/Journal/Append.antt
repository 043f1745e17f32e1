-- ===== src/Journal/Append.antt =====
-- Appending to a session's journal keeps it continuous and loses nothing (src/daemon/storage.ts).
use Prim.Native.String.{◌++◌ as str_append}
use text.Mathlib.TextLemmas.{nil-append, append-nil, append_assoc}
use opencode_pty.Prelude.{
  ℕ, ◌+◌, ◌≤◌, ◌<◌, String, Option, none, some, List, [], ◌∷◌, ◌≡◌, refl, arith, inl, inr,
  Bool-cases,
}
use opencode_pty.Session.{OutputChunk}
use opencode_pty.Journal.Bytes.{byte_length, byte_length-append}
use opencode_pty.Journal.Segments.{Journal, write_file, append_chunk, joined, fits, grown}

-- A segment holds some text, and its sequences count the text's bytes.
abbrev pub IsChunk : OutputChunk → Type 0
IsChunk chunk =
    (chunk.end_sequence ≡ chunk.start_sequence + byte_length chunk.text)
    × (0 < byte_length chunk.text)

-- The segments follow each other from the sequence `first` to the sequence `next`.
abbrev pub Chain : ℕ → List OutputChunk → ℕ → Type 0
Chain first [] next = first ≡ next
Chain first (chunk ∷ rest) next =
    (chunk.start_sequence ≡ first) × IsChunk chunk × Chain chunk.end_sequence rest next

abbrev pub IsLast : OutputChunk → List OutputChunk → Type 0
IsLast chunk [] = ⊥
IsLast chunk (file ∷ []) = file ≡ chunk
IsLast chunk (file ∷ next ∷ rest) = IsLast chunk (next ∷ rest)

pub Chain-le :
    (first : ℕ) (files : List OutputChunk) (next : ℕ) → Chain first files next → first ≤ next
Chain-le first [] next c = ground arith
Chain-le first (f ∷ fs) next c = ground (arith, Chain-le f.end_sequence fs next)

Last_lt :
    (t : OutputChunk) (first : ℕ) (files : List OutputChunk) (next : ℕ)
    → Chain first files next
    → IsLast t files
    → first ≤ t.start_sequence
Last_lt t first [] next c l = elim l [ ]
Last_lt t first (f ∷ []) next c l = ground arith
Last_lt t first (f ∷ g ∷ rest) next c l = ground (arith, Last_lt t f.end_sequence (g ∷ rest) next)

-- What a write leaves, if it adds the text `added`.
record Written (first : ℕ) (files files' : List OutputChunk) (chunk : OutputChunk) (added : String)
    : Type 0 where
  pub chain : Chain first files' chunk.end_sequence
  pub last : IsLast chunk files'
  pub text : joined files' ≡ str_append (joined files) added

write-new :
    (chunk : OutputChunk) (first : ℕ) (files : List OutputChunk) (next : ℕ)
    → IsChunk chunk
    → Chain first files next
    → chunk.start_sequence ≡ next
    → Written first files (write_file chunk files) chunk chunk.text
unfolding write_file joined
write-new chunk first [] next i c s = record {
  chain = ground arith;
  last = refl;
  text = ground (arith, nil-append chunk.text, append-nil chunk.text);
}
write-new chunk first (f ∷ []) next i c s = record {
  chain = ground arith;
  last = ground arith;
  text = ground (arith, append-nil chunk.text, append-nil f.text);
}
write-new chunk first (f ∷ g ∷ rest) next i c s =
    let w = write-new chunk f.end_sequence (g ∷ rest) next i c.2 s in
    let b = Chain-le f.end_sequence (g ∷ rest) next c.2 in
    record {
      chain = ground arith;
      last = ground arith;
      text = ground (arith, append_assoc f.text (joined (g ∷ rest)) chunk.text);
    }

-- The last segment is replaced by one that holds more.
write-last :
    (t chunk : OutputChunk) (added : String) (first : ℕ) (files : List OutputChunk) (next : ℕ)
    → IsChunk chunk
    → Chain first files next
    → IsLast t files
    → chunk.start_sequence ≡ t.start_sequence
    → chunk.text ≡ str_append t.text added
    → Written first files (write_file chunk files) chunk added
unfolding write_file joined
write-last t chunk added first [] next i c l s e = elim l [ ]
write-last t chunk added first (f ∷ []) next i c l s e = record {
  chain = ground arith;
  last = ground arith;
  text = ground (arith, append-nil chunk.text, append-nil f.text);
}
write-last t chunk added first (f ∷ g ∷ rest) next i c l s e =
    let w = write-last t chunk added f.end_sequence (g ∷ rest) next i c.2 l s e in
    let b = Last_lt t f.end_sequence (g ∷ rest) next c.2 l in
    record {
      chain = ground arith;
      last = ground arith;
      text = ground (arith, append_assoc f.text (joined (g ∷ rest)) added);
    }

-- A session's journal from `first` to `next`, whose remembered tail is the last segment.
abbrev pub TailIsLast : Option OutputChunk → List OutputChunk → Type 0
TailIsLast none files = Unit
TailIsLast (some t) files = IsLast t files

pub record IsJournal (first next : ℕ) (journal : Journal) : Type 0 where
  pub chain : Chain first journal.files next
  pub tail_last : TailIsLast journal.tail journal.files

-- One chunk more: the journal is longer by the chunk's bytes and the chunk's text.
pub record Appended (first : ℕ) (journal : Journal) (chunk : OutputChunk) (journal' : Journal)
    : Type 0 where
  pub stays : IsJournal first chunk.end_sequence journal'
  pub text : joined journal'.files ≡ str_append (joined journal.files) chunk.text

pub Last_end :
    (t : OutputChunk) (first : ℕ) (files : List OutputChunk) (next : ℕ)
    → Chain first files next
    → IsLast t files
    → (t.end_sequence ≡ next) × IsChunk t
Last_end t first [] next c l = elim l [ ]
Last_end t first (f ∷ []) next c l = ground arith
Last_end t first (f ∷ g ∷ rest) next c l = Last_end t f.end_sequence (g ∷ rest) next c.2 l

pub append_chunk-Appended :
    (first next : ℕ) (files : List OutputChunk) (tail : Option OutputChunk) (chunk : OutputChunk)
    → IsJournal first next (record { files = files; tail = tail })
    → IsChunk chunk
    → chunk.start_sequence ≡ next
    → Appended first
        (record { files = files; tail = tail })
        chunk
        (append_chunk (record { files = files; tail = tail }) chunk)
unfolding append_chunk
append_chunk-Appended first next files none chunk j i s =
    let w = write-new chunk first files next i j.chain s in
    record { stays = record { chain = w.chain; tail_last = w.last }; text = w.text }
append_chunk-Appended first next files (some t) chunk j i s =
    let w = write-new chunk first files next i j.chain s in
    let e = Last_end t first files next j.chain j.tail_last in
    elim (Bool-cases (fits t chunk)) [
      | inl fit ↦
          let v =
            write-last t (grown t chunk) chunk.text first files next
              (ground (arith, byte_length-append t.text chunk.text)) j.chain j.tail_last refl
              refl in
          record {
            stays = record { chain = ground arith; tail_last = ground arith };
            text = ground arith;
          }
      | inr full ↦ record {
        stays = record { chain = ground arith; tail_last = ground arith };
        text = ground arith;
      }
    ]
