-- ===== src/Journal/Lines.antt =====
-- The lines of a session's output (src/daemon/journal-reader.ts).
use Prim.Native.Char.{Char, code}
use opencode_pty.Prelude.{
  ℕ, ◌+◌, ◌-◌, String, Bool, true, false, ◌&&◌, not, Option, none, some, List, [], ◌∷◌, ltb, leb,
  ◌==◌, if◌then◌else◌, length, take, drop, keep,
}
use opencode_pty.Journal.Bytes.{byte_length}

abbrev pub is_newline : Char → Bool
is_newline c = code c == 10

-- `parts[0] = c + parts[0]`
abbrev pub onto_first : Char → List String → List String
onto_first c [] = String.◌∷◌ c "" ∷ []
onto_first c (part ∷ parts) = String.◌∷◌ c part ∷ parts

-- `output.split('\n')`
unfoldable pub split_lines : String → List String
split_lines String.[] = "" ∷ []
split_lines (String.◌∷◌ c s) =
    let parts = split_lines s in if is_newline c then "" ∷ parts else onto_first c parts

-- `output.endsWith('\n')`
unfoldable pub ends_with_newline : String → Bool
ends_with_newline String.[] = false
ends_with_newline (String.◌∷◌ c String.[]) = is_newline c
ends_with_newline (String.◌∷◌ c (String.◌∷◌ d s)) = ends_with_newline (String.◌∷◌ d s)

abbrev pub is_empty_text : String → Bool
is_empty_text String.[] = true
is_empty_text (String.◌∷◌ c s) = false

-- `lines.at(-1) === ''`
abbrev pub last_is_empty : List String → Bool
last_is_empty [] = false
last_is_empty (part ∷ []) = is_empty_text part
last_is_empty (part ∷ next ∷ parts) = last_is_empty (next ∷ parts)

unfoldable pub line_count : String → ℕ
line_count output =
    let lines = split_lines output in
    if is_empty_text output
    then 0
    else if last_is_empty lines
    then length lines - 1
    else length lines

pub record Line : Type 0 where
  pub line_number : ℕ
  pub sequence : ℕ
  pub text : String

-- The callback of `map`, with the captured `sequence`; `last` is `parts.length - 1`.
unfoldable pub number_lines : ℕ → ℕ → ℕ → List String → List Line
number_lines last index sequence [] = []
number_lines last index sequence (part ∷ parts) =
    record { line_number = index + 1; sequence = sequence; text = part }
    ∷ number_lines last (index + 1)
        (sequence + byte_length part + (if ltb index last then 1 else 0)) parts

unfoldable pub output_lines : String → ℕ → List Line
output_lines output first_sequence =
    let parts = split_lines output in
    let count = if ends_with_newline output then length parts - 1 else length parts in
    if is_empty_text output
    then []
    else number_lines (length parts - 1) 0 first_sequence (take count parts)

unfoldable pub starts_with : String → String → Bool
starts_with s String.[] = true
starts_with String.[] (String.◌∷◌ c needle) = false
starts_with (String.◌∷◌ d s) (String.◌∷◌ c needle) = (code d == code c) && starts_with s needle

-- `haystack.includes(needle)`
unfoldable pub text_includes : String → String → Bool
text_includes String.[] needle = is_empty_text needle
text_includes (String.◌∷◌ c s) needle =
    if starts_with (String.◌∷◌ c s) needle then true else text_includes s needle

-- The filter of `searchLines`; `lower` is `toLowerCase`.
abbrev pub line_matches : (String → String) → String → Bool → Line → Bool
line_matches lower pattern true line =
    not (is_empty_text line.text) && text_includes (lower line.text) (lower pattern)
line_matches lower pattern false line =
    not (is_empty_text line.text) && text_includes line.text pattern

unfoldable pub search_lines : (String → String) → String → String → Bool → ℕ → List Line
search_lines lower output pattern ignore_case first_sequence =
    keep (line_matches lower pattern ignore_case) (output_lines output first_sequence)

-- `sequence === undefined || line.sequence >= sequence`
abbrev pub from_sequence : Option ℕ → Line → Bool
from_sequence none line = true
from_sequence (some sequence) line = leb sequence line.sequence

-- `lines.slice(start)` and `lines.slice(start, start + limit)`
abbrev pub slice_page : List Line → ℕ → Option ℕ → List Line
slice_page lines start none = drop start lines
slice_page lines start (some limit) = take limit (drop start lines)

-- The paged part of a `ReadResult` and of a `SearchResult`.
pub record Page : Type 0 where
  pub lines : List Line
  pub total : ℕ
  pub offset : ℕ
  pub has_more : Bool

unfoldable pub page_of : List Line → ℕ → Option ℕ → Page
page_of lines start limit =
    let page = slice_page lines start limit in
    record {
      lines = page;
      total = length lines;
      offset = start;
      has_more = ltb (start + length page) (length lines);
    }

-- `JournalReader.read` of an output whose first retained sequence is `first_sequence`.
unfoldable pub read_page : String → ℕ → ℕ → Option ℕ → Option ℕ → Page
read_page output first_sequence offset limit sequence =
    page_of (keep (from_sequence sequence) (output_lines output first_sequence)) offset limit

-- `JournalReader.search`, without `totalLines`, which is `line_count`.
unfoldable pub search_page :
    (String → String) → String → ℕ → String → Bool → ℕ → Option ℕ → Option ℕ → Page
search_page lower output first_sequence pattern ignore_case offset limit sequence =
    page_of
      (keep (from_sequence sequence) (search_lines lower output pattern ignore_case first_sequence))
      offset limit
