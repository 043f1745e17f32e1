-- ===== src/Worker/Redact.antt =====
-- `redact`, `redactTail` and `redactStream` of src/daemon/worker-client.ts, over the code points of a
-- text. A secret's `length` counts UTF-16 code units.
use opencode_pty.Prelude.{
  ℕ, zero, suc, ◌+◌, ◌-◌, Bool, true, false, not, ◌&&◌, List, [], ◌∷◌, ◌++◌, length, take, drop,
  any, ltb, leb, ◌==◌, if◌then◌else◌,
}

abbrev pub Characters : Type 0
Characters = List ℕ

-- `[REDACTED]`
abbrev pub redacted : Characters
redacted = 91 ∷ 82 ∷ 69 ∷ 68 ∷ 65 ∷ 67 ∷ 84 ∷ 69 ∷ 68 ∷ 93 ∷ []

-- The `length` of a text.
abbrev pub text_units : Characters → ℕ
text_units [] = 0
text_units (c ∷ cs) = (if ltb c 0x10000 then 1 else 2) + text_units cs

-- `text.startsWith(prefix)`
unfoldable pub begins_with : Characters → Characters → Bool
begins_with text [] = true
begins_with [] (p ∷ ps) = false
begins_with (c ∷ cs) (p ∷ ps) = c == p && begins_with cs ps

-- `text.split(secret).join('[REDACTED]')`; `skip` counts what is left of an occurrence.
unfoldable pub replace_secret : Characters → ℕ → Characters → Characters
replace_secret secret skip [] = []
replace_secret secret zero (c ∷ cs) =
    let matched = redacted ++ replace_secret secret (length secret - 1) cs in
    let rest = c ∷ replace_secret secret 0 cs in
    if begins_with (c ∷ cs) secret then matched else rest
replace_secret secret (suc skip) (c ∷ cs) = replace_secret secret skip cs

abbrev pub redact_one : Characters → Characters → Characters
redact_one secret text = if leb 4 (text_units secret) then replace_secret secret 0 text else text

unfoldable pub redact : Characters → List Characters → Characters
redact text [] = text
redact text (secret ∷ secrets) = redact (redact_one secret text) secrets

abbrev tail_is_partial : Characters → Characters → Bool
tail_is_partial tail secret =
    leb 4 (text_units tail)
    && (ltb (text_units tail) (text_units secret) && begins_with secret tail)

unfoldable pub redact_tail : Characters → List Characters → Characters
redact_tail tail secrets =
    if any (tail_is_partial tail) secrets then redacted else redact tail secrets

-- `Math.max(0, ...secrets.map((secret) => secret.length - 1))`
unfoldable pub held_back : List Characters → ℕ
held_back [] = 0
held_back (secret ∷ secrets) =
    let rest = held_back secrets in
    if ltb rest (text_units secret - 1) then text_units secret - 1 else rest

abbrev pub initial_split : Characters → List Characters → ℕ
initial_split characters secrets = length characters - held_back secrets

-- `characters.slice(start, start + prefix).every(…)`, with `prefix` the smaller of what is left and
-- the secret's length.
abbrev pub matches_at : Characters → Characters → ℕ → Bool
matches_at characters secret start =
    begins_with secret (take (length secret) (drop start characters))

-- The loop over `start` of a text that goes on: `left` rounds from `start` on.
unfoldable pub hold_loop : Characters → Characters → ℕ → ℕ → ℕ → ℕ
hold_loop characters secret zero start split = split
hold_loop characters secret (suc left) start split = hold_loop characters secret left (start + 1) (
    if ltb split (start + length secret) && matches_at characters secret start
    then start
    else split)

unfoldable pub hold_split : Characters → ℕ → List Characters → ℕ → ℕ
hold_split characters initial [] split = split
hold_split characters initial (secret ∷ secrets) split =
    hold_split characters initial secrets (hold_loop characters secret initial 0 split)

-- `suffix >= 4 && suffix < secret.length && characters.slice(start).every(…)`, over code points.
abbrev pub partial_at : Characters → Characters → ℕ → Bool
partial_at characters secret start =
    leb 4 (length characters - start)
    && (ltb (length characters - start) (length secret)
        && begins_with secret (drop start characters))

abbrev full_over : Characters → Characters → ℕ → ℕ → Bool
full_over characters secret start full_start =
    leb full_start start
    && (ltb start (full_start + length secret)
        && begins_with secret (take (length secret) (drop full_start characters)))

-- `some` over the starts below `left`.
unfoldable pub some_full_over : Characters → Characters → ℕ → ℕ → Bool
some_full_over characters secret start zero = false
some_full_over characters secret start (suc left) =
    if full_over characters secret start left
    then true
    else some_full_over characters secret start left

abbrev overlaps_full_secret : Characters → Characters → ℕ → Bool
overlaps_full_secret characters secret start =
    leb (length secret) (length characters)
    && some_full_over characters secret start (length characters - length secret + 1)

-- The loop over `start` of a text that ends.
unfoldable pub finish_loop : Characters → Characters → ℕ → ℕ → ℕ → ℕ
finish_loop characters secret zero start split = split
finish_loop characters secret (suc left) start split =
    finish_loop characters secret left (start + 1) (
      if partial_at characters secret start && not (overlaps_full_secret characters secret start)
      then (if ltb start split then start else split)
      else split)

unfoldable pub finish_split : Characters → List Characters → ℕ → ℕ
finish_split characters [] split = split
finish_split characters (secret ∷ secrets) split =
    finish_split characters secrets (finish_loop characters secret (length characters) 0 split)

abbrev pub split_at : Characters → List Characters → Bool → ℕ
split_at characters secrets finish =
    if finish
    then finish_split characters secrets (length characters)
    else hold_split characters (initial_split characters secrets) secrets
        (initial_split characters secrets)

abbrev split_output : Characters → List Characters → Bool → ℕ → Characters × Characters
split_output characters secrets finish split =
    let safe = redact (take split characters) secrets in
    let tail = drop split characters in
    (if finish then safe ++ redact_tail tail secrets else safe, tail)

-- The text that is given on, and the tail that is kept.
unfoldable pub redact_stream :
    Characters → Characters → List Characters → Bool → Characters × Characters
redact_stream tail text secrets finish =
    split_output (tail ++ text) secrets finish (split_at (tail ++ text) secrets finish)
