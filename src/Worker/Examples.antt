-- ===== src/Worker/Examples.antt =====
-- The redaction of src/daemon/worker-client.ts at short texts: `abcd` is the secret.
use opencode_pty.Prelude.{zero, suc, true, false, List, [], ◌∷◌, ◌++◌, drop, ◌≡◌, refl, inl, arith}
use opencode_pty.Prelude.Slices.{length-drop}
use opencode_pty.Worker.Redact.{
  Characters, begins_with, held_back, initial_split, hold_loop, hold_split, replace_secret, redact,
  redact_stream,
}
use opencode_pty.Worker.Cut.{Whole, hold_split-Whole}
use opencode_pty.Worker.Places.{Separate, begins_with-le}
use opencode_pty.Worker.Stream.{Complete, Separate-Apart, captured, captured-redact}

abbrev secret : Characters
secret = 97 ∷ 98 ∷ 99 ∷ 100 ∷ []

abbrev output : Characters
output = 120 ∷ secret

abbrev pieces : List Characters
pieces = (120 ∷ 97 ∷ 98 ∷ []) ∷ (99 ∷ 100 ∷ []) ∷ []

output-Separate : Separate secret output
unfolding begins_with
output-Separate zero q l sp sq = ground (arith, sp)
output-Separate (suc p) q l sp sq =
    absurd (omega (arith, begins_with-le (drop q output) secret sq, length-drop q output))

output-Complete : Complete secret output
output-Complete start l = ground arith

captured-redact_example : captured pieces secret ≡ redact output (secret ∷ [])
captured-redact_example =
    captured-redact secret pieces (omega arith) output-Separate output-Complete

secret_stands : begins_with secret secret ≡ true
unfolding begins_with
secret_stands = refl

hold_split-Whole_example : Whole secret 1 (
    hold_split output
      (initial_split output (secret ∷ []))
      (secret ∷ [])
      (initial_split output (secret ∷ [])))
hold_split-Whole_example =
    hold_split-Whole output (secret ∷ []) secret 1 (Separate-Apart secret output [] output-Separate)
      (inl refl) (omega arith, secret_stands)

-- `abcdefgh` and `cdef` overlap: the split falls within the first, whose beginning is given on.
abbrev longer : Characters
longer = secret ++ 101 ∷ 102 ∷ 103 ∷ 104 ∷ []

abbrev inner : Characters
inner = 99 ∷ 100 ∷ 101 ∷ 102 ∷ []

overlap_cut :
    redact_stream [] (longer ++ 122 ∷ 122 ∷ 122 ∷ 122 ∷ []) (longer ∷ inner ∷ []) false
    ≡ (97 ∷ 98 ∷ [], inner ++ 103 ∷ 104 ∷ 122 ∷ 122 ∷ 122 ∷ 122 ∷ [])
unfolding redact_stream hold_split hold_loop held_back redact replace_secret begins_with
overlap_cut = refl
