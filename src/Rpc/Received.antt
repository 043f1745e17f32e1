-- ===== src/Rpc/Received.antt =====
-- What `requestBody` of src/daemon/server.ts accepts.
use mathlib.Core.List.{append-nil, append_assoc}
use opencode_pty.Prelude.{
  length-append, ℕ, ◌+◌, ◌≤◌, String, Bool, true, Option, none, some, List, [], ◌∷◌, ◌++◌, length,
  ltb, leb, if◌then◌else◌, ◌≡◌, sym, arith, inl, inr, Bool-cases,
}
use opencode_pty.Rpc.Result.{Result, ok, err, FailureCode}
use opencode_pty.Rpc.Body.{
  BodyReads, max_request_bytes, length_accepted, read_body, body_of, request_body,
}

-- The bytes that are sent.
abbrev pub sent : BodyReads → List ℕ
sent [] = []
sent (none ∷ reads) = sent reads
sent (some value ∷ reads) = value ++ sent reads

abbrev pub all_sent : Option BodyReads → List ℕ
all_sent none = []
all_sent (some reads) = sent reads

-- The answer for the header's verdict and the bytes.
abbrev pub received : Bool → List ℕ → Result (List ℕ)
received accepted bytes =
    if accepted
    then (if leb (length bytes) max_request_bytes then ok bytes else err FailureCode.validation)
    else err FailureCode.validation

read_body_lem :
    (reads : BodyReads) (body : List ℕ)
    → length body ≤ max_request_bytes
    → read_body reads (length body) body ≡ received true (body ++ sent reads)
unfolding read_body
read_body_lem [] body h = rw (append-nil body) (ground (arith, h))
read_body_lem (none ∷ reads) body h = read_body_lem reads body h
read_body_lem (some value ∷ reads) body h =
    elim (Bool-cases (ltb max_request_bytes (length body + length value))) [
      | inl over ↦
          ground (
            arith,
            over,
            length-append body (value ++ sent reads),
            length-append value (sent reads),
          )
      | inr fits ↦
          let small : length (body ++ value) ≤ max_request_bytes =
            ground (arith, fits, length-append body value) in
          let rest = read_body_lem reads (body ++ value) small in
          rw (fits, sym (length-append body value), sym (append_assoc body value (sent reads))) rest
    ]

body_of_lem : (body : Option BodyReads) → body_of body ≡ received true (all_sent body)
body_of_lem none = ground arith
body_of_lem (some reads) = read_body_lem reads [] (ground arith)

-- A body is answered exactly where the content length is absent, empty, or a decimal number of at
-- most a mebibyte, and the bytes of all reads together are at most a mebibyte; the answer is then
-- those bytes in their order, and else a `validation` error.
pub request_body_lem :
    (content_length : Option String) (body : Option BodyReads)
    → request_body content_length body ≡ received (length_accepted content_length) (all_sent body)
unfolding request_body
request_body_lem content_length body = elim (Bool-cases (length_accepted content_length)) [
  | inl a ↦ rw a (body_of_lem body)
  | inr r ↦ ground (arith, r)
]
