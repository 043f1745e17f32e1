-- ===== src/Rpc/Examples.antt =====
-- `requestBody` of src/daemon/server.ts at two reads.
use opencode_pty.Prelude.{none, some, [], ◌∷◌, ◌≡◌, refl}
use opencode_pty.Rpc.Result.{ok}
use opencode_pty.Rpc.Body.{
  BodyReads, length_accepted, request_body, all_digits, number_from, read_body,
}
use opencode_pty.Rpc.Received.{received, all_sent, request_body_lem}

abbrev reads : BodyReads
reads = some (123 ∷ []) ∷ none ∷ some (125 ∷ []) ∷ []

request_body_lem_example :
    request_body (some "2") (some reads)
    ≡ received (length_accepted (some "2")) (all_sent (some reads))
request_body_lem_example = request_body_lem (some "2") (some reads)

request_body_test : request_body (some "2") (some reads) ≡ ok (123 ∷ 125 ∷ [])
unfolding request_body length_accepted all_digits number_from read_body
request_body_test = refl
