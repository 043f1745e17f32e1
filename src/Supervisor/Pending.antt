-- ===== src/Supervisor/Pending.antt =====
-- The pending waits of one session in src/daemon/supervisor.ts, from `wait` to `finishWait`. A pending
-- wait is the number of its call; its `settled` mark is set when `settle` is called, which gives its
-- reservation back to the registry. The promise of the call is resolved after `finishWait` has written
-- the record, and never if that write fails: `stored` says for each wait whether it succeeds.
use opencode_pty.Prelude.{ℕ, ◌+◌, Bool, Option, none, some, List, [], ◌∷◌, ◌++◌, ltb, if◌then◌else◌}
use opencode_pty.Session.{WaitResult}
use opencode_pty.Registry.Maps.{remove_number, has_number}

pub record PendingWaits : Type 0 where
  pub calls : ℕ
  pub pending : List ℕ
  pub settled : List (ℕ × WaitResult)
  pub released : List ℕ
  pub resolved : List ℕ

abbrev pub no_waits : PendingWaits
no_waits = record { calls = 0; pending = []; settled = []; released = []; resolved = [] }

-- The numbers of the waits.
abbrev pub numbers : List (ℕ × WaitResult) → List ℕ
numbers [] = []
numbers ((n, result) ∷ rest) = n ∷ numbers rest

-- The end of `wait`: a promise that is pending.
unfoldable pub add_wait : PendingWaits → PendingWaits
add_wait s = record s { calls = s.calls + 1; pending = s.pending ++ s.calls ∷ [] }

-- `pending.settle(result)`, of a wait that was made.
unfoldable pub settle_wait : (ℕ → Bool) → ℕ → WaitResult → PendingWaits → PendingWaits
settle_wait stored n result s = if has_number (numbers s.settled) n then s else record s {
  pending = remove_number s.pending n;
  settled = (n, result) ∷ s.settled;
  released = n ∷ s.released;
  resolved = if stored n then n ∷ s.resolved else s.resolved;
}

-- What may happen: a call waits, the timer of a wait fires, or a look at the output settles it. A
-- timer or a look may come after the wait is settled.
pub data WaitEvent : Type 0 where
  called : WaitEvent
  deadline looked : ℕ → WaitResult → WaitEvent

unfoldable pub wait_event : (ℕ → Bool) → WaitEvent → PendingWaits → PendingWaits
wait_event stored WaitEvent.called s = add_wait s
wait_event stored (WaitEvent.deadline n result) s =
    if ltb n s.calls then settle_wait stored n result s else s
wait_event stored (WaitEvent.looked n result) s =
    if ltb n s.calls then settle_wait stored n result s else s

unfoldable pub wait_events : (ℕ → Bool) → List WaitEvent → PendingWaits → PendingWaits
wait_events stored [] s = s
wait_events stored (event ∷ events) s = wait_events stored events (wait_event stored event s)

-- What `waitMatch` comes to for a wait: it throws, as where the output cannot be read, or it answers.
pub data Look : Type 0 where
  failed unmatched : Look
  matched : WaitResult → Look

-- `matched ?? this.waitEnded(record, wait.condition)`, where the look did not throw.
abbrev pub end_result : Look → WaitResult → Option WaitResult
end_result Look.failed ended = none
end_result Look.unmatched ended = some ended
end_result (Look.matched result) ended = some result

-- The loop of `resolveExitWaits` over a copy of the pending waits, with what happens at the `await` of
-- each round. A look that throws ends it.
unfoldable pub resolve_waits :
    (ℕ → Bool)
    → (ℕ → Look)
    → (ℕ → WaitResult)
    → (ℕ → List WaitEvent)
    → List ℕ
    → PendingWaits
    → PendingWaits
resolve_waits stored look ended between [] s = s
resolve_waits stored look ended between (n ∷ ns) s =
    let t = wait_events stored (between n) s in
    elim (end_result (look n) (ended n)) [
      | none ↦ t
      | some result ↦ resolve_waits stored look ended between ns (settle_wait stored n result t)
    ]

-- `queue_ok` is whether the persist queue resolves: the loop is not run where it is rejected.
unfoldable pub resolve_exit_waits :
    (ℕ → Bool)
    → Bool
    → (ℕ → Look)
    → (ℕ → WaitResult)
    → (ℕ → List WaitEvent)
    → PendingWaits
    → PendingWaits
resolve_exit_waits stored queue_ok look ended between s =
    if queue_ok then resolve_waits stored look ended between s.pending s else s
