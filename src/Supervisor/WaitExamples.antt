-- ===== src/Supervisor/WaitExamples.antt =====
-- The theorems on waits of src/daemon/supervisor.ts at two waits and a short output.
use Prim.Native.String.{◌++◌ as str_append}
use opencode_pty.Prelude.{
  ℕ, ◌<◌, ◌==◌, not, Bool, true, false, none, some, List, [], ◌∷◌, ◌≡◌, ◌⊎◌, refl,
}
use opencode_pty.Session.{WaitResult}
use opencode_pty.Supervisor.Examples.{session}
use opencode_pty.Supervisor.Waits.{RegularExpressions, exit_wait, wait_match, output_match}
use opencode_pty.Supervisor.Matching.{Within, literal_after, wait_match-Within}
use opencode_pty.Supervisor.Pending.{
  PendingWaits, no_waits, numbers, WaitEvent, wait_event, wait_events, Look, resolve_exit_waits,
}
use opencode_pty.Supervisor.Answered.{IsSettled, Fails, count, resolve_exit_waits-IsSettled}

abbrev no_regex : RegularExpressions
no_regex = record { valid = λ text. true; exec = λ text output. none }

wait_match-Within_example :
    ((wait_match no_regex session
          (str_append "$ make\n" "done\n")
          "t"
          (literal_after session "$ make\n" "done")
        ≡ some (output_match session "t" "done"))
      × Within "done" "done\n")
    ⊎ ((wait_match no_regex session
            (str_append "$ make\n" "done\n")
            "t"
            (literal_after session "$ make\n" "done")
          ≡ none)
        × ¬ Within "done" "done\n")
wait_match-Within_example = wait_match-Within no_regex session "$ make\n" "done\n" "done" "t" refl

-- The first wait times out, and a third comes while the loop looks at the second.
abbrev two_waits : List WaitEvent
two_waits = WaitEvent.called ∷ WaitEvent.called ∷ WaitEvent.deadline 0 (exit_wait session) ∷ []

-- The record of every wait but the third can be stored.
abbrev stored : ℕ → Bool
stored n = not (n == 2)

abbrev look : ℕ → Look
look n = Look.unmatched

abbrev ended : ℕ → WaitResult
ended n = exit_wait session

abbrev between : ℕ → List WaitEvent
between n = WaitEvent.called ∷ WaitEvent.looked 0 (exit_wait session) ∷ []

abbrev before : PendingWaits
before = wait_events stored two_waits no_waits

abbrev after : PendingWaits
after = resolve_exit_waits stored true look ended between before

resolve_exit_waits-IsSettled_example :
    IsSettled stored after
    × (((n : ℕ)
          → 0 < count n before.pending
          → (count n after.pending ≡ 0) × (count n (numbers after.settled) ≡ 1))
        ⊎ (◌≡◌ {A = Bool} true false)
        ⊎ Fails look before.pending)
    × ((n : ℕ) (result : WaitResult)
        → 0 < count n after.pending
        → count n (numbers (wait_event stored (WaitEvent.deadline n result) after).settled) ≡ 1)
resolve_exit_waits-IsSettled_example =
    resolve_exit_waits-IsSettled stored true two_waits look ended between
