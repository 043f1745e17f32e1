-- ===== src/Supervisor/Snapshot.antt =====
-- `WorkerSnapshot` of src/daemon/worker-client.ts, and what src/daemon/supervisor.ts reads off one.
-- The fields that the supervisor does not read are left out.
use Prim.Native.String.{◌++◌ as str_append}
use opencode_pty.Prelude.{
  ℕ, String, str_eq, Bool, true, false, not, ◌&&◌, ◌||◌, Option, none, some, List, is_some,
  get_or_default, if◌then◌else◌,
}
use opencode_pty.Session.{ContainmentReport, TerminationResult, ExitReason}
use opencode_pty.Lifecycle.Reduce.{LifecycleEvent, drained_containment}
use opencode_pty.Lifecycle.Refresh.{nonempty}

pub data WorkerStatus : Type 0 where
  running exited lost : WorkerStatus

-- `signal` has the text after `signal:`.
pub data WorkerExit : Type 0 where
  exit_code timeout output_limit stopped storage_failure : WorkerExit
  signal : String → WorkerExit

pub record WorkerSnapshot : Type 0 where
  pub status : WorkerStatus
  pub pid : ℕ
  pub stdout : Option String
  pub stderr : Option String
  pub stdout_bytes : ℕ
  pub stderr_bytes : ℕ
  pub stdout_truncated : Bool
  pub stderr_truncated : Bool
  pub next_sequence : ℕ
  pub first_retained_sequence : ℕ
  pub output_truncated : Bool
  pub output_line_count : ℕ
  pub output_has_partial_line : Bool
  pub exit_code : Option ℕ
  pub exit_signal : Option String
  pub exit_reason : Option WorkerExit
  pub exited_at : Option String
  pub timed_out : Bool
  pub termination_requested : Bool
  pub termination_confirmed : Bool
  pub direct_child_exited : Bool
  pub storage_failure : Option String
  pub output_incomplete : Bool
  pub reader_failure : Option String
  pub diagnostics : Option (List String)
  pub containment : ContainmentReport
  pub termination : Option TerminationResult

abbrev pub is_lost : WorkerStatus → Bool
is_lost WorkerStatus.lost = true
is_lost _ = false

abbrev pub is_running : WorkerStatus → Bool
is_running WorkerStatus.running = true
is_running _ = false

unfoldable pub native_terminal_proof : Bool → WorkerSnapshot → Bool
native_terminal_proof darwin result =
    result.termination_confirmed
    && (not (is_running result.status)
        && (result.direct_child_exited
            && (drained_containment (some result.containment) || darwin)))

unfoldable pub native_terminal : Bool → WorkerSnapshot → Bool
native_terminal darwin result = is_lost result.status || native_terminal_proof darwin result

abbrev pub is_output_limit : Option WorkerExit → Bool
is_output_limit (some WorkerExit.output_limit) = true
is_output_limit _ = false

abbrev event_of_exit : WorkerSnapshot → LifecycleEvent
event_of_exit result =
    if is_output_limit result.exit_reason
    then LifecycleEvent.output_limited
    else if result.timed_out
    then LifecycleEvent.timed_out
    else LifecycleEvent.child_exited

abbrev event_of : WorkerStatus → WorkerSnapshot → LifecycleEvent
event_of WorkerStatus.lost result = LifecycleEvent.unreachable
event_of WorkerStatus.running result = LifecycleEvent.worker_ready
event_of WorkerStatus.exited result = event_of_exit result

unfoldable pub worker_event : WorkerSnapshot → LifecycleEvent
worker_event result = event_of result.status result

-- `exitReason(exitCode, signal)`
abbrev pub exit_reason_from : Option ℕ → Option String → ExitReason
exit_reason_from (some code) by = ExitReason.exit_code code
exit_reason_from none none = ExitReason.unknown none
exit_reason_from none (some by) =
    if str_eq by "" then ExitReason.unknown none else ExitReason.signal by

-- A text of the snapshot that is truthy.
abbrev pub is_present : Option String → Bool
is_present text = is_some (nonempty text)

abbrev failure_message : Option String → Option String → String
failure_message (some storage) reader = str_append "Native worker storage failure: " storage
failure_message none (some reader) = str_append "Native worker output incomplete: " reader
failure_message none none = "Native worker output incomplete: reader drain deadline elapsed."

abbrev reason_of_exit : Option WorkerExit → WorkerSnapshot → ExitReason
reason_of_exit (some WorkerExit.timeout) result = ExitReason.timeout none
reason_of_exit (some WorkerExit.output_limit) result = ExitReason.output_limit none
reason_of_exit (some WorkerExit.stopped) result = ExitReason.stopped
reason_of_exit (some (WorkerExit.signal name)) result =
    ExitReason.signal (get_or_default result.exit_signal name)
reason_of_exit _ result =
    if result.termination_confirmed
    then exit_reason_from result.exit_code result.exit_signal
    else ExitReason.unknown none

abbrev pub incomplete : WorkerSnapshot → Bool
incomplete result =
    is_present result.storage_failure
    || (is_present result.reader_failure || result.output_incomplete)

-- The `exitReason` of `finishNativeVersion`.
unfoldable pub snapshot_exit_reason : WorkerSnapshot → ExitReason
snapshot_exit_reason result =
    if incomplete result
    then ExitReason.unknown
        (some (failure_message (nonempty result.storage_failure) (nonempty result.reader_failure)))
    else reason_of_exit result.exit_reason result
