-- ===== src/Supervisor/Finish.antt =====
-- `finishNativeVersion`, `persistNativeFinalizationFailure`, `rollbackNativeInLane` and `stop` of
-- src/daemon/supervisor.ts, as changes of the session's record. `stored` is whether the write of the
-- record succeeds, `now` what the clock says. The releases of registry and waits follow the write.
use Prim.Native.String.{◌++◌ as str_append}
use opencode_pty.Prelude.{
  ℕ, ◌+◌, ◌-◌, String, Bool, true, false, not, ◌&&◌, ◌||◌, Option, none, some, is_some, List, [],
  ◌∷◌, ◌==◌, if◌then◌else◌,
}
use opencode_pty.Session.{
  SessionRecord, ExecutionMode, LifecycleView, ExitReason, ExecOutput, ExitSignal, StreamDrain,
  SpawnCleanup,
}
use opencode_pty.Lifecycle.Reduce.{LifecycleEvent}
use opencode_pty.Supervisor.Transition.{transition}
use opencode_pty.Supervisor.Snapshot.{
  WorkerSnapshot, worker_event, snapshot_exit_reason, is_present,
}

abbrev is_exec : ExecutionMode → Bool
is_exec ExecutionMode.exec = true
is_exec ExecutionMode.pty = false

abbrev exec_output_of : WorkerSnapshot → Option String → Option String → Option ExecOutput
exec_output_of result (some stdout) (some stderr) = some (record {
  stdout = stdout;
  stderr = stderr;
  stdout_bytes = result.stdout_bytes;
  stderr_bytes = result.stderr_bytes;
  stdout_truncated = result.stdout_truncated;
  stderr_truncated = result.stderr_truncated;
  containment = some result.containment;
  termination = result.termination;
})
exec_output_of result stdout stderr = none

-- The `execOutput` key, which stays away where the mode is `pty` or a stream is missing.
abbrev observed_output : SessionRecord → WorkerSnapshot → Option ExecOutput
observed_output r result =
    let view : LifecycleView = r.view in
    let new = exec_output_of result result.stdout result.stderr in
    if is_exec r.mode && is_some new then new else view.exec_output

abbrev some_if_filled : Option (List String) → Option (List String)
some_if_filled (some (d ∷ ds)) = some (d ∷ ds)
some_if_filled _ = none

-- `{ ...record, ...observations }` of `finishNativeVersion`.
unfoldable pub observe : WorkerSnapshot → SessionRecord → SessionRecord
observe result r = record r {
  view = record r.view {
    pid = result.pid;
    timed_out = result.timed_out;
    exec_output = observed_output r result;
    exit_code = result.exit_code;
    exit_signal = elim result.exit_signal [ none ↦ none | some name ↦ some (ExitSignal.name name) ];
    termination_requested = result.termination_requested;
    termination_confirmed = result.termination_confirmed;
    direct_child_exited = some result.direct_child_exited;
    containment = some result.containment;
    termination = result.termination;
    storage_failure = result.storage_failure;
    diagnostics = some_if_filled result.diagnostics;
    stream_drain = some (
        if is_present result.reader_failure || result.output_incomplete
        then StreamDrain.unknown
        else StreamDrain.drained);
    exit_reason = some (snapshot_exit_reason result);
    exited_at = result.exited_at;
  };
  next_sequence = result.next_sequence;
  first_retained_sequence = result.first_retained_sequence;
  output_truncated = result.output_truncated;
  output_bytes =
      if is_exec r.mode
      then result.stdout_bytes + result.stderr_bytes
      else result.next_sequence - result.first_retained_sequence;
  line_count = result.output_line_count;
  output_has_partial_line = result.output_has_partial_line;
}

-- How `finishNativeVersion` ends: the transition is refused, the record is written and the result
-- returned, the output was lost or a worker could not store it (an `ESTORAGE` error after the write),
-- or the record could not be written (the same error).
pub data FinishEnd : Type 0 where
  refused finished output_failed storage_failed : FinishEnd

-- The record, the records that were to be written, in their order, and the end.
pub record Finishing : Type 0 where
  pub session : SessionRecord
  pub writes : List SessionRecord
  pub end : FinishEnd

abbrev no_observation : SessionRecord → SessionRecord
no_observation r = r

-- `persistNativeFinalizationFailure`, with the error's text. An exit code of the model is a natural
-- number, and so always kept.
unfoldable pub persist_finalization_failure :
    Bool → String → String → WorkerSnapshot → SessionRecord → SessionRecord
persist_finalization_failure darwin now error result r =
    let lost = (transition darwin r LifecycleEvent.unreachable no_observation).0 in
    let message = str_append "Native finalization failed: " error in
    record lost {
      view = record lost.view {
        exit_code = result.exit_code;
        storage_failure = some message;
        exit_reason = some (ExitReason.unknown (some message));
      };
      updated_at = now;
    }

-- `record.execOutput = …` after an accepted transition.
unfoldable pub assign_output : WorkerSnapshot → String → SessionRecord → SessionRecord
assign_output result now r = record r {
  view = record r.view { exec_output = observed_output r result };
  updated_at = now;
}

abbrev output_end : WorkerSnapshot → FinishEnd
output_end result =
    if is_present result.storage_failure
      || ((is_present result.reader_failure || result.output_incomplete)
          && result.termination_confirmed)
    then FinishEnd.output_failed
    else FinishEnd.finished

abbrev write_finished : Bool → Bool → String → String → WorkerSnapshot → SessionRecord → Finishing
write_finished darwin stored now error result r =
    if stored then record { session = r; writes = r ∷ []; end = output_end result } else record {
      session = persist_finalization_failure darwin now error result r;
      writes = r ∷ persist_finalization_failure darwin now error result r ∷ [];
      end = FinishEnd.storage_failed;
    }

abbrev pub finish_accepted :
    Bool
    → Bool
    → String
    → String
    → WorkerSnapshot
    → SessionRecord
    → SessionRecord × Bool
    → Finishing
finish_accepted darwin stored now error result original (r, false) = record {
  session = original;
  writes = [];
  end = FinishEnd.refused;
}
finish_accepted darwin stored now error result original (r, true) =
    write_finished darwin stored now error result (assign_output result now r)

-- `error` is the text of the error that a failing write throws.
unfoldable pub finish_native_version :
    Bool → Bool → String → String → WorkerSnapshot → SessionRecord → Finishing
finish_native_version darwin stored now error result r =
    finish_accepted darwin stored now error result r
      (transition darwin r (worker_event result) (observe result))

-- `finishNativeInLane`: a snapshot is dropped if the record was replaced or the version went on since
-- it was taken. `same_record` is `this.records.get(record.id) === record`.
unfoldable pub finish_native_in_lane :
    Bool → Bool → String → String → Bool → ℕ → ℕ → WorkerSnapshot → SessionRecord → Finishing
finish_native_in_lane darwin stored now error same_record taken version result r =
    if not same_record || not (taken == version)
    then record { session = r; writes = []; end = FinishEnd.refused }
    else finish_native_version darwin stored now error result r

-- The cleanup that `rollbackNativeInLane` reports, and the text of its `exitReason`.
unfoldable pub rollback_native :
    Bool → String → String → SpawnCleanup → SessionRecord → SessionRecord
rollback_native darwin now message cleanup r =
    let lost = (transition darwin r LifecycleEvent.unreachable no_observation).0 in
    record lost {
      view = record lost.view {
        termination_requested = cleanup.requested;
        termination_confirmed = cleanup.termination_confirmed;
        exit_reason = some (ExitReason.unknown (some message));
      };
      updated_at = now;
    }

-- The record that `stop` writes before it asks the worker.
unfoldable pub stop_requested : Bool → SessionRecord → SessionRecord
stop_requested darwin r =
    (transition darwin (record r { view = record r.view { termination_requested = true } })
      LifecycleEvent.stop_requested no_observation).0
