-- ===== src/Lib.antt =====
-- Verification of opencode-pty: the daemon that runs terminal sessions for OpenCode.
--
-- The daemon keeps a record for every session, runs the session's process through a worker, keeps
-- its output in a journal on disk, and answers requests of the plugin over a local socket. Some
-- commands need the user's approval, which the daemon keeps in a ledger of its own.
--
-- Parts and files:
-- Session: the data of src/daemon/types.ts, a record for an interface and a data type for a tagged
--   union. Evidence holds what was observed of the process, State the lifecycle state and its flat
--   view, Record the session record and the output chunk.
-- Lifecycle: src/daemon/lifecycle.ts. Reduce has `reduceSessionState` and `reduceDaemonStatus`,
--   Project `projectSessionState`, Refresh `refreshSessionState` and `sessionStateFromCompatibility`.
--   A result `none` of a reducer is its `invalid_transition`. `darwin` is the platform test.
-- Storage: `validV2State` of src/daemon/storage.ts, the test that a persisted state must pass.
-- Supervisor: src/daemon/supervisor.ts. Transition has `transition`, which puts the reducer, the
--   refresh and the projection together; Snapshot what is read off a worker's snapshot, Finish what
--   it makes of the record, Cleanup when a session is deleted, Waits what a wait asks for and
--   when it is matched, Pending who waits and the
--   loop of `resolveExitWaits`, which a look that throws ends, Reuse which session `idempotentSession` gives back. The answers of workers and files, whether a write
--   succeeds, whether the record is still there when `deleteNativeSession` runs, and the regular expressions of the language are arguments.
-- Environment: the environment of a session's process in src/daemon/supervisor.ts. Keys has the tests
--   of a variable's name, Runtime what a command is given.
-- Rpc: the requests of src/daemon/server.ts. Body has `requestBody`, Payload and Numbers the payload
--   readers over a data type of JSON values, Owner who the owner of a request is, InputRate
--   `useInput`, Spawn the payloads of spawn, exec and waits, and Dispatch `dispatch`, which answers
--   the call of the supervisor or of an approval handler (Calls) and the input counted so far, and
--   Handle the checks of `handle` and `classifyRpcFailure`. The digest and the real path of a directory are fields of `Server`.
-- Approvals: the approval handlers of src/daemon/server.ts. Ledger has the data, Refresh what the
--   clock does, Queue the read and write of `withApprovals`, and Create, Decide, Consume and Listing
--   the handlers, each as a function from the daemon's approval state to the new state and an answer.
--   Calls puts them together as the steps of a run. Times are milliseconds, and a handler reads the
--   clock once. Random ids and tokens are arguments. Unicode normalization, real paths and the digest
--   are fields of `Host`, about which nothing is assumed.
-- Journal: the output journal of src/daemon/storage.ts (Bytes, Segments, Retain, and Reconcile for
--   the counters a session gets on load) and the reader of src/daemon/journal-reader.ts (Lines). A
--   directory is the list of its parsed segment files in the order of their names; every file write
--   is complete when the next begins. `toLowerCase` is an argument. Texts are sequences of Unicode
--   scalar values.
-- Registry: src/daemon/session-registry.ts with the limits of src/daemon/limits.ts. State has the maps
--   and what a session occupies, Slots the reservations of sessions, Waits and Input those of waits
--   and of queued input. `reserve_for`, `reserve_wait_for` and `reserve_input_for` take the id, the
--   owner's key and the output of a record, which `reserve`, `reserve_wait` and `reserve_input` pass.
-- Permissions: src/plugin/pty/permissions.ts and wildcard.ts. Policy has the configuration, its rules
--   and `evaluate`, Authorize the two authorizers with `worktreeBoundary` and the test of an outside
--   directory, over a `Host` with git's answer, `realpath` and the functions of node:path, Wildcard the matcher over UTF-16 code units, Pattern what a pattern means.
-- Router: the promise chains of src/daemon/session-router.ts (Lanes). A task is the number of its
--   call; `Turn` is what the event loop may do next, in any order. Invariant, Order and Progress
--   are about the runs.
-- Worker: the redaction of src/daemon/worker-client.ts (Redact), over code points; Cut is about
--   where a text is divided, Places about where a secret stands, Stream about a text that comes in
--   pieces.
-- Text: src/plugin/pty/xml.ts. Xml has `escapeXml` over code points, Reading what a reader of the
--   printed text gets.
--
-- Numbers are natural numbers: sequences, sizes and times of the source are non-negative safe integers,
-- and a subtraction of the source whose result may be negative is guarded as the source guards it.
-- The loops of the source run over lists and are structural recursions; the only fuel is that of
-- `read_all`, a client that asks for page after page, which is shown to need one unit for each line.
--
-- Not modelled: sockets, processes, file-system calls and their failures, the texts of errors,
-- the worker client's sockets, the start lock between processes, the decoders of older session
-- files, what the supervisor answers to a call of `dispatch` beyond the operations above, the
-- plugin's tools and the user interface.
mod Prelude
pub mod Session
pub mod Lifecycle
pub mod Storage
pub mod Supervisor
pub mod Rpc
pub mod Approvals
pub mod Journal
pub mod Registry
pub mod Permissions
pub mod Text
pub mod Router
pub mod Worker
pub mod Environment
