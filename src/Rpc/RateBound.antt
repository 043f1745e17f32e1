-- ===== src/Rpc/RateBound.antt =====
-- What one owner writes through `useInput` of src/daemon/server.ts in any minute.
use opencode_pty.Prelude.{
  ℕ, ◌+◌, ◌*◌, ◌-◌, ◌≤◌, String, str_eq, eq_iff, Bool, ◌&&◌, Option, none, some, List, [], ◌∷◌, leb,
  ltb, if◌then◌else◌, ◌≡◌, ap, inl, inr, arith, Bool-cases,
}
use opencode_pty.Rpc.Result.{Result, ok, err}
use opencode_pty.Rpc.Owner.{OwnerContext}
use opencode_pty.Registry.Maps.{get}
use opencode_pty.Registry.MapLaws.{get-set}
use opencode_pty.Journal.Bytes.{byte_length}
use opencode_pty.Rpc.InputRate.{
  Usage, InputUsage, use_input, usage_key, current_window, max_input_bytes,
  max_input_bytes_per_minute, window_ms,
}

-- A request to write.
pub record Input : Type 0 where
  pub owner : OwnerContext
  pub now : ℕ
  pub content : String

-- The requests are in the order of their times, from a time on.
pub data InTimeOrder : ℕ → List Input → Type 0 where
  none_left : {start : ℕ} → InTimeOrder start []
  at_time :
      {start : ℕ} {input : Input} {inputs : List Input}
      → start ≤ input.now
      → InTimeOrder input.now inputs
      → InTimeOrder start (input ∷ inputs)

abbrev pub after : InputUsage → Result InputUsage → InputUsage
after usages (err code) = usages
after usages (ok used) = used

abbrev pub accepted_bytes : Result InputUsage → ℕ → ℕ
accepted_bytes (err code) bytes = 0
accepted_bytes (ok used) bytes = bytes

abbrev pub in_minute : ℕ → ℕ → Bool
in_minute start now = leb start now && ltb now (start + window_ms)

-- The bytes of the owner with the key that are accepted in the minute from `start` on.
unfoldable pub written : InputUsage → String → ℕ → List Input → ℕ
written usages key start [] = 0
written usages key start (input ∷ inputs) =
    let answer = use_input usages input.owner input.now input.content in
    (if str_eq (usage_key input.owner) key && in_minute start input.now
      then accepted_bytes answer (byte_length input.content)
      else 0)
    + written (after usages answer) key start inputs

-- What an owner may still write in that minute, after the time `now` and with its window.
abbrev room_of : ℕ → Option Usage → ℕ
room_of start none = max_input_bytes_per_minute
room_of start (some usage) =
    (if leb start usage.started_at then 0 else max_input_bytes_per_minute)
    + (max_input_bytes_per_minute - usage.bytes)

unfoldable room : ℕ → ℕ → Option Usage → ℕ
room start now usage =
    if leb (start + window_ms) now
    then 0
    else if ltb now start
    then max_input_bytes_per_minute + max_input_bytes_per_minute
    else room_of start usage

room-later :
    (start : ℕ) {now later : ℕ} (usage : Option Usage)
    → now ≤ later
    → room start later usage ≤ room start now usage
unfolding room
room-later start none h = ground (arith, h)
room-later start (some usage) h = ground (arith, h)

room-double :
    (start now : ℕ) (usage : Option Usage)
    → room start now usage ≤ max_input_bytes_per_minute + max_input_bytes_per_minute
unfolding room
room-double start now none = ground arith
room-double start now (some usage) = ground arith

-- One accepted request uses its bytes of the room.
room-counted :
    (start now bytes : ℕ) (usage : Option Usage)
    → (current_window now usage).bytes + bytes ≤ max_input_bytes_per_minute
    → (if in_minute start now then bytes else 0)
        + room start now (
            some (record (current_window now usage) {
              bytes = (current_window now usage).bytes + bytes;
            }))
      ≤ room start now usage
unfolding room
room-counted start now bytes none h = ground (arith, h)
room-counted start now bytes (some usage) h =
    elim (Bool-cases (leb window_ms (now - usage.started_at))) [
      | inl reset ↦
          let fits : bytes ≤ max_input_bytes_per_minute = ground (arith, reset, h) in
          ground (arith, reset, fits)
      | inr kept ↦ ground (arith, kept, h)
    ]

-- One request leaves the room of an owner at least what it did not use.
written-step :
    (usages : InputUsage) (key : String) (start : ℕ) (input : Input)
    → (if str_eq (usage_key input.owner) key && in_minute start input.now
          then accepted_bytes
              (use_input usages input.owner input.now input.content)
              (byte_length input.content)
          else 0)
        + room start input.now
            (get (after usages (use_input usages input.owner input.now input.content)) key)
      ≤ room start input.now (get usages key)
unfolding use_input
written-step usages key start input =
    let bytes : ℕ = byte_length input.content in
    let current : Usage = current_window input.now (get usages (usage_key input.owner)) in
    elim (Bool-cases (ltb max_input_bytes bytes)) [
      | inl large ↦ ground (arith, large)
      | inr small ↦ elim (Bool-cases (ltb max_input_bytes_per_minute (current.bytes + bytes))) [
        | inl over ↦ ground (arith, small, over)
        | inr fits ↦ elim (Bool-cases (str_eq (usage_key input.owner) key)) [
          | inl same ↦
              let e : usage_key input.owner ≡ key = (eq_iff (usage_key input.owner) key).0 same in
              let counted =
                room-counted start input.now bytes (get usages (usage_key input.owner))
                  (ground (arith, fits)) in
              let kept =
                get-set usages (usage_key input.owner) key
                  (record current { bytes = current.bytes + bytes }) in
              ground (arith, small, fits, same, kept, counted, ap (get usages) e)
          | inr other ↦ ground (
            arith,
            small,
            fits,
            other,
            get-set usages (usage_key input.owner) key
                (record current { bytes = current.bytes + bytes }),
          )
        ]
      ]
    ]

written-room :
    (usages : InputUsage) (key : String) (start : ℕ) {now : ℕ} {inputs : List Input}
    → InTimeOrder now inputs
    → written usages key start inputs ≤ room start now (get usages key)
unfolding written
written-room usages key start InTimeOrder.none_left = ground arith
written-room usages key start {now} (InTimeOrder.at_time {input = input} h order) =
    let answer : Result InputUsage = use_input usages input.owner input.now input.content in
    let rest = written-room (after usages answer) key start order in
    let step = written-step usages key start input in
    let later = room-later start (get usages key) h in ground (arith, rest, step, later)

-- Where requests to write come in the order of their times, the bytes that are accepted from one
-- owner in any minute are at most twice the bound of a window, whatever the other owners send and
-- whatever the windows are before.
pub use_input-Bounded :
    (usages : InputUsage) (key : String) (start : ℕ) {now : ℕ} {inputs : List Input}
    → InTimeOrder now inputs
    → written usages key start inputs ≤ 2 * max_input_bytes_per_minute
use_input-Bounded usages key start {now} order =
    let room_left = written-room usages key start order in
    let double = room-double start now (get usages key) in ground (arith, room_left, double)
