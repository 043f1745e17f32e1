-- ===== src/Registry/Examples.antt =====
-- The theorems on src/daemon/session-registry.ts at an empty registry and one reservation.
use opencode_pty.Prelude.{false, [], ◌∷◌, ◌≡◌, refl, arith}
use opencode_pty.Registry.Limits.{default_session_limits}
use opencode_pty.Registry.Maps.{get}
use opencode_pty.Registry.State.{Registry, key_of}
use opencode_pty.Registry.Input.{InputReservation, reserve_input_for, with_input}
use opencode_pty.Registry.InputAccounts.{Accounts, InLimits, Reserved, reserve_input-Reserved}
use opencode_pty.Registry.Slots.{reserve_for}
use opencode_pty.Registry.Totals.{IsSound, reserve-IsSound}
use opencode_pty.Registry.Waits.{WaitReservation, with_wait, reserve_wait_for}
use opencode_pty.Registry.WaitAccounts
use opencode_pty.Registry.WaitAccounts.{
  Pending, WaitReserved, reserve_wait-WaitReserved, release_wait-Pending,
}
use opencode_pty.Journal.Bytes.{byte_length}

abbrev pub empty_registry : Registry
empty_registry = record {
  records = [];
  owner_slots = [];
  slot_owner_by_session_id = [];
  records_by_owner = [];
  record_owner_by_session_id = [];
  output_by_session_id = [];
  output_by_owner = [];
  output_total = 0;
  waits_by_session = [];
  waits_by_owner = [];
  waits = [];
  next_wait_id = 0;
  input_bytes_by_session = [];
  input_bytes_by_owner = [];
  input_bytes = 0;
}

empty-Accounts : Accounts empty_registry []
unfolding get
empty-Accounts = record { by_session = λ id. refl; by_owner = λ owner. refl; total = refl }

empty-InLimits : InLimits default_session_limits empty_registry
unfolding get
empty-InLimits = record {
  session_limit = λ id. omega arith;
  owner_limit = λ owner. omega arith;
  total_limit = omega arith;
}

reserve_input-Reserved_example :
    Reserved default_session_limits []
      (reserve_input_for default_session_limits empty_registry "s" "o" 100)
reserve_input-Reserved_example =
    reserve_input-Reserved default_session_limits empty_registry "s" "o" 100 [] empty-Accounts
      empty-InLimits

abbrev reserved_input : InputReservation
reserved_input = record { session_id = "s"; owner_key = "o"; bytes = 100; released = false }

abbrev one_reserved : Registry
one_reserved = with_input empty_registry "s" "o" 100

one_reserved-Accounts : Accounts one_reserved (reserved_input ∷ [])
unfolding reserve_input_for get
one_reserved-Accounts =
    (reserve_input-Reserved default_session_limits empty_registry "s" "o" 100 [] empty-Accounts
      empty-InLimits).0

empty-IsSound : IsSound default_session_limits empty_registry
empty-IsSound = record {
  active = omega arith;
  recorded = omega arith;
  retained = omega arith;
  distinct = tt;
  total = refl;
}

reserve-IsSound_example :
    IsSound default_session_limits
      (reserve_for default_session_limits empty_registry "s" "o" 1000000 32).0
reserve-IsSound_example =
    reserve-IsSound default_session_limits empty_registry "s" "o" 1000000 32 empty-IsSound

empty-Pending : Pending empty_registry []
unfolding get
empty-Pending = record { all = refl; by_session = λ id. refl; by_owner = λ owner. refl; ids = tt }

no_waits-InLimits : WaitAccounts.InLimits default_session_limits empty_registry
unfolding get
no_waits-InLimits = record {
  session_limit = λ id. omega arith;
  owner_limit = λ owner. omega arith;
  total_limit = omega arith;
}

abbrev reserved_wait : WaitReservation
reserved_wait = record { id = 0; session_id = "s"; owner_key = "o"; released = false }

one_wait-Pending : Pending (with_wait empty_registry "s" "o") (reserved_wait ∷ [])
unfolding reserve_wait_for get
one_wait-Pending =
    (reserve_wait-WaitReserved default_session_limits empty_registry "s" "o" [] empty-Pending
      no_waits-InLimits).0

-- The separator is one character.
key_bytes : byte_length (key_of "a" "b" "c") ≡ 5
unfolding byte_length key_of
key_bytes = refl
