-- ===== src/Registry/Limits.antt =====
-- `SessionLimits` and `DEFAULT_SESSION_LIMITS` (src/daemon/limits.ts).
use opencode_pty.Prelude.{ℕ, ◌*◌}

pub record SessionLimits : Type 0 where
  pub max_active_sessions : ℕ
  pub max_records_per_owner : ℕ
  pub max_records : ℕ
  pub max_pending_waits_per_session : ℕ
  pub max_pending_waits_per_owner : ℕ
  pub max_pending_waits : ℕ
  pub max_queued_input_bytes_per_session : ℕ
  pub max_queued_input_bytes_per_owner : ℕ
  pub max_queued_input_bytes : ℕ
  pub max_retained_output_bytes_per_owner : ℕ
  pub max_retained_output_bytes : ℕ
  pub terminal_retention_seconds : ℕ

abbrev pub max_output_bytes : ℕ
max_output_bytes = 64 * 1024 * 1024

abbrev pub default_session_limits : SessionLimits
default_session_limits = record {
  max_active_sessions = 64;
  max_records_per_owner = 64;
  max_records = 128;
  max_pending_waits_per_session = 8;
  max_pending_waits_per_owner = 32;
  max_pending_waits = 128;
  max_queued_input_bytes_per_session = 64 * 1024;
  max_queued_input_bytes_per_owner = 256 * 1024;
  max_queued_input_bytes = 1024 * 1024;
  max_retained_output_bytes_per_owner = 64 * 1024 * 1024;
  max_retained_output_bytes = 128 * 1024 * 1024;
  terminal_retention_seconds = 24 * 60 * 60;
}
