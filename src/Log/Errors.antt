-- ===== src/Log/Errors.antt =====
-- crates/kernel/src/log/mod.rs: the errors of the event log and of a restore.
use grist_agent.Prelude.{ℕ}
use grist_agent.Prelude.Text.{Text}
use grist_agent.State.Migration.{MigrationError}

pub data LogError : Type 0 where
  io : Text → LogError
  malformed : ℕ → Text → LogError
  seq_order : ℕ → ℕ → LogError
  wrong_session : Text → Text → LogError
  newer_schema : ℕ → ℕ → LogError
  closed : LogError

pub data RestoreError : Type 0 where
  not_found : Text → RestoreError
  hash_mismatch : Text → Text → RestoreError
  migration : MigrationError → RestoreError
  log_failure : LogError → RestoreError
