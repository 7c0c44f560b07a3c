-- ===== src/Kernel/Writes.antt =====
-- loop_/mod.rs: a property of the kernel that does not read the log is kept by what only logs.
use grist_agent.Prelude.{Bool, true, false, Option, none, some, List, [], ◌∷◌}
use grist_agent.Prelude.Exec.{Keeps, Keeps-raise, Keeps-gets, Keeps-modify, Keeps-bind}
use grist_agent.Prelude.Text.{Text}
use grist_agent.Event.{EventBody, CheckpointReason}
use grist_agent.Kernel.{Kernel, Externals, append, log, write_checkpoint, checkpoint}

-- `P` reads neither the log, nor the faults to come, nor the hash of the last checkpoint.
pub record IsUnlogged (P : Kernel → Type 0) : Type 0 where
  pub written : (k : Kernel) (es : List EventBody) → P k → P (record k { events = es })
  pub faulty : (k : Kernel) (fs : List Bool) → P k → P (record k { log_faults = fs })
  pub hashed : (k : Kernel) (h : Text) → P k → P (record k { checkpoint_hash = h })

module _ {P : Kernel → Type 0} (u : IsUnlogged P) where
  append-Keeps : (fs : List Bool) (body : EventBody) (k : Kernel) → P k → P (append fs body k).1
  append-Keeps [] body k h = u.written k _ h
  append-Keeps (false ∷ fs) body k h = u.faulty _ fs (u.written k _ h)
  append-Keeps (true ∷ fs) body k h = u.faulty k fs h

  pub log-Keeps : (body : EventBody) → Keeps P (log body)
  unfolding log
  log-Keeps body = record { at = λ k h. append-Keeps k.log_faults body k h }

  write_checkpoint-Keeps :
      (ext : Externals) (reason : CheckpointReason) (hash : Option Text)
      → Keeps P (write_checkpoint ext reason hash)
  write_checkpoint-Keeps ext reason none = Keeps-raise _
  write_checkpoint-Keeps ext reason (some hash) =
      Keeps-bind _ _ (Keeps-gets _)
        λ k. Keeps-bind _ _ (log-Keeps _) λ _. Keeps-modify _ (λ s h. u.hashed s hash h)

  pub checkpoint-Keeps :
      (ext : Externals) (reason : CheckpointReason) → Keeps P (checkpoint ext reason)
  unfolding checkpoint
  checkpoint-Keeps ext reason = record {
    at = λ k h. (write_checkpoint-Keeps ext reason (ext.digest k.state.stable)).at k h;
  }
