-- ===== src/State.antt =====
-- crates/kernel/src/state.rs: the checkpointed session state. A `Hash` is its text.
pub mod Migration
use grist_agent.Prelude.{ℕ, Bool, Option, List, keep}
use grist_agent.Prelude.Text.{Text}
use grist_agent.Prelude.OrdMap
use grist_agent.Prelude.OrdMap.{OrdMap}
use grist_agent.Content.{Message}
use grist_agent.Task.{Task, is_open}

pub data SessionStatus : Type 0 where
  created running idle suspended done failed : SessionStatus

pub record ActiveProfiles : Type 0 where
  pub model_profile_hash : Text
  pub agent_profile_hash : Text
  pub resolved_profile_hash : Text
  pub project_profile_hash : Option Text
  pub bundles_hash : Option Text

-- What `state_hash` covers: every field but the volatile ones.
pub record Stable : Type 0 where
  pub schema_version : ℕ
  pub turn : ℕ
  pub session_status : SessionStatus
  pub messages : List Message
  pub pending_tasks : OrdMap Text Task
  pub profiles : ActiveProfiles
  pub memory : Option Text
  pub notebook_path : Option Text

pub record State : Type 0 where
  pub stable : Stable
  pub open stable use *
  pub session_id : Text
  pub created_at : Text
  pub sandbox_policy_hash : Text
  pub sandbox_backend : Text

-- `State::open_tasks`, in the order of their ids.
unfoldable pub open_tasks : Stable → List Task
unfolding is_open
open_tasks s = keep is_open (OrdMap.values s.pending_tasks)
