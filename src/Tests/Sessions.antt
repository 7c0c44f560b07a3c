-- ===== src/Tests/Sessions.antt =====
-- crates/kernel/src/loop_: a session with one task that runs and one that has ended.
use grist_agent.Prelude.{
  ◌≡◌, ◌≢◌, refl, inl, inr, true, false, Option, none, some, List, [], ◌∷◌, ok, sym, Bool-cases,
}
use grist_agent.Prelude.OrdMap
use grist_agent.Prelude.Order.{nat_order, list_order}
use grist_agent.Prelude.Text.{Text, codes, same, same_iff}
use grist_agent.Content.{string, null, Message, succeeded, running as task_running, json}
use grist_agent.Task.{Task, TaskUpdate, TaskOutcome, is_open, is_terminal}
use grist_agent.State.{SessionStatus, idle, done}
use grist_agent.Event.{at_idle, idle_phase}
use grist_agent.Kernel.{Kernel, Externals}
use grist_agent.Kernel.Tasks.{apply_task_update, apply_cancel_task, result_message}
use grist_agent.Kernel.Lifecycle.{end_session}
use grist_agent.Kernel.Mode.{mode}
use grist_agent.Kernel.Status.{
  IsSynced, ending, suspending, run_call, run_call-IsSynced, Moves, run_call-Moves,
}
use grist_agent.Kernel.Answers.{IsAnswered, AnsweredIn}
use grist_agent.Kernel.Answered.{tasks_answered_once}
use grist_agent.Kernel.Delivery.{settled, refused_changes_nothing, IsDelivered, outcome-IsDelivered}
use grist_agent.Kernel.Ending.{IsEnded, end_session-returns}

abbrev pub build : Text
build = codes "build"

abbrev pub outcome : TaskOutcome
outcome = record {
  content = json (string (codes "built"));
  is_error = false;
  artifact_handles = [];
}

abbrev pub open_task : Task
open_task = record {
  id = build;
  tool_use_id = codes "call";
  tool_name = codes "shell";
  status = task_running;
  started_turn = 1;
  completed_turn = none;
  eta = none;
  check_hint = none;
  description = none;
  outcome = none;
  in_process_waker = true;
}

abbrev ended_task : Task
ended_task = record open_task {
  status = succeeded;
  completed_turn = some 1;
  outcome = some outcome;
}

abbrev pub session : SessionStatus → Task → List Message → Kernel
session status task messages = record {
  state = record {
    stable = record {
      schema_version = 1;
      turn = 1;
      session_status = status;
      messages = messages;
      pending_tasks = (build, task) ∷ [];
      profiles = record {
        model_profile_hash = codes "b3:m";
        agent_profile_hash = codes "b3:a";
        resolved_profile_hash = codes "b3:r";
        project_profile_hash = none;
        bundles_hash = none;
      };
      memory = none;
      notebook_path = none;
    };
    session_id = codes "s";
    created_at = codes "t";
    sandbox_policy_hash = codes "b3:p";
    sandbox_backend = codes "none";
  };
  checkpoint_hash = codes "b3:0";
  inbox = [];
  status = status;
  turn_token = none;
  session_cancelled = false;
  wakers = build ∷ [];
  session_procs = [];
  last_error_class = none;
  events = [];
  log_faults = [];
}

abbrev pub waiting : Kernel
waiting = session idle open_task []

abbrev settled_session : Kernel
settled_session =
    session idle ended_task
      (result_message ended_task succeeded (json (string (codes "built"))) false ∷ [])

abbrev plain : Externals
plain = record {
  redact_message = some;
  redact_update = some;
  digest = λ st. some (codes "b3:1");
  last_seq = λ es. 0;
}

abbrev update : TaskUpdate
update = record {
  id = build;
  status = succeeded;
  outcome = some outcome;
  eta = none;
  check_hint = none;
  source = record { kind = codes "in_process_exit"; trust_tier = none; detail = null };
}

running_open : is_open open_task ≡ true
unfolding is_open
running_open = refl

ended_closed : is_open ended_task ≡ false
unfolding is_open
ended_closed = refl

waiting_filed :
    (id : Text) (t : Task) → OrdMap.get id waiting.state.stable.pending_tasks ≡ some t → t.id ≡ id
waiting_filed id t e = elim (Bool-cases (same id build)) [
  | inl y ↦
      let p : ◌≡◌ {A = Option Task} (some open_task) (some t) = rw y at e in
      let q : open_task ≡ t = cc in rw (sym q) (sym ((same_iff id build).0 y))
  | inr n ↦ absurd (none_some t (rw n at e))
]
  where
    none_some : (t : Task) → ◌≡◌ {A = Option Task} none (some t) → ⊥
    none_some t h = cc

waiting-IsAnswered : IsAnswered waiting.state.stable.pending_tasks waiting.state.stable.messages
waiting-IsAnswered = record {
  filed = waiting_filed;
  answered = λ id. elim (Bool-cases (same id build)) [
    | inl y ↦ rw (y, running_open) refl
    | inr n ↦ rw n refl
  ];
}

tasks_answered_once_example :
    AnsweredIn (apply_task_update plain update at_idle waiting).1
    × AnsweredIn (apply_cancel_task build idle_phase waiting).1
    × AnsweredIn (end_session plain waiting).1
tasks_answered_once_example =
    tasks_answered_once plain update at_idle build idle_phase waiting waiting-IsAnswered

run_call-IsSynced_example : IsSynced (mode (run_call plain ending waiting))
run_call-IsSynced_example =
    run_call-IsSynced plain ending waiting (record { mirrored = refl; token = refl })

run_call-Moves_example :
    Moves plain waiting.inbox suspending idle
      (run_call plain suspending waiting).state.stable.session_status
run_call-Moves_example = run_call-Moves plain suspending waiting

refused_changes_nothing_example :
    ((apply_task_update plain update at_idle settled_session).1.state ≡ settled_session.state)
    × ((apply_task_update plain update at_idle settled_session).1.wakers ≡ settled_session.wakers)
refused_changes_nothing_example =
    refused_changes_nothing plain update update at_idle settled_session refl
      (settled ended_task refl ended_closed)

success_terminal : is_terminal succeeded ≡ true
unfolding is_terminal
success_terminal = refl

outcome-IsDelivered_example :
    IsDelivered update open_task outcome waiting
      (apply_task_update plain update at_idle waiting).1.state
      (apply_task_update plain update at_idle waiting).1.wakers
outcome-IsDelivered_example =
    outcome-IsDelivered plain update update open_task outcome at_idle waiting refl refl running_open
      success_terminal refl

idle_not_done : idle ≢ done
idle_not_done e = cc

end_session-returns_example :
    ((end_session plain waiting).0 ≡ ok tt) × IsEnded (end_session plain waiting).1
end_session-returns_example =
    end_session-returns plain waiting (λ st. (codes "b3:1", refl)) refl waiting_filed idle_not_done
