-- ===== src/Kernel/Answers.antt =====
-- loop_/tasks.rs and `Kernel::end`: how often the conversation answers a task.
use grist_agent.Prelude.{
  ℕ, ◌+◌, ◌≡◌, inl, inr, Bool, true, false, Option, none, some, List, [], ◌∷◌, ◌++◌, arith,
  Bool-cases, if◌then◌else◌,
}
use grist_agent.Prelude.OrdMap
use grist_agent.Prelude.OrdMap.{OrdMap}
use grist_agent.Prelude.Order.{nat_order, list_order}
use grist_agent.Prelude.Text.{Text, same, same_iff, same_refl}
use grist_agent.Content.{ContentBlock, task_result, ToolResultContent, Message, TaskStatus}
use grist_agent.Task.{Task, is_open}
use grist_agent.Kernel.{Kernel}
use grist_agent.Kernel.Tasks.{result_message}

-- The number of `task_result` blocks that answer a task.
abbrev pub block_answers : Text → ContentBlock → ℕ
block_answers id (task_result task_id tool_use_id status content is_error) =
    if same task_id id then 1 else 0
block_answers id _ = 0

abbrev pub content_answers : Text → List ContentBlock → ℕ
content_answers id [] = 0
content_answers id (b ∷ bs) = block_answers id b + content_answers id bs

abbrev pub answers : Text → List Message → ℕ
answers id [] = 0
answers id (m ∷ ms) = content_answers id m.content + answers id ms

abbrev pub owed : Option Task → ℕ
owed none = 0
owed (some t) = if is_open t then 0 else 1

-- Every task is filed under its own id; the conversation answers a terminal task exactly once, and
-- answers neither an open task nor an id that names no task.
pub record IsAnswered (tasks : OrdMap Text Task) (messages : List Message) : Type 0 where
  pub filed : (id : Text) (t : Task) → OrdMap.get id tasks ≡ some t → t.id ≡ id
  pub answered : (id : Text) → answers id messages ≡ owed (OrdMap.get id tasks)

abbrev pub AnsweredIn : Kernel → Type 0
AnsweredIn k = IsAnswered k.state.stable.pending_tasks k.state.stable.messages

answers-snoc :
    (id : Text) (ms : List Message) (m : Message)
    → answers id (ms ++ m ∷ []) ≡ answers id ms + content_answers id m.content
answers-snoc id [] m = omega arith
answers-snoc id (n ∷ ms) m = let ih = answers-snoc id ms m in omega arith

module _ (tasks : OrdMap Text Task) (ms : List Message) (id : Text) (t t' : Task)
    (found : OrdMap.get id tasks ≡ some t) (same_id : t'.id ≡ t.id) where
  adjusted-filed :
      IsAnswered tasks ms
      → (i : Text) (s : Task) → OrdMap.get i (OrdMap.adjust id (λ _. t') tasks) ≡ some s
      → s.id ≡ i
  adjusted-filed h i s e = elim (Bool-cases (same i id)) [
    | inl y ↦ ground (
      arith,
      OrdMap.get-adjust i id (λ _. t') tasks t found,
      (same_iff i id).0 y,
      h.filed id t found,
    )
    | inr n ↦ ground (arith, OrdMap.get-adjust i id (λ _. t') tasks t found, h.filed i s)
  ]

  -- A write that leaves an open task open, or a terminal one terminal.
  pub rewritten-IsAnswered :
      is_open t' ≡ is_open t
      → IsAnswered tasks ms
      → IsAnswered (OrdMap.adjust id (λ _. t') tasks) ms
  rewritten-IsAnswered o h = record {
    filed = adjusted-filed h;
    answered = λ i. elim (Bool-cases (same i id)) [
      | inl y ↦ ground (
        arith,
        OrdMap.get-adjust i id (λ _. t') tasks t found,
        (same_iff i id).0 y,
        h.answered id,
      )
      | inr n ↦ ground (arith, OrdMap.get-adjust i id (λ _. t') tasks t found, h.answered i)
    ];
  }

  -- An open task that becomes terminal together with its result.
  pub settled-IsAnswered :
      (status : TaskStatus) (content : ToolResultContent) (is_error : Bool)
      → is_open t ≡ true
      → is_open t' ≡ false
      → IsAnswered tasks ms
      → IsAnswered
          (OrdMap.adjust id (λ _. t') tasks)
          (ms ++ result_message t status content is_error ∷ [])
  settled-IsAnswered status content is_error o c h = record {
    filed = adjusted-filed h;
    answered = λ i. elim (Bool-cases (same i id)) [
      | inl y ↦ ground (
        arith,
        OrdMap.get-adjust i id (λ _. t') tasks t found,
        (same_iff i id).0 y,
        h.answered id,
        h.filed id t found,
        same_refl id,
        answers-snoc i ms (result_message t status content is_error),
      )
      | inr n ↦ ground (
        arith,
        OrdMap.get-adjust i id (λ _. t') tasks t found,
        h.answered i,
        h.filed id t found,
        same_iff id i,
        same_iff i id,
        answers-snoc i ms (result_message t status content is_error),
      )
    ];
  }
