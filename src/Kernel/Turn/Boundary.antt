-- ===== src/Kernel/Turn/Boundary.antt =====
-- loop_/turn.rs: the body of a turn, and the status that its boundary chooses.
use mathlib.Core.List.Memᴰ
use grist_agent.Prelude.Sort.{member-sort, sort-member, length-sort}
use grist_agent.Prelude.Text.{Text}
use grist_agent.Prelude.{
  ℕ, suc, inl, inr, sym, ap, ◌∙◌, map, keep, length, Memᴰ, ◌≡◌, ◌≢◌, refl, Bool, true, false, List,
  [], ◌∷◌,
}
use grist_agent.Prelude.Exec.Ends.{Ends, Ends-pure, Ends-gets, Ends-modify, Ends-bind, Ends-any}
use grist_agent.Task.{Task}
use grist_agent.State.{SessionStatus, created, running, idle, suspended, done, failed, open_tasks}
use grist_agent.Tool.{ToolCall}
use grist_agent.Event.{before_model}
use grist_agent.Kernel.{Kernel, Suspension, suspension, set_status}
use grist_agent.Kernel.Status.{is_running, is_some}
use grist_agent.Kernel.Writes.{IsUnlogged, log-Keeps, checkpoint-Keeps}
use grist_agent.Kernel.Turn.{Session, Shared, Abort, fatal, abort_of, log_event, poll, check_cancel}
use grist_agent.Prelude.Exec.{gets}
use grist_agent.ModelCall.{tool_calls}
use grist_agent.Kernel.Turn.Calls.{run_tool_calls}
use grist_agent.Kernel.Turn.Requests.{prepared_request}
use grist_agent.Kernel.Turn.Body.{
  TurnOutcome, continues, idles, cancelled_turn, suspends, fails, next_status, outcome_of, received,
  finish_turn, turn_body,
}
use grist_agent.Kernel.Turn.Pairing.{lift-Ends}

abbrev pub settled_status : TurnOutcome → SessionStatus
settled_status continues = running
settled_status idles = idle
settled_status cancelled_turn = idle
settled_status (suspends s) = suspended
settled_status (fails class) = failed

-- A suspension that names just the open tasks, each id once for its task, and counts those whose
-- waker runs in this process.
pub record IsListing (s : Suspension) (ts : List Task) : Type 0 where
  pub listed : (t : Task) → Memᴰ t ts → Memᴰ t.id s.pending_task_ids
  pub nothing_else : (id : Text) → Memᴰ id s.pending_task_ids → (t : Task) × Memᴰ t ts × (t.id ≡ id)
  pub as_many : length s.pending_task_ids ≡ length ts
  pub wakers : s.in_process_wakers ≡ length (keep (λ t. t.in_process_waker) ts)

map-member :
    (ts : List Task) (id : Text)
    → Memᴰ id (map (λ t. t.id) ts)
    → (t : Task) × Memᴰ t ts × (t.id ≡ id)
map-member [] id m = elim m [ ]
map-member (t ∷ ts) id m = elim (Memᴰ.cases_cons m) [
  | inl e ↦ (t, Memᴰ.head refl, sym e)
  | inr r ↦ let (u, n, e) = map-member ts id r in (u, Memᴰ.tail n, e)
]

member-map : (t : Task) (ts : List Task) → Memᴰ t ts → Memᴰ t.id (map (λ u. u.id) ts)
member-map t [] m = elim m [ ]
member-map t (u ∷ ts) m = elim (Memᴰ.cases_cons m) [
  | inl e ↦ Memᴰ.head (ap (λ (x : Task). x.id) e)
  | inr r ↦ Memᴰ.tail (member-map t ts r)
]

length-map : (ts : List Task) → length (map (λ t. t.id) ts) ≡ length ts
length-map [] = refl
length-map (t ∷ ts) = ap suc (length-map ts)

suspension-IsListing : (k : Kernel) → IsListing (suspension k) (open_tasks k.state.stable)
unfolding suspension
suspension-IsListing k =
    let ts = open_tasks k.state.stable in
    record {
      listed = λ t m. member-sort _ t.id _ (member-map t ts m);
      nothing_else = λ id m. map-member ts id (sort-member _ id _ m);
      as_many = length-sort _ (map (λ t. t.id) ts) ∙ length-map ts;
      wakers = refl;
    }

-- An idle session waits for no task, a suspended one for those that the outcome lists.
abbrev pub WaitsFor : TurnOutcome → Kernel → Type 0
WaitsFor idles k = open_tasks k.state.stable ≡ []
WaitsFor (suspends s) k = (open_tasks k.state.stable ≢ []) × IsListing s (open_tasks k.state.stable)
WaitsFor _ k = Unit

-- The kernel after a turn with an outcome.
pub record IsSettled (o : TurnOutcome) (k : Kernel) : Type 0 where
  pub status : k.state.stable.session_status ≡ settled_status o
  pub mirrored : k.status ≡ settled_status o
  pub token : is_some k.turn_token ≡ is_running (settled_status o)
  pub waits : WaitsFor o k

-- The statuses that the boundary of a turn chooses, by the tasks that are open.
abbrev Shape : SessionStatus → List Task → Type 0
Shape running ts = Unit
Shape idle ts = ts ≡ []
Shape suspended ts = ts ≢ []
Shape _ ts = ⊥

next_status-Shape :
    (drained : Bool) (calls : List ToolCall) (ts : List Task)
    → Shape (next_status drained calls ts) ts
unfolding next_status
next_status-Shape true calls ts = tt
next_status-Shape false (c ∷ cs) ts = tt
next_status-Shape false [] [] = refl
next_status-Shape false [] (t ∷ ts) = λ e. cc e

abbrev pub At : SessionStatus → Kernel → Type 0
At s k = (k.state.stable.session_status ≡ s) × (k.status ≡ s)

abbrev Chosen : SessionStatus → Kernel → Type 0
Chosen s k = At s k × Shape s (open_tasks k.state.stable)

-- What the body of a turn leaves.
abbrev pub Ended : TurnOutcome → Session → Type 0
Ended (fails class) s = ⊥
Ended cancelled_turn s = ⊥
Ended o s = At (settled_status o) s.kernel × WaitsFor o s.kernel

abbrev pub Ignored : Abort → Session → Type 0
Ignored a s = Unit

Chosen-IsUnlogged : (s : SessionStatus) → IsUnlogged (Chosen s)
Chosen-IsUnlogged s = record { written = λ k es h. h; faulty = λ k fs h. h; hashed = λ k hash h. h }

abbrev Listed : Suspension → Kernel → Type 0
Listed s k = Chosen suspended k × IsListing s (open_tasks k.state.stable)

Listed-IsUnlogged : (s : Suspension) → IsUnlogged (Listed s)
Listed-IsUnlogged s = record { written = λ k es h. h; faulty = λ k fs h. h; hashed = λ k hash h. h }

module _ (sh : Shared) where
  outcome_of-Ends :
      (turn : ℕ) (s : SessionStatus)
      → Ends (λ t. Chosen s t.kernel) (outcome_of sh turn s) Ended Ignored
  unfolding log_event
  outcome_of-Ends turn running = Ends-pure _ (λ t h. (h.0, tt))
  outcome_of-Ends turn idle = Ends-pure _ (λ t h. (h.0, h.1))
  outcome_of-Ends turn created = Ends-pure _ (λ t h. elim h.1 [ ])
  outcome_of-Ends turn done = Ends-pure _ (λ t h. elim h.1 [ ])
  outcome_of-Ends turn failed = Ends-pure _ (λ t h. elim h.1 [ ])
  outcome_of-Ends turn suspended =
      Ends-bind _ _ (Ends-modify {Q = λ t. Chosen suspended t.kernel} _ (λ t h. h)) λ _.
        Ends-bind _ _
          (Ends-gets {Q = λ s t. Listed s t.kernel} (λ t. suspension t.kernel)
            (λ t h. (h, suspension-IsListing t.kernel)))
          λ s.
            Ends-bind _ _
              (lift-Ends (Listed s) (abort_of sh) _ (λ e t. tt) (log-Keeps (Listed-IsUnlogged s) _))
              λ _. Ends-pure _ (λ t h. (h.0.0, (h.0.1, h.1)))

  finish_turn-Ends :
      (turn : ℕ) (calls : List ToolCall)
      → Ends (λ _. Unit) (finish_turn sh turn calls) Ended Ignored
  unfolding finish_turn set_status open_tasks
  finish_turn-Ends turn calls = Ends-bind _ _ (Ends-any _) λ drained.
      Ends-bind _ _
        (Ends-gets {Q = λ next t. Shape next (open_tasks t.kernel.state.stable)} _
          (λ t h. next_status-Shape drained calls (open_tasks t.kernel.state.stable)))
        λ next.
          Ends-bind _ _ (Ends-modify {Q = λ t. Chosen next t.kernel} _ (λ t h. ((refl, refl), h)))
            λ _.
              Ends-bind _ _
                (lift-Ends (Chosen next) fatal _ (λ e t. tt)
                  (checkpoint-Keeps (Chosen-IsUnlogged next) sh.externals _))
                λ _. outcome_of-Ends turn next

  pub turn_body-Ends : Ends (λ _. Unit) (turn_body sh) Ended Ignored
  unfolding turn_body
  turn_body-Ends =
      Ends-bind _ _ (Ends-any (gets (λ (s : Session). s.kernel.state.stable.turn))) λ turn.
        Ends-bind _ _ (Ends-any (check_cancel poll before_model)) λ _.
          Ends-bind _ _ (Ends-any (prepared_request sh turn)) λ r.
            Ends-bind _ _ (Ends-any (received sh turn r.0 r.1)) λ resp.
              Ends-bind _ _ (Ends-any (run_tool_calls sh turn (tool_calls resp)))
                λ _. finish_turn-Ends turn (tool_calls resp)
