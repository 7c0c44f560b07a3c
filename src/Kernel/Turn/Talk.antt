-- ===== src/Kernel/Turn/Talk.antt =====
-- The conversation that a provider accepts: after an assistant message, its tool uses are answered
-- in their order, one by one, before any other message. What the kernel does between the turns'
-- calls (loop_/tasks.rs and the inbox of loop_/mod.rs) keeps it.
use grist_agent.Prelude.{
  ◌≡◌, refl, ap, ◌∙◌, Bool, true, false, Option, none, some, List, [], ◌∷◌, ◌++◌, if◌then◌else◌,
}
use grist_agent.Prelude.Exec.{Keeps}
use grist_agent.Prelude.Order.{nat_order, list_order}
use grist_agent.Prelude.Text.{Text, same, same_refl}
use grist_agent.Content.{
  ContentBlock, tool_use, tool_result, Role, system, user, assistant, tool_role, Message,
}
use grist_agent.Kernel.{Kernel, Externals}
use grist_agent.Kernel.Lifecycle.{drain_inbox_end_of_turn}
use grist_agent.Kernel.Writes.{IsUnlogged}
use grist_agent.Kernel.Drains.{IsDrainable, FromUser, FromUser-rest, KeepsRole}
use grist_agent.Kernel.Drains

abbrev pub uses : List ContentBlock → List Text
uses [] = []
uses (tool_use id name input ∷ bs) = id ∷ uses bs
uses (b ∷ bs) = uses bs

abbrev result_for : Text → List ContentBlock → Bool
result_for id (tool_result j content is_error ∷ []) = same j id
result_for id _ = false

abbrev answers : Text → Role → List ContentBlock → Bool
answers id tool_role content = result_for id content
answers id _ content = false

abbrev opened : Role → List ContentBlock → Option (List Text)
opened assistant content = some (uses content)
opened tool_role content = none
opened system content = some []
opened user content = some []

-- The tool uses that wait for an answer after one more message, if it may come there.
abbrev pub after_message : List Text → Message → Option (List Text)
after_message [] m = opened m.role m.content
after_message (id ∷ ids) m = if answers id m.role m.content then some ids else none

abbrev pub scan : Option (List Text) → List Message → Option (List Text)
scan none ms = none
scan (some ids) [] = some ids
scan (some ids) (m ∷ ms) = scan (after_message ids m) ms

-- The conversation is acceptable, and its last tool uses that wait for an answer are these.
abbrev pub Awaits : List Text → List Message → Type 0
Awaits ids ms = scan (some []) ms ≡ some ids

-- Every tool use has its answer.
abbrev pub IsPaired : List Message → Type 0
IsPaired = Awaits []

scan-snoc :
    (w : Option (List Text)) (ms : List Message) (m : Message) {ids : List Text}
    → scan w ms ≡ some ids
    → scan w (ms ++ m ∷ []) ≡ after_message ids m
scan-snoc none ms m h = cc
scan-snoc (some ids) [] m h = one (after_message ids m) ∙ ap (λ o. unwrapped o m) h
  where
    unwrapped : Option (List Text) → Message → Option (List Text)
    unwrapped none m = none
    unwrapped (some ids) m = after_message ids m

    one : (w : Option (List Text)) → scan w [] ≡ w
    one none = refl
    one (some ids) = refl
scan-snoc (some ids) (n ∷ ms) m h = scan-snoc (after_message ids n) ms m h

pub Awaits-snoc :
    (ids next : List Text) (ms : List Message) (m : Message)
    → Awaits ids ms
    → after_message ids m ≡ some next
    → Awaits next (ms ++ m ∷ [])
Awaits-snoc ids next ms m h e = scan-snoc (some []) ms m h ∙ e

pub result_for_self : (id : Text) → same id id ≡ true
result_for_self id = same_refl id

-- A property of the conversation, of the kernel, whose inbox holds only what users send.
abbrev pub Said : (List Message → Type 0) → Kernel → Type 0
Said Q k = Q k.state.stable.messages × FromUser k.inbox

pub Said-IsUnlogged : (Q : List Message → Type 0) → IsUnlogged (Said Q)
Said-IsUnlogged Q = record { written = λ k es h. h; faulty = λ k fs h. h; hashed = λ k hash h. h }

user_after : (m : Message) → m.role ≡ user → after_message [] m ≡ some []
user_after m e = ap (λ (r : Role). opened r m.content) e

IsPaired-IsDrainable :
    (ext : Externals)
    → KeepsRole ext
    → IsDrainable ext FromUser (λ m. m.role ≡ user) (Said IsPaired)
IsPaired-IsDrainable ext same_role = record {
  unlogged = Said-IsUnlogged IsPaired;
  results = λ m e. e;
  lets = λ m n is h e. same_role m n e ∙ h.0;
  others = FromUser-rest;
  said = λ m k e h. (Awaits-snoc [] [] k.state.stable.messages m h.0 (user_after m e), h.1);
  filed = λ id t k h. h;
  aborted = λ id k h. h;
  heard = λ k h. h.1;
  taken = λ is k u h. (h.0, u);
}

-- What is drained from the inbox keeps every tool use answered.
pub drain_inbox-Keeps :
    (ext : Externals) → KeepsRole ext → Keeps (Said IsPaired) (drain_inbox_end_of_turn ext)
drain_inbox-Keeps ext same_role = Drains.drain_inbox-Keeps (IsPaired-IsDrainable ext same_role)
