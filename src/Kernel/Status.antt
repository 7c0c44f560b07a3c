-- ===== src/Kernel/Status.antt =====
-- loop_/mod.rs: the status of the session, its mirror and the turn token, across the lifecycle
-- methods.
use grist_agent.Prelude.{
  ◌≡◌, refl, ◌⊎◌, inl, inr, Bool, true, false, Option, none, some, sym, subst, List, Bool-cases,
  any,
}
use grist_agent.Prelude.Exec.{◌>>=◌}
use grist_agent.State.{SessionStatus, created, running, idle, suspended, done, failed}
use grist_agent.Kernel.{Kernel, Externals, Inbound}
use grist_agent.Kernel.Lifecycle.{
  ResumeCause, apply_first, apply_queued_from, suspend_from, resume_from, end_open, end_from,
  apply_queued_input, drain_inbox_end_of_turn, suspend, resume, end_session,
}
use grist_agent.Kernel.Waking.{
  has_user, can_wake, is_suspended, apply_first-quiet, apply_first-asleep,
}
use grist_agent.Kernel.Mode.{Mode, mode, entered}
use grist_agent.Kernel.Transitions.{
  cancelled_mode, apply_first-Keeps, suspend_open-Keeps, resume_cause-Keeps, end_open-Keeps,
  drain_inbox-Keeps, apply_queued_input-In, suspend-In, resume-In, end_session-In,
}

abbrev pub is_running : SessionStatus → Bool
is_running running = true
is_running _ = false

abbrev pub is_some {ℓ} : {A : Type ℓ} → Option A → Bool
is_some none = false
is_some (some a) = true

-- The mirror shows the status, and there is a turn token exactly while the session runs.
pub record IsSynced (m : Mode) : Type 0 where
  pub mirrored : m.mirror ≡ m.status
  pub token : is_some m.turn_token ≡ is_running m.status

some_token :
    (t : Option Bool) (c : Bool) → is_some (elim t [ none ↦ some c | some u ↦ some u ]) ≡ true
some_token none c = refl
some_token (some u) c = refl

entered-IsSynced : (s : SessionStatus) (m : Mode) → IsSynced (entered s m)
entered-IsSynced created m = record { mirrored = refl; token = refl }
entered-IsSynced running m = record {
  mirrored = refl;
  token = some_token m.turn_token m.session_cancelled;
}
entered-IsSynced idle m = record { mirrored = refl; token = refl }
entered-IsSynced suspended m = record { mirrored = refl; token = refl }
entered-IsSynced done m = record { mirrored = refl; token = refl }
entered-IsSynced failed m = record { mirrored = refl; token = refl }

cancelled_token :
    (t : Option Bool) (b : Bool)
    → is_some t ≡ b
    → is_some (elim t [ none ↦ none | some u ↦ some true ]) ≡ b
cancelled_token none b e = e
cancelled_token (some u) b e = e

cancelled-IsSynced : (m : Mode) → IsSynced m → IsSynced (cancelled_mode m)
cancelled-IsSynced m h = record {
  mirrored = h.mirrored;
  token = cancelled_token m.turn_token _ h.token;
}

-- `apply_queued_input`, the drain of the inbox, `suspend`, `end` and `resume`, as one step of a
-- session.
pub data Call : Type 0 where
  queued_input drain suspending ending : Call
  resuming : ResumeCause → Call

unfoldable pub run_call : Externals → Call → Kernel → Kernel
unfolding apply_queued_input drain_inbox_end_of_turn suspend resume end_session
run_call ext queued_input k = (apply_queued_input ext k).1
run_call ext drain k = (drain_inbox_end_of_turn ext k).1
run_call ext suspending k = (suspend ext k).1
run_call ext ending k = (end_session ext k).1
run_call ext (resuming c) k = (resume ext c k).1

-- Whichever of `apply_queued_input`, the drain of the inbox, `suspend`, `resume` and `end` is
-- called, and whether it returns or fails half-way (a failed append
-- to the log, a failed redaction or hash): when the mirrored status was the status and the turn
-- token existed exactly while running, then this holds of the kernel that the method leaves.
pub run_call-IsSynced :
    (ext : Externals) (c : Call) (k : Kernel)
    → IsSynced (mode k)
    → IsSynced (mode (run_call ext c k))
unfolding run_call
run_call-IsSynced ext queued_input k h =
    apply_queued_input-In IsSynced ext (λ m _. entered-IsSynced running m) k h
run_call-IsSynced ext drain k h = (drain_inbox-Keeps IsSynced ext).at k h
run_call-IsSynced ext suspending k h =
    suspend-In IsSynced ext (λ m _. entered-IsSynced suspended m) k h
run_call-IsSynced ext ending k h =
    end_session-In IsSynced ext (λ m _. entered-IsSynced done m) cancelled-IsSynced k h
run_call-IsSynced ext (resuming c) k h =
    resume-In IsSynced ext (λ m _. entered-IsSynced running m) c k h

-- The arrows of the session's status machine between turns, with what the inbox holds. A session that
-- waits for its user runs when a user message came, a suspended one when an item that can wake it came.
pub data Moves (ext : Externals) (inbox : List Inbound)
    : Call → SessionStatus → SessionStatus → Type 0 where
  stays : {c : Call} {s : SessionStatus} → Moves ext inbox c s s
  created_runs : has_user inbox ≡ true → Moves ext inbox queued_input created running
  idle_runs : has_user inbox ≡ true → Moves ext inbox queued_input idle running
  failed_runs : has_user inbox ≡ true → Moves ext inbox queued_input failed running
  suspended_runs : any (can_wake ext) inbox ≡ true → Moves ext inbox queued_input suspended running
  running_suspends : Moves ext inbox suspending running suspended
  idle_suspends : Moves ext inbox suspending idle suspended
  suspended_resumes : {c : ResumeCause} → Moves ext inbox (resuming c) suspended running
  failed_resumes : {c : ResumeCause} → Moves ext inbox (resuming c) failed running
  created_ends : Moves ext inbox ending created done
  running_ends : Moves ext inbox ending running done
  idle_ends : Moves ext inbox ending idle done
  suspended_ends : Moves ext inbox ending suspended done
  failed_ends : Moves ext inbox ending failed done

abbrev current_status : Kernel → SessionStatus
current_status k = k.state.stable.session_status

-- One of two statuses.
abbrev Either : SessionStatus → SessionStatus → Mode → Type 0
Either s t m = (m.status ≡ s) ⊎ (m.status ≡ t)

module _ {ext : Externals} {inbox : List Inbound} {c : Call} {s : SessionStatus} where
  stays_at : {u : SessionStatus} → u ≡ s → Moves ext inbox c s u
  stays_at e = subst (Moves ext inbox c s) (sym e) stays

  arrives :
      {t u : SessionStatus} → Moves ext inbox c s t → (u ≡ s) ⊎ (u ≡ t) → Moves ext inbox c s u
  arrives m (inl e) = stays_at e
  arrives m (inr e) = subst (Moves ext inbox c s) (sym e) m

module _ (ext : Externals) where
  -- A session that waits for its user.
  woken :
      (from : SessionStatus) (k : Kernel)
      → is_suspended from ≡ false
      → (has_user k.inbox ≡ true → Moves ext k.inbox queued_input from running)
      → current_status k ≡ from
      → Moves ext k.inbox queued_input from (current_status (apply_first ext k.inbox from k).1)
  woken from k awake run e = elim (Bool-cases (has_user k.inbox)) [
    | inl y ↦
        arrives (run y) (
          (apply_first-Keeps (Either from running) ext (λ m _. inr refl) k.inbox from).at k (inl e))
    | inr n ↦ stays_at (apply_first-quiet (λ m. m.status ≡ from) ext from k.inbox k awake n e)
  ]

  -- A suspended session.
  resumed :
      (k : Kernel)
      → current_status k ≡ suspended
      → Moves ext k.inbox queued_input suspended
          (current_status (apply_first ext k.inbox suspended k).1)
  resumed k e = elim (Bool-cases (any (can_wake ext) k.inbox)) [
    | inl y ↦ arrives (suspended_runs y) (
        (apply_first-Keeps (Either suspended running) ext (λ m _. inr refl) k.inbox suspended).at k
          (inl e))
    | inr n ↦ stays_at (apply_first-asleep (λ m. m.status ≡ suspended) ext suspended k.inbox k n e)
  ]

  queued-Moves :
      (from : SessionStatus) (k : Kernel)
      → current_status k ≡ from
      → Moves ext k.inbox queued_input from (current_status (apply_queued_from ext from k).1)
  queued-Moves created k e = woken created k refl created_runs e
  queued-Moves running k e = stays_at e
  queued-Moves idle k e = woken idle k refl idle_runs e
  queued-Moves suspended k e = resumed k e
  queued-Moves done k e = stays_at e
  queued-Moves failed k e = woken failed k refl failed_runs e

  suspend-Moves :
      (from : SessionStatus) (k : Kernel)
      → current_status k ≡ from
      → Moves ext k.inbox suspending from (current_status (suspend_from ext from k).1)
  suspend-Moves created k e = stays_at e
  suspend-Moves running k e =
      arrives running_suspends
        ((suspend_open-Keeps (Either running suspended) ext (λ m _. inr refl) _).at k (inl e))
  suspend-Moves idle k e =
      arrives idle_suspends
        ((suspend_open-Keeps (Either idle suspended) ext (λ m _. inr refl) _).at k (inl e))
  suspend-Moves suspended k e = stays_at e
  suspend-Moves done k e = stays_at e
  suspend-Moves failed k e = stays_at e

  resume-Moves :
      (c : ResumeCause) (from : SessionStatus) (k : Kernel)
      → current_status k ≡ from
      → Moves ext k.inbox (resuming c) from (current_status (resume_from ext from c k).1)
  unfolding ◌>>=◌
  resume-Moves c created k e = stays_at e
  resume-Moves c running k e = stays_at e
  resume-Moves c idle k e = stays_at e
  resume-Moves c suspended k e = arrives suspended_resumes (
      (resume_cause-Keeps (Either suspended running) ext (λ m _. inr refl) suspended c).at k
        (inl e))
  resume-Moves c done k e = stays_at e
  resume-Moves c failed k e =
      arrives failed_resumes
        ((resume_cause-Keeps (Either failed running) ext (λ m _. inr refl) failed c).at k (inl e))

  ended-Either :
      (s : SessionStatus) (k : Kernel)
      → current_status k ≡ s
      → Either s done (mode (end_open ext k).1)
  ended-Either s k e =
      (end_open-Keeps (Either s done) ext (λ m _. inr refl) (λ m h. h)).at k (inl e)

  end-Moves :
      (from : SessionStatus) (k : Kernel)
      → current_status k ≡ from
      → Moves ext k.inbox ending from (current_status (end_from ext from k).1)
  unfolding ◌>>=◌
  end-Moves created k e = arrives created_ends (ended-Either created k e)
  end-Moves running k e = arrives running_ends (ended-Either running k e)
  end-Moves idle k e = arrives idle_ends (ended-Either idle k e)
  end-Moves suspended k e = arrives suspended_ends (ended-Either suspended k e)
  end-Moves done k e = stays_at e
  end-Moves failed k e = arrives failed_ends (ended-Either failed k e)

-- Of these methods, each leaves the status as it was, or moves it along an arrow of `Moves`: queued
-- input runs a session that is created, idle or failed only when a user message is in the inbox, a
-- suspended one only when a user message, an update whose status is terminal as the redactor leaves
-- it, or the cancellation of a task is; `suspend` moves only a running or idle one, `resume` only a
-- suspended or failed one, `end` any but a done one to done, and the drain at the end of a turn
-- never moves it. This holds when the method fails half-way too.
pub run_call-Moves :
    (ext : Externals) (c : Call) (k : Kernel)
    → Moves ext k.inbox c k.state.stable.session_status
        (run_call ext c k).state.stable.session_status
unfolding run_call
run_call-Moves ext queued_input k = queued-Moves ext _ k refl
run_call-Moves ext drain k =
    stays_at ((drain_inbox-Keeps (λ m. m.status ≡ current_status k) ext).at k refl)
run_call-Moves ext suspending k = suspend-Moves ext _ k refl
run_call-Moves ext ending k = end-Moves ext _ k refl
run_call-Moves ext (resuming c) k = resume-Moves ext c _ k refl
