-- ===== src/Log/Parsing.antt =====
-- log/file.rs `parse_log`: what a log that parses satisfies.
use grist_agent.Prelude.{
  ℕ, ◌+◌, ◌≤◌, ◌≡◌, sym, ap, subst, ◌∙◌, inl, inr, Option, none, some, List, [], ◌∷◌, arith,
  Bool-cases, ltb, ◌==◌, ok, ok_or, >>=-eq-ok, ok-injective,
}
use grist_agent.Prelude.Order.{nat_order}
use grist_agent.Prelude.Text.{Text, same, same_iff}
use grist_agent.Event.{
  EventBody, log_opened, user_message, task_update, checkpoint, suspended, resumed, cancelled,
  turn_failed, session_failed, session_ended, recovered, provider_retry, model_request,
  model_response, tool_call, tool_result, task_started, compaction, ask_user, user_answer, warning,
  recorded, unknown,
}
use grist_agent.Kernel.Lifecycle.{event_schema_version}
use grist_agent.Log.{LogEvent, Line}
use grist_agent.Log.File.{
  Decoder, ParsedLog, check_schema, check_body, check_first, check_session, check_seq, body_of,
  event_of, expected_session, parse_line, parse_lines, torn, complete_lines, parse_log,
}

-- The lines are numbered without gaps, from the given number.
abbrev pub IsNumbered : ℕ → List Line → Type 0
IsNumbered n [] = Unit
IsNumbered n (l ∷ ls) = (l.event.seq ≡ n) × IsNumbered (n + 1) ls

-- The schema that a later kernel appended with is one that this kernel reads.
abbrev pub IsReadable : EventBody → Type 0
IsReadable (log_opened o) = Unit
IsReadable (resumed r) = r.event_schema_version ≤ event_schema_version
IsReadable (recovered r) = r.event_schema_version ≤ event_schema_version
IsReadable _ = Unit

-- Every line is the session's, and readable in this sense.
abbrev pub IsOf : Text → List Line → Type 0
IsOf session [] = Unit
IsOf session (l ∷ ls) = ((l.event.session_id ≡ session) × IsReadable l.event.body) × IsOf session ls

abbrev pub IsOpening : EventBody → Type 0
IsOpening (log_opened o) = o.event_schema_version ≤ event_schema_version
IsOpening _ = ⊥

-- A log: nothing, or an opening line and lines of its session.
abbrev pub IsLog : List Line → Type 0
IsLog [] = Unit
IsLog (l ∷ ls) = IsOpening l.event.body × IsOf l.event.session_id ls

schema_checked :
    (found : ℕ) (u : Unit {0}) → check_schema found ≡ ok u → found ≤ event_schema_version
unfolding check_schema
schema_checked found u h = elim (Bool-cases (ltb event_schema_version found)) [
  | inl y ↦ absurd ground arith
  | inr n ↦ ground arith
]

body_checked : (b : EventBody) (u : Unit {0}) → check_body b ≡ ok u → IsReadable b
body_checked (resumed r) u h = schema_checked _ u h
body_checked (recovered r) u h = schema_checked _ u h
body_checked (log_opened o) u h = tt
body_checked (user_message p) u h = tt
body_checked (task_update p) u h = tt
body_checked (checkpoint p) u h = tt
body_checked (suspended p) u h = tt
body_checked (cancelled p) u h = tt
body_checked (turn_failed p) u h = tt
body_checked (session_failed p) u h = tt
body_checked (session_ended p) u h = tt
body_checked (provider_retry p) u h = tt
body_checked (model_request p) u h = tt
body_checked (model_response p) u h = tt
body_checked (tool_call p) u h = tt
body_checked (tool_result p) u h = tt
body_checked (task_started p) u h = tt
body_checked (compaction p) u h = tt
body_checked (ask_user p) u h = tt
body_checked (user_answer p) u h = tt
body_checked (warning p) u h = tt
body_checked (recorded k v) u h = tt
body_checked (unknown k v) u h = tt

first_checked : (n : ℕ) (b : EventBody) (u : Unit {0}) → check_first n b ≡ ok u → IsOpening b
first_checked n (log_opened o) u h = schema_checked _ u h
first_checked n (resumed r) u h = cc
first_checked n (recovered r) u h = cc
first_checked n (user_message p) u h = cc
first_checked n (task_update p) u h = cc
first_checked n (checkpoint p) u h = cc
first_checked n (suspended p) u h = cc
first_checked n (cancelled p) u h = cc
first_checked n (turn_failed p) u h = cc
first_checked n (session_failed p) u h = cc
first_checked n (session_ended p) u h = cc
first_checked n (provider_retry p) u h = cc
first_checked n (model_request p) u h = cc
first_checked n (model_response p) u h = cc
first_checked n (tool_call p) u h = cc
first_checked n (tool_result p) u h = cc
first_checked n (task_started p) u h = cc
first_checked n (compaction p) u h = cc
first_checked n (ask_user p) u h = cc
first_checked n (user_answer p) u h = cc
first_checked n (warning p) u h = cc
first_checked n (recorded k v) u h = cc
first_checked n (unknown k v) u h = cc

seq_checked : (idx : ℕ) (e : LogEvent) (u : Unit {0}) → check_seq idx e ≡ ok u → e.seq ≡ idx
seq_checked idx e u h = elim (Bool-cases (e.seq == idx)) [
  | inl y ↦ ground arith
  | inr n ↦ absurd ground arith
]

session_checked :
    (n : ℕ) (session : Text) (e : LogEvent) (u : Unit {0})
    → check_session n (some session) e ≡ ok u
    → (e.session_id ≡ session) × IsReadable e.body
session_checked n session e u h = elim (Bool-cases (same e.session_id session)) [
  | inl y ↦ ((same_iff e.session_id session).0 y, body_checked e.body u (rw y at h))
  | inr z ↦ absurd ground arith
]

module _ (d : Decoder) where
  -- What the checks of a line have seen.
  record IsChecked (idx : ℕ) (session : Option Text) (l : Line) : Type 0 where
    numbered : l.event.seq ≡ idx
    in_session : (u : Unit {0}) × (check_session (idx + 1) session l.event ≡ ok u)

  line-IsChecked :
      (idx : ℕ) (session : Option Text) (raw : List ℕ) (l : Line)
      → parse_line d idx session raw ≡ ok l
      → IsChecked idx session l
  line-IsChecked idx session raw l h =
      let (env, p, h1) = >>=-eq-ok (ok_or _ (d.envelope raw)) _ h in
      let (body, q, h2) =
        >>=-eq-ok (body_of (idx + 1) env (d.from_value env.kind env.payload)) _ h1 in
      let (u, r, h3) = >>=-eq-ok (check_seq idx (event_of env body)) _ h2 in
      let (w, c, h4) = >>=-eq-ok (check_session (idx + 1) session (event_of env body)) _ h3 in
      let g : event_of env body ≡ l.event = ap (λ x. x.event) (ok-injective h4) in
      record {
        numbered = ap (λ e. e.seq) (sym g) ∙ seq_checked idx (event_of env body) u r;
        in_session = (w, rw (sym g) c);
      }

  IsNumbered-lines :
      (idx : ℕ) (session : Option Text) (raws : List (List ℕ)) (ls : List Line)
      → parse_lines d idx session raws ≡ ok ls
      → IsNumbered idx ls
  IsNumbered-lines idx session [] ls h = subst (IsNumbered idx) (ok-injective h) tt
  IsNumbered-lines idx session (raw ∷ raws) ls h =
      let (l, p, h1) = >>=-eq-ok (parse_line d idx session raw) _ h in
      let (rest, q, h2) =
        >>=-eq-ok (parse_lines d (idx + 1) (expected_session session l) raws) _ h1 in
      subst (IsNumbered idx) (ok-injective h2)
        ((line-IsChecked idx session raw l p).numbered, IsNumbered-lines (idx + 1) _ raws rest q)

  session_lines :
      (idx : ℕ) (session : Text) (raws : List (List ℕ)) (ls : List Line)
      → parse_lines d idx (some session) raws ≡ ok ls
      → IsOf session ls
  session_lines idx session [] ls h = subst (IsOf session) (ok-injective h) tt
  session_lines idx session (raw ∷ raws) ls h =
      let (l, p, h1) = >>=-eq-ok (parse_line d idx (some session) raw) _ h in
      let (rest, q, h2) = >>=-eq-ok (parse_lines d (idx + 1) (some session) raws) _ h1 in
      let (u, c) = (line-IsChecked idx (some session) raw l p).in_session in
      subst (IsOf session) (ok-injective h2)
        (session_checked (idx + 1) session l.event u c, session_lines (idx + 1) session raws rest q)

  IsLog-lines :
      (idx : ℕ) (raws : List (List ℕ)) (ls : List Line)
      → parse_lines d idx none raws ≡ ok ls
      → IsLog ls
  IsLog-lines idx [] ls h = subst IsLog (ok-injective h) tt
  IsLog-lines idx (raw ∷ raws) ls h =
      let (l, p, h1) = >>=-eq-ok (parse_line d idx none raw) _ h in
      let (rest, q, h2) = >>=-eq-ok (parse_lines d (idx + 1) (some l.event.session_id) raws) _ h1 in
      let (u, c) = (line-IsChecked idx none raw l p).in_session in
      subst IsLog (ok-injective h2)
        (first_checked _ l.event.body u c, session_lines (idx + 1) _ raws rest q)

-- The lines of a log file that parses are numbered 0, 1, 2 and so on without a gap; the first is a
-- `log_opened` of a schema that this kernel reads, and every later line belongs to the session of
-- the first and, where it is a `resumed` or a `recovered`, is of a schema that this kernel reads.
pub parse_log-IsLog :
    (d : Decoder) (bytes : List ℕ) (p : ParsedLog)
    → parse_log d bytes ≡ ok p
    → IsNumbered 0 p.lines × IsLog p.lines
unfolding parse_log
parse_log-IsLog d bytes p h =
    let (ls, q, h1) = >>=-eq-ok (parse_lines d 0 none (complete_lines (torn bytes).0)) _ h in
    let g : ls ≡ p.lines = ap (λ x. x.lines) (ok-injective h1) in
    subst (λ x. IsNumbered 0 x × IsLog x) g
      (IsNumbered-lines d 0 none _ ls q, IsLog-lines d 0 _ ls q)
