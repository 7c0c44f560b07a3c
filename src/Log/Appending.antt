-- ===== src/Log/Appending.antt =====
-- log/mod.rs `writer::stage` and log/memory.rs `append`: the numbering of the lines.
use grist_agent.Prelude.{
  ℕ, zero, suc, ◌+◌, ◌≡◌, refl, sym, ap, subst, List, [], ◌∷◌, ◌++◌, length, arith, Result, ok, err,
  ok_or, >>=-eq-ok, ok-injective,
}
use grist_agent.Prelude.Text.{Text}
use grist_agent.Content.{Value}
use grist_agent.Event.{EventBody}
use grist_agent.Log.Errors.{LogError}
use grist_agent.Log.{
  Codec, LogEvent, Line, Staged, io_error, writer_redact, late_redaction_warning, staged_lines,
  stage, extended, append_event,
}
use grist_agent.Log.Parsing.{IsNumbered}

IsNumbered-append :
    (n : ℕ) (xs ys : List Line)
    → IsNumbered n xs
    → IsNumbered (n + length xs) ys
    → IsNumbered n (xs ++ ys)
IsNumbered-append n [] ys h k = subst (λ m. IsNumbered m ys) (omega arith) k
IsNumbered-append n (x ∷ xs) ys (e, h) k =
    (e, IsNumbered-append (n + 1) xs ys h (subst (λ m. IsNumbered m ys) (omega arith) k))

-- What staging produces: the event first, and its lines with consecutive numbers.
record IsStaged (session : Text) (n : ℕ) (s : Staged) : Type 0 where
  numbered : IsNumbered n s.lines
  first :
      (raw : Value) × (rest : List Line) × (s.lines
        ≡ record { event = s.event; raw_payload = raw } ∷ rest)
  seq : s.event.seq ≡ n
  in_session : s.event.session_id ≡ session

module _ (codec : Codec) where
  lines-IsNumbered :
      (e : LogEvent) (raw : Value) (late : ℕ) (ts : Text) (ls : List Line)
      → staged_lines codec e raw late ts ≡ ok ls
      → IsNumbered e.seq ls
        × ((rest : List Line) × (ls ≡ record { event = e; raw_payload = raw } ∷ rest))
  lines-IsNumbered e raw zero ts ls h =
      let g = ok-injective h in (subst (IsNumbered e.seq) g (refl, tt), ([], sym g))
  lines-IsNumbered e raw (suc late) ts ls h =
      let (w, p, h1) =
        >>=-eq-ok (ok_or io_error (codec.payload_value (late_redaction_warning codec e (suc late))))
          _ h in
      let g = ok-injective h1 in (subst (IsNumbered e.seq) g (refl, (refl, tt)), (_, sym g))

  stage-IsStaged :
      (session : Text) (n : ℕ) (body : EventBody) (ts ts' : Text) (s : Staged)
      → stage codec session n body ts ts' ≡ ok s
      → IsStaged session n s
  unfolding stage
  stage-IsStaged session n body ts ts' s h =
      let ((redacted, raw, late), p, h1) = >>=-eq-ok (writer_redact codec body) _ h in
      let e : LogEvent = record { seq = n; ts = ts; session_id = session; body = redacted } in
      let (ls, q, h2) = >>=-eq-ok (staged_lines codec e raw late ts') _ h1 in
      let (numbered, (rest, f)) = lines-IsNumbered e raw late ts' ls q in
      subst (IsStaged session n) (ok-injective h2)
        (record { numbered = numbered; first = (raw, rest, f); seq = refl; in_session = refl })

-- What an append that succeeds leaves.
pub record IsAppended (session : Text) (lines : List Line) (e : LogEvent) (after : List Line)
    : Type 0 where
  pub seq : e.seq ≡ length lines
  pub in_session : e.session_id ≡ session
  pub raw : Value
  pub rest : List Line
  pub extends : after ≡ lines ++ record { event = e; raw_payload = raw } ∷ rest
  pub numbered : IsNumbered 0 after

-- An append either fails and leaves the lines as they were, or extends them.
pub data Appends (session : Text) (lines : List Line)
    : Result LogError LogEvent × List Line → Type 0 where
  refused : {e : LogError} → Appends session lines (err e, lines)
  appended :
      {e : LogEvent} {after : List Line}
      → IsAppended session lines e after
      → Appends session lines (ok e, after)

extended-Appends :
    (codec : Codec) (session : Text) (lines : List Line) (r : Result LogError Staged)
    → IsNumbered 0 lines
    → ((s : Staged) → r ≡ ok s → IsStaged session (length lines) s)
    → Appends session lines (extended codec r lines)
extended-Appends codec session lines (err e) h k = refused
extended-Appends codec session lines (ok s) h k =
    let st = k s refl in
    let (raw, rest, f) = st.first in
    appended (record {
      seq = st.seq;
      in_session = st.in_session;
      raw = raw;
      rest = rest;
      extends = ap (λ ls. lines ++ ls) f;
      numbered =
          IsNumbered-append 0 lines s.lines h
            (subst (λ m. IsNumbered m s.lines) (omega arith) st.numbered);
    })

-- Appending to a log whose lines are numbered from 0 without gaps: it fails and changes nothing, or
-- it returns an event of the session that has the number of the lines so far, which is the first of
-- the lines it adds, and the lines are numbered from 0 without gaps again, also when the redaction
-- adds its warning.
pub append_event-Appends :
    (codec : Codec) (session : Text) (body : EventBody) (ts ts_warning : Text)
    → (lines : List Line) → IsNumbered 0 lines
    → Appends session lines (append_event codec session body ts ts_warning lines)
unfolding append_event
append_event-Appends codec session body ts ts_warning lines h =
    extended-Appends codec session lines _ h
      (stage-IsStaged codec session (length lines) body ts ts_warning)
