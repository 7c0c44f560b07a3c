-- ===== src/Redaction/Scrubbing.antt =====
-- crates/kernel/src/redact.rs: the pass of one pattern over a text.
use grist_agent.Prelude.{
  ℕ, ◌+◌, true, false, not, Option, none, some, List, [], ◌∷◌, ◌++◌, ◌≡◌, refl, sym, ap, ◌∙◌, subst,
  arith, Bool-cases, inl, inr, if◌then◌else◌,
}
use mathlib.Core.List.{append_assoc, append-nil}
use grist_agent.Prelude.Text.{Text, codes, byte_len, starts_with, has_infix}
use grist_agent.Redaction.{
  Span, Pass, slice, replacement, replace_span, scrub_span, scrub_spans, close_pass, ◌>>=◌, u32,
}
use grist_agent.Redaction.Markers.{IsPlain, swap}
use grist_agent.Redaction.Spans.{IsFound, finished, absent, present, byte_len-append, slice-append}

ruleset regroup = (append-nil, append_assoc)

-- A pass that ends, with a text that holds no plain text but those it held.
pub record IsScrubbed (kind out : Text) (o : Option (Text × ℕ)) : Type 0 where
  pub scrubbed : Text
  pub count : ℕ
  pub ends : o ≡ some (scrubbed, count)
  pub clean :
      (q : Text)
      → IsPlain q
      → has_infix q (replacement kind) ≡ false
      → has_infix q out ≡ false
      → has_infix q scrubbed ≡ false

-- The loop when `done` is dealt with, `held` is passed over and `rest` is to come.
pub record At (kind out done held rest : Text) (st : Pass) : Type 0 where
  pub whole : out ≡ done ++ (held ++ rest)
  pub last : st.last ≡ byte_len done
  pub keeps :
      (q : Text)
      → IsPlain q
      → has_infix q (replacement kind) ≡ false
      → has_infix q out ≡ false
      → has_infix q (st.next ++ (held ++ rest)) ≡ false

module _ (kind out : Text) where
  close_pass-IsScrubbed :
      (done held rest : Text) (st : Pass)
      → At kind out done held rest st
      → IsScrubbed kind out (close_pass out st)
  close_pass-IsScrubbed done held rest st at = elim (Bool-cases st.hit) [
    | inl y ↦
        let tail : slice out st.last (byte_len out) ≡ some (held ++ rest) =
          ap (λ s. slice s st.last (byte_len out)) (at.whole ∙ simp regroup)
          ∙ slice-append done (held ++ rest) [] st.last (byte_len out) at.last
              (ap byte_len at.whole ∙ byte_len-append done (held ++ rest)) in
        record {
          scrubbed = st.next ++ (held ++ rest);
          count = st.replacements;
          ends =
              ap
                (λ b.
                  if not b
                  then some (out, st.replacements)
                  else (slice out st.last (byte_len out) >>= λ r.
                      some (st.next ++ r, st.replacements)))
                y
              ∙ ap (λ o. o >>= λ r. some (st.next ++ r, st.replacements)) tail;
          clean = at.keeps;
        }
    | inr n ↦ record {
      scrubbed = out;
      count = st.replacements;
      ends =
          ap
            (λ b.
              if not b
              then some (out, st.replacements)
              else (slice out st.last (byte_len out) >>= λ r. some (st.next ++ r, st.replacements)))
            n;
      clean = λ q plain free h. h;
    }
  ]

  -- One match more is dealt with, or passed over where a marker stands.
  record Next (post : Text) (m : Span) (o : Option Pass) : Type 0 where
    st : Pass
    done : Text
    held : Text
    steps : o ≡ some st
    at : At kind out done held post st
    stop : m.stop ≡ byte_len done + byte_len held

  module _ (done held gap mid post : Text) (m : Span) (st : Pass)
      (at : At kind out done held (gap ++ (mid ++ post)) st)
      (start : m.start ≡ byte_len done + byte_len held + byte_len gap)
      (stop : m.stop ≡ byte_len done + byte_len held + byte_len gap + byte_len mid) where
    reached : m.stop ≡ byte_len (done ++ (held ++ (gap ++ mid)))
    reached = omega (
      arith,
      byte_len-append done (held ++ (gap ++ mid)),
      byte_len-append held (gap ++ mid),
      byte_len-append gap mid,
    )

    span_sliced : slice out m.start m.stop ≡ some mid
    span_sliced =
        ap (λ s. slice s m.start m.stop) (at.whole ∙ simp regroup)
        ∙ slice-append (done ++ (held ++ gap)) mid post m.start m.stop
            (omega (arith, byte_len-append done (held ++ gap), byte_len-append held gap))
            (omega (arith, byte_len-append done (held ++ gap), byte_len-append held gap))

    gap_sliced : slice out st.last m.start ≡ some (held ++ gap)
    gap_sliced =
        let last = at.last in
        ap (λ s. slice s st.last m.start) (at.whole ∙ simp regroup)
        ∙ slice-append done (held ++ gap) (mid ++ post) st.last m.start last
            (omega (arith, byte_len-append held gap))

    passed_over : Next post m (some st)
    passed_over = record {
      st = st;
      done = done;
      held = held ++ (gap ++ mid);
      steps = refl;
      at = record {
        whole = at.whole ∙ simp regroup;
        last = at.last;
        keeps = λ q plain free h.
            subst (λ s. has_infix q s ≡ false) (simp regroup) (at.keeps q plain free h);
      };
      stop = omega (arith, byte_len-append held (gap ++ mid), byte_len-append gap mid);
    }

    replace_span-Next : Next post m (replace_span out kind m st)
    replace_span-Next = record {
      st = record {
        next = (st.next ++ (held ++ gap)) ++ replacement kind;
        last = m.stop;
        hit = true;
        replacements = u32 (st.replacements + 1);
      };
      done = done ++ (held ++ (gap ++ mid));
      held = [];
      steps =
          ap
            (λ o. o >>= λ g. some (record {
              next = (st.next ++ g) ++ replacement kind;
              last = m.stop;
              hit = true;
              replacements = u32 (st.replacements + 1);
            }))
            gap_sliced;
      at = record {
        whole = at.whole ∙ simp regroup;
        last = reached;
        keeps = λ q plain free h.
            ap (has_infix q) (append_assoc (st.next ++ (held ++ gap)) (replacement kind) post)
            ∙ swap q kind plain free (st.next ++ (held ++ gap)) mid post
                (subst (λ s. has_infix q s ≡ false) (simp regroup) (at.keeps q plain free h));
      };
      stop = omega (arith, reached);
    }

    scrub_span-Next : Next post m (scrub_span out kind (some m) st)
    scrub_span-Next =
        subst
          (λ o. Next post m (
            o >>= λ span.
            if starts_with span (codes "[REDACTED:") then some st else replace_span out kind m st))
          (sym span_sliced)
          (elim (Bool-cases (starts_with mid (codes "[REDACTED:"))) [
            | inl y ↦
                subst (λ b. Next post m (if b then some st else replace_span out kind m st)) (sym y)
                  passed_over
            | inr n ↦
                subst (λ b. Next post m (if b then some st else replace_span out kind m st)) (sym n)
                  replace_span-Next
          ])

  pub scrub_spans-IsScrubbed :
      {b : ℕ} (done held rest : Text) (ms : List (Option Span)) (st : Pass)
      → At kind out done held rest st
      → b ≡ byte_len done + byte_len held
      → IsFound b rest ms
      → IsScrubbed kind out (scrub_spans out kind ms st >>= close_pass out)
  scrub_spans-IsScrubbed done held rest [] st at e finished =
      close_pass-IsScrubbed done held rest st at
  scrub_spans-IsScrubbed done held rest (none ∷ ms) st at e (absent found) =
      scrub_spans-IsScrubbed done held rest ms st at e found
  scrub_spans-IsScrubbed done held rest (some m ∷ ms) st at e
        (present gap mid post _ cut start stop found) =
      let here : At kind out done held (gap ++ (mid ++ post)) st =
        subst (λ s. At kind out done held s st) cut at in
      let next = scrub_span-Next done held gap mid post m st here (omega arith) (omega arith) in
      subst (λ o. IsScrubbed kind out ((o >>= scrub_spans out kind ms) >>= close_pass out))
        (sym next.steps)
        (scrub_spans-IsScrubbed next.done next.held post ms next.st next.at next.stop found)
