-- ===== src/Kernel/Spill/Units.antt =====
-- loop_/spill.rs: what the spilling of oversized results leaves.
use grist_agent.Prelude.{
  ℕ, zero, suc, ◌+◌, ◌-◌, ◌≤◌, ◌⊎◌, true, Result, ok, err, Option, none, some, List, [], ◌∷◌, ◌++◌,
  ◌≡◌, refl, ap, arith, ◌∙◌, length, length-append, Bool-cases, inl, inr, leb,
}
use grist_agent.Prelude.Text.{Text, byte_len, utf8_len}
use grist_agent.Content.{Value}
use grist_agent.Tool.{ToolOutput, TaskHandle}
use grist_agent.Kernel.Spill.Contents.{content_after, oversized-content}
use grist_agent.Kernel.Spill
use grist_agent.Kernel.Spill.{
  SpillConfig, Kept, stored, store_failed, Oversized, Spilling, head_utf8, skip_utf8, tail_utf8,
  spill_unit, note_kept, kept_as, spill_units, oversized,
}

-- A text, and an excerpt of it of at most so many bytes from its start.
pub record IsHead (s excerpt : Text) (n : ℕ) : Type 0 where
  pub after : Text
  pub cut : s ≡ excerpt ++ after
  pub short : byte_len excerpt ≤ n

pub record IsTail (s excerpt : Text) (n : ℕ) : Type 0 where
  pub before : Text
  pub cut : s ≡ before ++ excerpt
  pub short : byte_len excerpt ≤ n

head_utf8-IsHead : (s : Text) (n : ℕ) → IsHead s (head_utf8 s n) n
unfolding head_utf8
head_utf8-IsHead [] n = record { after = []; cut = refl; short = omega arith }
head_utf8-IsHead (c ∷ s) n = elim (Bool-cases (leb (utf8_len c) n)) [
  | inl y ↦
      let h = head_utf8-IsHead s (n - utf8_len c) in
      let short = h.short in
      rw y (record { after = h.after; cut = ap (λ l. c ∷ l) h.cut; short = ground arith })
  | inr m ↦ rw m (record { after = c ∷ s; cut = refl; short = omega arith })
]

skip_utf8-IsTail : (s : Text) (k : ℕ) → IsTail s (skip_utf8 s k) (byte_len s - k)
unfolding skip_utf8
skip_utf8-IsTail [] k = record { before = []; cut = refl; short = omega arith }
skip_utf8-IsTail (c ∷ s) zero = record { before = []; cut = refl; short = omega arith }
skip_utf8-IsTail (c ∷ s) (suc k) =
    let h = skip_utf8-IsTail s (suc k - utf8_len c) in
    let short = h.short in
    record { before = c ∷ h.before; cut = ap (λ l. c ∷ l) h.cut; short = ground arith }

tail_utf8-IsTail : (s : Text) (n : ℕ) → IsTail s (tail_utf8 s n) n
unfolding tail_utf8
tail_utf8-IsTail s n =
    let h = skip_utf8-IsTail s (byte_len s - n) in
    let short = h.short in record { before = h.before; cut = h.cut; short = omega arith }

-- The excerpts are the ends of the text, each within its setting, and the size is the text's.
pub record IsExcerpt (cfg : SpillConfig) (t head tail : Text) (size : ℕ) : Type 0 where
  pub at_start : IsHead t head cfg.head_bytes
  pub at_end : IsTail t tail cfg.tail_bytes
  pub measured : size ≡ byte_len t

pub IsKept : SpillConfig → Text → Kept → Type 0
IsKept cfg t (stored s) = IsExcerpt cfg t s.head s.tail s.size
IsKept cfg t (store_failed head tail size mime e) = IsExcerpt cfg t head tail size

-- The units of a loop, counted: each gave an artifact or a warning, after a warning the result is
-- an error, and after a unit it is marked as spilled.
pub record IsAccounted (us : List Oversized) (before after : Spilling) : Type 0 where
  pub counted :
      length after.out.artifact_handles + length after.warnings
      ≡ length before.out.artifact_handles + length before.warnings + length us
  pub warned : (after.out.is_error ≡ true) ⊎ (length after.warnings ≡ length before.warnings)
  pub flagged : (after.out.spilled ≡ true) ⊎ (us ≡ [])
  pub error_kept : before.out.is_error ≡ true → after.out.is_error ≡ true
  pub flag_kept : before.out.spilled ≡ true → after.out.spilled ≡ true
  pub task_kept : after.out.task ≡ before.out.task

module _ (put : Text → Text → Result Text Text) (to_text : Value → Text) (cfg : SpillConfig)
    (turn : ℕ) where
  excerpt :
      (t : Text)
      → IsExcerpt cfg t (head_utf8 t cfg.head_bytes) (tail_utf8 t cfg.tail_bytes) (byte_len t)
  excerpt t = record {
    at_start = head_utf8-IsHead t cfg.head_bytes;
    at_end = tail_utf8-IsTail t cfg.tail_bytes;
    measured = refl;
  }

  -- Whether the store takes an oversized text or not, what is recorded of it is an excerpt of its
  -- first and last bytes within the two settings, and its size.
  pub spill_unit-IsKept : (t mime : Text) → IsKept cfg t (spill_unit put to_text cfg turn t mime)
  unfolding spill_unit IsKept
  spill_unit-IsKept t mime =
      elim (put t mime)
        as (λ r. IsKept cfg t (
          kept_as put to_text cfg turn (head_utf8 t cfg.head_bytes) (tail_utf8 t cfg.tail_bytes)
            (byte_len t) mime r)) [ ok handle ↦ excerpt t | err e ↦ excerpt t ]

  note_kept-IsAccounted :
      (u : Oversized) (k : Kept) (r : Spilling)
      → IsAccounted (u ∷ []) r (note_kept put to_text cfg turn u.index k r)
  note_kept-IsAccounted u (stored s) r = record {
    counted = omega (arith, length-append r.out.artifact_handles (s.handle ∷ []));
    warned = inr refl;
    flagged = inl refl;
    error_kept = λ h. h;
    flag_kept = λ h. refl;
    task_kept = refl;
  }
  note_kept-IsAccounted u (store_failed head tail size mime e) r = record {
    counted = omega (arith, length-append r.warnings);
    warned = inl refl;
    flagged = inl refl;
    error_kept = λ h. refl;
    flag_kept = λ h. refl;
    task_kept = refl;
  }

  spill_units-IsAccounted :
      (us : List Oversized) (r : Spilling)
      → IsAccounted us r (spill_units put to_text cfg turn us r)
  unfolding spill_units
  spill_units-IsAccounted [] r = record {
    counted = omega arith;
    warned = inr refl;
    flagged = inr refl;
    error_kept = λ h. h;
    flag_kept = λ h. h;
    task_kept = refl;
  }
  spill_units-IsAccounted (u ∷ us) r =
      let noted =
        note_kept put to_text cfg turn u.index (spill_unit put to_text cfg turn u.text u.mime) r in
      let first = note_kept-IsAccounted u (spill_unit put to_text cfg turn u.text u.mime) r in
      let rest = spill_units-IsAccounted us noted in
      let before = first.counted in
      let after = rest.counted in
      let flagged_now : noted.out.spilled ≡ true = elim first.flagged [ inl y ↦ y | inr e ↦ cc ] in
      record {
        counted = omega arith;
        warned = elim rest.warned [
          | inl y ↦ inl y
          | inr same ↦ elim first.warned [
            | inl y ↦ inl (rest.error_kept y)
            | inr e ↦ inr (same ∙ e)
          ]
        ];
        flagged = inl (rest.flag_kept flagged_now);
        error_kept = λ h. rest.error_kept (first.error_kept h);
        flag_kept = λ h. rest.flag_kept (first.flag_kept h);
        task_kept = rest.task_kept ∙ first.task_kept;
      }

  abbrev pub start_with : ToolOutput → Spilling
  start_with out = record { out = out; spill_ref = none; warnings = [] }

  -- What the spilling does to a result, by its task: nothing, or the units one by one.
  abbrev pub IsApplied : (Value → Option Text) → Option TaskHandle → ToolOutput → Spilling → Type 0
  IsApplied canonical (some h) out after = after ≡ start_with out
  IsApplied canonical none out after =
      IsAccounted (oversized canonical cfg out.content) (start_with out) after
      × (after.out.content ≡ content_after put to_text cfg turn canonical out.content)

  applied :
      (canonical : Value → Option Text) (task : Option TaskHandle) (out : ToolOutput)
      → IsApplied canonical task out
          (Spill.apply_without_task put to_text cfg turn canonical task out)
  applied canonical (some h) out = refl
  applied canonical none out = (
    spill_units-IsAccounted (oversized canonical cfg out.content) (start_with out),
    oversized-content put to_text cfg turn canonical (start_with out),
  )

  -- The result of a task is left alone. In any other, each oversized text, and a JSON content whose
  -- canonical form is oversized, gives way to what the store made of it, and all else stays; the
  -- artifacts and warnings that the spilling adds are together as many as the oversized units; with
  -- a new warning the result is an error, with an oversized unit it is marked as spilled, and no
  -- mark is taken back.
  pub apply-IsAccounted :
      (canonical : Value → Option Text) (out : ToolOutput)
      → IsApplied canonical out.task out (Spill.apply put to_text cfg turn canonical out)
  unfolding Spill.apply
  apply-IsAccounted canonical out = applied canonical out.task out
