-- ===== src/Kernel/Spill/Contents.antt =====
-- loop_/spill.rs: the content that the spilling leaves.
use grist_agent.Prelude.{
  ℕ, suc, ◌+◌, Result, Option, none, some, List, [], ◌∷◌, ◌≡◌, refl, ap, arith, sym, ◌∙◌,
  Bool-cases, inl, inr, ltb, if◌then◌else◌,
}
use grist_agent.Prelude.Text.{Text, byte_len}
use grist_agent.Content.{
  Value, ContentBlock, text, ToolResultContent, json, blocks, ContentBlocks, no_blocks, block,
  thinking, tool_use, tool_result, image, task_result,
}
use grist_agent.Kernel.Spill.{
  SpillConfig, Kept, stored, store_failed, Oversized, Spilling, spilled_value, failure_value,
  set_block, json_mime, text_mime, oversized, oversized_blocks, oversized_json, replaced, note_kept,
  spill_unit, spill_units,
}

-- What stands in a result for a unit.
abbrev pub value_of : Kept → Value
value_of (stored s) = spilled_value s
value_of (store_failed head tail size mime e) = failure_value head tail size mime

abbrev count : ContentBlocks → ℕ
count no_blocks = 0
count (block b bs) = suc (count bs)

abbrev joined : ContentBlocks → ContentBlocks → ContentBlocks
joined no_blocks cs = cs
joined (block b bs) cs = block b (joined bs cs)

abbrev snoc : ContentBlocks → ContentBlock → ContentBlocks
snoc no_blocks c = block c no_blocks
snoc (block b bs) c = block b (snoc bs c)

count-snoc : (bs : ContentBlocks) (c : ContentBlock) → count (snoc bs c) ≡ count bs + 1
count-snoc no_blocks c = refl
count-snoc (block b bs) c = omega (arith, count-snoc bs c)

joined-snoc :
    (bs : ContentBlocks) (c : ContentBlock) (cs : ContentBlocks)
    → joined (snoc bs c) cs ≡ joined bs (block c cs)
joined-snoc no_blocks c cs = refl
joined-snoc (block b bs) c cs = ap (block b) (joined-snoc bs c cs)

set_block-joined :
    (bs : ContentBlocks) (b c : ContentBlock) (cs : ContentBlocks)
    → set_block (count bs) b (joined bs (block c cs)) ≡ joined bs (block b cs)
set_block-joined no_blocks b c cs = refl
set_block-joined (block d bs) b c cs = ap (block d) (set_block-joined bs b c cs)

module _ (put : Text → Text → Result Text Text) (to_text : Value → Text) (cfg : SpillConfig)
    (turn : ℕ) where
  abbrev kept : Text → Text → Kept
  kept t mime = spill_unit put to_text cfg turn t mime

  -- A block after the spilling: an oversized text is what the store made of it, anything else stays.
  abbrev pub block_after : ContentBlock → ContentBlock
  block_after (text t) =
      if ltb cfg.cap_bytes (byte_len t)
      then text (to_text (value_of (kept t text_mime)))
      else text t
  block_after b = b

  abbrev pub blocks_after : ContentBlocks → ContentBlocks
  blocks_after no_blocks = no_blocks
  blocks_after (block b bs) = block (block_after b) (blocks_after bs)

  abbrev pub json_after : Value → Option Text → ToolResultContent
  json_after v none = json v
  json_after v (some bytes) =
      if ltb cfg.cap_bytes (byte_len bytes) then json (value_of (kept bytes json_mime)) else json v

  abbrev pub content_after : (Value → Option Text) → ToolResultContent → ToolResultContent
  content_after canonical (json v) = json_after v (canonical v)
  content_after canonical (blocks bs) = blocks (blocks_after bs)

  abbrev replace_all : List Oversized → ToolResultContent → ToolResultContent
  replace_all [] c = c
  replace_all (u ∷ us) c =
      replace_all us (replaced put to_text cfg turn u.index (value_of (kept u.text u.mime)) c)

  note_kept-content :
      (i : ℕ) (k : Kept) (r : Spilling)
      → (note_kept put to_text cfg turn i k r).out.content
        ≡ replaced put to_text cfg turn i (value_of k) r.out.content
  note_kept-content i (stored s) r = refl
  note_kept-content i (store_failed head tail size mime e) r = refl

  spill_units-content :
      (us : List Oversized) (r : Spilling)
      → (spill_units put to_text cfg turn us r).out.content ≡ replace_all us r.out.content
  unfolding spill_units
  spill_units-content [] r = refl
  spill_units-content (u ∷ us) r =
      spill_units-content us (note_kept put to_text cfg turn u.index (kept u.text u.mime) r)
      ∙ ap (replace_all us) (note_kept-content u.index (kept u.text u.mime) r)

  module _ (canonical : Value → Option Text) where
    -- The blocks `bs`, behind those that are done.
    abbrev Done : ℕ → ContentBlocks → Type 0
    Done i bs =
        (pre : ContentBlocks)
        → i ≡ count pre
        → replace_all (oversized_blocks canonical cfg i bs) (blocks (joined pre bs))
          ≡ blocks (joined pre (blocks_after bs))

    kept_block :
        (i : ℕ) (b : ContentBlock) (bs : ContentBlocks)
        → Done (i + 1) bs
        → (pre : ContentBlocks) → i ≡ count pre
        → replace_all (oversized_blocks canonical cfg (i + 1) bs) (blocks (joined pre (block b bs)))
          ≡ blocks (joined pre (block b (blocks_after bs)))
    kept_block i b bs rest pre e =
        let z : i + 1 ≡ count (snoc pre b) = omega (arith, count-snoc pre b) in
        ap (λ c. replace_all (oversized_blocks canonical cfg (i + 1) bs) (blocks c))
          (sym (joined-snoc pre b bs))
        ∙ rest (snoc pre b) z
        ∙ ap blocks (joined-snoc pre b (blocks_after bs))

    text_block :
        (i : ℕ) (t : Text) (bs : ContentBlocks)
        → Done (i + 1) bs
        → (pre : ContentBlocks) → i ≡ count pre
        → replace_all
            (oversized_blocks canonical cfg i (block (text t) bs))
            (blocks (joined pre (block (text t) bs)))
          ≡ blocks (joined pre (block (block_after (text t)) (blocks_after bs)))
    text_block i t bs rest pre e = elim (Bool-cases (ltb cfg.cap_bytes (byte_len t))) [
      | inl y ↦
          let b = text (to_text (value_of (kept t text_mime))) in
          rw y (
            ap (λ c. replace_all (oversized_blocks canonical cfg (i + 1) bs) (blocks c))
              (ap (λ n. set_block n b (joined pre (block (text t) bs))) e
                ∙ set_block-joined pre b (text t) bs)
            ∙ kept_block i b bs rest pre e)
      | inr n ↦ rw n (kept_block i (text t) bs rest pre e)
    ]

    replace_all-blocks : (i : ℕ) (bs : ContentBlocks) → Done i bs
    replace_all-blocks i no_blocks pre e = refl
    replace_all-blocks i (block (text t) bs) pre e =
        text_block i t bs (replace_all-blocks (i + 1) bs) pre e
    replace_all-blocks i (block (thinking t s) bs) pre e =
        kept_block i _ bs (replace_all-blocks (i + 1) bs) pre e
    replace_all-blocks i (block (tool_use id name v) bs) pre e =
        kept_block i _ bs (replace_all-blocks (i + 1) bs) pre e
    replace_all-blocks i (block (tool_result id c b) bs) pre e =
        kept_block i _ bs (replace_all-blocks (i + 1) bs) pre e
    replace_all-blocks i (block (image h m) bs) pre e =
        kept_block i _ bs (replace_all-blocks (i + 1) bs) pre e
    replace_all-blocks i (block (task_result id n s c b) bs) pre e =
        kept_block i _ bs (replace_all-blocks (i + 1) bs) pre e

    replace_all-json :
        (v : Value) (o : Option Text)
        → replace_all (oversized_json canonical cfg o) (json v) ≡ json_after v o
    replace_all-json v none = refl
    replace_all-json v (some bytes) = elim (Bool-cases (ltb cfg.cap_bytes (byte_len bytes))) [
      | inl y ↦ rw y refl
      | inr n ↦ rw n refl
    ]

    replace_all-content :
        (c : ToolResultContent)
        → replace_all (oversized canonical cfg c) c ≡ content_after canonical c
    unfolding oversized
    replace_all-content (json v) = replace_all-json v (canonical v)
    replace_all-content (blocks bs) = replace_all-blocks 0 bs no_blocks refl

    pub oversized-content :
        (r : Spilling)
        → (spill_units put to_text cfg turn (oversized canonical cfg r.out.content) r).out.content
          ≡ content_after canonical r.out.content
    oversized-content r =
        spill_units-content (oversized canonical cfg r.out.content) r
        ∙ replace_all-content r.out.content
