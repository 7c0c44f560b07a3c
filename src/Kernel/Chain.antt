-- ===== src/Kernel/Chain.antt =====
-- crates/kernel/src/loop_/chain.rs: the resolution of the middleware chain. An `i32` is the number
-- by which it exceeds the smallest `i32`, which keeps the order. `digest` is the hash of the
-- canonical JSON of a chain.
pub mod Resolved
use grist_agent.Prelude.{
  ℕ, ◌+◌, ◌%◌, ◌^◌, Bool, true, false, not, ◌&&◌, ◌||◌, Option, List, [], ◌∷◌, any, if◌then◌else◌,
  ltb, leb, ◌==◌, Result, ok, err, ◌>>=◌, ok_or,
}
use grist_agent.Prelude.Sort.{sort}
use grist_agent.Prelude.Text.{Text, codes, same}
use grist_agent.Kernel.{KernelError, duplicate_middleware, reserved_priority, hash_error}

pub data MiddlewareSource : Type 0 where
  from_kernel from_model from_agent from_project : MiddlewareSource

-- `H` is the type of the implementations.
pub record MiddlewareEntry (H : Type 0) : Type 0 where
  pub name : Text
  pub priority : ℕ
  pub source : MiddlewareSource
  pub config_hash : Option Text
  pub middleware : H

pub record ChainEntry : Type 0 where
  pub index : ℕ
  pub name : Text
  pub priority : ℕ
  pub source : MiddlewareSource
  pub config_hash : Option Text

pub record MiddlewareChainResolvedPayload : Type 0 where
  pub chain : List ChainEntry
  pub chain_hash : Text

abbrev pub tool_call_parser_priority : ℕ
tool_call_parser_priority = 2 ^ 31 + 100

abbrev pub tool_call_parser_name : Text
tool_call_parser_name = codes "tool_call_parser"

module _ {H : Type 0} where
  abbrev pub is_parser : MiddlewareEntry H → Bool
  is_parser e = same e.name tool_call_parser_name

  -- The entry takes the slot of the parser, or is the parser at another priority.
  abbrev pub misplaced : MiddlewareEntry H → Bool
  misplaced e =
      (is_parser e && not (e.priority == tool_call_parser_priority))
      || (not (is_parser e) && leb e.priority tool_call_parser_priority)

  -- The loop over the entries, with the names seen so far.
  unfoldable pub check_entries :
      List Text → List (MiddlewareEntry H) → Result {0, 0} KernelError Unit
  check_entries names [] = ok tt
  check_entries names (e ∷ es) =
      let rest = check_entries (e.name ∷ names) es in
      if any (same e.name) names
      then err (duplicate_middleware e.name)
      else if misplaced e
      then err (reserved_priority e.name)
      else rest

  abbrev pub runs_before : MiddlewareEntry H → MiddlewareEntry H → Bool
  runs_before a b = leb a.priority b.priority

  abbrev pub numbered : ℕ → List (MiddlewareEntry H) → List ChainEntry
  numbered i [] = []
  numbered i (e ∷ es) =
      record {
        index = i % 2 ^ 32;
        name = e.name;
        priority = e.priority;
        source = e.source;
        config_hash = e.config_hash;
      }
      ∷ numbered (i + 1) es

  -- `resolve`
  unfoldable pub resolve :
      (List ChainEntry → Option Text)
      → List (MiddlewareEntry H)
      → Result KernelError (List (MiddlewareEntry H) × MiddlewareChainResolvedPayload)
  unfolding check_entries
  resolve digest entries = do
    checked ← check_entries [] entries
    hash ← ok_or hash_error (digest (numbered 0 (sort runs_before entries)))
    ok (
      sort runs_before entries,
      record { chain = numbered 0 (sort runs_before entries); chain_hash = hash },
    )
