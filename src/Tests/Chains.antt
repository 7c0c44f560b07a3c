-- ===== src/Tests/Chains.antt =====
-- crates/kernel/src/loop_/chain.rs on three entries.
use grist_agent.Prelude.{ℕ, ◌+◌, ◌^◌, ◌≡◌, refl, Option, none, some, List, [], ◌∷◌, ok}
use grist_agent.Prelude.Text.{Text, codes}
use grist_agent.Kernel.Chain.{
  MiddlewareSource, from_kernel, from_model, from_agent, MiddlewareEntry, ChainEntry,
  MiddlewareChainResolvedPayload, numbered, check_entries, resolve, tool_call_parser_name,
}
use grist_agent.Kernel.Chain.Resolved.{IsResolved, resolve-IsResolved}

abbrev entry : Text → ℕ → MiddlewareSource → MiddlewareEntry (Unit {0})
entry name priority source = record {
  name = name;
  priority = 2 ^ 31 + priority;
  source = source;
  config_hash = none;
  middleware = tt;
}

abbrev recorder : MiddlewareEntry (Unit {0})
recorder = entry (codes "recorder") 990 from_kernel

abbrev notes : MiddlewareEntry (Unit {0})
notes = entry (codes "notes") 200 from_agent

abbrev parser : MiddlewareEntry (Unit {0})
parser = entry tool_call_parser_name 100 from_model

abbrev digest : List ChainEntry → Option Text
digest chain = some (codes "b3:chain")

abbrev resolved_payload : MiddlewareChainResolvedPayload
resolved_payload = record {
  chain = numbered 0 (parser ∷ notes ∷ recorder ∷ []);
  chain_hash = codes "b3:chain";
}

resolves :
    resolve digest (recorder ∷ notes ∷ parser ∷ [])
    ≡ ok (parser ∷ notes ∷ recorder ∷ [], resolved_payload)
unfolding resolve check_entries
resolves = refl

resolve-IsResolved_example :
    IsResolved digest
      (recorder ∷ notes ∷ parser ∷ [])
      (parser ∷ notes ∷ recorder ∷ [])
      resolved_payload
resolve-IsResolved_example =
    resolve-IsResolved digest (recorder ∷ notes ∷ parser ∷ []) (parser ∷ notes ∷ recorder ∷ [])
      resolved_payload resolves
