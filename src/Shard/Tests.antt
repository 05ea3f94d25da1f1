-- ===== src/Shard/Tests.antt =====
-- The registry at two symbols and two shards.
use matching_engine_go.Prelude.{
  ℕ, ◌≡◌, arith, refl, List, [], ◌∷◌, some, none, inr, if◌then◌else◌, lt64, eq_bytes, ◌==◌,
}
use matching_engine_go.Config.Tests.{config, config-valid}
use matching_engine_go.Journal.Writer.{validate_writer_config}
use matching_engine_go.Shard.Writers.{writer_config, validate_writer_config-writer_config}
use matching_engine_go.Shard.Registry.{
  SymbolRegistry, fnv32a, new_symbol_registry, shard_for, symbols_for_shard, shard_of, with_shard,
  contains, new_symbol_registry_complete,
}

-- The hash of "foobar" in the tables of FNV-1a.
hash_foobar : fnv32a 2166136261 (102 ∷ 111 ∷ 111 ∷ 98 ∷ 97 ∷ 114 ∷ []) ≡ 0xbf9cf968
unfolding fnv32a
hash_foobar = refl

abbrev symbols : List (List ℕ)
symbols = (65 ∷ []) ∷ (66 ∷ []) ∷ []

abbrev registry : SymbolRegistry
registry = record {
  shard_count = 2;
  by_symbol = λ key.
      if eq_bytes key (66 ∷ []) then some 1 else if eq_bytes key (65 ∷ []) then some 0 else none;
  symbols_by_shard = λ k. if k == 1 then (66 ∷ []) ∷ [] else if k == 0 then (65 ∷ []) ∷ [] else [];
}

made : new_symbol_registry symbols 2 ≡ some (inr registry)
unfolding new_symbol_registry lt64 eq_bytes
made = refl

new_symbol_registry_complete_example :
    ((key : List ℕ)
      → shard_for registry key ≡ (if contains key symbols then some (shard_of 2 key) else none))
    × ((k : ℕ) → symbols_for_shard registry k ≡ with_shard 2 k symbols)
new_symbol_registry_complete_example = new_symbol_registry_complete symbols 2 registry made

validate_writer_config-writer_config_example :
    validate_writer_config (writer_config config 1) ≡ none
validate_writer_config-writer_config_example =
    validate_writer_config-writer_config config 1 (omega arith) (omega arith) config-valid
      (omega arith)
