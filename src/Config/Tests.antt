-- ===== src/Config/Tests.antt =====
-- A valid configuration.
use matching_engine_go.Prelude.{◌≡◌, refl, [], ◌∷◌, true, some, none, inr, lt64, eq_bytes, arith}
use matching_engine_go.Config.{Config, validate, new_symbol_registry-validate}
use matching_engine_go.Shard.Registry.{SymbolRegistry, new_symbol_registry}

abbrev pub config : Config
config = record {
  engine_id = 101 ∷ [];
  symbols = (65 ∷ []) ∷ (66 ∷ []) ∷ [];
  shard_count = 2;
  ingress_queue_size = 16;
  shard_queue_size = 16;
  wal_dir = 119 ∷ [];
  snapshot_dir = 115 ∷ [];
  max_batch_commands = 8;
  max_batch_bytes = 4096;
  max_batch_delay_micros = 100;
  enable_metrics = true;
  metrics_report_millis = 0;
}

pub config-valid : validate config ≡ none
unfolding validate lt64 eq_bytes
config-valid = refl

new_symbol_registry-validate_example :
    (r : SymbolRegistry) × (new_symbol_registry ((65 ∷ []) ∷ (66 ∷ []) ∷ []) 2 ≡ some (inr r))
new_symbol_registry-validate_example =
    new_symbol_registry-validate config (omega arith) config-valid
