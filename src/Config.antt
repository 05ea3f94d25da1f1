-- ===== src/Config.antt =====
-- Config.Validate of internal/config/config.go, and that a valid configuration is enough for the
-- registry of internal/shard/registry.go.
pub mod Tests
use matching_engine_go.Prelude.{
  ℕ, ◌+◌, ◌%◌, ◌^◌, ◌<◌, ◌≡◌, refl, List, [], ◌∷◌, Bool, true, false, not, ◌||◌, Option, none, some,
  ◌==◌, ◌⊎◌, inl, inr, if◌then◌else◌, arith, Bool-cases, Option-cases, ap, sym, ◌∙◌, lt64, eq_bytes,
}
use matching_engine_go.Shard.Registry.{
  SymbolRegistry, RegistryError, stable_shard_id, shard_of, register, register_all,
  new_symbol_registry,
}

pub record Config : Type 0 where
  pub engine_id : List ℕ
  pub symbols : List (List ℕ)
  pub shard_count : ℕ
  pub ingress_queue_size : ℕ
  pub shard_queue_size : ℕ
  pub wal_dir : List ℕ
  pub snapshot_dir : List ℕ
  pub max_batch_commands : ℕ
  pub max_batch_bytes : ℕ
  pub max_batch_delay_micros : ℕ
  pub enable_metrics : Bool
  pub metrics_report_millis : ℕ

pub data ConfigError : Type 0 where
  engine_id_is_required no_symbol shard_count_not_positive queue_sizes_not_positive : ConfigError
  batch_thresholds_not_positive directories_are_required : ConfigError
  metrics_report_negative symbol_is_empty symbol_is_duplicate : ConfigError

-- The loop over the symbols, with the set of those seen.
unfoldable pub check_symbols : List (List ℕ) → (List ℕ → Bool) → Option ConfigError
check_symbols [] seen = none
check_symbols (s ∷ ss) seen =
    let later = check_symbols ss (λ key. if eq_bytes key s then true else seen key) in
    if eq_bytes s []
    then some symbol_is_empty
    else if seen s
    then some symbol_is_duplicate
    else later

unfoldable pub is_no_symbols : List (List ℕ) → Bool
is_no_symbols [] = true
is_no_symbols (s ∷ ss) = false

unfoldable pub validate : Config → Option ConfigError
unfolding check_symbols is_no_symbols
validate c =
    if eq_bytes c.engine_id []
    then some engine_id_is_required
    else if is_no_symbols c.symbols
    then some no_symbol
    else if not (lt64 0 c.shard_count)
    then some shard_count_not_positive
    else if not (lt64 0 c.ingress_queue_size) || not (lt64 0 c.shard_queue_size)
    then some queue_sizes_not_positive
    else if not (lt64 0 c.max_batch_commands)
        || not (lt64 0 c.max_batch_bytes)
        || not (lt64 0 c.max_batch_delay_micros)
    then some batch_thresholds_not_positive
    else if eq_bytes c.wal_dir [] || eq_bytes c.snapshot_dir []
    then some directories_are_required
    else if lt64 c.metrics_report_millis 0
    then some metrics_report_negative
    else check_symbols c.symbols (λ key. false)

-- What is not seen is not registered, and stays so.
unseen :
    (s : List ℕ) (seen : List ℕ → Bool) (r : SymbolRegistry)
    → ((key : List ℕ) → seen key ≡ false → r.by_symbol key ≡ none)
    → (key : List ℕ) → (if eq_bytes key s then true else seen key) ≡ false
    → (if eq_bytes key s then some (shard_of r.shard_count s) else r.by_symbol key) ≡ none
unseen s seen r u key h = elim (Bool-cases (eq_bytes key s)) [
  | inl e ↦ let g = rw e at h in absurd cc
  | inr e ↦ rw e (u key (rw e at h))
]

register_all-total :
    (ss : List (List ℕ)) (seen : List ℕ → Bool) (r : SymbolRegistry)
    → (r.shard_count % 2 ^ 32 == 0) ≡ false
    → ((key : List ℕ) → seen key ≡ false → r.by_symbol key ≡ none)
    → check_symbols ss seen ≡ none
    → (r' : SymbolRegistry) × (register_all ss r ≡ some (inr r'))
unfolding check_symbols register_all stable_shard_id
register_all-total [] seen r z u e = (r, refl)
register_all-total (s ∷ ss) seen r z u e = elim (Bool-cases (eq_bytes s [])) [
  | inl f ↦ let g = rw (f, check_symbols) at e in absurd cc
  | inr f ↦ elim (Bool-cases (seen s)) [
    | inl k ↦ let g = rw k at (rw (f, check_symbols) at e) in absurd cc
    | inr k ↦
        let (r', done) =
          register_all-total ss (λ key. if eq_bytes key s then true else seen key)
            (register r s (shard_of r.shard_count s)) z (unseen s seen r u)
            (rw k at (rw (f, check_symbols) at e)) in
        (r', rw (f, register_all) (rw (u s k) (rw z done)))
  ]
]

-- What Validate says of the symbols and of the number of shards.
facts :
    (c : Config)
    → validate c ≡ none
    → (is_no_symbols c.symbols ≡ false)
      × (lt64 0 c.shard_count ≡ true)
      × (check_symbols c.symbols (λ key. false) ≡ none)
unfolding validate
facts c e = (ground arith, ground arith, ground arith)

nonzero : (n : ℕ) → lt64 0 n ≡ true → n < 2 ^ 32 → (n % 2 ^ 32 == 0) ≡ false
unfolding lt64
nonzero n p h = ground arith

-- NewSymbolRegistry accepts the symbols of a configuration that Validate accepts, if the number of
-- shards is below 2 ^ 32.
pub new_symbol_registry-validate :
    (c : Config)
    → c.shard_count < 2 ^ 32
    → validate c ≡ none
    → (r : SymbolRegistry) × (new_symbol_registry c.symbols c.shard_count ≡ some (inr r))
unfolding validate new_symbol_registry
new_symbol_registry-validate c h e =
    let (n, p, s) = facts c e in
    let z : (c.shard_count % 2 ^ 32 == 0) ≡ false = nonzero c.shard_count p h in
    go c.symbols n p s z
  where
    start : SymbolRegistry
    start = record {
      shard_count = c.shard_count;
      by_symbol = λ key. none;
      symbols_by_shard = λ k. [];
    }

    go :
        (ss : List (List ℕ))
        → is_no_symbols ss ≡ false
        → lt64 0 c.shard_count ≡ true
        → check_symbols ss (λ key. false) ≡ none
        → (c.shard_count % 2 ^ 32 == 0) ≡ false
        → (r : SymbolRegistry) × (new_symbol_registry ss c.shard_count ≡ some (inr r))
    go [] n p s z = absurd cc
    go (x ∷ xs) n p s z =
        let (r, d) = register_all-total (x ∷ xs) (λ key. false) start z (λ key k. refl) s in
        (r, rw (p, new_symbol_registry) d)
