-- ===== src/Shard/Registry.antt =====
-- internal/shard/registry.go. A registry maps each symbol to the shard that its hash gives. A Go map is
-- a function; the outer `none` is a panic.
use Prim.Native.Nat.{bit_xor}
use mathlib.Core.List.{append_assoc, append-nil}
use matching_engine_go.Prelude.{
  ℕ, ◌*◌, ◌%◌, ◌^◌, ◌≡◌, refl, List, [], ◌∷◌, ◌++◌, Bool, true, false, not, Option, none, some,
  ◌==◌, ◌⊎◌, inl, inr, if◌then◌else◌, Bool-cases, Option-cases, ==_iff, ap, sym, ◌∙◌, lt64,
  eq_bytes, eq_bytes→eq, ◌>>=◌,
}

pub record SymbolRegistry : Type 0 where
  pub shard_count : ℕ
  pub by_symbol : List ℕ → Option ℕ
  pub symbols_by_shard : ℕ → List (List ℕ)

pub data RegistryError : Type 0 where
  shard_count_not_positive no_symbols empty_symbol duplicate_symbol : RegistryError

-- FNV-1a with 32 bits, as hash/fnv documents it.
unfoldable pub fnv32a : ℕ → List ℕ → ℕ
fnv32a hash [] = hash
fnv32a hash (b ∷ bs) = fnv32a (bit_xor hash b * 16777619 % 2 ^ 32) bs

-- stableShardID; a division by zero is a panic.
unfoldable pub stable_shard_id : List ℕ → ℕ → Option ℕ
unfolding fnv32a
stable_shard_id symbol shard_count =
    if shard_count % 2 ^ 32 == 0
    then none
    else some (fnv32a 2166136261 symbol % (shard_count % 2 ^ 32))

-- The writes of the loop of NewSymbolRegistry to the two maps.
unfoldable pub register : SymbolRegistry → List ℕ → ℕ → SymbolRegistry
register r symbol shard_id = record r {
  by_symbol = λ key. if eq_bytes key symbol then some shard_id else r.by_symbol key;
  symbols_by_shard = λ k.
      if k == shard_id then r.symbols_by_shard shard_id ++ symbol ∷ [] else r.symbols_by_shard k;
}

unfoldable pub register_all :
    List (List ℕ) → SymbolRegistry → Option (RegistryError ⊎ SymbolRegistry)
unfolding register stable_shard_id
register_all [] r = some (inr r)
register_all (symbol ∷ symbols) r = elim (eq_bytes symbol []) [
  | true ↦ some (inl empty_symbol)
  | false ↦ elim (r.by_symbol symbol) [
    | some old ↦ some (inl duplicate_symbol)
    | none ↦ do
      shard_id ← stable_shard_id symbol r.shard_count
      register_all symbols (register r symbol shard_id)
  ]
]

unfoldable pub new_symbol_registry : List (List ℕ) → ℕ → Option (RegistryError ⊎ SymbolRegistry)
unfolding register_all
new_symbol_registry symbols shard_count =
    if not (lt64 0 shard_count) then some (inl shard_count_not_positive) else elim symbols [
      | [] ↦ some (inl no_symbols)
      | first ∷ others ↦ register_all (first ∷ others) (record {
        shard_count = shard_count;
        by_symbol = λ key. none;
        symbols_by_shard = λ k. [];
      })
    ]

unfoldable pub shard_for : SymbolRegistry → List ℕ → Option ℕ
shard_for r symbol = r.by_symbol symbol

unfoldable pub symbols_for_shard : SymbolRegistry → ℕ → List (List ℕ)
symbols_for_shard r shard_id = r.symbols_by_shard shard_id

-- The hash of a symbol as a shard, the symbols among some that have a shard in their order, and whether
-- a symbol is among them.
abbrev pub shard_of : ℕ → List ℕ → ℕ
shard_of count symbol = fnv32a 2166136261 symbol % (count % 2 ^ 32)

abbrev pub with_shard : ℕ → ℕ → List (List ℕ) → List (List ℕ)
with_shard count k [] = []
with_shard count k (s ∷ ss) =
    if k == shard_of count s then s ∷ with_shard count k ss else with_shard count k ss

abbrev pub contains : List ℕ → List (List ℕ) → Bool
contains key [] = false
contains key (s ∷ ss) = if eq_bytes key s then true else contains key ss

-- What a registry knows after some symbols were added to one.
Adds : List (List ℕ) → SymbolRegistry → SymbolRegistry → Type 0
Adds symbols r r' =
    ((key : List ℕ)
      → r'.by_symbol key
        ≡ (if contains key symbols then some (shard_of r.shard_count key) else r.by_symbol key))
    × ((k : ℕ) → r'.symbols_by_shard k ≡ r.symbols_by_shard k ++ with_shard r.shard_count k symbols)

Adds-first :
    (symbol : List ℕ) (symbols : List (List ℕ)) (r r' : SymbolRegistry)
    → Adds symbols (register r symbol (shard_of r.shard_count symbol)) r'
    → Adds (symbol ∷ symbols) r r'
unfolding Adds register
Adds-first symbol symbols r r' (a, b) = (
  λ key. elim (Bool-cases (eq_bytes key symbol)) [
    | inl e ↦ a key ∙ same key e
    | inr e ↦ a key ∙ rw e refl
  ],
  λ k. b k ∙ here k,
)
  where
    same :
        (key : List ℕ) (e : eq_bytes key symbol ≡ true)
        → (if contains key symbols
            then some (shard_of r.shard_count key)
            else (if eq_bytes key symbol
                then some (shard_of r.shard_count symbol)
                else r.by_symbol key))
          ≡ (if contains key (symbol ∷ symbols)
              then some (shard_of r.shard_count key)
              else r.by_symbol key)
    same key e = elim (Bool-cases (contains key symbols)) [
      | inl c ↦ rw (c, e) refl
      | inr c ↦
          rw (c, e)
            (ap (λ (x : List ℕ). some (shard_of r.shard_count x)) (sym (eq_bytes→eq key symbol e)))
    ]

    here :
        (k : ℕ)
        → (if k == shard_of r.shard_count symbol
              then r.symbols_by_shard (shard_of r.shard_count symbol) ++ symbol ∷ []
              else r.symbols_by_shard k)
            ++ with_shard r.shard_count k symbols
          ≡ r.symbols_by_shard k ++ with_shard r.shard_count k (symbol ∷ symbols)
    here k = elim (Bool-cases (k == shard_of r.shard_count symbol)) [
      | inl e ↦ rw e (
          append_assoc (r.symbols_by_shard (shard_of r.shard_count symbol)) (symbol ∷ [])
            (with_shard r.shard_count k symbols)
          ∙ ap (λ (j : ℕ). r.symbols_by_shard j ++ symbol ∷ with_shard r.shard_count k symbols)
              (sym ((==_iff k (shard_of r.shard_count symbol)).0 e)))
      | inr e ↦ rw e refl
    ]

register_all-Adds :
    (symbols : List (List ℕ)) (r r' : SymbolRegistry)
    → register_all symbols r ≡ some (inr r')
    → Adds symbols r r'
unfolding Adds register_all stable_shard_id
register_all-Adds [] r r' e =
    let q : r ≡ r' = cc in
    (
      λ key. ap (λ (x : SymbolRegistry). x.by_symbol key) (sym q),
      λ k.
          ap (λ (x : SymbolRegistry). x.symbols_by_shard k) (sym q)
          ∙ sym (append-nil (r.symbols_by_shard k)),
    )
register_all-Adds (symbol ∷ symbols) r r' e = elim (Bool-cases (eq_bytes symbol [])) [
  | inl t ↦ let f = rw (t, register_all) at e in absurd cc
  | inr t ↦ elim (Option-cases (r.by_symbol symbol)) [
    | inr (old, g) ↦ let f = rw g at (rw (t, register_all) at e) in absurd cc
    | inl g ↦ elim (Bool-cases (r.shard_count % 2 ^ 32 == 0)) [
      | inl z ↦ let f = rw z at (rw g at (rw (t, register_all) at e)) in absurd cc
      | inr z ↦ Adds-first symbol symbols r r' (
          register_all-Adds symbols (register r symbol (shard_of r.shard_count symbol)) r'
            (rw z at (rw g at (rw (t, register_all) at e))))
    ]
  ]
]

-- A registry that NewSymbolRegistry makes knows the shard of exactly its symbols, which is their hash
-- reduced to the number of shards, and lists for each shard the symbols with that shard in the order in
-- which they were given.
pub new_symbol_registry_complete :
    (symbols : List (List ℕ)) (shard_count : ℕ) (r : SymbolRegistry)
    → new_symbol_registry symbols shard_count ≡ some (inr r)
    → ((key : List ℕ)
        → shard_for r key
          ≡ (if contains key symbols then some (shard_of shard_count key) else none))
      × ((k : ℕ) → symbols_for_shard r k ≡ with_shard shard_count k symbols)
unfolding new_symbol_registry shard_for symbols_for_shard Adds
new_symbol_registry_complete symbols shard_count r e =
    elim (Bool-cases (not (lt64 0 shard_count))) [
      | inl n ↦ let f = rw (n, new_symbol_registry) at e in absurd cc
      | inr n ↦ go symbols (rw (n, new_symbol_registry) at e)
    ]
  where
    start : SymbolRegistry
    start = record {
      shard_count = shard_count;
      by_symbol = λ key. none;
      symbols_by_shard = λ k. [];
    }

    go :
        (ss : List (List ℕ))
        → elim ss as (λ _. Option (RegistryError ⊎ SymbolRegistry)) [
          | [] ↦ some (inl no_symbols)
          | x ∷ xs ↦ register_all (x ∷ xs) start
        ]
          ≡ some (inr r)
        → ((key : List ℕ)
            → r.by_symbol key ≡ (if contains key ss then some (shard_of shard_count key) else none))
          × ((k : ℕ) → r.symbols_by_shard k ≡ with_shard shard_count k ss)
    go [] f = absurd cc
    go (x ∷ xs) f = register_all-Adds (x ∷ xs) start r f
