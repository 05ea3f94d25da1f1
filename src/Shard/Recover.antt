-- ===== src/Shard/Recover.antt =====
-- recoverBooks and nextSequence of internal/shard/engine.go. What snapshot.LoadLatest and
-- journal.ReadShardRecordsForEngine return is given. A Go map is a function; the outer `none` is a panic.
pub mod Replay
pub mod Sequence
pub mod Delivered
pub mod Tests
use matching_engine_go.Prelude.{
  ℕ, zero, suc, ◌+◌, List, [], ◌∷◌, Bool, true, false, not, Option, none, some, ◌==◌, ◌⊎◌, inl, inr,
  if◌then◌else◌, length, get_elem?, ltb, leb, add64, eq_bytes, ◌>>=◌,
}
use matching_engine_go.Book.State.{Book, Snapshot}
use matching_engine_go.Book.Handlers
use matching_engine_go.Book.Snapshots.{snapshot, new_from_snapshot}
use matching_engine_go.Journal.Codec.{Record}
use matching_engine_go.Recovery.{Books, put_book, equal_results}
use matching_engine_go.Shard.Registry.{SymbolRegistry, shard_for}
use matching_engine_go.Shard.Loop.{make_books}
use matching_engine_go.Config.{Config}

-- snapshot.EngineSnapshot
pub record EngineSnapshot : Type 0 where
  pub engine_id : List ℕ
  pub shard_count : ℕ
  pub last_applied_by_shard : List ℕ
  pub books : List Snapshot

-- What LoadLatest returns: that there is no snapshot, another error, or a snapshot.
pub data Loaded : Type 0 where
  not_found : Loaded
  load_failed : List ℕ → Loaded
  loaded : EngineSnapshot → Loaded

pub data RecoverError : Type 0 where
  snapshot_failed records_failed : List ℕ → RecoverError
  engine_id_mismatch shard_count_mismatch watermark_length_mismatch : RecoverError
  unknown_snapshot_symbol unknown_record_symbol : List ℕ → RecoverError
  non_monotonic : ℕ → ℕ → ℕ → RecoverError
  replay_mismatch : ℕ → ℕ → RecoverError

-- The loop over the books of the snapshot.
unfoldable pub restore_symbols :
    SymbolRegistry
    → List Snapshot
    → (List ℕ → Option Snapshot)
    → RecoverError ⊎ (List ℕ → Option Snapshot)
restore_symbols registry [] restored = inr restored
restore_symbols registry (bs ∷ books) restored = elim (shard_for registry bs.symbol) [
  | none ↦ inl (unknown_snapshot_symbol bs.symbol)
  | some k ↦
      restore_symbols registry books
        (λ key. if eq_bytes key bs.symbol then some bs else restored key)
]

abbrev pub zeros : ℕ → List ℕ
zeros zero = []
zeros (suc n) = 0 ∷ zeros n

-- The checks of the snapshot, with the books by symbol and the watermarks of the shards.
unfoldable pub check_snapshot :
    Config → SymbolRegistry → Loaded → RecoverError ⊎ ((List ℕ → Option Snapshot) × List ℕ)
unfolding restore_symbols
check_snapshot cfg registry not_found = inr (λ key. none, zeros cfg.shard_count)
check_snapshot cfg registry (load_failed e) = inl (snapshot_failed e)
check_snapshot cfg registry (loaded snap) =
    if not (eq_bytes snap.engine_id cfg.engine_id)
    then inl engine_id_mismatch
    else if not (snap.shard_count == cfg.shard_count)
    then inl shard_count_mismatch
    else if not (length snap.last_applied_by_shard == cfg.shard_count)
    then inl watermark_length_mismatch
    else elim (restore_symbols registry snap.books (λ key. none)) [
      | inl e ↦ inl e
      | inr restored ↦ inr (restored, snap.last_applied_by_shard)
    ]

-- The loop over the records of a shard, with its watermark and `prevSeq`.
unfoldable pub recover_records :
    ℕ → List Record → Books → ℕ → ℕ → Option (RecoverError ⊎ (Books × ℕ))
unfolding put_book
recover_records shard_id [] books last_applied prev_seq = some (inr (books, last_applied))
recover_records shard_id (rec ∷ records) books last_applied prev_seq =
    elim (leb rec.command_seq last_applied) [
      | true ↦ recover_records shard_id records books last_applied prev_seq
      | false ↦ elim (leb rec.command_seq prev_seq) [
        | true ↦ some (inl (non_monotonic shard_id prev_seq rec.command_seq))
        | false ↦ elim (books rec.command.symbol) [
          | none ↦ some (inl (unknown_record_symbol rec.command.symbol))
          | some b ↦ do
            (b', computed) ← Handlers.apply b rec.command
            elim (equal_results computed rec.result) [
              | false ↦ some (inl (replay_mismatch shard_id rec.command_seq))
              | true ↦
                  recover_records shard_id records (put_book books rec.command.symbol b')
                    rec.command_seq rec.command_seq
            ]
        ]
      ]
    ]

-- The loop over the shards, from one on for those that are left, each with its watermark.
unfoldable pub recover_shards :
    (ℕ → List ℕ ⊎ List Record) → ℕ → List ℕ → Books → Option (RecoverError ⊎ (Books × List ℕ))
unfolding recover_records
recover_shards read shard_id [] books = some (inr (books, []))
recover_shards read shard_id (last_applied ∷ others) books = elim (read shard_id) [
  | inl e ↦ some (inl (records_failed e))
  | inr records ↦ do
    recovered ← recover_records shard_id records books last_applied last_applied
    elim recovered [
      | inl e ↦ some (inl e)
      | inr (books', last_applied') ↦ do
        more ← recover_shards read (shard_id + 1) others books'
        elim more [
          | inl e ↦ some (inl e)
          | inr (books'', others') ↦ some (inr (books'', last_applied' ∷ others'))
        ]
    ]
]

-- The books of recoverBooks, of which it returns the snapshots, and the watermarks.
unfoldable pub recover_books :
    Config
    → SymbolRegistry
    → Loaded
    → (ℕ → List ℕ ⊎ List Record)
    → Option (RecoverError ⊎ (Books × List ℕ))
unfolding check_snapshot recover_shards make_books
recover_books cfg registry snap read = elim (check_snapshot cfg registry snap) [
  | inl e ↦ some (inl e)
  | inr (restored, watermarks) ↦ do
    books ← make_books new_from_snapshot restored cfg.symbols (λ key. none)
    recover_shards read 0 watermarks books
]

-- nextSequence
unfoldable pub max_sequence : List ℕ → ℕ → ℕ
max_sequence [] greatest = greatest
max_sequence (sequence ∷ sequences) greatest =
    max_sequence sequences (if ltb greatest sequence then sequence else greatest)

unfoldable pub next_sequence : List ℕ → ℕ
unfolding max_sequence
next_sequence last_applied_by_shard = add64 (max_sequence last_applied_by_shard 0) 1
