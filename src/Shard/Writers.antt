-- ===== src/Shard/Writers.antt =====
-- The configuration of the journal's writer of a shard, as NewEngine of internal/shard/engine.go makes it.
use matching_engine_go.Prelude.{
  ℕ, ◌*◌, ◌%◌, ◌^◌, ◌<◌, ◌≡◌, refl, [], true, false, not, ◌||◌, none, arith, lt64, eq_bytes,
}
use matching_engine_go.Config.{Config, validate}
use matching_engine_go.Journal.Writer.{WriterConfig, validate_writer_config}

-- A Duration is a number of nanoseconds.
unfoldable pub writer_config : Config → ℕ → WriterConfig
writer_config cfg shard_id = record {
  dir = cfg.wal_dir;
  engine_id = cfg.engine_id;
  shard_id = shard_id;
  shard_count = cfg.shard_count;
  queue_size = cfg.shard_queue_size;
  max_batch_commands = cfg.max_batch_commands;
  max_batch_bytes = cfg.max_batch_bytes;
  max_batch_delay = cfg.max_batch_delay_micros * 1000 % 2 ^ 64;
  segment_max_bytes = 64 * 2 ^ 20;
}

-- What Validate says of the fields that the writer reads.
facts :
    (c : Config)
    → validate c ≡ none
    → (eq_bytes c.engine_id [] ≡ false)
      × (eq_bytes c.wal_dir [] ≡ false)
      × (lt64 0 c.shard_count ≡ true)
      × (lt64 0 c.shard_queue_size ≡ true)
      × (lt64 0 c.max_batch_commands ≡ true)
      × (lt64 0 c.max_batch_bytes ≡ true)
      × (lt64 0 c.max_batch_delay_micros ≡ true)
unfolding validate
facts c e = (
  ground arith,
  ground arith,
  ground arith,
  ground arith,
  ground arith,
  ground arith,
  ground arith,
)

shard_in_range :
    (i n : ℕ) → lt64 0 n ≡ true → n < 2 ^ 64 → i < n → (lt64 i 0 || not (lt64 i n)) ≡ false
unfolding lt64
shard_in_range i n p l h = ground arith

delay_positive : (d : ℕ) → lt64 0 d ≡ true → d * 1000 < 2 ^ 63 → lt64 0 (d * 1000 % 2 ^ 64) ≡ true
unfolding lt64
delay_positive d p l = ground arith

-- A configuration that Validate accepts, with a number of shards of 64 bits, gives a configuration that
-- NewWriter accepts for every shard, where the delay in nanoseconds does not overflow.
pub validate_writer_config-writer_config :
    (c : Config) (shard_id : ℕ)
    → c.shard_count < 2 ^ 64
    → c.max_batch_delay_micros * 1000 < 2 ^ 63
    → validate c ≡ none
    → shard_id < c.shard_count
    → validate_writer_config (writer_config c shard_id) ≡ none
unfolding validate_writer_config writer_config lt64
validate_writer_config-writer_config c i n d e h =
    let (engine, dir, count, queue, commands, size, delay) = facts c e in
    let a = shard_in_range i c.shard_count count n h in
    let b = delay_positive c.max_batch_delay_micros delay d in
    rw dir (rw engine (rw a (rw queue (rw commands (rw size (rw b refl))))))
