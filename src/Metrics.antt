-- ===== src/Metrics.antt =====
-- internal/metrics/metrics.go: the reservoirs of latencies, the counters and the high-water marks of a
-- Collector, which the calls of the interface Sink change. Each update of a counter is atomic, and the
-- mutex of a reservoir makes its calls so.
pub mod Reservoirs
pub mod Collected
pub mod Tests
use matching_engine_go.Prelude.{
  ℕ, zero, suc, ◌+◌, ◌/◌, ◌%◌, ◌^◌, List, [], ◌∷◌, Bool, true, false, not, ◌==◌, leb, ltb,
  if◌then◌else◌, lt64, add64, sub64,
}

pub record Reservoir : Type 0 where
  pub count : ℕ
  pub next : ℕ
  pub slots : ℕ → ℕ

abbrev pub slot_count : ℕ
slot_count = 2048

abbrev pub new_reservoir : Reservoir
new_reservoir = record { count = 0; next = 0; slots = λ i. 0 }

unfoldable pub add : ℕ → Reservoir → Reservoir
add v r = record {
  slots = λ i. if i == r.next % slot_count then v else r.slots i;
  next = add64 r.next 1;
  count = add64 r.count 1;
}

pub record ReservoirSnapshot : Type 0 where
  pub count : ℕ
  pub values : List ℕ

-- The loop of snapshot, from i on for so many rounds.
unfoldable pub read_slots : (ℕ → ℕ) → ℕ → ℕ → ℕ → List ℕ
read_slots slots start zero i = []
read_slots slots start (suc rounds) i =
    slots (add64 start i % slot_count) ∷ read_slots slots start rounds (i + 1)

unfoldable pub snapshot : Reservoir → ReservoirSnapshot
unfolding read_slots
snapshot r =
    let limit = if ltb r.count slot_count then r.count else slot_count in
    record { count = r.count; values = read_slots r.slots (sub64 r.next limit) limit 0 }

unfoldable pub duration_to_micros : ℕ → ℕ
duration_to_micros d = if not (lt64 0 d) then 0 else d / 1000

-- updateHWM, at the value that is there when its compare-and-swap succeeds.
unfoldable pub update_hwm : ℕ → ℕ → ℕ
update_hwm value current = if leb value current then current else value

pub record Collector : Type 0 where
  pub accepted : ℕ
  pub rejected : ℕ
  pub backpressure : ℕ
  pub ingress_hwm : ℕ
  pub shard_hwm : ℕ
  pub wal_batches : ℕ
  pub wal_batch_commands_sum : ℕ
  pub wal_batch_bytes_sum : ℕ
  pub submits : Reservoir
  pub wal_sync : Reservoir
  pub snapshots : Reservoir

abbrev pub new_collector : Collector
new_collector = record {
  accepted = 0;
  rejected = 0;
  backpressure = 0;
  ingress_hwm = 0;
  shard_hwm = 0;
  wal_batches = 0;
  wal_batch_commands_sum = 0;
  wal_batch_bytes_sum = 0;
  submits = new_reservoir;
  wal_sync = new_reservoir;
  snapshots = new_reservoir;
}

-- The calls of Sink.
pub data Observation : Type 0 where
  submit_latency wal_sync_latency snapshot_pause : ℕ → Observation
  inc_accepted inc_rejected inc_backpressure : Observation
  shard_queue_depth ingress_queue_depth : ℕ → Observation
  wal_batch : ℕ → ℕ → Observation

-- `if n < 0 { n = 0 }`
abbrev pub at_least_zero : ℕ → ℕ
at_least_zero n = if lt64 n 0 then 0 else n

unfoldable pub observe : Observation → Collector → Collector
unfolding add duration_to_micros update_hwm
observe (submit_latency d) c = record c { submits = add (duration_to_micros d) c.submits }
observe inc_accepted c = record c { accepted = add64 c.accepted 1 }
observe inc_rejected c = record c { rejected = add64 c.rejected 1 }
observe inc_backpressure c = record c { backpressure = add64 c.backpressure 1 }
observe (shard_queue_depth depth) c = record c {
  shard_hwm = update_hwm (at_least_zero depth) c.shard_hwm;
}
observe (ingress_queue_depth depth) c = record c {
  ingress_hwm = update_hwm (at_least_zero depth) c.ingress_hwm;
}
observe (wal_batch commands bytes) c = record c {
  wal_batches = add64 c.wal_batches 1;
  wal_batch_commands_sum = add64 c.wal_batch_commands_sum (at_least_zero commands);
  wal_batch_bytes_sum = add64 c.wal_batch_bytes_sum (at_least_zero bytes);
}
observe (wal_sync_latency d) c = record c { wal_sync = add (duration_to_micros d) c.wal_sync }
observe (snapshot_pause d) c = record c { snapshots = add (duration_to_micros d) c.snapshots }
