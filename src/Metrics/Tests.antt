-- ===== src/Metrics/Tests.antt =====
-- A collector that is told a few things.
use matching_engine_go.Prelude.{◌≡◌, ◌%◌, ◌^◌, List, [], ◌∷◌, arith}
use matching_engine_go.Metrics.{
  Observation, submit_latency, inc_accepted, shard_queue_depth, wal_batch, new_collector,
  new_reservoir, slot_count, snapshot,
}
use matching_engine_go.Metrics.Reservoirs.{add_all, last, snapshot-add_all}
use matching_engine_go.Metrics.Collected.{
  observe_all, submits_of, commands_of, depths_of, gather, sum, highest, observe_all-new_collector,
}

snapshot-add_all_example :
    snapshot (add_all (7 ∷ 5 ∷ 9 ∷ []) new_reservoir)
    ≡ record { count = 3; values = 7 ∷ 5 ∷ 9 ∷ [] }
snapshot-add_all_example = snapshot-add_all (7 ∷ 5 ∷ 9 ∷ []) (omega arith)

abbrev told : List Observation
told =
    submit_latency 2500
    ∷ inc_accepted
    ∷ shard_queue_depth 4
    ∷ wal_batch 3 120
    ∷ submit_latency 7000
    ∷ shard_queue_depth 2
    ∷ inc_accepted
    ∷ []

observe_all-new_collector_example :
    ((observe_all told new_collector).accepted ≡ 2)
    × ((observe_all told new_collector).wal_batch_commands_sum
        ≡ sum (gather commands_of told) % 2 ^ 64)
    × ((observe_all told new_collector).shard_hwm ≡ highest (gather depths_of told))
    × (snapshot (observe_all told new_collector).submits
        ≡ record { count = 2; values = last slot_count (gather submits_of told) })
observe_all-new_collector_example = observe_all-new_collector told (omega arith)
