-- ===== src/Metrics/Collected.antt =====
-- What a Collector has after some observations, in any order.
use matching_engine_go.Prelude.{
  ℕ, ◌+◌, ◌%◌, ◌^◌, ◌<◌, ◌≡◌, refl, List, [], ◌∷◌, ◌++◌, leb, if◌then◌else◌, length, arith, ap, sym,
  ◌∙◌, add64,
}
use Prim.Native.Nat.{max}
use matching_engine_go.Metrics.{
  Reservoir, new_reservoir, slot_count, add, snapshot, duration_to_micros, update_hwm, Collector,
  new_collector, Observation, submit_latency, wal_sync_latency, snapshot_pause, inc_accepted,
  inc_rejected, inc_backpressure, shard_queue_depth, ingress_queue_depth, wal_batch, at_least_zero,
  observe,
}
use matching_engine_go.Metrics.Reservoirs.{add_all, last, snapshot-add_all}

abbrev pub observe_all : List Observation → Collector → Collector
observe_all [] c = c
observe_all (o ∷ os) c = observe_all os (observe o c)

-- What each observation brings to a field.
abbrev pub submits_of : Observation → List ℕ
submits_of (submit_latency d) = duration_to_micros d ∷ []
submits_of _ = []

abbrev pub accepted_of : Observation → List ℕ
accepted_of inc_accepted = 1 ∷ []
accepted_of _ = []

abbrev pub depths_of : Observation → List ℕ
depths_of (shard_queue_depth depth) = at_least_zero depth ∷ []
depths_of _ = []

abbrev pub commands_of : Observation → List ℕ
commands_of (wal_batch commands bytes) = at_least_zero commands ∷ []
commands_of _ = []

abbrev pub gather : (Observation → List ℕ) → List Observation → List ℕ
gather g [] = []
gather g (o ∷ os) = g o ++ gather g os

abbrev pub sum : List ℕ → ℕ
sum [] = 0
sum (x ∷ xs) = x + sum xs

abbrev pub highest : List ℕ → ℕ
highest [] = 0
highest (x ∷ xs) = max x (highest xs)

module _ {A : Type 0} (f : ℕ → A → A) where
  abbrev fold : List ℕ → A → A
  fold [] a = a
  fold (x ∷ xs) a = fold xs (f x a)

  fold-append : (xs ys : List ℕ) (a : A) → fold (xs ++ ys) a ≡ fold ys (fold xs a)
  fold-append [] ys a = refl
  fold-append (x ∷ xs) ys a = fold-append xs ys (f x a)

  -- A field that every observation changes by what it brings.
  field-observe_all :
      (field : Collector → A) (g : Observation → List ℕ)
      → ((o : Observation) (c : Collector) → field (observe o c) ≡ fold (g o) (field c))
      → (os : List Observation) (c : Collector)
      → field (observe_all os c) ≡ fold (gather g os) (field c)
  field-observe_all field g one [] c = refl
  field-observe_all field g one (o ∷ os) c =
      field-observe_all field g one os (observe o c)
      ∙ ap (fold (gather g os)) (one o c)
      ∙ sym (fold-append (g o) (gather g os) (field c))

submits-observe :
    (o : Observation) (c : Collector) → (observe o c).submits ≡ fold add (submits_of o) c.submits
unfolding observe
submits-observe (submit_latency d) c = refl
submits-observe (wal_sync_latency d) c = refl
submits-observe (snapshot_pause d) c = refl
submits-observe inc_accepted c = refl
submits-observe inc_rejected c = refl
submits-observe inc_backpressure c = refl
submits-observe (shard_queue_depth depth) c = refl
submits-observe (ingress_queue_depth depth) c = refl
submits-observe (wal_batch commands bytes) c = refl

abbrev plus : ℕ → ℕ → ℕ
plus x n = add64 n x

accepted-observe :
    (o : Observation) (c : Collector)
    → (observe o c).accepted ≡ fold plus (accepted_of o) c.accepted
unfolding observe
accepted-observe (submit_latency d) c = refl
accepted-observe (wal_sync_latency d) c = refl
accepted-observe (snapshot_pause d) c = refl
accepted-observe inc_accepted c = refl
accepted-observe inc_rejected c = refl
accepted-observe inc_backpressure c = refl
accepted-observe (shard_queue_depth depth) c = refl
accepted-observe (ingress_queue_depth depth) c = refl
accepted-observe (wal_batch commands bytes) c = refl

shard_hwm-observe :
    (o : Observation) (c : Collector)
    → (observe o c).shard_hwm ≡ fold update_hwm (depths_of o) c.shard_hwm
unfolding observe
shard_hwm-observe (submit_latency d) c = refl
shard_hwm-observe (wal_sync_latency d) c = refl
shard_hwm-observe (snapshot_pause d) c = refl
shard_hwm-observe inc_accepted c = refl
shard_hwm-observe inc_rejected c = refl
shard_hwm-observe inc_backpressure c = refl
shard_hwm-observe (shard_queue_depth depth) c = refl
shard_hwm-observe (ingress_queue_depth depth) c = refl
shard_hwm-observe (wal_batch commands bytes) c = refl

commands-observe :
    (o : Observation) (c : Collector)
    → (observe o c).wal_batch_commands_sum ≡ fold plus (commands_of o) c.wal_batch_commands_sum
unfolding observe
commands-observe (submit_latency d) c = refl
commands-observe (wal_sync_latency d) c = refl
commands-observe (snapshot_pause d) c = refl
commands-observe inc_accepted c = refl
commands-observe inc_rejected c = refl
commands-observe inc_backpressure c = refl
commands-observe (shard_queue_depth depth) c = refl
commands-observe (ingress_queue_depth depth) c = refl
commands-observe (wal_batch commands bytes) c = refl

fold-add : (vs : List ℕ) (r : Reservoir) → fold add vs r ≡ add_all vs r
fold-add [] r = refl
fold-add (v ∷ vs) r = fold-add vs (add v r)

fold-plus : (xs : List ℕ) (n : ℕ) → n < 2 ^ 64 → fold plus xs n ≡ (n + sum xs) % 2 ^ 64
unfolding add64
fold-plus [] n l = omega (arith, l)
fold-plus (x ∷ xs) n l = omega (arith, fold-plus xs ((n + x) % 2 ^ 64) (omega arith))

fold-update_hwm : (xs : List ℕ) (n : ℕ) → fold update_hwm xs n ≡ max n (highest xs)
unfolding update_hwm
fold-update_hwm [] n = omega arith
fold-update_hwm (x ∷ xs) n = fold-update_hwm xs (if leb x n then n else x) ∙ larger x n (highest xs)
  where
    larger : (a b c : ℕ) → max (if leb a b then b else a) c ≡ max b (max a c)
    larger a b c = ground arith

-- After some observations a new Collector has counted the accepted commands and summed up the commands of
-- the batches, both modulo 2 ^ 64, its mark for the shards is the highest depth that was observed, with a
-- negative one taken as 0, and a snapshot of its reservoir for Submit has, where fewer than 2 ^ 64
-- latencies were observed, their number and the last 2048 of them in microseconds.
pub observe_all-new_collector :
    (os : List Observation)
    → length (gather submits_of os) < 2 ^ 64
    → ((observe_all os new_collector).accepted ≡ sum (gather accepted_of os) % 2 ^ 64)
      × ((observe_all os new_collector).wal_batch_commands_sum
          ≡ sum (gather commands_of os) % 2 ^ 64)
      × ((observe_all os new_collector).shard_hwm ≡ highest (gather depths_of os))
      × (snapshot (observe_all os new_collector).submits ≡ record {
        count = length (gather submits_of os);
        values = last slot_count (gather submits_of os);
      })
observe_all-new_collector os l = (
  field-observe_all plus (λ (c : Collector). c.accepted) accepted_of accepted-observe os
        new_collector
      ∙ fold-plus (gather accepted_of os) 0 (omega arith)
      ∙ modulo (sum (gather accepted_of os)),
  field-observe_all plus (λ (c : Collector). c.wal_batch_commands_sum) commands_of commands-observe
        os new_collector
      ∙ fold-plus (gather commands_of os) 0 (omega arith)
      ∙ modulo (sum (gather commands_of os)),
  field-observe_all update_hwm (λ (c : Collector). c.shard_hwm) depths_of shard_hwm-observe os
        new_collector
      ∙ fold-update_hwm (gather depths_of os) 0
      ∙ from_zero (highest (gather depths_of os)),
  ap snapshot (
        field-observe_all add (λ (c : Collector). c.submits) submits_of submits-observe os
          new_collector
        ∙ fold-add (gather submits_of os) new_reservoir)
      ∙ snapshot-add_all (gather submits_of os) l,
)
  where
    modulo : (n : ℕ) → (0 + n) % 2 ^ 64 ≡ n % 2 ^ 64
    modulo n = omega arith

    from_zero : (n : ℕ) → max 0 n ≡ n
    from_zero n = omega arith
