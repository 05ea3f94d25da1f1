-- ===== src/Book/Reachable.antt =====
-- Books that are reached from New by calls of Apply, and what holds of all of them.
use matching_engine_go.Prelude.{ℕ, ◌≡◌, refl, List, [], ◌∷◌, Option, none, some, All, arith, ◌>>=◌}
use matching_engine_go.Model.{Command, Result, IsCommand}
use matching_engine_go.Book.State.{Book, Snapshot, new, new_side_book}
use matching_engine_go.Book.Handlers
use matching_engine_go.Book.Checks.{check_invariants}
use matching_engine_go.Book.Snapshots.{snapshot, new_from_snapshot}
use matching_engine_go.Book.View.{represent, IsValid}
use matching_engine_go.Book.Spec.Apply
use matching_engine_go.Book.Refines.Apply.{apply-represent, specified-IsValid}
use matching_engine_go.Book.Audit.{check_invariants-represent}
use matching_engine_go.Book.Restore.{snapshot-represent, new_from_snapshot-represent}

-- Apply once for each command.
unfoldable pub apply_all : List Command → Book → Option (Book × List Result)
apply_all [] b = some (b, [])
apply_all (c ∷ cs) b = do
  (b', result) ← Handlers.apply b c
  (b'', results) ← apply_all cs b'
  some (b'', result ∷ results)

abbrev pub empty : List ℕ → Snapshot
empty symbol = record { symbol = symbol; next_trade_seq = 1; bids = []; asks = [] }

pub empty-IsValid : (symbol : List ℕ) → IsValid (empty symbol)
empty-IsValid symbol = record {
  bids_valid = (tt, tt);
  asks_valid = (tt, tt);
  distinct = λ id. omega arith;
  uncrossed = tt;
}

-- The specification once for each command.
abbrev pub spec_all : List Command → Snapshot → Snapshot × List Result
spec_all [] s = (s, [])
spec_all (c ∷ cs) s =
    let (s', events) = Apply.apply s c in
    let (s'', results) = spec_all cs s' in
    (s'', record { command_seq = c.seq; events = events } ∷ results)

-- From the book of a valid snapshot any commands with 64-bit fields can be applied one by one without a
-- panic or an endless loop; the book and the results are those of the specification, and the
-- snapshot is valid again.
pub apply_all-represent :
    (cs : List Command) (s : Snapshot)
    → IsValid s
    → All IsCommand cs
    → (apply_all cs (represent s) ≡ some (represent (spec_all cs s).0, (spec_all cs s).1))
      × IsValid (spec_all cs s).0
unfolding apply_all
apply_all-represent [] s v w = (refl, v)
apply_all-represent (c ∷ cs) s v w =
    let (e, v') = apply_all-represent cs (Apply.apply s c).0 (specified-IsValid s c v w.0) w.1 in
    (rw (apply-represent s c v w.0) (rw e refl), v')

-- A book that some commands with 64-bit fields reach from New passes CheckInvariants, and a snapshot of
-- it can be taken, from which NewFromSnapshot makes the same book.
pub apply_all-new :
    (symbol : List ℕ) (cs : List Command)
    → All IsCommand cs
    → (b : Book) × (results : List Result) × (t : Snapshot) × (apply_all cs (new symbol)
        ≡ some (b, results))
      × (check_invariants b ≡ none)
      × (snapshot b ≡ some t)
      × (new_from_snapshot t ≡ some b)
unfolding new new_side_book
apply_all-new symbol cs w =
    let (e, v) = apply_all-represent cs (empty symbol) (empty-IsValid symbol) w in
    let t = (spec_all cs (empty symbol)).0 in
    (
      represent t,
      (spec_all cs (empty symbol)).1,
      t,
      e,
      check_invariants-represent t v,
      snapshot-represent t v,
      new_from_snapshot-represent t v,
    )
