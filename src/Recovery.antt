-- ===== src/Recovery.antt =====
-- internal/recovery/recovery.go: replaying the journal on the books of a snapshot. The snapshot and the
-- records are given, and so is the factory of books, a callback of the source. A Go map is a function;
-- the outer `none` is a panic.
pub mod Tests
pub mod Appended
use mathlib.Core.Path.{subst}
use matching_engine_go.Prelude.{
  ℕ, zero, suc, ◌+◌, ◌^◌, ◌<◌, ◌≤◌, ◌≡◌, refl, List, [], ◌∷◌, Bool, true, false, not, ◌&&◌, Option,
  none, some, ◌==◌, ◌⊎◌, inl, inr, ◌↔◌, if◌then◌else◌, All, arith, Bool-cases, Option-cases, ap,
  sym, ◌∙◌, ltb, leb, length, eq_bytes, ◌>>=◌, ==_iff, ==_refl,
}
use matching_engine_go.Model.{Command, Event, Result}
use matching_engine_go.Book.State.{Book, Snapshot}
use matching_engine_go.Book.Handlers
use matching_engine_go.Journal.Codec.{Record}

abbrev eq_bool : Bool → Bool → Bool
eq_bool true b = b
eq_bool false b = not b

unfoldable pub equal_event : Event → Event → Bool
equal_event a b =
    a.type == b.type
    && a.reason == b.reason
    && a.order_id == b.order_id
    && a.maker_order_id == b.maker_order_id
    && a.taker_order_id == b.taker_order_id
    && a.trade_id == b.trade_id
    && a.price == b.price
    && a.quantity == b.quantity
    && a.leaves_qty == b.leaves_qty
    && a.canceled_qty == b.canceled_qty
    && a.cancel_reason == b.cancel_reason
    && eq_bool a.priority_retained b.priority_retained

-- The loop of EqualResults, on lists of one length.
unfoldable pub equal_events : List Event → List Event → Bool
unfolding equal_event
equal_events [] bs = true
equal_events (a ∷ xs) [] = true
equal_events (a ∷ xs) (b ∷ bs) =
    let rest = equal_events xs bs in if not (equal_event a b) then false else rest

unfoldable pub equal_results : Result → Result → Bool
unfolding equal_events
equal_results a b =
    if not (a.command_seq == b.command_seq)
    then false
    else if not (length a.events == length b.events)
    then false
    else equal_events a.events b.events

event-same : (a b : Event) → equal_event a b ≡ true → a ≡ b
unfolding equal_event
event-same a b h = ground arith

events-same : (xs ys : List Event) → length xs ≡ length ys → equal_events xs ys ≡ true → xs ≡ ys
unfolding equal_events
events-same [] [] l h = refl
events-same [] (y ∷ ys) l h = absurd (omega (arith, l))
events-same (x ∷ xs) [] l h = absurd (omega (arith, l))
events-same (x ∷ xs) (y ∷ ys) l h = elim (Bool-cases (equal_event x y)) [
  | inl e ↦
      λ i. event-same x y e i ∷ events-same xs ys (omega (arith, l)) (rw (e, equal_events) at h) i
  | inr e ↦ let f = rw (e, equal_events) at h in absurd cc
]

eq_bool_refl : (b : Bool) → eq_bool b b ≡ true
eq_bool_refl true = refl
eq_bool_refl false = refl

event-reflexive : (a : Event) → equal_event a a ≡ true
unfolding equal_event
event-reflexive a = ground (arith, eq_bool_refl a.priority_retained)

events-reflexive : (xs : List Event) → equal_events xs xs ≡ true
unfolding equal_events
events-reflexive [] = refl
events-reflexive (x ∷ xs) = rw (event-reflexive x) (events-reflexive xs)

-- EqualResults holds exactly of equal results.
pub equal_results_iff : (a b : Result) → (equal_results a b ≡ true) ↔ (a ≡ b)
unfolding equal_results
equal_results_iff a b = (to, λ e. subst (λ (x : Result). equal_results a x ≡ true) e same)
  where
    same : equal_results a a ≡ true
    same = rw (==_refl a.command_seq, ==_refl (length a.events)) (events-reflexive a.events)

    to : equal_results a b ≡ true → a ≡ b
    to h = elim (Bool-cases (a.command_seq == b.command_seq)) [
      | inr e ↦ let f = rw e at h in absurd cc
      | inl e ↦ elim (Bool-cases (length a.events == length b.events)) [
        | inr l ↦ let f = rw l at (rw e at h) in absurd cc
        | inl l ↦ λ i. record {
          command_seq = (==_iff a.command_seq b.command_seq).0 e i;
          events =
              events-same a.events b.events ((==_iff (length a.events) (length b.events)).0 l)
                (rw l at (rw e at h)) i;
        }
      ]
    ]

-- The books by their symbols.
abbrev pub Books : Type 0
Books = List ℕ → Option Book

unfoldable pub put_book : Books → List ℕ → Book → Books
put_book books symbol b key = if eq_bytes key symbol then some b else books key

-- The book of a record, which the factory makes where there is none.
unfoldable pub book_for : (Snapshot → Option Book) → Books → List ℕ → Option Book
book_for factory books symbol = elim (books symbol) [
  | some b ↦ some b
  | none ↦ factory (record { symbol = symbol; next_trade_seq = 0; bids = []; asks = [] })
]

-- The loop of RecoverFromSnapshotAndWAL over the records of one shard: the books and the last number, or
-- the number at which the replay does not match.
unfoldable pub replay :
    (Snapshot → Option Book) → List Record → Books → ℕ → Option (ℕ ⊎ (Books × ℕ))
unfolding book_for put_book
replay factory [] books last_seq = some (inr (books, last_seq))
replay factory (rec ∷ records) books last_seq = elim (leb rec.command_seq last_seq) [
  | true ↦ replay factory records books last_seq
  | false ↦ do
    b ← book_for factory books rec.command.symbol
    (b', computed) ← Handlers.apply b rec.command
    elim (equal_results computed rec.result) [
      | false ↦ some (inl rec.command_seq)
      | true ↦
          replay factory records (put_book books rec.command.symbol b')
            (if ltb last_seq rec.command_seq then rec.command_seq else last_seq)
    ]
]

-- Applying some commands to their books, with the record of each.
unfoldable pub run_commands : ℕ → List Command → Books → Option (Books × List Record)
unfolding put_book
run_commands shard_id [] books = some (books, [])
run_commands shard_id (c ∷ cs) books = do
  b ← books c.symbol
  (b', result) ← Handlers.apply b c
  (books', records) ← run_commands shard_id cs (put_book books c.symbol b')
  some (
    books',
    record { shard_id = shard_id; command_seq = c.seq; command = c; result = result } ∷ records,
  )

-- The numbers of some commands rise from a number on, and the last of them.
abbrev pub IsRising : ℕ → List Command → Type 0
IsRising n [] = Unit {0}
IsRising n (c ∷ cs) = (n < c.seq) × IsRising c.seq cs

abbrev pub last_number : ℕ → List Command → ℕ
last_number n [] = n
last_number n (c ∷ cs) = last_number c.seq cs

-- The two cases of a comparison of results.
pub mismatched :
    {A : Type 0} (p q : A) (x : Bool) → x ≡ false → elim x as (λ _. A) [ false ↦ p | true ↦ q ] ≡ p
mismatched p q false h = refl
mismatched p q true h = absurd cc

pub accepted :
    {A : Type 0} (p q : A) (x : Bool) → x ≡ true → elim x as (λ _. A) [ false ↦ p | true ↦ q ] ≡ q
accepted p q true h = refl
accepted p q false h = absurd cc

-- A round of the replay at the record of a command that was applied.
replay-record :
    (factory : Snapshot → Option Book) (shard_id : ℕ) (c : Command) (books : Books) (last_seq : ℕ)
    (b b' : Book) (result : Result) (more : List Record)
    → last_seq < c.seq
    → books c.symbol ≡ some b
    → Handlers.apply b c ≡ some (b', result)
    → replay factory
        (record { shard_id = shard_id; command_seq = c.seq; command = c; result = result } ∷ more)
        books
        last_seq
      ≡ replay factory more (put_book books c.symbol b') c.seq
unfolding replay book_for
replay-record factory shard_id c books last_seq b b' result more r f h =
    let l : leb c.seq last_seq ≡ false = ground arith in
    let t : ltb last_seq c.seq ≡ true = ground arith in
    let same : equal_results result result ≡ true = (equal_results_iff result result).1 refl in
    rw (l, replay)
      (rw (f, book_for)
        (rw h (
          accepted _ _ (equal_results result result) same
          ∙ ap (λ (k : ℕ). replay factory more (put_book books c.symbol b') k) (rw t refl))))

-- Replaying the records of some commands, whose numbers rise from the last one of the snapshot on, on
-- the books from which the commands started, gives the books at which they ended and the last number.
pub replay-run_commands :
    (factory : Snapshot → Option Book) (shard_id : ℕ) (cs : List Command) (books books' : Books)
    (records : List Record) (last_seq : ℕ)
    → IsRising last_seq cs
    → run_commands shard_id cs books ≡ some (books', records)
    → replay factory records books last_seq ≡ some (inr (books', last_number last_seq cs))
unfolding replay run_commands
replay-run_commands factory shard_id [] books books' records last_seq r e =
    let same : ◌≡◌ {A = Books × List Record} (books, []) (books', records) = cc in
    subst
      (λ (x : Books × List Record). replay factory x.1 books last_seq ≡ some (inr (x.0, last_seq)))
      same refl
replay-run_commands factory shard_id (c ∷ cs) books books' records last_seq r e =
    elim (Option-cases (books c.symbol)) [
      | inl f ↦ let g = rw (f, run_commands) at e in absurd cc
      | inr (b, f) ↦ elim (Option-cases (Handlers.apply b c)) [
        | inl h ↦ let g = rw h at (rw (f, run_commands) at e) in absurd cc
        | inr ((b', result), h) ↦
            elim (Option-cases (run_commands shard_id cs (put_book books c.symbol b'))) [
              | inl k ↦ let g = rw k at (rw h at (rw (f, run_commands) at e)) in absurd cc
              | inr ((books'', more), k) ↦
                  let g = rw k at (rw h at (rw (f, run_commands) at e)) in
                  let first : Record = record {
                    shard_id = shard_id;
                    command_seq = c.seq;
                    command = c;
                    result = result;
                  } in
                  let same : ◌≡◌ {A = Books × List Record} (books'', first ∷ more)
                      (books', records) =
                    cc in
                  subst
                    (λ (x : Books × List Record).
                      replay factory x.1 books last_seq ≡ some (inr (x.0, last_number c.seq cs)))
                    same
                    (replay-record factory shard_id c books last_seq b b' result more r.0 f h
                      ∙ replay-run_commands factory shard_id cs (put_book books c.symbol b') books''
                          more c.seq r.1 k)
            ]
      ]
    ]
