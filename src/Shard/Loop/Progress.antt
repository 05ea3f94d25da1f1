-- ===== src/Shard/Loop/Progress.antt =====
-- The loop of a shard never panics, and never waits for an ack that was not asked for by a flush.
use matching_engine_go.Prelude.{
  ℕ, ◌≡◌, refl, List, [], ◌∷◌, Bool, true, false, not, ◌&&◌, Option, none, some, ◌⊎◌, inl, inr, ap,
  sym, ◌∙◌, Bool-cases, eq_bytes, All,
}
use mathlib.Core.Path.{subst}
use matching_engine_go.Model.{Command, Result, IsCommand}
use matching_engine_go.Ingress.{Error, routed_command, routed_barrier, routed_drain}
use matching_engine_go.Book.State.{Book, Snapshot}
use matching_engine_go.Book.View.{represent, IsValid}
use matching_engine_go.Book.Handlers
use matching_engine_go.Book.Spec.Apply
use matching_engine_go.Book.Refines.Apply.{apply-represent, specified-IsValid}
use matching_engine_go.Recovery.{Books, put_book}
use matching_engine_go.Shard.Loop.{
  wait_for, PendingCommand, Loop, complete_command, fail_pending, complete_next, complete_all,
  append_record, persist, apply_command, enqueue_by, enqueue_command, flush_pending,
}
use matching_engine_go.Shard.Loop.Steps.{complete_all-cases, flush_pending-cases}
use matching_engine_go.Shard.Loop.Durable.{IsNew}
use matching_engine_go.Shard.Loop.Waits.{IsOwed, Run-IsOwed}
use matching_engine_go.Shard.Loop.Run.{
  LoopEvent, received, inbox_closed, acked, released, finished, is_empty, handle_ack, shut_down,
  enabled, handle, Run, here, next,
}

-- Every book is that of a valid snapshot.
abbrev pub AreValid : Books → Type 0
AreValid books =
    (key : List ℕ) (b : Book) → books key ≡ some b → (s : Snapshot) × IsValid s × (b ≡ represent s)

-- A command that comes with an event has 64-bit fields.
abbrev pub Fits : LoopEvent → Type 0
Fits (received (routed_command cmd reply) w) = IsCommand cmd
Fits _ = Unit {0}

put_book-AreValid :
    (books : Books) (symbol : List ℕ) (s : Snapshot)
    → AreValid books
    → IsValid s
    → AreValid (put_book books symbol (represent s))
unfolding put_book
put_book-AreValid books symbol s v w key b e = elim (Bool-cases (eq_bytes key symbol)) [
  | inl t ↦ let f = rw t at e in (s, w, cc f)
  | inr t ↦ v key b (rw t at e)
]

complete_next-books :
    (command : PendingCommand) (others : List PendingCommand) (answer : Option (List ℕ)) (l : Loop)
    → (complete_next command others answer l).books ≡ l.books
unfolding complete_next complete_command fail_pending
complete_next-books command others none l = refl
complete_next-books command others (some e) l = refl

complete_all-books :
    (acks : ℕ → Option (List ℕ)) (ps : List PendingCommand) (l : Loop)
    → (complete_all acks ps l).books ≡ l.books
unfolding complete_all
complete_all-books acks [] l = refl
complete_all-books acks (command ∷ others) l =
    let l1 = wait_for command.ack l in
    let l' = complete_next command others (acks command.ack) l1 in
    let first = complete_next-books command others (acks command.ack) l1 in
    elim (complete_all-cases acks command others l) [
      | inl (e, p) ↦ ap (λ (x : Loop). x.books) e ∙ first
      | inr (e, p, a) ↦ ap (λ (x : Loop). x.books) e ∙ complete_all-books acks others l' ∙ first
    ]

flush_pending-books :
    (acks : ℕ → Option (List ℕ)) (answer : Option (List ℕ)) (l : Loop)
    → (flush_pending acks answer l).1.books ≡ l.books
unfolding fail_pending
flush_pending-books acks answer l = elim (flush_pending-cases acks answer l) [
  | inl (err, q) ↦ ap (λ (x : Option Error × Loop). x.1.books) q
  | inr (kept, q, f, w) ↦
      ap (λ (x : Option Error × Loop). x.1.books) q
      ∙ complete_all-books acks l.pending (record l { flushed = kept })
]

persist-books :
    (has_wal : Bool) (answer : List ℕ ⊎ ℕ) (cmd : Command) (result : Result) (reply : ℕ) (l : Loop)
    → (persist has_wal answer cmd result reply l).books ≡ l.books
unfolding persist append_record complete_command fail_pending
persist-books false answer cmd result reply l = refl
persist-books true (inl e) cmd result reply l = refl
persist-books true (inr ack) cmd result reply l = refl

shut_down-books :
    (answer : Option (List ℕ)) (f : Option Error) (has_wal : Bool) (l : Loop)
    → (shut_down answer f has_wal l).books ≡ l.books
unfolding shut_down
shut_down-books (some e) none true l = refl
shut_down-books (some e) none false l = refl
shut_down-books (some e) (some f) has_wal l = refl
shut_down-books none f has_wal l = refl

-- The handling of an event ends with valid books.
abbrev Handled : Option Loop → Type 0
Handled o = (l : Loop) × (o ≡ some l) × AreValid l.books

enqueue_by-Handled :
    (e : Option Error) (found : Option Book) (answer : List ℕ ⊎ ℕ) (cmd : Command) (reply : ℕ)
    (l : Loop)
    → AreValid l.books
    → IsCommand cmd
    → l.books cmd.symbol ≡ found
    → Handled (enqueue_by e found answer cmd reply l)
unfolding enqueue_by apply_command
enqueue_by-Handled (some err) found answer cmd reply l v c g = (_, refl, v)
enqueue_by-Handled none none answer cmd reply l v c g = (_, refl, v)
enqueue_by-Handled none (some b) answer cmd reply l v c g =
    let (s, w, q) = v cmd.symbol b g in
    let a : Handlers.apply b cmd
        ≡ some (
          represent (Apply.apply s cmd).0,
          record { command_seq = cmd.seq; events = (Apply.apply s cmd).1 },
        ) =
      ap (λ (x : Book). Handlers.apply x cmd) q ∙ apply-represent s cmd w c in
    let result : Result = record { command_seq = cmd.seq; events = (Apply.apply s cmd).1 } in
    let books = put_book l.books cmd.symbol (represent (Apply.apply s cmd).0) in
    (
      persist l.has_wal answer cmd result reply (record l { books = books }),
      rw (a, apply_command) refl,
      subst AreValid
          (sym (persist-books l.has_wal answer cmd result reply (record l { books = books })))
          (put_book-AreValid l.books cmd.symbol (Apply.apply s cmd).0 v
            (specified-IsValid s cmd w c)),
    )

acking :
    (a b : Bool) (ps : List PendingCommand)
    → (not a && not b && not (is_empty ps)) ≡ true
    → not (is_empty ps) ≡ true
acking true b ps h = absurd cc
acking false true ps h = absurd cc
acking false false ps h = h

module _ (acks : ℕ → Option (List ℕ)) where
  handle_ack-Handled :
      (ps : List PendingCommand) (l : Loop)
      → AreValid l.books
      → not (is_empty ps) ≡ true
      → Handled (handle_ack acks ps l)
  unfolding handle_ack
  handle_ack-Handled [] l v h = absurd cc
  handle_ack-Handled (command ∷ others) l v h = (
    complete_next command others (acks command.ack) l,
    refl,
    subst AreValid (sym (complete_next-books command others (acks command.ack) l)) v,
  )

  handle-Handled :
      (e : LoopEvent) (l : Loop)
      → AreValid l.books
      → Fits e
      → enabled e l ≡ true
      → Handled (handle acks e l)
  unfolding handle enqueue_command enabled
  handle-Handled (received (routed_command cmd reply) w) l v c on =
      enqueue_by-Handled l.failed_err (l.books cmd.symbol) w.append cmd reply l v c refl
  handle-Handled (received (routed_barrier done) w) l v c on =
      (_, refl, subst AreValid (sym (flush_pending-books acks w.flush l)) v)
  handle-Handled (received (routed_drain done) w) l v c on =
      (_, refl, subst AreValid (sym (flush_pending-books acks w.flush l)) v)
  handle-Handled inbox_closed l v c on = (_, refl, v)
  handle-Handled acked l v c on =
      handle_ack-Handled l.pending l v (acking l.is_done l.is_draining l.pending on)
  handle-Handled released l v c on = (_, refl, v)
  handle-Handled (finished answer) l v c on =
      (_, refl, subst AreValid (sym (shut_down-books answer l.failed_err l.has_wal l)) v)

  Run-AreValid :
      (start : Loop) (es : List LoopEvent) (l : Loop)
      → AreValid start.books
      → All Fits es
      → Run acks start es l
      → AreValid l.books
  Run-AreValid start es l v c here = v
  Run-AreValid start es l v c (next {es = es'} {l = l0} e run on h) =
      let v' = Run-AreValid start es' l0 v c.1 run in
      let (l', h', w) = handle-Handled e l0 v' c.0 on in
      let q : ◌≡◌ {A = Loop} l' l = cc in subst (λ (x : Loop). AreValid x.books) q w

-- In every run of a new loop of a shard with a journal, from valid books and on commands with 64-bit
-- fields, every event that the select can take is handled with no panic, and whenever completeAll waited for
-- an ack, it was that of a record appended before a Flush that had returned no error by then: a barrier or
-- a drain never waits for a record that has not been flushed.
pub Run-progress :
    (acks : ℕ → Option (List ℕ)) (start : Loop) (es : List LoopEvent) (l : Loop)
    → AreValid start.books
    → All Fits es
    → IsNew start
    → start.waits ≡ []
    → Run acks start es l
    → ((e : LoopEvent) → Fits e → enabled e l ≡ true → (l' : Loop) × (handle acks e l ≡ some l'))
      × All IsOwed l.waits
Run-progress acks start es l v c n w run = (
  λ e f on.
      let (l', h, valid) = handle-Handled acks e l (Run-AreValid acks start es l v c run) f on in
      (l', h),
  Run-IsOwed acks start es l n w run,
)
