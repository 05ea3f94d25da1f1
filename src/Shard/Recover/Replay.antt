-- ===== src/Shard/Recover/Replay.antt =====
-- What recoverBooks makes of the records that the loop of a shard wrote.
use matching_engine_go.Prelude.{
  ℕ, ◌≡◌, ◌≢◌, refl, List, [], ◌∷◌, true, false, Option, none, some, inl, inr, arith, Bool-cases,
  Option-cases, leb, ltb, ap, sym, ◌∙◌,
}
use matching_engine_go.Model.{Result}
use matching_engine_go.Book.State.{Book, Snapshot}
use matching_engine_go.Book.Handlers
use matching_engine_go.Journal.Codec.{Record}
use matching_engine_go.Recovery.{
  Books, put_book, equal_results, replay, book_for, IsRising, last_number, accepted, mismatched,
}
use matching_engine_go.Shard.Loop.{Loop}
use matching_engine_go.Shard.Loop.Run.{LoopEvent, Run}
use matching_engine_go.Shard.Loop.Sound.{commands_of, records_of}
use matching_engine_go.Shard.Loop.Durable.{IsNew, replay-Run}
use matching_engine_go.Shard.Recover.{non_monotonic, recover_records}

skipped :
    (shard_id : ℕ) (rec : Record) (records : List Record) (books : Books) (last_seq : ℕ)
    → leb rec.command_seq last_seq ≡ true
    → recover_records shard_id (rec ∷ records) books last_seq last_seq
      ≡ recover_records shard_id records books last_seq last_seq
unfolding recover_records
skipped shard_id rec records books last_seq l = rw (l, recover_records) refl

-- A record behind the watermark whose command gives the recorded result.
taken :
    (shard_id : ℕ) (rec : Record) (records : List Record) (books : Books) (last_seq : ℕ)
    (b b' : Book) (computed : Result)
    → leb rec.command_seq last_seq ≡ false
    → books rec.command.symbol ≡ some b
    → Handlers.apply b rec.command ≡ some (b', computed)
    → equal_results computed rec.result ≡ true
    → recover_records shard_id (rec ∷ records) books last_seq last_seq
      ≡ recover_records shard_id records
          (put_book books rec.command.symbol b')
          rec.command_seq
          rec.command_seq
unfolding recover_records
taken shard_id rec records books last_seq b b' computed l f h e =
    rw (l, recover_records)
      (rw l (rw f (rw h (accepted _ _ (equal_results computed rec.result) e))))

-- A factory that has no book to give.
abbrev no_book : Snapshot → Option Book
no_book snap = none

recover_records-replay :
    (shard_id : ℕ) (records : List Record) (books : Books) (last_seq : ℕ) (r : Books × ℕ)
    → replay no_book records books last_seq ≡ some (inr r)
    → recover_records shard_id records books last_seq last_seq ≡ some (inr r)
unfolding replay recover_records book_for
recover_records-replay shard_id [] books last_seq r e =
    let q : ◌≡◌ {A = Books × ℕ} (books, last_seq) r = cc in ap (λ (x : Books × ℕ). some (inr x)) q
recover_records-replay shard_id (rec ∷ records) books last_seq r e =
    elim (Bool-cases (leb rec.command_seq last_seq)) [
      | inl l ↦
          skipped shard_id rec records books last_seq l
          ∙ recover_records-replay shard_id records books last_seq r (rw (l, replay) at e)
      | inr l ↦ elim (Option-cases (books rec.command.symbol)) [
        | inl f ↦ let g = rw (f, book_for) at (rw (l, replay) at e) in absurd cc
        | inr (b, f) ↦ elim (Option-cases (Handlers.apply b rec.command)) [
          | inl h ↦ let g = rw h at (rw (f, book_for) at (rw (l, replay) at e)) in absurd cc
          | inr ((b', computed), h) ↦ elim (Bool-cases (equal_results computed rec.result)) [
            | inr q ↦
                let g = rw h at (rw (f, book_for) at (rw (l, replay) at e)) in
                let g' = sym (mismatched _ _ (equal_results computed rec.result) q) ∙ g in absurd cc
            | inl q ↦
                let g = rw h at (rw (f, book_for) at (rw (l, replay) at e)) in
                let g' = sym (accepted _ _ (equal_results computed rec.result) q) ∙ g in
                let t : ltb last_seq rec.command_seq ≡ true = ground arith in
                taken shard_id rec records books last_seq b b' computed l f h q
                ∙ recover_records-replay shard_id records (put_book books rec.command.symbol b')
                    rec.command_seq r (rw t at g')
          ]
        ]
      ]
    ]

-- The check of recoverBooks that the numbers of the records rise never fails: it compares with the number
-- of the last record that was applied, which the check before it, that skips a record, has used already.
pub recover_records-ne-non_monotonic :
    (shard_id : ℕ) (records : List Record) (books : Books) (last_applied n prev cur : ℕ)
    → recover_records shard_id records books last_applied last_applied
      ≢ some (inl (non_monotonic n prev cur))
unfolding recover_records
recover_records-ne-non_monotonic shard_id [] books last_applied n prev cur e = absurd cc
recover_records-ne-non_monotonic shard_id (rec ∷ records) books last_applied n prev cur e =
    elim (Bool-cases (leb rec.command_seq last_applied)) [
      | inl l ↦
          recover_records-ne-non_monotonic shard_id records books last_applied n prev cur
            (sym (skipped shard_id rec records books last_applied l) ∙ e)
      | inr l ↦
          let e' = rw l at (rw (l, recover_records) at e) in
          elim (Option-cases (books rec.command.symbol)) [
            | inl f ↦ let g = rw f at e' in absurd cc
            | inr (b, f) ↦ elim (Option-cases (Handlers.apply b rec.command)) [
              | inl h ↦ let g = rw h at (rw f at e') in absurd cc
              | inr ((b', computed), h) ↦ elim (Bool-cases (equal_results computed rec.result)) [
                | inr q ↦
                    let g = rw h at (rw f at e') in
                    let g' = sym (mismatched _ _ (equal_results computed rec.result) q) ∙ g in
                    absurd cc
                | inl q ↦
                    recover_records-ne-non_monotonic shard_id records
                      (put_book books rec.command.symbol b') rec.command_seq n prev cur
                      (sym (taken shard_id rec records books last_applied b b' computed l f h q)
                        ∙ e)
              ]
            ]
          ]
    ]

-- recoverBooks gives back what the loop of a shard left: replaying the records that a loop that has not
-- failed appended, if their numbers rise, on the books with which it started gives its books and, as the
-- new watermark, the number of the last record.
pub recover_records-Run :
    (acks : ℕ → Option (List ℕ)) (start : Loop) (es : List LoopEvent) (l : Loop)
    → IsNew start
    → Run acks start es l
    → l.failed_err ≡ none
    → IsRising start.last_applied_seq (commands_of l.appended)
    → recover_records start.id
        (records_of l.appended)
        start.books
        start.last_applied_seq
        start.last_applied_seq
      ≡ some (inr (l.books, last_number start.last_applied_seq (commands_of l.appended)))
recover_records-Run acks start es l n run f r =
    recover_records-replay start.id (records_of l.appended) start.books start.last_applied_seq
      (l.books, last_number start.last_applied_seq (commands_of l.appended))
      (replay-Run acks no_book start es l n run f r)
