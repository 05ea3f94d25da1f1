-- ===== src/Shard/Loop/Steps.antt =====
-- The branches of completeAll and flushWAL of internal/shard/loop.go.
use matching_engine_go.Prelude.{
  ℕ, ◌≡◌, refl, List, [], ◌∷◌, Bool, true, false, Option, none, some, ◌⊎◌, inl, inr, Option-cases,
  ap,
}
use matching_engine_go.Ingress.{Error, wal_flush_failed}
use matching_engine_go.Model.{Command, Result}
use matching_engine_go.Book.State.{Book}
use matching_engine_go.Book.Handlers
use matching_engine_go.Recovery.{put_book}
use matching_engine_go.Shard.Loop.{
  PendingCommand, Loop, has_rejected, complete_command, fail_pending, complete_next, complete_all,
  wait_for, channels, flushed, persist, apply_command, flush_by, flush_wal, flush_pending,
}

complete_next-pending :
    (command : PendingCommand) (others : List PendingCommand) (answer : Option (List ℕ)) (l : Loop)
    → ((answer ≡ none) × ((complete_next command others answer l).pending ≡ others))
      ⊎ ((complete_next command others answer l).pending ≡ [])
unfolding complete_next complete_command has_rejected fail_pending
complete_next-pending command others none l = inl (refl, refl)
complete_next-pending command others (some err) l = inr refl

List-cases : {A : Type 0} (xs : List A) → (xs ≡ []) ⊎ ((x : A) × (ys : List A) × (xs ≡ x ∷ ys))
List-cases [] = inl refl
List-cases (x ∷ xs) = inr (x, xs, refl)

-- completeAll ends behind the first command, or goes on with the others, and this only after a good ack.
pub complete_all-cases :
    (acks : ℕ → Option (List ℕ)) (command : PendingCommand) (others : List PendingCommand)
    (l : Loop)
    → ((complete_all acks (command ∷ others) l
          ≡ complete_next command others (acks command.ack) (wait_for command.ack l))
        × ((complete_next command others (acks command.ack) (wait_for command.ack l)).pending ≡ []))
      ⊎ ((complete_all acks (command ∷ others) l
            ≡ complete_all acks others
                (complete_next command others (acks command.ack) (wait_for command.ack l)))
          × ((complete_next command others (acks command.ack) (wait_for command.ack l)).pending
              ≡ others)
          × (acks command.ack ≡ none))
unfolding complete_all
complete_all-cases acks command others l =
    let l' = complete_next command others (acks command.ack) (wait_for command.ack l) in
    elim (List-cases l'.pending) [
      | inl q ↦ inl (rw (q, complete_all) refl, q)
      | inr (p, ps, q) ↦
          elim (complete_next-pending command others (acks command.ack) (wait_for command.ack l)) [
            | inl (a, r) ↦ inr (rw (q, complete_all) refl, r, a)
            | inr r ↦ absurd cc
          ]
    ]

-- flushWAL fails and keeps an error, or on a loop that has not failed flushes what was appended.
flush_by-cases :
    (f : Option Error) (has_wal : Bool) (answer : Option (List ℕ)) (l : Loop)
    → ((err : Error) × (kept : Option Error) × (flush_by f has_wal answer
            (record l { failed_err = f })
          ≡ (some err, record l { failed_err = kept })))
      ⊎ ((flushed : List ℕ) × (flush_by f has_wal answer (record l { failed_err = f })
            ≡ (none, record l { failed_err = f; flushed = flushed }))
          × (f ≡ none)
          × (has_wal ≡ true → flushed ≡ channels l.appended))
unfolding flush_by
flush_by-cases (some e) has_wal answer l = inl (e, some e, refl)
flush_by-cases none false answer l = inr (l.flushed, refl, refl, λ h. absurd cc)
flush_by-cases none true none l = inr (channels l.appended, refl, refl, λ h. refl)
flush_by-cases none true (some e) l = inl (wal_flush_failed e, some (wal_flush_failed e), refl)

-- flushPending fails all pending commands, or completes them on a loop that has not failed.
pub flush_pending-cases :
    (acks : ℕ → Option (List ℕ)) (answer : Option (List ℕ)) (l : Loop)
    → ((err : Error) × (flush_pending acks answer l ≡ (some err, fail_pending err l)))
      ⊎ ((kept : List ℕ) × (flush_pending acks answer l ≡ (
        (complete_all acks l.pending (record l { flushed = kept })).failed_err,
        complete_all acks l.pending (record l { flushed = kept }),
      ))
          × (l.failed_err ≡ none)
          × (l.has_wal ≡ true → kept ≡ channels l.appended))
unfolding flush_pending flushed fail_pending flush_wal
flush_pending-cases acks answer l = elim (flush_by-cases l.failed_err l.has_wal answer l) [
  | inl (err, kept, q) ↦ inl (err, ap (flushed acks) q)
  | inr (kept, q, f, w) ↦ inr (kept, ap (flushed acks) q, f, w)
]

-- A command is applied to its book and handed to the writer.
pub apply_command-some :
    (answer : List ℕ ⊎ ℕ) (cmd : Command) (reply : ℕ) (l l' : Loop) (b : Book)
    → apply_command answer cmd reply l b ≡ some l'
    → (b' : Book) × (result : Result) × (Handlers.apply b cmd ≡ some (b', result))
      × (l'
          ≡ persist l.has_wal answer cmd result reply
              (record l { books = put_book l.books cmd.symbol b' }))
unfolding apply_command
apply_command-some answer cmd reply l l' b e = elim (Option-cases (Handlers.apply b cmd)) [
  | inl a ↦ let f = rw (a, apply_command) at e in absurd cc
  | inr ((b', result), a) ↦ let f = rw (a, apply_command) at e in (b', result, a, cc f)
]
