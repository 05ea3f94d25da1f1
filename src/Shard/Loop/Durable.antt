-- ===== src/Shard/Loop/Durable.antt =====
-- What the runs of the loop of a shard with a journal promise: write-ahead, a consistent state during a
-- drain, and a journal from which the books can be made again.
use matching_engine_go.Prelude.{
  ℕ, ◌%◌, ◌^◌, ◌≡◌, refl, not, ◌&&◌, length, ltb, List, [], ◌∷◌, ◌++◌, Bool, true, false, Option,
  none, some, ◌⊎◌, inl, inr, All, Option-cases, ap, sym, ◌∙◌,
}
use mathlib.Core.List.{append-nil}
use mathlib.Core.Path.{subst}
use matching_engine_go.Model.{Command, Result}
use matching_engine_go.Ingress.{
  Outcome, replied, failed, routed_command, routed_barrier, routed_drain,
}
use matching_engine_go.Book.State.{Book, Snapshot}
use matching_engine_go.Journal.Codec.{Record}
use matching_engine_go.Recovery.{run_commands, replay, IsRising, last_number, replay-run_commands}
use matching_engine_go.Shard.Loop.{
  PendingCommand, Loop, make_books, first_state, new_loop, unknown_symbol, enqueue_command,
  flush_pending,
}
use matching_engine_go.Shard.Loop.Run.{
  LoopEvent, received, inbox_closed, acked, released, finished, is_empty, answer_to, shut_down,
  enabled, handle, Run, here, next,
}
use matching_engine_go.Shard.Loop.Sound.{
  Logged, Waits, Holds, IsBacked, IsSound, commands_of, records_of, last_seq, waits,
}
use matching_engine_go.Shard.Loop.Kept.{
  enqueue_by-IsSound, flush_pending-IsSound, handle_ack-IsSound, shut_down-IsSound, flags-IsSound,
}

-- The loop of a shard that newLoop made, with a writer.
pub record IsNew (l : Loop) : Type 0 where
  pub none_sent : l.sent ≡ []
  pub none_pending : l.pending ≡ []
  pub none_appended : l.appended ≡ []
  pub not_failed : l.failed_err ≡ none
  pub not_draining : l.is_draining ≡ false
  pub with_wal : l.has_wal ≡ true

-- newLoop makes such a loop, with the watermark of the recovery.
pub new_loop-IsNew :
    (restore : Snapshot → Option Book) (id : ℕ) (symbols : List (List ℕ))
    (snapshots : List ℕ → Option Snapshot) (last_applied_seq : ℕ) (l : Loop)
    → new_loop restore id symbols true snapshots last_applied_seq ≡ some l
    → IsNew l × (l.id ≡ id) × (l.last_applied_seq ≡ last_applied_seq)
unfolding new_loop
new_loop-IsNew restore id symbols snapshots last_applied_seq l e =
    elim (Option-cases (make_books restore snapshots symbols (λ key. none))) [
      | inl m ↦ let f = rw (m, new_loop) at e in absurd cc
      | inr (books, m) ↦
          let f = rw (m, new_loop) at e in
          let q : first_state id true last_applied_seq books ≡ l = cc in
          subst (λ (x : Loop). IsNew x × (x.id ≡ id) × (x.last_applied_seq ≡ last_applied_seq)) q
            (
              record {
                none_sent = refl;
                none_pending = refl;
                none_appended = refl;
                not_failed = refl;
                not_draining = refl;
                with_wal = refl;
              },
              refl,
              refl,
            )
    ]

-- What `enabled` says of a loop that reads its inbox, and of one that ends.
reading : (a b c d : Bool) → (not a && not b && c && d) ≡ true → b ≡ false
reading true b c d h = absurd cc
reading false true c d h = absurd cc
reading false false c d h = refl

ending :
    (a b c : Bool) (ps : List PendingCommand)
    → (not a && not b && not c && is_empty ps) ≡ true
    → ps ≡ []
ending a b c [] h = refl
ending true b c (p ∷ ps) h = absurd cc
ending false true c (p ∷ ps) h = absurd cc
ending false false true (p ∷ ps) h = absurd cc
ending false false false (p ∷ ps) h = absurd cc

module _ (acks : ℕ → Option (List ℕ)) (start : Loop) where
  abbrev pub Sound : Loop → Type 0
  Sound l = IsSound acks start.books start.last_applied_seq start.id l

  new-Sound : IsNew start → Sound start
  unfolding run_commands
  new-Sound n = record {
    done = [];
    waiting = [];
    split = n.none_appended;
    acked = tt;
    watermark = refl;
    matched = rw n.not_failed (rw n.none_pending tt);
    backed = rw n.none_sent tt;
    ran = λ f. rw n.none_appended refl;
    with_wal = n.with_wal;
    same_id = refl;
    drained = λ d. n.none_pending;
  }

  handle-Sound :
      (e : LoopEvent) (l l' : Loop)
      → Sound l
      → enabled e l ≡ true
      → handle acks e l ≡ some l'
      → Sound l'
  unfolding handle enqueue_command enabled
  handle-Sound (received (routed_command cmd reply) w) l l' s on h =
      enqueue_by-IsSound acks start.books start.last_applied_seq start.id l.failed_err
        (l.books cmd.symbol) w.append cmd reply l l' s refl refl
        (reading l.is_done l.is_draining l.is_open (ltb (length l.pending) 1024) on) h
  handle-Sound (received (routed_barrier done) w) l l' s on h =
      let (s', p) =
        flush_pending-IsSound acks start.books start.last_applied_seq start.id w.flush l s in
      let r = flush_pending acks w.flush l in
      let q : answer_to done r ≡ l' = cc in
      subst Sound q (
        flags-IsSound acks start.books start.last_applied_seq start.id r.1.is_open r.1.is_draining
          r.1.is_done (r.1.answers ++ (done, r.0) ∷ []) r.1 s' (λ d. p))
  handle-Sound (received (routed_drain done) w) l l' s on h =
      let (s', p) =
        flush_pending-IsSound acks start.books start.last_applied_seq start.id w.flush l s in
      let r = flush_pending acks w.flush l in
      let q : record (answer_to done r) { is_draining = true } ≡ l' = cc in
      subst Sound q (
        flags-IsSound acks start.books start.last_applied_seq start.id r.1.is_open true r.1.is_done
          (r.1.answers ++ (done, r.0) ∷ []) r.1 s' (λ d. p))
  handle-Sound inbox_closed l l' s on h =
      let q : record l { is_open = false } ≡ l' = cc in
      subst Sound q (
        flags-IsSound acks start.books start.last_applied_seq start.id false l.is_draining l.is_done
          l.answers l s s.drained)
  handle-Sound acked l l' s on h =
      handle_ack-IsSound acks start.books start.last_applied_seq start.id l.pending l l' s refl h
  handle-Sound released l l' s on h =
      let q : record l { is_draining = false } ≡ l' = cc in
      subst Sound q (
        flags-IsSound acks start.books start.last_applied_seq start.id l.is_open false l.is_done
          l.answers l s (λ d. absurd cc))
  handle-Sound (finished answer) l l' s on h =
      let l0 = shut_down answer l.failed_err l.has_wal l in
      let q : record l0 { is_done = true } ≡ l' = cc in
      let s' =
        shut_down-IsSound acks start.books start.last_applied_seq start.id answer l.failed_err
          l.has_wal l s (ending l.is_done l.is_draining l.is_open l.pending on) in
      subst Sound q (
        flags-IsSound acks start.books start.last_applied_seq start.id l0.is_open l0.is_draining
          true l0.answers l0 s' s'.drained)

  pub Run-Sound : (es : List LoopEvent) (l : Loop) → IsNew start → Run acks start es l → Sound l
  Run-Sound es l n here = new-Sound n
  Run-Sound es l n (next {es = es'} {l = l0} e run on h) =
      handle-Sound e l0 l (Run-Sound es' l0 n run) on h

-- A result is that of an appended record with a good ack.
abbrev pub IsWritten : (ℕ → Option (List ℕ)) → Logged → Result → Type 0
IsWritten acks [] r = ⊥
IsWritten acks ((ack, rec) ∷ log) r = ((rec.result ≡ r) × (acks ack ≡ none)) ⊎ IsWritten acks log r

-- A reply is an error, or rejects a symbol that the shard does not know, or is written.
abbrev pub IsSafeReply : (ℕ → Option (List ℕ)) → Logged → ℕ × Outcome → Type 0
IsSafeReply acks log (reply, failed e) = Unit {0}
IsSafeReply acks log (reply, replied r) =
    ((cmd : Command) × (r ≡ unknown_symbol cmd)) ⊎ IsWritten acks log r

IsWritten-append :
    (acks : ℕ → Option (List ℕ)) (xs ys : Logged) (r : Result)
    → All (λ (a : ℕ × Record). acks a.0 ≡ none) xs
    → Holds r xs
    → IsWritten acks (xs ++ ys) r
IsWritten-append acks [] ys r a h = absurd h
IsWritten-append acks ((ack, rec) ∷ xs) ys r a (inl e) = inl (e, a.0)
IsWritten-append acks ((ack, rec) ∷ xs) ys r a (inr h) = inr (IsWritten-append acks xs ys r a.1 h)

IsSafeReply-append :
    (acks : ℕ → Option (List ℕ)) (xs ys : Logged) (sent : List (ℕ × Outcome))
    → All (λ (a : ℕ × Record). acks a.0 ≡ none) xs
    → All (IsBacked xs) sent
    → All (IsSafeReply acks (xs ++ ys)) sent
IsSafeReply-append acks xs ys [] a b = tt
IsSafeReply-append acks xs ys ((reply, failed e) ∷ sent) a (b, bs) =
    (tt, IsSafeReply-append acks xs ys sent a bs)
IsSafeReply-append acks xs ys ((reply, replied r) ∷ sent) a (inl u, bs) =
    (inl u, IsSafeReply-append acks xs ys sent a bs)
IsSafeReply-append acks xs ys ((reply, replied r) ∷ sent) a (inr h, bs) =
    (inr (IsWritten-append acks xs ys r a h), IsSafeReply-append acks xs ys sent a bs)

-- Write-ahead: in every run of the loop of a shard with a journal, a result is sent only if it rejects a
-- symbol that the shard does not know, or if it is the result of a record that the journal accepted and
-- acknowledged with no error.
pub Run-IsSafeReply :
    (acks : ℕ → Option (List ℕ)) (start : Loop) (es : List LoopEvent) (l : Loop)
    → IsNew start
    → Run acks start es l
    → All (IsSafeReply acks l.appended) l.sent
Run-IsSafeReply acks start es l n run =
    let s = Run-Sound acks start es l n run in
    subst (λ (log : Logged). All (IsSafeReply acks log) l.sent) (sym s.split)
      (IsSafeReply-append acks s.done s.waiting l.sent s.acked s.backed)

no_waiting : (log : Logged) → Waits [] log → log ≡ []
no_waiting [] w = refl
no_waiting (a ∷ log) w = absurd w

-- During a drain of a loop that has not failed, when the engine takes a snapshot, every appended record
-- is acknowledged with no error, the books are those to which the commands of these records lead
-- from the books at the start, with the recorded results, and LastAppliedSeq is the number of the
-- last record, or that of the start where there is none.
pub drained-run_commands :
    (acks : ℕ → Option (List ℕ)) (start : Loop) (es : List LoopEvent) (l : Loop)
    → IsNew start
    → Run acks start es l
    → l.is_draining ≡ true
    → l.failed_err ≡ none
    → All (λ (a : ℕ × Record). acks a.0 ≡ none) l.appended
      × (run_commands (start.id % 2 ^ 16) (commands_of l.appended) start.books
          ≡ some (l.books, records_of l.appended))
      × (l.last_applied_seq ≡ last_seq start.last_applied_seq l.appended)
drained-run_commands acks start es l n run d f =
    let s = Run-Sound acks start es l n run in
    let w =
      subst (λ (ps : List PendingCommand). Waits ps s.waiting) (s.drained d)
        (waits acks start.books start.last_applied_seq start.id l s f) in
    let whole : s.done ≡ l.appended = sym (
      s.split
      ∙ ap (λ (log : Logged). s.done ++ log) (no_waiting s.waiting w)
      ∙ append-nil s.done) in
    (
      subst (λ (log : Logged). All (λ (a : ℕ × Record). acks a.0 ≡ none) log) whole s.acked,
      s.ran f,
      s.watermark ∙ ap (last_seq start.last_applied_seq) whole,
    )

-- As long as the loop has not failed, replaying the records that it appended, if their numbers rise, on
-- the books with which it started gives its books, with no mismatch.
pub replay-Run :
    (acks : ℕ → Option (List ℕ)) (factory : Snapshot → Option Book) (start : Loop)
    (es : List LoopEvent) (l : Loop)
    → IsNew start
    → Run acks start es l
    → l.failed_err ≡ none
    → IsRising start.last_applied_seq (commands_of l.appended)
    → replay factory (records_of l.appended) start.books start.last_applied_seq
      ≡ some (inr (l.books, last_number start.last_applied_seq (commands_of l.appended)))
replay-Run acks factory start es l n run f r =
    replay-run_commands factory (start.id % 2 ^ 16) (commands_of l.appended) start.books l.books
      (records_of l.appended) start.last_applied_seq r ((Run-Sound acks start es l n run).ran f)
