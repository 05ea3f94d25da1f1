-- ===== src/Shard/Loop/Replies.antt =====
-- How often the loop of a shard replies on a channel.
use matching_engine_go.Prelude.{
  ℕ, ◌+◌, ◌≡◌, refl, List, [], ◌∷◌, ◌++◌, Bool, true, false, Option, none, some, ◌==◌, ◌⊎◌, inl,
  inr, arith, map, ap, sym, ◌∙◌,
}
use matching_engine_go.Model.{Command, Result}
use matching_engine_go.Ingress.{
  Error, Outcome, failed, replied, wal_append_failed, routed_command, routed_barrier, routed_drain,
}
use matching_engine_go.Book.State.{Book}
use matching_engine_go.Recovery.{put_book}
use matching_engine_go.Shard.Loop.{
  wait_for, PendingCommand, Loop, refuse, complete_command, fail_pending, complete_next,
  complete_all, flush_pending, append_record, persist, enqueue_by, enqueue_command, send,
  unknown_symbol,
}
use matching_engine_go.Shard.Loop.Steps.{
  complete_all-cases, flush_pending-cases, apply_command-some,
}
use matching_engine_go.Shard.Loop.Run.{
  LoopEvent, received, inbox_closed, acked, released, finished, shut_down, handle_ack, answer_to,
  handle, Run, here, next,
}

abbrev pub one_if : Bool → ℕ
one_if true = 1
one_if false = 0

-- How often a channel was replied to, waits for a reply, and came with a command.
abbrev pub sent_on : ℕ → List (ℕ × Outcome) → ℕ
sent_on k [] = 0
sent_on k ((reply, outcome) ∷ sent) = one_if (reply == k) + sent_on k sent

abbrev pub waiting_on : ℕ → List PendingCommand → ℕ
waiting_on k [] = 0
waiting_on k (p ∷ ps) = one_if (p.reply == k) + waiting_on k ps

abbrev pub asked_by : ℕ → LoopEvent → ℕ
asked_by k (received (routed_command cmd reply) w) = one_if (reply == k)
asked_by k _ = 0

abbrev pub asked_on : ℕ → List LoopEvent → ℕ
asked_on k [] = 0
asked_on k (e ∷ es) = asked_by k e + asked_on k es

abbrev replies : ℕ → Loop → ℕ
replies k l = sent_on k l.sent + waiting_on k l.pending

pub sent_on-append :
    (k : ℕ) (xs ys : List (ℕ × Outcome)) → sent_on k (xs ++ ys) ≡ sent_on k xs + sent_on k ys
sent_on-append k [] ys = omega arith
sent_on-append k ((r, o) ∷ xs) ys = omega (arith, sent_on-append k xs ys)

waiting_on-append :
    (k : ℕ) (xs ys : List PendingCommand)
    → waiting_on k (xs ++ ys) ≡ waiting_on k xs + waiting_on k ys
waiting_on-append k [] ys = omega arith
waiting_on-append k (p ∷ xs) ys = omega (arith, waiting_on-append k xs ys)

sent_on-refuse :
    (k : ℕ) (err : Error) (ps : List PendingCommand)
    → sent_on k (map (refuse err) ps) ≡ waiting_on k ps
sent_on-refuse k err [] = refl
sent_on-refuse k err (p ∷ ps) = omega (arith, sent_on-refuse k err ps)

module _ (k : ℕ) where
  replies-complete_command :
      (seq : ℕ) (result : Result) (reply : ℕ) (l : Loop)
      → replies k (complete_command seq result reply l) ≡ one_if (reply == k) + replies k l
  unfolding complete_command
  replies-complete_command seq result reply l =
      omega (arith, sent_on-append k l.sent ((reply, replied result) ∷ []))

  replies-fail_pending : (err : Error) (l : Loop) → replies k (fail_pending err l) ≡ replies k l
  unfolding fail_pending
  replies-fail_pending err l =
      omega (
        arith,
        sent_on-append k l.sent (map (refuse err) l.pending),
        sent_on-refuse k err l.pending,
      )

  replies-complete_next :
      (command : PendingCommand) (others : List PendingCommand) (answer : Option (List ℕ))
      (l : Loop)
      → l.pending ≡ command ∷ others
      → replies k (complete_next command others answer l) ≡ replies k l
  unfolding complete_next
  replies-complete_next command others none l e = omega (
    arith,
    replies-complete_command command.sequence command.result command.reply
        (record l { pending = others }),
    ap (waiting_on k) e,
  )
  replies-complete_next command others (some err) l e = omega (
    arith,
    sent_on-append k (l.sent ++ (command.reply, failed (wal_append_failed err)) ∷ [])
        (map (refuse (wal_append_failed err)) others),
    sent_on-append k l.sent ((command.reply, failed (wal_append_failed err)) ∷ []),
    sent_on-refuse k (wal_append_failed err) others,
    ap (waiting_on k) e,
  )

  replies-complete_all :
      (acks : ℕ → Option (List ℕ)) (ps : List PendingCommand) (l : Loop)
      → l.pending ≡ ps
      → replies k (complete_all acks ps l) ≡ replies k l
  unfolding complete_all
  replies-complete_all acks [] l e = refl
  replies-complete_all acks (command ∷ others) l e =
      let l1 = wait_for command.ack l in
      let first = replies-complete_next command others (acks command.ack) l1 e in
      let l' = complete_next command others (acks command.ack) l1 in
      elim (complete_all-cases acks command others l) [
        | inl (f, q) ↦ ap (replies k) f ∙ first
        | inr (f, q, a) ↦ ap (replies k) f ∙ replies-complete_all acks others l' q ∙ first
      ]

  replies-flush_pending :
      (acks : ℕ → Option (List ℕ)) (answer : Option (List ℕ)) (l : Loop)
      → replies k (flush_pending acks answer l).1 ≡ replies k l
  replies-flush_pending acks answer l = elim (flush_pending-cases acks answer l) [
    | inl (err, q) ↦ ap (λ (x : Option Error × Loop). replies k x.1) q ∙ replies-fail_pending err l
    | inr (kept, q, f, w) ↦
        ap (λ (x : Option Error × Loop). replies k x.1) q
        ∙ replies-complete_all acks l.pending (record l { flushed = kept }) refl
  ]

  replies-append_record :
      (answer : List ℕ ⊎ ℕ) (cmd : Command) (result : Result) (reply : ℕ) (l : Loop)
      → replies k (append_record answer cmd result reply l) ≡ one_if (reply == k) + replies k l
  unfolding append_record
  replies-append_record (inl e) cmd result reply l =
      let f = replies-fail_pending (wal_append_failed e) l in
      omega (
        arith,
        sent_on-append k (fail_pending (wal_append_failed e) l).sent
            ((reply, failed (wal_append_failed e)) ∷ []),
        f,
      )
  replies-append_record (inr ack) cmd result reply l = omega (arith, waiting_on-append k l.pending)

  replies-persist :
      (has_wal : Bool) (answer : List ℕ ⊎ ℕ) (cmd : Command) (result : Result) (reply : ℕ)
      (l : Loop)
      → replies k (persist has_wal answer cmd result reply l) ≡ one_if (reply == k) + replies k l
  unfolding persist
  replies-persist false answer cmd result reply l = replies-complete_command cmd.seq result reply l
  replies-persist true answer cmd result reply l = replies-append_record answer cmd result reply l

  replies-enqueue_by :
      (f : Option Error) (found : Option Book) (answer : List ℕ ⊎ ℕ) (cmd : Command) (reply : ℕ)
      (l l' : Loop)
      → enqueue_by f found answer cmd reply l ≡ some l'
      → replies k l' ≡ one_if (reply == k) + replies k l
  unfolding enqueue_by
  replies-enqueue_by (some e) found answer cmd reply l l' h =
      let g : send reply (failed e) l ≡ l' = cc in
      ap (replies k) (sym g) ∙ omega (arith, sent_on-append k l.sent ((reply, failed e) ∷ []))
  replies-enqueue_by none none answer cmd reply l l' h =
      let g : send reply (replied (unknown_symbol cmd)) (record l { rejected = l.rejected + 1 })
          ≡ l' =
        cc in
      ap (replies k) (sym g)
      ∙ omega (arith, sent_on-append k l.sent ((reply, replied (unknown_symbol cmd)) ∷ []))
  replies-enqueue_by none (some b) answer cmd reply l l' h =
      let (b', result, a, g) = apply_command-some answer cmd reply l l' b h in
      ap (replies k) g
      ∙ replies-persist l.has_wal answer cmd result reply
          (record l { books = put_book l.books cmd.symbol b' })

  replies-shut_down :
      (answer : Option (List ℕ)) (f : Option Error) (has_wal : Bool) (l : Loop)
      → replies k (shut_down answer f has_wal l) ≡ replies k l
  unfolding shut_down
  replies-shut_down (some e) none true l = refl
  replies-shut_down (some e) none false l = refl
  replies-shut_down (some e) (some f) has_wal l = refl
  replies-shut_down none f has_wal l = refl

  replies-handle_ack :
      (acks : ℕ → Option (List ℕ)) (ps : List PendingCommand) (l l' : Loop)
      → l.pending ≡ ps
      → handle_ack acks ps l ≡ some l'
      → replies k l' ≡ replies k l
  unfolding handle_ack
  replies-handle_ack acks [] l l' q h = absurd cc
  replies-handle_ack acks (command ∷ others) l l' q h =
      let g : complete_next command others (acks command.ack) l ≡ l' = cc in
      ap (replies k) (sym g) ∙ replies-complete_next command others (acks command.ack) l q

  -- One event adds the reply that it asks for, sent or waiting.
  replies-handle :
      (acks : ℕ → Option (List ℕ)) (e : LoopEvent) (l l' : Loop)
      → handle acks e l ≡ some l'
      → replies k l' ≡ asked_by k e + replies k l
  unfolding handle enqueue_command
  replies-handle acks (received (routed_command cmd reply) w) l l' h =
      replies-enqueue_by l.failed_err (l.books cmd.symbol) w.append cmd reply l l' h
  replies-handle acks (received (routed_barrier done) w) l l' h =
      let g : answer_to done (flush_pending acks w.flush l) ≡ l' = cc in
      ap (replies k) (sym g) ∙ omega (arith, replies-flush_pending acks w.flush l)
  replies-handle acks (received (routed_drain done) w) l l' h =
      let g : record (answer_to done (flush_pending acks w.flush l)) { is_draining = true } ≡ l' =
        cc in
      ap (replies k) (sym g) ∙ omega (arith, replies-flush_pending acks w.flush l)
  replies-handle acks inbox_closed l l' h =
      let g : record l { is_open = false } ≡ l' = cc in ap (replies k) (sym g) ∙ omega arith
  replies-handle acks acked l l' h = omega (arith, replies-handle_ack acks l.pending l l' refl h)
  replies-handle acks released l l' h =
      let g : record l { is_draining = false } ≡ l' = cc in ap (replies k) (sym g) ∙ omega arith
  replies-handle acks (finished answer) l l' h =
      let g : record (shut_down answer l.failed_err l.has_wal l) { is_done = true } ≡ l' = cc in
      ap (replies k) (sym g) ∙ omega (arith, replies-shut_down answer l.failed_err l.has_wal l)

-- A shard that has sent nothing and keeps no command, as newLoop makes it.
abbrev pub IsFresh : Loop → Type 0
IsFresh l = (l.sent ≡ []) × (l.pending ≡ [])

-- At any moment each channel on which commands came was replied to, or waits for a reply of a pending
-- command, exactly as often as commands came on it: no reply is lost, sent twice or made up, whatever
-- the journal answers, also when a write fails.
pub Run-replies :
    (acks : ℕ → Option (List ℕ)) (start : Loop) (es : List LoopEvent) (l : Loop) (k : ℕ)
    → IsFresh start
    → Run acks start es l
    → sent_on k l.sent + waiting_on k l.pending ≡ asked_on k es
Run-replies acks start es l k fresh here =
    omega (arith, ap (sent_on k) fresh.0, ap (waiting_on k) fresh.1)
Run-replies acks start es l k fresh (next {es = es'} {l = l0} e run on h) =
    omega (arith, Run-replies acks start es' l0 k fresh run, replies-handle k acks e l0 l h)
