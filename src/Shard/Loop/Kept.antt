-- ===== src/Shard/Loop/Kept.antt =====
-- Each handler of the loop of a shard keeps `IsSound`.
use matching_engine_go.Prelude.{
  ℕ, ◌%◌, ◌^◌, ◌≡◌, refl, List, [], ◌∷◌, ◌++◌, Bool, true, false, Option, none, some, ◌⊎◌, inl, inr,
  ◌+◌, Option-cases, All-append, ap, sym, ◌∙◌,
}
use mathlib.Core.List.{append_assoc}
use mathlib.Core.Path.{subst}
use matching_engine_go.Model.{Command, Result}
use matching_engine_go.Ingress.{Error, Outcome, replied, failed, wal_append_failed}
use matching_engine_go.Book.State.{Book}
use matching_engine_go.Book.Handlers
use matching_engine_go.Journal.Codec.{Record}
use matching_engine_go.Recovery.{Books, put_book, run_commands}
use matching_engine_go.Recovery.Appended.{run_commands-append}
use matching_engine_go.Shard.Loop.{
  PendingCommand, Loop, send, unknown_symbol, record_of, fail_pending, complete_next, append_record,
  persist, enqueue_by, flush_pending,
}
use matching_engine_go.Shard.Loop.Steps.{apply_command-some, flush_pending-cases}
use matching_engine_go.Shard.Loop.Run.{handle_ack, shut_down}
use matching_engine_go.Shard.Loop.Sound.{
  waited-IsSound, Logged, Matches, IsBacked, IsSound, commands_of, records_of, commands_of-append,
  records_of-append, Waits-append, fail_pending-IsSound, waits,
}
use matching_engine_go.Shard.Loop.Completed.{complete_next-IsSound, complete_all-IsSound}

fail_pending-pending : (err : Error) (l : Loop) → (fail_pending err l).pending ≡ []
unfolding fail_pending
fail_pending-pending err l = refl

module _ (acks : ℕ → Option (List ℕ)) (start : Books) (first_seq shard : ℕ) where
  send-IsSound :
      (reply : ℕ) (outcome : Outcome) (rejected : ℕ) (l : Loop)
      → (s : IsSound acks start first_seq shard l) → IsBacked s.done (reply, outcome)
      → IsSound acks start first_seq shard (send reply outcome (record l { rejected = rejected }))
  send-IsSound reply outcome rejected l s b = record {
    done = s.done;
    waiting = s.waiting;
    split = s.split;
    acked = s.acked;
    watermark = s.watermark;
    matched = s.matched;
    ran = s.ran;
    with_wal = s.with_wal;
    same_id = s.same_id;
    drained = s.drained;
    backed = All-append (IsBacked s.done) l.sent ((reply, outcome) ∷ []) s.backed (b, tt);
  }

  append_record-IsSound :
      (answer : List ℕ ⊎ ℕ) (cmd : Command) (result : Result) (reply : ℕ) (b b' : Book) (l : Loop)
      → IsSound acks start first_seq shard l
      → l.failed_err ≡ none
      → l.books cmd.symbol ≡ some b
      → Handlers.apply b cmd ≡ some (b', result)
      → l.is_draining ≡ false
      → IsSound acks start first_seq shard (
          append_record answer cmd result reply
            (record l { books = put_book l.books cmd.symbol b' }))
  unfolding append_record
  append_record-IsSound (inl e) cmd result reply b b' l s f g h n =
      let books = put_book l.books cmd.symbol b' in
      let s' = fail_pending-IsSound acks start first_seq shard (wal_append_failed e) books l s in
      send-IsSound reply (failed (wal_append_failed e)) l.rejected
        (fail_pending (wal_append_failed e) (record l { books = books })) s' tt
  append_record-IsSound (inr ack) cmd result reply b b' l s f g h not_draining = record {
    done = s.done;
    waiting = s.waiting ++ (ack, rec) ∷ [];
    split =
        ap (λ (xs : Logged). xs ++ (ack, rec) ∷ []) s.split
        ∙ append_assoc s.done s.waiting ((ack, rec) ∷ []);
    acked = s.acked;
    watermark = s.watermark;
    matched =
        subst (λ (x : Option Error). Matches x (l.pending ++ p ∷ []) (s.waiting ++ (ack, rec) ∷ []))
          (sym f)
          (Waits-append p rec l.pending s.waiting refl refl
            (waits acks start first_seq shard l s f));
    backed = s.backed;
    ran = λ n.
        ap (λ (cs : List Command). run_commands (shard % 2 ^ 16) cs start)
          (commands_of-append l.appended ((ack, rec) ∷ []))
        ∙ run_commands-append (shard % 2 ^ 16) cmd b b' result (commands_of l.appended) start
            l.books (records_of l.appended) (s.ran f) g h
        ∙ ap
            (λ (i : ℕ). some (
              put_book l.books cmd.symbol b',
              records_of l.appended
                  ++ record {
                    shard_id = i % 2 ^ 16;
                    command_seq = cmd.seq;
                    command = cmd;
                    result = result;
                  }
                    ∷ [],
            ))
            (sym s.same_id)
        ∙ ap (λ (rs : List Record). some (put_book l.books cmd.symbol b', rs))
            (sym (records_of-append l.appended ((ack, rec) ∷ [])));
    with_wal = s.with_wal;
    same_id = s.same_id;
    drained = λ d. absurd cc;
  }
    where
      p : PendingCommand
      p = record { sequence = cmd.seq; result = result; reply = reply; ack = ack }

      rec : Record
      rec = record_of l cmd result

  pub enqueue_by-IsSound :
      (e : Option Error) (found : Option Book) (answer : List ℕ ⊎ ℕ) (cmd : Command) (reply : ℕ)
      (l l' : Loop)
      → IsSound acks start first_seq shard l
      → l.failed_err ≡ e
      → l.books cmd.symbol ≡ found
      → l.is_draining ≡ false
      → enqueue_by e found answer cmd reply l ≡ some l'
      → IsSound acks start first_seq shard l'
  unfolding enqueue_by persist
  enqueue_by-IsSound (some e) found answer cmd reply l l' s f g d h =
      let q : send reply (failed e) l ≡ l' = cc in
      subst (IsSound acks start first_seq shard) q (send-IsSound reply (failed e) l.rejected l s tt)
  enqueue_by-IsSound none none answer cmd reply l l' s f g d h =
      let q : send reply (replied (unknown_symbol cmd)) (record l { rejected = l.rejected + 1 })
          ≡ l' =
        cc in
      subst (IsSound acks start first_seq shard) q
        (send-IsSound reply (replied (unknown_symbol cmd)) (l.rejected + 1) l s (inl (cmd, refl)))
  enqueue_by-IsSound none (some b) answer cmd reply l l' s f g d h =
      let (b', result, a, q) = apply_command-some answer cmd reply l l' b h in
      let l0 = record l { books = put_book l.books cmd.symbol b' } in
      let q' : l' ≡ append_record answer cmd result reply l0 =
        q ∙ ap (λ (w : Bool). persist w answer cmd result reply l0) s.with_wal in
      subst (IsSound acks start first_seq shard) (sym q')
        (append_record-IsSound answer cmd result reply b b' l s f g a d)

  pub flush_pending-IsSound :
      (answer : Option (List ℕ)) (l : Loop)
      → IsSound acks start first_seq shard l
      → IsSound acks start first_seq shard (flush_pending acks answer l).1
        × ((flush_pending acks answer l).1.pending ≡ [])
  flush_pending-IsSound answer l s = elim (flush_pending-cases acks answer l) [
    | inl (err, q) ↦ (
      subst (λ (x : Option Error × Loop). IsSound acks start first_seq shard x.1) (sym q)
          (fail_pending-IsSound acks start first_seq shard err l.books l s),
      ap (λ (x : Option Error × Loop). x.1.pending) q ∙ fail_pending-pending err l,
    )
    | inr (kept, q, f, w) ↦
        let s1 = waited-IsSound acks start first_seq shard kept l.waits l s in
        let (s', p) =
          complete_all-IsSound acks start first_seq shard l.pending (record l { flushed = kept }) s1
            f refl in
        (
          subst (λ (x : Option Error × Loop). IsSound acks start first_seq shard x.1) (sym q) s',
          ap (λ (x : Option Error × Loop). x.1.pending) q ∙ p,
        )
  ]

  pub handle_ack-IsSound :
      (ps : List PendingCommand) (l l' : Loop)
      → IsSound acks start first_seq shard l
      → l.pending ≡ ps
      → handle_ack acks ps l ≡ some l'
      → IsSound acks start first_seq shard l'
  unfolding handle_ack
  handle_ack-IsSound [] l l' s q h = absurd cc
  handle_ack-IsSound (command ∷ others) l l' s q h = elim (Option-cases l.failed_err) [
    | inl f ↦
        let g : complete_next command others (acks command.ack) l ≡ l' = cc in
        subst (IsSound acks start first_seq shard) g
          (complete_next-IsSound acks start first_seq shard command others l s f q)
    | inr (e, f) ↦
        let none_left = subst (λ (x : Option Error). Matches x l.pending s.waiting) f s.matched in
        absurd cc
  ]

  pub shut_down-IsSound :
      (answer : Option (List ℕ)) (f : Option Error) (has_wal : Bool) (l : Loop)
      → IsSound acks start first_seq shard l
      → l.pending ≡ []
      → IsSound acks start first_seq shard (shut_down answer f has_wal l)
  unfolding shut_down
  shut_down-IsSound (some e) none true l s p = record {
    done = s.done;
    waiting = s.waiting;
    split = s.split;
    acked = s.acked;
    watermark = s.watermark;
    matched = p;
    backed = s.backed;
    ran = λ g. absurd cc;
    with_wal = s.with_wal;
    same_id = s.same_id;
    drained = s.drained;
  }
  shut_down-IsSound (some e) none false l s p = s
  shut_down-IsSound (some e) (some f) has_wal l s p = s
  shut_down-IsSound none f has_wal l s p = s

  -- The fields that only the select reads.
  pub flags-IsSound :
      (is_open is_draining is_done : Bool) (answers : List (ℕ × Option Error)) (l : Loop)
      → IsSound acks start first_seq shard l
      → (is_draining ≡ true → l.pending ≡ [])
      → IsSound acks start first_seq shard (record l {
        is_open = is_open;
        is_draining = is_draining;
        is_done = is_done;
        answers = answers;
      })
  flags-IsSound is_open is_draining is_done answers l s d = record {
    done = s.done;
    waiting = s.waiting;
    split = s.split;
    acked = s.acked;
    watermark = s.watermark;
    matched = s.matched;
    backed = s.backed;
    ran = s.ran;
    with_wal = s.with_wal;
    same_id = s.same_id;
    drained = d;
  }
