-- ===== src/Shard/Loop/Completed.antt =====
-- completeNext and completeAll keep `IsSound`.
use matching_engine_go.Prelude.{
  ℕ, ◌≡◌, refl, List, [], ◌∷◌, ◌++◌, Option, none, some, inl, inr, map, All-append, ap, sym, ◌∙◌,
}
use mathlib.Core.List.{append_assoc}
use mathlib.Core.Path.{subst}
use matching_engine_go.Model.{Result}
use matching_engine_go.Ingress.{Error, replied, failed, wal_append_failed}
use matching_engine_go.Journal.Codec.{Record}
use matching_engine_go.Recovery.{Books}
use matching_engine_go.Shard.Loop.{
  wait_for, PendingCommand, Loop, refuse, complete_command, fail_pending, complete_next,
  complete_all,
}
use matching_engine_go.Shard.Loop.Steps.{complete_all-cases}
use matching_engine_go.Shard.Loop.Sound.{
  waited-IsSound, Logged, Waits, Matches, Holds, IsBacked, IsBacked-refuse, IsSound,
  last_seq-append, Holds-last, IsBacked-append, waits,
}

module _ (acks : ℕ → Option (List ℕ)) (start : Books) (first_seq shard : ℕ) where
  pub complete_next-IsSound :
      (command : PendingCommand) (others : List PendingCommand) (l : Loop)
      → IsSound acks start first_seq shard l
      → l.failed_err ≡ none
      → l.pending ≡ command ∷ others
      → IsSound acks start first_seq shard (complete_next command others (acks command.ack) l)
  unfolding complete_next complete_command fail_pending
  complete_next-IsSound command others l s f q =
      go s.waiting
        (subst (λ (ps : List PendingCommand). Waits ps s.waiting) q
          (waits acks start first_seq shard l s f))
        s.split (acks command.ack) refl
    where
      go :
          (waiting : Logged)
          → Waits (command ∷ others) waiting
          → l.appended ≡ s.done ++ waiting
          → (answer : Option (List ℕ)) → acks command.ack ≡ answer
          → IsSound acks start first_seq shard (complete_next command others answer l)
      go [] w e answer a = absurd w
      go ((ack, rec) ∷ waiting) w e none a = record {
        done = s.done ++ (ack, rec) ∷ [];
        waiting = waiting;
        split = e ∙ sym (append_assoc s.done ((ack, rec) ∷ []) waiting);
        acked =
            All-append (λ (b : ℕ × Record). acks b.0 ≡ none) s.done ((ack, rec) ∷ []) s.acked
              (ap acks (sym w.0) ∙ a, tt);
        watermark = w.1 ∙ sym (last_seq-append first_seq ack rec s.done);
        matched = subst (λ (x : Option Error). Matches x others waiting) (sym f) w.3;
        backed =
            All-append (IsBacked (s.done ++ (ack, rec) ∷ [])) l.sent
              ((command.reply, replied command.result) ∷ [])
              (IsBacked-append s.done ((ack, rec) ∷ []) l.sent s.backed)
              (
                inr (
                    subst (λ (r : Result). Holds r (s.done ++ (ack, rec) ∷ [])) (sym w.2)
                      (Holds-last s.done ack rec)),
                tt,
              );
        ran = s.ran;
        with_wal = s.with_wal;
        same_id = s.same_id;
        drained = λ d. let g = s.drained d in absurd cc;
      }
      go ((ack, rec) ∷ waiting) w e (some err) a = record {
        done = s.done;
        waiting = (ack, rec) ∷ waiting;
        split = e;
        acked = s.acked;
        watermark = s.watermark;
        matched = refl;
        backed =
            All-append (IsBacked s.done)
              (l.sent ++ (command.reply, failed (wal_append_failed err)) ∷ [])
              (map (refuse (wal_append_failed err)) others)
              (All-append (IsBacked s.done) l.sent
                ((command.reply, failed (wal_append_failed err)) ∷ []) s.backed (tt, tt))
              (IsBacked-refuse s.done (wal_append_failed err) others);
        ran = λ g. absurd cc;
        with_wal = s.with_wal;
        same_id = s.same_id;
        drained = λ d. refl;
      }

  -- completeAll leaves nothing pending.
  pub complete_all-IsSound :
      (ps : List PendingCommand) (l : Loop)
      → IsSound acks start first_seq shard l
      → l.failed_err ≡ none
      → l.pending ≡ ps
      → IsSound acks start first_seq shard (complete_all acks ps l)
        × ((complete_all acks ps l).pending ≡ [])
  unfolding complete_all complete_next complete_command
  complete_all-IsSound [] l s f q = (s, q)
  complete_all-IsSound (command ∷ others) l s f q =
      let l1 = wait_for command.ack l in
      let l' = complete_next command others (acks command.ack) l1 in
      let s1 = waited-IsSound acks start first_seq shard l1.flushed l1.waits l s in
      let s' = complete_next-IsSound command others l1 s1 f q in
      elim (complete_all-cases acks command others l) [
        | inl (e, p) ↦ (
          subst (IsSound acks start first_seq shard) (sym e) s',
          ap (λ (x : Loop). x.pending) e ∙ p,
        )
        | inr (e, p, a) ↦
            let f' : l'.failed_err ≡ none =
              subst (λ (x : Option (List ℕ)). (complete_next command others x l1).failed_err ≡ none)
                (sym a) f in
            let (s'', p') = complete_all-IsSound others l' s' f' p in
            (
              subst (IsSound acks start first_seq shard) (sym e) s'',
              ap (λ (x : Loop). x.pending) e ∙ p',
            )
      ]
