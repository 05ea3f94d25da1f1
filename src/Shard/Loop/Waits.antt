-- ===== src/Shard/Loop/Waits.antt =====
-- What completeAll waits for: acks of records that were appended before a Flush that returned no error.
use matching_engine_go.Prelude.{
  ℕ, ◌+◌, ◌≡◌, refl, List, [], ◌∷◌, ◌++◌, Bool, true, false, Option, none, some, ◌⊎◌, inl, inr, All,
  All-append, ap, sym, ◌∙◌,
}
use mathlib.Core.Path.{subst}
use matching_engine_go.Model.{Command, Result}
use matching_engine_go.Ingress.{
  Error, replied, failed, routed_command, routed_barrier, routed_drain,
}
use matching_engine_go.Book.State.{Book}
use matching_engine_go.Recovery.{put_book}
use matching_engine_go.Shard.Loop.{
  PendingCommand, Loop, wait_for, channels, send, unknown_symbol, complete_command, fail_pending,
  complete_next, complete_all, append_record, persist, enqueue_by, enqueue_command, flush_pending,
}
use matching_engine_go.Shard.Loop.Steps.{
  complete_all-cases, flush_pending-cases, apply_command-some,
}
use matching_engine_go.Shard.Loop.Run.{
  LoopEvent, received, inbox_closed, acked, released, finished, answer_to, handle_ack, shut_down,
  handle, Run, here, next,
}
use matching_engine_go.Shard.Loop.Sound.{Logged, Waits, IsSound, waits}
use matching_engine_go.Shard.Loop.Durable.{IsNew, Run-Sound}

abbrev pub IsOneOf : ℕ → List ℕ → Type 0
IsOneOf k [] = ⊥
IsOneOf k (x ∷ xs) = (x ≡ k) ⊎ IsOneOf k xs

-- The wait for an ack is one for a record that had been flushed by then.
abbrev pub IsOwed : ℕ × List ℕ → Type 0
IsOwed (ack, flushed) = IsOneOf ack flushed

IsOneOf-append :
    (k : ℕ) (xs ys : Logged) → IsOneOf k (channels ys) → IsOneOf k (channels (xs ++ ys))
IsOneOf-append k [] ys h = h
IsOneOf-append k (x ∷ xs) ys h = inr (IsOneOf-append k xs ys h)

abbrev AreIn : List ℕ → List PendingCommand → Type 0
AreIn flushed ps = All (λ (p : PendingCommand). IsOneOf p.ack flushed) ps

AreIn-cons : (x : ℕ) (xs : List ℕ) (ps : List PendingCommand) → AreIn xs ps → AreIn (x ∷ xs) ps
AreIn-cons x xs [] h = tt
AreIn-cons x xs (p ∷ ps) h = (inr h.0, AreIn-cons x xs ps h.1)

AreIn-append :
    (xs ys : Logged) (ps : List PendingCommand)
    → AreIn (channels ys) ps
    → AreIn (channels (xs ++ ys)) ps
AreIn-append xs ys [] h = tt
AreIn-append xs ys (p ∷ ps) h = (IsOneOf-append p.ack xs ys h.0, AreIn-append xs ys ps h.1)

Waits-AreIn : (ps : List PendingCommand) (log : Logged) → Waits ps log → AreIn (channels log) ps
Waits-AreIn [] [] w = tt
Waits-AreIn [] (a ∷ log) w = absurd w
Waits-AreIn (p ∷ ps) [] w = absurd w
Waits-AreIn (p ∷ ps) ((ack, rec) ∷ log) w =
    (inl (sym w.0), AreIn-cons ack (channels log) ps (Waits-AreIn ps log w.3))

complete_next-waits :
    (command : PendingCommand) (others : List PendingCommand) (answer : Option (List ℕ)) (l : Loop)
    → ((complete_next command others answer l).waits ≡ l.waits)
      × ((complete_next command others answer l).flushed ≡ l.flushed)
unfolding complete_next complete_command fail_pending
complete_next-waits command others none l = (refl, refl)
complete_next-waits command others (some e) l = (refl, refl)

abbrev IsCovered : Loop → Type 0
IsCovered l = All IsOwed l.waits

same-IsCovered : (l l' : Loop) → l'.waits ≡ l.waits → IsCovered l → IsCovered l'
same-IsCovered l l' e c = subst (λ (w : List (ℕ × List ℕ)). All IsOwed w) (sym e) c

persist-waits :
    (has_wal : Bool) (answer : List ℕ ⊎ ℕ) (cmd : Command) (result : Result) (reply : ℕ) (l : Loop)
    → (persist has_wal answer cmd result reply l).waits ≡ l.waits
unfolding persist complete_command append_record fail_pending
persist-waits false answer cmd result reply l = refl
persist-waits true (inl e) cmd result reply l = refl
persist-waits true (inr ack) cmd result reply l = refl

enqueue_by-waits :
    (e : Option Error) (found : Option Book) (answer : List ℕ ⊎ ℕ) (cmd : Command) (reply : ℕ)
    (l l' : Loop)
    → enqueue_by e found answer cmd reply l ≡ some l'
    → l'.waits ≡ l.waits
unfolding enqueue_by
enqueue_by-waits (some e) found answer cmd reply l l' h =
    let q : send reply (failed e) l ≡ l' = cc in ap (λ (x : Loop). x.waits) (sym q)
enqueue_by-waits none none answer cmd reply l l' h =
    let q : send reply (replied (unknown_symbol cmd)) (record l { rejected = l.rejected + 1 })
        ≡ l' =
      cc in
    ap (λ (x : Loop). x.waits) (sym q)
enqueue_by-waits none (some b) answer cmd reply l l' h =
    let (b', result, a, q) = apply_command-some answer cmd reply l l' b h in
    ap (λ (x : Loop). x.waits) q
    ∙ persist-waits l.has_wal answer cmd result reply
        (record l { books = put_book l.books cmd.symbol b' })

shut_down-waits :
    (answer : Option (List ℕ)) (e : Option Error) (has_wal : Bool) (l : Loop)
    → (shut_down answer e has_wal l).waits ≡ l.waits
unfolding shut_down
shut_down-waits (some x) none true l = refl
shut_down-waits (some x) none false l = refl
shut_down-waits (some x) (some y) has_wal l = refl
shut_down-waits none e has_wal l = refl

module _ (acks : ℕ → Option (List ℕ)) where
  complete_all-IsCovered :
      (ps : List PendingCommand) (l : Loop)
      → AreIn l.flushed ps
      → IsCovered l
      → IsCovered (complete_all acks ps l)
  unfolding complete_all
  complete_all-IsCovered [] l h c = c
  complete_all-IsCovered (p ∷ ps) l (h, hs) c =
      let l1 = wait_for p.ack l in
      let l2 = complete_next p ps (acks p.ack) l1 in
      let (w, f) = complete_next-waits p ps (acks p.ack) l1 in
      let c2 =
        same-IsCovered l1 l2 w (All-append IsOwed l.waits ((p.ack, l.flushed) ∷ []) c (h, tt)) in
      elim (complete_all-cases acks p ps l) [
        | inl (e, q) ↦ subst IsCovered (sym e) c2
        | inr (e, q, a) ↦
            subst IsCovered (sym e)
              (complete_all-IsCovered ps l2 (subst (λ (xs : List ℕ). AreIn xs ps) (sym f) hs) c2)
      ]

  handle_ack-waits :
      (ps : List PendingCommand) (l l' : Loop) → handle_ack acks ps l ≡ some l' → l'.waits ≡ l.waits
  unfolding handle_ack
  handle_ack-waits [] l l' h = absurd cc
  handle_ack-waits (p ∷ ps) l l' h =
      let q : complete_next p ps (acks p.ack) l ≡ l' = cc in
      ap (λ (x : Loop). x.waits) (sym q) ∙ (complete_next-waits p ps (acks p.ack) l).0

  module _ (start : Loop) where
    abbrev Sound : Loop → Type 0
    Sound l = IsSound acks start.books start.last_applied_seq start.id l

    -- After flushWAL has returned no error every pending command has been flushed.
    flush_pending-IsCovered :
        (answer : Option (List ℕ)) (l : Loop)
        → Sound l
        → IsCovered l
        → IsCovered (flush_pending acks answer l).1
    unfolding fail_pending
    flush_pending-IsCovered answer l s c = elim (flush_pending-cases acks answer l) [
      | inl (err, q) ↦
          same-IsCovered l (flush_pending acks answer l).1
            (ap (λ (r : Option Error × Loop). r.1.waits) q) c
      | inr (kept, q, f, w) ↦
          let owed = AreIn-append s.done s.waiting l.pending (
            Waits-AreIn l.pending s.waiting
              (waits acks start.books start.last_applied_seq start.id l s f)) in
          let flushed : kept ≡ channels (s.done ++ s.waiting) =
            w s.with_wal ∙ ap channels s.split in
          subst (λ (r : Option Error × Loop). IsCovered r.1) (sym q)
            (complete_all-IsCovered l.pending (record l { flushed = kept })
              (subst (λ (xs : List ℕ). AreIn xs l.pending) (sym flushed) owed) c)
    ]

    handle-IsCovered :
        (e : LoopEvent) (l l' : Loop)
        → handle acks e l ≡ some l'
        → Sound l
        → IsCovered l
        → IsCovered l'
    unfolding handle enqueue_command
    handle-IsCovered (received (routed_command cmd reply) w) l l' h s c =
        same-IsCovered l l'
          (enqueue_by-waits l.failed_err (l.books cmd.symbol) w.append cmd reply l l' h) c
    handle-IsCovered (received (routed_barrier done) w) l l' h s c =
        let q : answer_to done (flush_pending acks w.flush l) ≡ l' = cc in
        subst IsCovered q (flush_pending-IsCovered w.flush l s c)
    handle-IsCovered (received (routed_drain done) w) l l' h s c =
        let q : record (answer_to done (flush_pending acks w.flush l)) { is_draining = true } ≡ l' =
          cc in
        subst IsCovered q (flush_pending-IsCovered w.flush l s c)
    handle-IsCovered inbox_closed l l' h s c =
        let q : record l { is_open = false } ≡ l' = cc in subst IsCovered q c
    handle-IsCovered acked l l' h s c = same-IsCovered l l' (handle_ack-waits l.pending l l' h) c
    handle-IsCovered released l l' h s c =
        let q : record l { is_draining = false } ≡ l' = cc in subst IsCovered q c
    handle-IsCovered (finished answer) l l' h s c =
        let l0 = shut_down answer l.failed_err l.has_wal l in
        let q : record l0 { is_done = true } ≡ l' = cc in
        subst IsCovered q (same-IsCovered l l0 (shut_down-waits answer l.failed_err l.has_wal l) c)

    pub Run-IsOwed :
        (es : List LoopEvent) (l : Loop)
        → IsNew start
        → start.waits ≡ []
        → Run acks start es l
        → All IsOwed l.waits
    Run-IsOwed es l n w here = subst (λ (x : List (ℕ × List ℕ)). All IsOwed x) (sym w) tt
    Run-IsOwed es l n w (next {es = es'} {l = l0} e run on h) =
        handle-IsCovered e l0 l h (Run-Sound acks start es' l0 n run) (Run-IsOwed es' l0 n w run)
