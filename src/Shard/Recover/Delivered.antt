-- ===== src/Shard/Recover/Delivered.antt =====
-- The sequencer of internal/ingress/sequencer.go, the loop of a shard and the recovery together: what the
-- loop appends of the commands that the sequencer numbered.
use matching_engine_go.Prelude.{
  ℕ, ◌≤◌, ◌<◌, ◌^◌, ◌≡◌, ◌+◌, refl, List, [], ◌∷◌, ◌++◌, Bool, true, false, Option, none, some, ◌⊎◌,
  inl, inr, arith, ap, sym, ◌∙◌,
}
use mathlib.Core.List.{append_assoc, append-nil}
use mathlib.Core.Path.{subst}
use matching_engine_go.Model.{Command, Result}
use matching_engine_go.Ingress.{
  Error, replied, failed, routed_command, routed_barrier, routed_drain,
}
use matching_engine_go.Ingress.Sequencer.{Sequencer, new_sequencer}
use matching_engine_go.Ingress.Sequencer.Run as Moves
use matching_engine_go.Ingress.Sequencer.Numbering.{commands_to}
use matching_engine_go.Ingress.Sequencer.Order.{Run-new_sequencer}
use matching_engine_go.Book.State.{Book}
use matching_engine_go.Recovery.{IsRising, last_number, put_book}
use matching_engine_go.Shard.Loop.{
  wait_for, PendingCommand, Loop, complete_next, complete_all, complete_command, fail_pending, send,
  unknown_symbol, append_record, persist, enqueue_by, flush_pending,
}
use matching_engine_go.Shard.Loop.Steps.{
  complete_all-cases, flush_pending-cases, apply_command-some,
}
use matching_engine_go.Shard.Loop.Run.{
  LoopEvent, received, inbox_closed, acked, released, finished, handle, handle_ack, shut_down,
  answer_to, Run, here, next,
}
use matching_engine_go.Shard.Loop.Sound.{Logged, commands_of, records_of, commands_of-append}
use matching_engine_go.Shard.Loop.Durable.{IsNew}
use matching_engine_go.Shard.Recover.{recover_records}
use matching_engine_go.Shard.Recover.Replay.{recover_records-Run}

-- The commands that an event brings, and those of a run, in their order.
abbrev pub command_at : LoopEvent → List Command
command_at (received (routed_command cmd reply) w) = cmd ∷ []
command_at _ = []

abbrev pub commands_in : List LoopEvent → List Command
commands_in [] = []
commands_in (e ∷ es) = commands_in es ++ command_at e

IsRising-below : (m n : ℕ) (cs : List Command) → m ≤ n → IsRising n cs → IsRising m cs
IsRising-below m n [] l r = tt
IsRising-below m n (c ∷ cs) l (b, r) = (omega (arith, l, b), r)

IsRising-drop :
    (n : ℕ) (xs : List Command) (y : Command) (later : List Command)
    → IsRising n (xs ++ y ∷ later)
    → IsRising n (xs ++ later)
IsRising-drop n [] y later (b, r) = IsRising-below n y.seq later (omega (arith, b)) r
IsRising-drop n (x ∷ xs) y later (b, r) = (b, IsRising-drop x.seq xs y later r)

IsRising-prefix : (n : ℕ) (xs later : List Command) → IsRising n (xs ++ later) → IsRising n xs
IsRising-prefix n [] later r = tt
IsRising-prefix n (x ∷ xs) later (b, r) = (b, IsRising-prefix x.seq xs later r)

-- Commands that rise wherever some others do.
abbrev RisesWith : List Command → List Command → Type 0
RisesWith xs ys =
    (n : ℕ) (later : List Command) → IsRising n (ys ++ later) → IsRising n (xs ++ later)

RisesWith-skip : (xs ys zs : List Command) → RisesWith xs ys → RisesWith xs (ys ++ zs)
RisesWith-skip xs ys [] r = subst (RisesWith xs) (sym (append-nil ys)) r
RisesWith-skip xs ys (z ∷ zs) r = subst (RisesWith xs) (append_assoc ys (z ∷ []) zs) (
    RisesWith-skip xs (ys ++ z ∷ []) zs (λ n later h.
      IsRising-drop n xs z later
        (r n (z ∷ later) (subst (IsRising n) (append_assoc ys (z ∷ []) later) h))))

RisesWith-keep :
    (xs ys : List Command) (z : Command) → RisesWith xs ys → RisesWith (xs ++ z ∷ []) (ys ++ z ∷ [])
RisesWith-keep xs ys z r n later h =
    subst (IsRising n) (sym (append_assoc xs (z ∷ []) later))
      (r n (z ∷ later) (subst (IsRising n) (append_assoc ys (z ∷ []) later) h))

complete_next-appended :
    (command : PendingCommand) (others : List PendingCommand) (answer : Option (List ℕ)) (l : Loop)
    → (complete_next command others answer l).appended ≡ l.appended
unfolding complete_next complete_command fail_pending
complete_next-appended command others none l = refl
complete_next-appended command others (some e) l = refl

complete_all-appended :
    (acks : ℕ → Option (List ℕ)) (ps : List PendingCommand) (l : Loop)
    → (complete_all acks ps l).appended ≡ l.appended
unfolding complete_all
complete_all-appended acks [] l = refl
complete_all-appended acks (p ∷ ps) l = elim (complete_all-cases acks p ps l) [
  | inl (e, q) ↦
      ap (λ (x : Loop). x.appended) e ∙ complete_next-appended p ps (acks p.ack) (wait_for p.ack l)
  | inr (e, q, a) ↦
      ap (λ (x : Loop). x.appended) e
      ∙ complete_all-appended acks ps (complete_next p ps (acks p.ack) (wait_for p.ack l))
      ∙ complete_next-appended p ps (acks p.ack) (wait_for p.ack l)
]

flush_pending-appended :
    (acks : ℕ → Option (List ℕ)) (answer : Option (List ℕ)) (l : Loop)
    → (flush_pending acks answer l).1.appended ≡ l.appended
unfolding fail_pending
flush_pending-appended acks answer l = elim (flush_pending-cases acks answer l) [
  | inl (err, q) ↦ ap (λ (r : Option Error × Loop). r.1.appended) q
  | inr (kept, q, f, w) ↦
      ap (λ (r : Option Error × Loop). r.1.appended) q
      ∙ complete_all-appended acks l.pending (record l { flushed = kept })
]

-- What one command adds.
abbrev Adds : Command → Loop → Loop → Type 0
Adds cmd l l' =
    (commands_of l'.appended ≡ commands_of l.appended)
    ⊎ (commands_of l'.appended ≡ commands_of l.appended ++ cmd ∷ [])

persist-Adds :
    (has_wal : Bool) (answer : List ℕ ⊎ ℕ) (cmd : Command) (result : Result) (reply : ℕ) (l : Loop)
    → Adds cmd l (persist has_wal answer cmd result reply l)
unfolding persist complete_command append_record fail_pending
persist-Adds false answer cmd result reply l = inl refl
persist-Adds true (inl e) cmd result reply l = inl refl
persist-Adds true (inr ack) cmd result reply l = inr (commands_of-append l.appended _)

enqueue_by-Adds :
    (e : Option Error) (found : Option Book) (answer : List ℕ ⊎ ℕ) (cmd : Command) (reply : ℕ)
    (l l' : Loop)
    → enqueue_by e found answer cmd reply l ≡ some l'
    → Adds cmd l l'
unfolding enqueue_by
enqueue_by-Adds (some e) found answer cmd reply l l' h =
    let q : send reply (failed e) l ≡ l' = cc in
    inl (ap (λ (x : Loop). commands_of x.appended) (sym q))
enqueue_by-Adds none none answer cmd reply l l' h =
    let q : send reply (replied (unknown_symbol cmd)) (record l { rejected = l.rejected + 1 })
        ≡ l' =
      cc in
    inl (ap (λ (x : Loop). commands_of x.appended) (sym q))
enqueue_by-Adds none (some b) answer cmd reply l l' h =
    let (b', result, a, q) = apply_command-some answer cmd reply l l' b h in
    subst (Adds cmd l) (sym q) (
      persist-Adds l.has_wal answer cmd result reply
        (record l { books = put_book l.books cmd.symbol b' }))

handle_ack-appended :
    (acks : ℕ → Option (List ℕ)) (ps : List PendingCommand) (l l' : Loop)
    → handle_ack acks ps l ≡ some l'
    → l'.appended ≡ l.appended
unfolding handle_ack
handle_ack-appended acks [] l l' h = absurd cc
handle_ack-appended acks (p ∷ ps) l l' h =
    let q : complete_next p ps (acks p.ack) l ≡ l' = cc in
    ap (λ (x : Loop). x.appended) (sym q) ∙ complete_next-appended p ps (acks p.ack) l

shut_down-appended :
    (answer : Option (List ℕ)) (e : Option Error) (has_wal : Bool) (l : Loop)
    → (shut_down answer e has_wal l).appended ≡ l.appended
unfolding shut_down
shut_down-appended (some x) none true l = refl
shut_down-appended (some x) none false l = refl
shut_down-appended (some x) (some y) has_wal l = refl
shut_down-appended none e has_wal l = refl

kept :
    (cs : List Command) (l l' : Loop)
    → l'.appended ≡ l.appended
    → RisesWith (commands_of l.appended) cs
    → RisesWith (commands_of l'.appended) (cs ++ [])
kept cs l l' q r =
    subst (λ (xs : Logged). RisesWith (commands_of xs) (cs ++ [])) (sym q)
      (RisesWith-skip (commands_of l.appended) cs [] r)

handle-RisesWith :
    (acks : ℕ → Option (List ℕ)) (e : LoopEvent) (l l' : Loop) (cs : List Command)
    → handle acks e l ≡ some l'
    → RisesWith (commands_of l.appended) cs
    → RisesWith (commands_of l'.appended) (cs ++ command_at e)
unfolding handle
handle-RisesWith acks (received (routed_command cmd reply) w) l l' cs h r =
    elim (enqueue_by-Adds l.failed_err (l.books cmd.symbol) w.append cmd reply l l' h) [
      | inl q ↦
          subst (λ (xs : List Command). RisesWith xs (cs ++ cmd ∷ [])) (sym q)
            (RisesWith-skip (commands_of l.appended) cs (cmd ∷ []) r)
      | inr q ↦
          subst (λ (xs : List Command). RisesWith xs (cs ++ cmd ∷ [])) (sym q)
            (RisesWith-keep (commands_of l.appended) cs cmd r)
    ]
handle-RisesWith acks (received (routed_barrier done) w) l l' cs h r =
    let q : answer_to done (flush_pending acks w.flush l) ≡ l' = cc in
    kept cs l l' (ap (λ (x : Loop). x.appended) (sym q) ∙ flush_pending-appended acks w.flush l) r
handle-RisesWith acks (received (routed_drain done) w) l l' cs h r =
    let q : record (answer_to done (flush_pending acks w.flush l)) { is_draining = true } ≡ l' =
      cc in
    kept cs l l' (ap (λ (x : Loop). x.appended) (sym q) ∙ flush_pending-appended acks w.flush l) r
handle-RisesWith acks inbox_closed l l' cs h r =
    let q : record l { is_open = false } ≡ l' = cc in
    kept cs l l' (ap (λ (x : Loop). x.appended) (sym q)) r
handle-RisesWith acks acked l l' cs h r = kept cs l l' (handle_ack-appended acks l.pending l l' h) r
handle-RisesWith acks released l l' cs h r =
    let q : record l { is_draining = false } ≡ l' = cc in
    kept cs l l' (ap (λ (x : Loop). x.appended) (sym q)) r
handle-RisesWith acks (finished answer) l l' cs h r =
    let q : record (shut_down answer l.failed_err l.has_wal l) { is_done = true } ≡ l' = cc in
    kept cs l l'
      (ap (λ (x : Loop). x.appended) (sym q) ∙ shut_down-appended answer l.failed_err l.has_wal l) r

Run-RisesWith :
    (acks : ℕ → Option (List ℕ)) (start : Loop) (es : List LoopEvent) (l : Loop)
    → start.appended ≡ []
    → Run acks start es l
    → RisesWith (commands_of l.appended) (commands_in es)
Run-RisesWith acks start _ _ a here =
    subst (λ (xs : Logged). RisesWith (commands_of xs) []) (sym a) (λ n later h. h)
Run-RisesWith acks start _ _ a (next {es} {l} {l'} e run on h) =
    handle-RisesWith acks e l l' (commands_in es) h (Run-RisesWith acks start es l a run)

-- The whole way of a command: where a sequencer starts behind the watermark of a shard, and the inbox of a
-- new loop of the shard has delivered, in their order, the first of the commands that the sequencer sent
-- there, then at any moment at which the loop has not failed, recoverBooks on the records that it appended
-- and the books with which it started gives its books and the number of the last record.
pub recover_records-new_sequencer :
    (queue_size first shard_count : ℕ) (router : List ℕ → Option ℕ) (moves : List Moves.Event)
    (s : Sequencer) (acks : ℕ → Option (List ℕ)) (start : Loop) (es : List LoopEvent) (l : Loop)
    (later : List Command)
    → 0 < first
    → first < 2 ^ 64
    → Moves.Run (new_sequencer queue_size first shard_count router) moves s
    → IsNew start
    → start.last_applied_seq < first
    → Run acks start es l
    → commands_to start.id s.routed ≡ commands_in es ++ later
    → l.failed_err ≡ none
    → recover_records start.id
        (records_of l.appended)
        start.books
        start.last_applied_seq
        start.last_applied_seq
      ≡ some (inr (l.books, last_number start.last_applied_seq (commands_of l.appended)))
recover_records-new_sequencer queue_size first shard_count router moves s acks start es l later p f
      moved n below run delivered ok =
    let (numbered, placed, rising, bounded, used) =
      Run-new_sequencer queue_size first shard_count router moves s p f moved in
    recover_records-Run acks start es l n run ok (
      IsRising-prefix start.last_applied_seq (commands_of l.appended) later (
        Run-RisesWith acks start es l n.none_appended run start.last_applied_seq later (
          subst (IsRising start.last_applied_seq) delivered
            (rising start.id start.last_applied_seq below))))
