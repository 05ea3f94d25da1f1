-- ===== src/Ingress/Sequencer/Requests.antt =====
-- Where the commands are that the queue of the sequencer took.
use matching_engine_go.Prelude.{
  ℕ, ◌+◌, ◌≡◌, refl, List, [], ◌∷◌, ◌++◌, if◌then◌else◌, Bool, true, false, Option, none, some,
  ◌==◌, inl, inr, arith, ap, sym, ◌∙◌, Bool-cases, add64, ltb,
}
use matching_engine_go.Model.{Command}
use matching_engine_go.Ingress.{
  Error, sequencer_closed, sequence_exhausted, backpressure, replied, failed, Routed,
  routed_command, routed_barrier, routed_drain,
}
use matching_engine_go.Shard.Loop.Replies.{one_if, sent_on, sent_on-append}
use matching_engine_go.Ingress.Sequencer.{
  Sequencer, Request, request_command, request_barrier, request_drain, request_shutdown,
  new_sequencer, has_room, enqueue, submit_blocking, submit_non_blocking, ask, mark_closed,
  number_command, unknown_symbol, route_command, to_all, first_err, serve,
}
use matching_engine_go.Ingress.Sequencer.Run.{
  Event, submitted, tried, asked_barrier, asked_drain, sent_shutdown, called_shutdown,
  expired_shutdown, released, served, serve_next, handle, Run, here, next,
}
use matching_engine_go.Ingress.Sequencer.Numbering.{IsControl, barriers-IsControl, drains-IsControl}

-- How often a command with a channel was sent to a shard, and stands in the queue.
abbrev pub routed_on : ℕ → List (ℕ × Routed) → ℕ
routed_on k [] = 0
routed_on k ((shard, routed_command cmd reply) ∷ log) = one_if (reply == k) + routed_on k log
routed_on k ((shard, routed_barrier done) ∷ log) = routed_on k log
routed_on k ((shard, routed_drain done) ∷ log) = routed_on k log

abbrev pub asked_by : ℕ → Request → ℕ
asked_by k (request_command cmd reply) = one_if (reply == k)
asked_by k (request_barrier result) = 0
asked_by k (request_drain result) = 0
asked_by k (request_shutdown done) = 0

abbrev pub queued_on : ℕ → List Request → ℕ
queued_on k [] = 0
queued_on k (req ∷ reqs) = asked_by k req + queued_on k reqs

-- How often a submission of a command with the channel returned no error.
abbrev pub unless_err : Option Error → ℕ → ℕ
unless_err none n = n
unless_err (some err) n = 0

abbrev pub taken_by : ℕ → Event → Sequencer → ℕ
taken_by k (submitted cmd reply) s =
    unless_err (submit_blocking cmd reply s).0 (one_if (reply == k))
taken_by k (tried cmd reply) s =
    unless_err (submit_non_blocking cmd reply s).0 (one_if (reply == k))
taken_by k _ s = 0

abbrev pub taken_on : {start s : Sequencer} {es : List Event} → ℕ → Run start es s → ℕ
taken_on k here = 0
taken_on k (next {s = s0} e run on h) = taken_by k e s0 + taken_on k run

abbrev found_on : ℕ → Sequencer → ℕ
found_on k s = sent_on k s.sent + routed_on k s.routed + queued_on k s.ingress_q

routed_on-append :
    (k : ℕ) (xs ys : List (ℕ × Routed)) → routed_on k (xs ++ ys) ≡ routed_on k xs + routed_on k ys
routed_on-append k [] ys = omega arith
routed_on-append k ((n, routed_command cmd reply) ∷ xs) ys = omega (arith, routed_on-append k xs ys)
routed_on-append k ((n, routed_barrier done) ∷ xs) ys = routed_on-append k xs ys
routed_on-append k ((n, routed_drain done) ∷ xs) ys = routed_on-append k xs ys

routed_on-IsControl : (k : ℕ) (log : List (ℕ × Routed)) → IsControl log → routed_on k log ≡ 0
routed_on-IsControl k [] c = refl
routed_on-IsControl k ((n, routed_command cmd reply) ∷ log) c = absurd c
routed_on-IsControl k ((n, routed_barrier done) ∷ log) c = routed_on-IsControl k log c
routed_on-IsControl k ((n, routed_drain done) ∷ log) c = routed_on-IsControl k log c

queued_on-append :
    (k : ℕ) (xs ys : List Request) → queued_on k (xs ++ ys) ≡ queued_on k xs + queued_on k ys
queued_on-append k [] ys = omega arith
queued_on-append k (req ∷ xs) ys = omega (arith, queued_on-append k xs ys)

module _ (k : ℕ) where
  found_on-number_command :
      (shard : ℕ) (cmd : Command) (reply : ℕ) (s s' : Sequencer)
      → number_command shard cmd reply s ≡ some s'
      → found_on k s' ≡ one_if (reply == k) + found_on k s
  unfolding number_command
  found_on-number_command shard cmd reply s s' h = elim (Bool-cases (s.next_seq == 0)) [
    | inl z ↦
        let f = rw z at h in
        let g : record s { sent = s.sent ++ (reply, failed sequence_exhausted) ∷ [] } ≡ s' = cc in
        ap (found_on k) (sym g)
        ∙ omega (arith, sent_on-append k s.sent ((reply, failed sequence_exhausted) ∷ []))
    | inr z ↦ elim (Bool-cases (ltb shard s.shard_count)) [
      | inr t ↦ let f = rw t at (rw z at h) in absurd cc
      | inl t ↦
          let f = rw t at (rw z at h) in
          let message : ℕ × Routed =
            (shard, routed_command (record cmd { seq = s.next_seq }) reply) in
          let g : record s { next_seq = add64 s.next_seq 1; routed = s.routed ++ message ∷ [] }
              ≡ s' =
            cc in
          ap (found_on k) (sym g) ∙ omega (arith, routed_on-append k s.routed (message ∷ []))
    ]
  ]

  found_on-route_command :
      (found : Option ℕ) (cmd : Command) (reply : ℕ) (s s' : Sequencer)
      → route_command found cmd reply s ≡ some s'
      → found_on k s' ≡ one_if (reply == k) + found_on k s
  unfolding route_command
  found_on-route_command none cmd reply s s' h =
      let g : record s {
        rejected = s.rejected + 1;
        sent = s.sent ++ (reply, replied (unknown_symbol cmd)) ∷ [];
      }
          ≡ s' =
        cc in
      ap (found_on k) (sym g)
      ∙ omega (arith, sent_on-append k s.sent ((reply, replied (unknown_symbol cmd)) ∷ []))
  found_on-route_command (some shard) cmd reply s s' h =
      found_on-number_command shard cmd reply s s' h

  -- A request that is served.
  found_on-serve :
      (answers : ℕ → Option Error) (req : Request) (s s' : Sequencer)
      → serve answers req s ≡ some s'
      → found_on k s' ≡ asked_by k req + found_on k s
  unfolding serve
  found_on-serve answers (request_command cmd reply) s s' h =
      found_on-route_command (s.router cmd.symbol) cmd reply s s' h
  found_on-serve answers (request_barrier result) s s' h =
      let sent = to_all routed_barrier 0 s.shard_count in
      let g : record s {
        routed = s.routed ++ sent;
        results = s.results ++ (result, first_err answers 0 s.shard_count) ∷ [];
      }
          ≡ s' =
        cc in
      ap (found_on k) (sym g)
      ∙ omega (
        arith,
        routed_on-append k s.routed sent,
        routed_on-IsControl k sent (barriers-IsControl 0 s.shard_count),
      )
  found_on-serve answers (request_drain result) s s' h =
      let sent = to_all routed_drain 0 s.shard_count in
      let g : record s {
        routed = s.routed ++ sent;
        results = s.results ++ (result, first_err answers 0 s.shard_count) ∷ [];
        is_draining = true;
      }
          ≡ s' =
        cc in
      ap (found_on k) (sym g)
      ∙ omega (
        arith,
        routed_on-append k s.routed sent,
        routed_on-IsControl k sent (drains-IsControl 0 s.shard_count),
      )
  found_on-serve answers (request_shutdown done) s s' h =
      let g : record s { is_done = true } ≡ s' = cc in ap (found_on k) (sym g) ∙ omega arith

  found_on-serve_next :
      (answers : ℕ → Option Error) (reqs : List Request) (s s' : Sequencer)
      → s.ingress_q ≡ reqs
      → serve_next answers reqs s ≡ some s'
      → found_on k s' ≡ found_on k s
  unfolding serve_next
  found_on-serve_next answers [] s s' q h = absurd cc
  found_on-serve_next answers (req ∷ reqs) s s' q h =
      omega
        (arith, found_on-serve answers req (record s { ingress_q = reqs }) s' h, ap (queued_on k) q)

  found_on-enqueue :
      (req : Request) (s : Sequencer) → found_on k (enqueue req s) ≡ asked_by k req + found_on k s
  found_on-enqueue req s = omega (arith, queued_on-append k s.ingress_q (req ∷ []))

  -- What a caller of the queue gets.
  abbrev Takes : ℕ → Sequencer → Option Error × Sequencer → Type 0
  Takes n s r = found_on k r.1 ≡ unless_err r.0 n + found_on k s

  closed-Takes :
      (closed : Bool) (req : Request) (s : Sequencer)
      → Takes
          (asked_by k req)
          s
          (if closed then (some sequencer_closed, s) else (none, enqueue req s))
  closed-Takes true req s = omega arith
  closed-Takes false req s = found_on-enqueue req s

  ask-Takes : (req : Request) (s : Sequencer) → Takes (asked_by k req) s (ask req s)
  unfolding ask
  ask-Takes req s = closed-Takes s.closed req s

  submit_blocking-Takes :
      (cmd : Command) (reply : ℕ) (s : Sequencer)
      → Takes (one_if (reply == k)) s (submit_blocking cmd reply s)
  unfolding submit_blocking
  submit_blocking-Takes cmd reply s = closed-Takes s.closed (request_command cmd reply) s

  submit_non_blocking-Takes :
      (cmd : Command) (reply : ℕ) (s : Sequencer)
      → Takes (one_if (reply == k)) s (submit_non_blocking cmd reply s)
  unfolding submit_non_blocking
  submit_non_blocking-Takes cmd reply s = go s.closed (has_room s)
    where
      go :
          (closed room : Bool)
          → Takes (one_if (reply == k)) s (
              if closed
              then (some sequencer_closed, s)
              else if room
              then (none, enqueue (request_command cmd reply) s)
              else (some backpressure, record s { backpressured = s.backpressured + 1 }))
      go true room = omega arith
      go false true = found_on-enqueue (request_command cmd reply) s
      go false false = omega arith

  nothing : (s : Sequencer) → found_on k s ≡ 0 + found_on k s
  nothing s = omega arith

  abbrev Keeps : Sequencer → Sequencer × Bool → Type 0
  Keeps s r = found_on k r.0 ≡ 0 + found_on k s

  marked-Keeps :
      (closed : Bool) (s : Sequencer)
      → Keeps s
          (if closed then (s, false) else (record s { closed = true; is_closing = true }, true))
  marked-Keeps true s = nothing s
  marked-Keeps false s = nothing s

  found_on-Takes :
      (r : Option Error × Sequencer) (s : Sequencer)
      → Takes 0 s r
      → found_on k r.1 ≡ 0 + found_on k s
  found_on-Takes (none, s') s t = t
  found_on-Takes (some err, s') s t = t

  found_on-handle :
      (e : Event) (s s' : Sequencer)
      → handle e s ≡ some s'
      → found_on k s' ≡ taken_by k e s + found_on k s
  unfolding handle mark_closed
  found_on-handle (submitted cmd reply) s s' h =
      let g : (submit_blocking cmd reply s).1 ≡ s' = cc in
      ap (found_on k) (sym g) ∙ submit_blocking-Takes cmd reply s
  found_on-handle (tried cmd reply) s s' h =
      let g : (submit_non_blocking cmd reply s).1 ≡ s' = cc in
      ap (found_on k) (sym g) ∙ submit_non_blocking-Takes cmd reply s
  found_on-handle (asked_barrier result) s s' h =
      let r = ask (request_barrier result) s in
      let g : r.1 ≡ s' = cc in
      ap (found_on k) (sym g) ∙ found_on-Takes r s (ask-Takes (request_barrier result) s)
  found_on-handle (asked_drain result) s s' h =
      let r = ask (request_drain result) s in
      let g : r.1 ≡ s' = cc in
      ap (found_on k) (sym g) ∙ found_on-Takes r s (ask-Takes (request_drain result) s)
  found_on-handle called_shutdown s s' h =
      let g : (mark_closed s).0 ≡ s' = cc in ap (found_on k) (sym g) ∙ marked-Keeps s.closed s
  found_on-handle (sent_shutdown done) s s' h =
      let s1 = record s { is_closing = false } in
      let g : enqueue (request_shutdown done) s1 ≡ s' = cc in
      ap (found_on k) (sym g) ∙ found_on-enqueue (request_shutdown done) s1
  found_on-handle expired_shutdown s s' h =
      let g : record s { is_closing = false } ≡ s' = cc in ap (found_on k) (sym g) ∙ nothing s
  found_on-handle released s s' h =
      let g : record s { is_draining = false } ≡ s' = cc in ap (found_on k) (sym g) ∙ nothing s
  found_on-handle (served answers) s s' h =
      found_on-serve_next answers s.ingress_q s s' refl h ∙ nothing s

-- No submission is lost or doubled: at any moment, for each channel, as often as a call of SubmitBlocking or
-- SubmitNonBlocking returned no error for it, a command with it stands in the queue, was sent to a shard, or
-- was answered on it by the sequencer, whatever the shards answer and also when the sequence is exhausted or
-- a call of Shutdown closed the sequencer.
pub Run-found_on :
    (queue_size first shard_count : ℕ) (router : List ℕ → Option ℕ) (es : List Event)
    (s : Sequencer) (k : ℕ) (run : Run (new_sequencer queue_size first shard_count router) es s)
    → sent_on k s.sent + routed_on k s.routed + queued_on k s.ingress_q ≡ taken_on k run
unfolding new_sequencer
Run-found_on queue_size first shard_count router es s k run = go es s run
  where
    go :
        (es : List Event) (s : Sequencer)
        (run : Run (new_sequencer queue_size first shard_count router) es s)
        → found_on k s ≡ taken_on k run
    go es s here = refl
    go es s (next {es = es'} {s = s0} e run on h) =
        omega (arith, found_on-handle k e s0 s h, go es' s0 run)
