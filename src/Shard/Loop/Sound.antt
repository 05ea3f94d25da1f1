-- ===== src/Shard/Loop/Sound.antt =====
-- What holds of the loop of a shard with a journal between two events: which of the appended records are
-- acknowledged, that a success is only replied for those, and that the books are those that the appended
-- commands lead to.
use matching_engine_go.Prelude.{
  ℕ, ◌%◌, ◌^◌, ◌≡◌, refl, List, [], ◌∷◌, ◌++◌, true, Option, none, some, ◌⊎◌, inl, inr, map, All,
  All-append, ap,
}
use mathlib.Core.Path.{subst}
use matching_engine_go.Model.{Command, Result}
use matching_engine_go.Ingress.{Error, Outcome, replied, failed}
use matching_engine_go.Journal.Codec.{Record}
use matching_engine_go.Recovery.{Books, run_commands}
use matching_engine_go.Shard.Loop.{PendingCommand, Loop, refuse, unknown_symbol, fail_pending}

-- Records with the channels of their acks.
abbrev pub Logged : Type 0
Logged = List (ℕ × Record)

abbrev pub commands_of : Logged → List Command
commands_of [] = []
commands_of ((ack, rec) ∷ log) = rec.command ∷ commands_of log

abbrev pub records_of : Logged → List Record
records_of [] = []
records_of ((ack, rec) ∷ log) = rec ∷ records_of log

abbrev pub last_seq : ℕ → Logged → ℕ
last_seq n [] = n
last_seq n ((ack, rec) ∷ log) = last_seq rec.command_seq log

-- The pending commands are those of some records, in their order.
abbrev pub Waits : List PendingCommand → Logged → Type 0
Waits [] [] = Unit {0}
Waits [] (a ∷ log) = ⊥
Waits (p ∷ ps) [] = ⊥
Waits (p ∷ ps) ((ack, rec) ∷ log) =
    (p.ack ≡ ack) × (p.sequence ≡ rec.command_seq) × (p.result ≡ rec.result) × Waits ps log

-- Nothing is pending in a loop that failed.
abbrev pub Matches : Option Error → List PendingCommand → Logged → Type 0
Matches none ps log = Waits ps log
Matches (some e) ps log = ps ≡ []

-- Some record has the result.
abbrev pub Holds : Result → Logged → Type 0
Holds r [] = ⊥
Holds r ((ack, rec) ∷ log) = (rec.result ≡ r) ⊎ Holds r log

-- A result that was sent is that of a record, or rejects a symbol that the shard does not know.
abbrev pub IsBacked : Logged → ℕ × Outcome → Type 0
IsBacked log (reply, failed e) = Unit {0}
IsBacked log (reply, replied r) = ((cmd : Command) × (r ≡ unknown_symbol cmd)) ⊎ Holds r log

pub commands_of-append :
    (xs ys : Logged) → commands_of (xs ++ ys) ≡ commands_of xs ++ commands_of ys
commands_of-append [] ys = refl
commands_of-append ((ack, rec) ∷ xs) ys = ap (λ cs. rec.command ∷ cs) (commands_of-append xs ys)

pub records_of-append : (xs ys : Logged) → records_of (xs ++ ys) ≡ records_of xs ++ records_of ys
records_of-append [] ys = refl
records_of-append ((ack, rec) ∷ xs) ys = ap (λ rs. rec ∷ rs) (records_of-append xs ys)

pub last_seq-append :
    (n ack : ℕ) (rec : Record) (xs : Logged) → last_seq n (xs ++ (ack, rec) ∷ []) ≡ rec.command_seq
last_seq-append n ack rec [] = refl
last_seq-append n ack rec ((b, first) ∷ xs) = last_seq-append first.command_seq ack rec xs

pub Waits-append :
    (p : PendingCommand) (rec : Record) (ps : List PendingCommand) (log : Logged)
    → p.sequence ≡ rec.command_seq
    → p.result ≡ rec.result
    → Waits ps log
    → Waits (ps ++ p ∷ []) (log ++ (p.ack, rec) ∷ [])
Waits-append p rec [] [] s r w = (refl, s, r, tt)
Waits-append p rec [] (a ∷ log) s r w = absurd w
Waits-append p rec (q ∷ ps) [] s r w = absurd w
Waits-append p rec (q ∷ ps) ((ack, old) ∷ log) s r w =
    (w.0, w.1, w.2, Waits-append p rec ps log s r w.3)

Holds-append : (r : Result) (xs ys : Logged) → Holds r xs → Holds r (xs ++ ys)
Holds-append r [] ys h = absurd h
Holds-append r ((ack, rec) ∷ xs) ys (inl e) = inl e
Holds-append r ((ack, rec) ∷ xs) ys (inr h) = inr (Holds-append r xs ys h)

pub Holds-last : (xs : Logged) (ack : ℕ) (rec : Record) → Holds rec.result (xs ++ (ack, rec) ∷ [])
Holds-last [] ack rec = inl refl
Holds-last ((b, first) ∷ xs) ack rec = inr (Holds-last xs ack rec)

pub IsBacked-append :
    (xs ys : Logged) (sent : List (ℕ × Outcome))
    → All (IsBacked xs) sent
    → All (IsBacked (xs ++ ys)) sent
IsBacked-append xs ys [] b = tt
IsBacked-append xs ys ((reply, failed e) ∷ sent) (b, bs) = (tt, IsBacked-append xs ys sent bs)
IsBacked-append xs ys ((reply, replied r) ∷ sent) (inl u, bs) =
    (inl u, IsBacked-append xs ys sent bs)
IsBacked-append xs ys ((reply, replied r) ∷ sent) (inr h, bs) =
    (inr (Holds-append r xs ys h), IsBacked-append xs ys sent bs)

pub IsBacked-refuse :
    (log : Logged) (err : Error) (ps : List PendingCommand)
    → All (IsBacked log) (map (refuse err) ps)
IsBacked-refuse log err [] = tt
IsBacked-refuse log err (p ∷ ps) = (tt, IsBacked-refuse log err ps)

module _ (acks : ℕ → Option (List ℕ)) (start : Books) (first_seq shard : ℕ) where
  pub record IsSound (l : Loop) : Type 0 where
    pub done : Logged
    pub waiting : Logged
    pub split : l.appended ≡ done ++ waiting
    pub acked : All (λ (a : ℕ × Record). acks a.0 ≡ none) done
    pub watermark : l.last_applied_seq ≡ last_seq first_seq done
    pub matched : Matches l.failed_err l.pending waiting
    pub backed : All (IsBacked done) l.sent
    pub ran :
        l.failed_err ≡ none
        → run_commands (shard % 2 ^ 16) (commands_of l.appended) start
          ≡ some (l.books, records_of l.appended)
    pub with_wal : l.has_wal ≡ true
    pub same_id : l.id ≡ shard
    pub drained : l.is_draining ≡ true → l.pending ≡ []

  -- The fields that only record what was flushed and waited for.
  pub waited-IsSound :
      (flushed : List ℕ) (waits : List (ℕ × List ℕ)) (l : Loop)
      → IsSound l
      → IsSound (record l { flushed = flushed; waits = waits })
  waited-IsSound flushed waits l s = record {
    done = s.done;
    waiting = s.waiting;
    split = s.split;
    acked = s.acked;
    watermark = s.watermark;
    matched = s.matched;
    backed = s.backed;
    ran = s.ran;
    with_wal = s.with_wal;
    same_id = s.same_id;
    drained = s.drained;
  }

  -- Failing the pending commands, also where the last command changed the books.
  pub fail_pending-IsSound :
      (err : Error) (books : Books) (l : Loop)
      → IsSound l
      → IsSound (fail_pending err (record l { books = books }))
  unfolding fail_pending
  fail_pending-IsSound err books l s = record {
    done = s.done;
    waiting = s.waiting;
    split = s.split;
    acked = s.acked;
    watermark = s.watermark;
    matched = refl;
    backed =
        All-append (IsBacked s.done) l.sent (map (refuse err) l.pending) s.backed
          (IsBacked-refuse s.done err l.pending);
    ran = λ f. absurd cc;
    with_wal = s.with_wal;
    same_id = s.same_id;
    drained = λ d. refl;
  }

  pub waits : (l : Loop) (s : IsSound l) → l.failed_err ≡ none → Waits l.pending s.waiting
  waits l s f = subst (λ (e : Option Error). Matches e l.pending s.waiting) f s.matched
