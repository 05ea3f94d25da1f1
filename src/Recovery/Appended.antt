-- ===== src/Recovery/Appended.antt =====
-- One more command behind those that run_commands applied.
use matching_engine_go.Prelude.{ℕ, ◌≡◌, List, [], ◌∷◌, ◌++◌, some, inl, inr, Option-cases, ap}
use matching_engine_go.Model.{Command, Result}
use matching_engine_go.Book.State.{Book}
use matching_engine_go.Book.Handlers
use matching_engine_go.Journal.Codec.{Record}
use matching_engine_go.Recovery.{Books, put_book, run_commands}

module _ (shard_id : ℕ) (c : Command) (k k' : Book) (result : Result) where
  abbrev last_record : Record
  last_record = record { shard_id = shard_id; command_seq = c.seq; command = c; result = result }

  pub run_commands-append :
      (cs : List Command) (start books : Books) (records : List Record)
      → run_commands shard_id cs start ≡ some (books, records)
      → books c.symbol ≡ some k
      → Handlers.apply k c ≡ some (k', result)
      → run_commands shard_id (cs ++ c ∷ []) start
        ≡ some (put_book books c.symbol k', records ++ last_record ∷ [])
  unfolding run_commands
  run_commands-append [] start books records e f h =
      let q : ◌≡◌ {A = Books × List Record} (start, []) (books, records) = cc in
      let f' : start c.symbol ≡ some k = cc in
      rw (f', run_commands)
        (rw h (
          ap (λ (x : Books × List Record). some (put_book x.0 c.symbol k', x.1 ++ last_record ∷ []))
            q))
  run_commands-append (d ∷ ds) start books records e f h = elim (Option-cases (start d.symbol)) [
    | inl a ↦ let g = rw (a, run_commands) at e in absurd cc
    | inr (b, a) ↦ elim (Option-cases (Handlers.apply b d)) [
      | inl m ↦ let g = rw m at (rw (a, run_commands) at e) in absurd cc
      | inr ((b', r), m) ↦
          elim (Option-cases (run_commands shard_id ds (put_book start d.symbol b'))) [
            | inl n ↦ let g = rw n at (rw m at (rw (a, run_commands) at e)) in absurd cc
            | inr ((books', more), n) ↦
                let g = rw n at (rw m at (rw (a, run_commands) at e)) in
                let first : Record = record {
                  shard_id = shard_id;
                  command_seq = d.seq;
                  command = d;
                  result = r;
                } in
                let same : ◌≡◌ {A = Books × List Record} (books', first ∷ more) (books, records) =
                  cc in
                let f' : books' c.symbol ≡ some k = cc in
                let ih = run_commands-append ds (put_book start d.symbol b') books' more n f' h in
                rw (a, run_commands)
                  (rw m (
                    rw ih (
                      ap
                        (λ (x : Books × List Record).
                          some (put_book x.0 c.symbol k', x.1 ++ last_record ∷ []))
                        same)))
          ]
    ]
  ]
