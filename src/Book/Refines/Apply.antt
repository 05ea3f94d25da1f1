-- ===== src/Book/Refines/Apply.antt =====
-- Book.Apply on the book of a snapshot.
use matching_engine_go.Prelude.{
  ◌≡◌, inl, inr, refl, true, none, some, ◌==◌, Bool-cases, Option-cases, eq_bytes,
}
use matching_engine_go.Model.{
  Result, Command, IsCommand, validate, command_new, command_cancel, command_replace,
}
use matching_engine_go.Model.Validation.{
  validate-command_new, validate-command_replace, validate-type,
}
use matching_engine_go.Book.State.{Snapshot}
use matching_engine_go.Book.Handlers
use matching_engine_go.Book.Handlers.{handle_new, handle_cancel, handle_replace, apply_events}
use matching_engine_go.Book.View.{represent, IsValid}
use matching_engine_go.Book.Refines.New.{
  IsNew, handle_new-represent, handle_cancel-represent, apply_new-IsValid, apply_cancel-IsValid,
}
use matching_engine_go.Book.Refines.Replace.{
  IsReplace, handle_replace-represent, apply_replace-IsValid,
}
use matching_engine_go.Book.Spec.Apply

validated-IsNew :
    (c : Command) → IsCommand c → validate c ≡ none → (c.type == command_new) ≡ true → IsNew c
validated-IsNew c w h t =
    let (s, q, r, p) = validate-command_new c w h t in
    record { side_valid = s; quantity_positive = q; quantity_fits = r; price_valid = p }

validated-IsReplace :
    (c : Command)
    → IsCommand c
    → validate c ≡ none
    → (c.type == command_replace) ≡ true
    → IsReplace c
validated-IsReplace c w h t =
    let (p, q, r) = validate-command_replace c w h t in
    record { leaves_positive = p; leaves_fit = q; price_fits = r }

module _ (s : Snapshot) (c : Command) (v : IsValid s) (w : IsCommand c)
    (h : validate c ≡ none) where
  dispatch-represent :
      Handlers.dispatch (represent s) c
      ≡ some (represent (Apply.dispatch s c).0, (Apply.dispatch s c).1)
  unfolding Handlers.dispatch Apply.dispatch
  dispatch-represent = elim (Bool-cases (c.type == command_new)) [
    | inl n ↦ rw n (handle_new-represent s c v (validated-IsNew c w h n))
    | inr n ↦ elim (Bool-cases (c.type == command_cancel)) [
      | inl k ↦ rw (n, k) (handle_cancel-represent s c v)
      | inr k ↦
          rw (n, k)
            (rw (validate-type c h n k)
              (handle_replace-represent s c v (validated-IsReplace c w h (validate-type c h n k))))
    ]
  ]

  dispatch-IsValid : IsValid (Apply.dispatch s c).0
  unfolding Apply.dispatch
  dispatch-IsValid = elim (Bool-cases (c.type == command_new)) [
    | inl n ↦ rw n (apply_new-IsValid s c v (validated-IsNew c w h n))
    | inr n ↦ elim (Bool-cases (c.type == command_cancel)) [
      | inl k ↦ rw (n, k) (apply_cancel-IsValid s c v)
      | inr k ↦
          rw (n, k)
            (apply_replace-IsValid s c v (validated-IsReplace c w h (validate-type c h n k)))
    ]
  ]

apply_events-represent :
    (s : Snapshot) (c : Command)
    → IsValid s
    → IsCommand c
    → apply_events (represent s) c ≡ some (represent (Apply.apply s c).0, (Apply.apply s c).1)
unfolding apply_events Apply.apply
apply_events-represent s c v w = elim (Bool-cases (eq_bytes c.symbol s.symbol)) [
  | inr e ↦ rw e refl
  | inl e ↦ elim (Option-cases (validate c)) [
    | inl h ↦ rw e (rw h (dispatch-represent s c v w h))
    | inr (x, h) ↦ rw e (rw h refl)
  ]
]

-- For a valid snapshot and a command with 64-bit fields, Book.Apply on the book of the snapshot does not
-- panic and its loops end; it gives the book of the snapshot after the command as specified, and the
-- result with the number of the command and the specified events.
pub apply-represent :
    (s : Snapshot) (c : Command)
    → IsValid s
    → IsCommand c
    → Handlers.apply (represent s) c
      ≡ some (
        represent (Apply.apply s c).0,
        record { command_seq = c.seq; events = (Apply.apply s c).1 },
      )
unfolding Handlers.apply
apply-represent s c v w = rw (apply_events-represent s c v w) refl

-- The specification keeps a snapshot valid.
pub specified-IsValid :
    (s : Snapshot) (c : Command) → IsValid s → IsCommand c → IsValid (Apply.apply s c).0
unfolding Apply.apply
specified-IsValid s c v w = elim (Bool-cases (eq_bytes c.symbol s.symbol)) [
  | inr e ↦ rw (e, Apply.apply) v
  | inl e ↦ elim (Option-cases (validate c)) [
    | inl h ↦ rw (e, Apply.apply) (rw (h, Apply.apply) (dispatch-IsValid s c v w h))
    | inr (x, h) ↦ rw (e, Apply.apply) (rw (h, Apply.apply) v)
  ]
]

-- A command with 64-bit fields takes the book of a valid snapshot to the book of a valid snapshot: both
-- sides sorted, no level empty, every order at its price and side with a positive quantity, no id twice,
-- the best bid below the best ask.
pub apply-IsValid :
    (s : Snapshot) (c : Command)
    → IsValid s
    → IsCommand c
    → (t : Snapshot) × (r : Result) × (Handlers.apply (represent s) c ≡ some (represent t, r))
      × IsValid t
apply-IsValid s c v w = (
  (Apply.apply s c).0,
  record { command_seq = c.seq; events = (Apply.apply s c).1 },
  apply-represent s c v w,
  specified-IsValid s c v w,
)
