-- ===== src/Expense/Undo/Deletes.antt =====
-- What an undo that has its claim adds to the record.
use gastto.Conversation.Stores.{World}
use gastto.Expense.Confirm.Quiet.{Quiet-execute_transition}
use gastto.Base.{
  ℕ, String, Bool, true, false, Option, none, some, List, [], ◌++◌, ◌≡◌, ◌≢◌, refl, inl, inr, sym,
  ap, if-cases, Bool-cases,
}
use mathlib.Core.List.{append-nil}
use gastto.Json.{Json}
use gastto.Conversation.State.{Result, ok, throw, Error}
use gastto.Expense.Act.{Event, deleted, Sheet, perform_recorded, pure}
use gastto.Expense.Act.Emits.{
  Emits-perform, Answered, Emits, Quiet, Emits-after, Emits-bind, Emits-imp, Emits-attempt_result,
  Attempted, Emits-pure, Emits-raise, quiet_rules, Quiet-perform, Quiet-sample, Quiet-pure,
}
use gastto.Expense.Ports.{Provider, SpreadsheetConfig, Ports, ExpenseRecord}
use gastto.Expense.Save.{is_google, execute_with_token, check_effect, finalize}
use gastto.Expense.Save.Claimed.{IsChecked, Emits-check_effect}
use gastto.Expense.Save.Traced.{Emits-execute_with_token}
use gastto.Expense.Claim.{is_stale_error, ClaimFields}
use gastto.Expense.Undo.{
  placed_at, is_same_expense, undo_denied, operation_or_new, UndoOutcome, undone,
  confirmation_required, not_found, deletion_failed, release, keep_undo_claim, undo_failure,
  delete_checked, forget_locally, after_local, after_remote, delete_target, delete_configured,
  undo_claimed, claim_undo, target_of,
}
use gastto.Expense.Undo.Trace.{
  IsOwnFile, Deleted, unchecked, checked_first, IsUndone, UndoTrace, untouched, touched,
}

placed_at-some :
    (provider : Provider) (given : Sheet) (o : Option ℕ) (sheet : Sheet) (row : ℕ)
    → placed_at provider given o ≡ some (sheet, row)
    → (given ≡ sheet) × (o ≡ some row)
placed_at-some provider given none sheet row h = absurd cc
placed_at-some provider given (some n) sheet row h =
    elim (if-cases (is_google provider) (some (given, n)) none _ h) [
      | inl (_, made) ↦ (cc, cc)
      | inr (_, nothing) ↦ absurd cc
    ]

module _ {S : Type 0} (ports : Ports S) (u : String) where
  Emits-delete_checked :
      (c : String) (sheet : Sheet) (row : ℕ)
      → Emits (Deleted u c sheet row) (delete_checked ports u c sheet row)
  unfolding delete_checked
  Emits-delete_checked c sheet row =
      Emits-bind (IsChecked u c) (Deleted u c sheet row) (check_effect ports u c)
        (λ _.
          execute_with_token ports u
            (λ token. perform_recorded (deleted sheet row) (ports.delete_row token sheet row)))
        (Emits-check_effect ports u c) (λ e es nothing. rw nothing (unchecked e))
        (λ _ es (w, held, once). rw once (
          Emits-imp _ _ _
            (Emits-execute_with_token ports u (deleted sheet row)
              (λ token. ports.delete_row token sheet row))
            (λ r fs k. checked_first w r fs held k)))

  -- No event, and no other expense undone than the one that is.
  abbrev Settles : ExpenseRecord → Result (Unit {0}) → Result UndoOutcome → List Event → Type 0
  Settles last answer r es = (es ≡ []) × IsUndone last r answer

  -- No event, and nothing undone.
  abbrev IsSilent : Result UndoOutcome → List Event → Type 0
  IsSilent r es = (es ≡ []) × ((x : ExpenseRecord) → r ≢ ok (undone x))

  other_outcome-IsUndone :
      (last : ExpenseRecord) (answer : Result (Unit {0})) (r : Result UndoOutcome)
      → ((x : ExpenseRecord) → r ≢ ok (undone x))
      → IsUndone last r answer
  other_outcome-IsUndone last answer (ok (undone x)) h = absurd (h x refl)
  other_outcome-IsUndone last answer _ h = tt

  Quiet-release : (c : ClaimFields) → Quiet (release ports u c)
  unfolding release finalize
  Quiet-release c = search quiet_rules depth 10

  Quiet-keep_undo_claim : (c : ClaimFields) → Quiet (keep_undo_claim ports u c)
  unfolding keep_undo_claim finalize
  Quiet-keep_undo_claim c = search quiet_rules depth 10

  Quiet-operation_or_new : (o : Option String) → Quiet (operation_or_new ports u o)
  unfolding operation_or_new
  Quiet-operation_or_new none = Quiet-sample _
  Quiet-operation_or_new (some o) = Quiet-pure o

  Emits-undo_failure :
      (c : ClaimFields) (done : Bool) (e : Error) → Emits IsSilent (undo_failure ports u c done e)
  unfolding undo_failure
  Emits-undo_failure c done e = elim (Bool-cases (is_stale_error e)) [
    | inl old ↦ rw old (Emits-raise IsSilent e (refl, λ x h. cc))
    | inr other ↦ rw other (
        Emits-after IsSilent _ _
          (search (quiet_rules, Quiet-release, Quiet-keep_undo_claim) depth 10)
          (λ e. (refl, λ x h. cc)) (λ _. Emits-pure IsSilent _ (refl, λ x h. cc)))
  ]

  undo_failure-Emits :
      (c : ClaimFields) (last : ExpenseRecord) (answer : Result (Unit {0})) (done : Bool)
      (e : Error)
      → Emits (Settles last answer) (undo_failure ports u c done e)
  undo_failure-Emits c last answer done e =
      Emits-imp IsSilent (Settles last answer) _ (Emits-undo_failure c done e)
        (λ r es (nothing, other). (nothing, other_outcome-IsUndone last answer r other))

  Emits-forget_locally :
      (c : ClaimFields) (last : ExpenseRecord)
      → Emits (Settles last (ok tt)) (forget_locally ports u c last)
  unfolding forget_locally
  Emits-forget_locally c last =
      Emits-after (Settles last (ok tt)) _ _ (Quiet-perform _) (λ e. (refl, tt))
        (λ _.
          Emits-after (Settles last (ok tt)) _ _ (Quiet-release c) (λ e. (refl, tt))
            (λ _. Emits-pure (Settles last (ok tt)) (undone last) (refl, (refl, refl))))

  Emits-after_local :
      (c : ClaimFields) (last : ExpenseRecord) (r : Result UndoOutcome) (es : List Event)
      → Settles last (ok tt) r es
      → Emits (λ r' fs. Settles last (ok tt) r' (es ++ fs)) (after_local ports u c r)
  unfolding after_local
  Emits-after_local c last (ok x) es k =
      Emits-pure (λ r' fs. Settles last (ok tt) r' (es ++ fs)) x (rw (append-nil es) k)
  Emits-after_local c last (throw e) es (nothing, _) =
      rw nothing (undo_failure-Emits c last (ok tt) true e)

  Emits-after_remote :
      (c : ClaimFields) (last : ExpenseRecord) (answer : Result (Unit {0}))
      → Emits (Settles last answer) (after_remote ports u c last answer)
  unfolding after_remote
  Emits-after_remote c last (throw e) = undo_failure-Emits c last (throw e) false e
  Emits-after_remote c last (ok tt) =
      Emits-bind (Attempted (Settles last (ok tt))) (Settles last (ok tt)) _ _
        (Emits-attempt_result (Settles last (ok tt)) _ (Emits-forget_locally c last))
        (λ e es no_throw. absurd cc) (λ r es k. Emits-after_local c last r es k)

  needs_answer :
      (last : ExpenseRecord) (e : Error) (r : Result UndoOutcome)
      → IsUndone last r (throw e)
      → (x : ExpenseRecord) → r ≢ ok (undone x)
  needs_answer last e (ok (undone y)) (same, no_answer) x h = cc
  needs_answer last e (ok (confirmation_required y)) k x h = cc
  needs_answer last e (ok not_found) k x h = cc
  needs_answer last e (ok (deletion_failed y)) k x h = cc
  needs_answer last e (ok (undo_denied y)) k x h = cc
  needs_answer last e (throw y) k x h = cc

  module _ (Allowed : ExpenseRecord → Type 0) where
    join :
        (c : String) (last : ExpenseRecord) (sheet : Sheet) (row : ℕ) (answer : Result (Unit {0}))
        (r : Result UndoOutcome) (es : List Event)
        → Allowed last
        → IsOwnFile ports last sheet
        → sheet.sheet_name ≡ last.sheet_name
        → last.row_index ≡ some row
        → Deleted u c sheet row answer es
        → IsUndone last r answer
        → UndoTrace ports Allowed u r es
    join c last sheet row _ r _ may own named placed (unchecked e) k =
        untouched r (needs_answer last e r k)
    join c last sheet row _ r _ may own named placed (checked_first w answer es held a) k =
        touched c last sheet row w answer r es may own named placed held a k

    abbrev Undoes : Result UndoOutcome → List Event → Type 0
    Undoes r es = UndoTrace ports Allowed u r es

    silent-Undoes : (r : Result UndoOutcome) (es : List Event) → IsSilent r es → Undoes r es
    silent-Undoes r es (nothing, other) = rw nothing (untouched r other)

    pub Emits-pure_silent :
        (x : UndoOutcome)
        → ((y : ExpenseRecord) → ok x ≢ ok (undone y))
        → Emits Undoes (pure {S = S} x)
    Emits-pure_silent x other = Emits-pure Undoes x (untouched (ok x) other)

    Emits-delete_target :
        (c : ClaimFields) (last : ExpenseRecord) (o : Option (Sheet × ℕ))
        → Allowed last
        → ((sheet : Sheet) (row : ℕ)
            → o ≡ some (sheet, row)
            → IsOwnFile ports last sheet
              × (sheet.sheet_name ≡ last.sheet_name)
              × (last.row_index ≡ some row))
        → Emits Undoes (delete_target ports u c last o)
    unfolding delete_target
    Emits-delete_target c last none may at =
        Emits-after Undoes _ _ (Quiet-release c) (λ e. untouched (throw e) (λ x h. cc))
          (λ _. Emits-pure_silent _ (λ x h. cc))
    Emits-delete_target c last (some (sheet, row)) may at =
        let (own, named, placed) = at sheet row refl in
        Emits-bind (Attempted (Deleted u c.claim_id sheet row)) Undoes _ _
          (Emits-attempt_result (Deleted u c.claim_id sheet row) _
            (Emits-delete_checked c.claim_id sheet row))
          (λ e es no_throw. absurd cc)
          (λ answer es d.
            Emits-imp (Settles last answer) (λ r fs. Undoes r (es ++ fs)) _
              (Emits-after_remote c last answer)
              (λ r fs (nothing, k).
                rw (nothing, append-nil es)
                  (join c.claim_id last sheet row answer r es may own named placed d k)))

    -- The configuration was found by the expense's own id.
    abbrev IsFound : ExpenseRecord → Option SpreadsheetConfig → Type 0
    IsFound last o = (w : World) × (s : S) × ((ports.find_config last.spreadsheet_id w s).0 ≡ ok o)

    target_place :
        (last : ExpenseRecord) (o : Option SpreadsheetConfig) (sheet : Sheet) (row : ℕ)
        → IsFound last o
        → target_of last o ≡ some (sheet, row)
        → IsOwnFile ports last sheet
          × (sheet.sheet_name ≡ last.sheet_name)
          × (last.row_index ≡ some row)
    target_place last none sheet row found h = absurd cc
    target_place last (some config) sheet row (w, s, found) h =
        let given : Sheet = record {
          file_id = config.destination.file_id;
          sheet_name = last.sheet_name;
        } in
        let (same, placed) = placed_at-some config.provider given last.row_index sheet row h in
        (
          (w, s, config, found, ap (λ s. s.file_id) (sym same)),
          ap (λ s. s.sheet_name) (sym same),
          placed,
        )

    Emits-delete_configured :
        (c : ClaimFields) (last : ExpenseRecord)
        → Allowed last
        → Emits Undoes (delete_configured ports u c last)
    unfolding delete_configured
    Emits-delete_configured c last may =
        Emits-bind (Answered (ports.find_config last.spreadsheet_id)) Undoes _ _
          (Emits-perform (ports.find_config last.spreadsheet_id))
          (λ e es (nothing, w, s, found). rw nothing (untouched (throw e) (λ x h. cc)))
          (λ config es (nothing, w, s, found). rw nothing (
            Emits-delete_target c last (target_of last config) may
              (λ sheet row h. target_place last config sheet row (w, s, found) h)))

    Emits-undo_claimed :
        (c : ClaimFields) (last : ExpenseRecord)
        → Allowed last
        → Emits Undoes (undo_claimed ports u c last)
    unfolding undo_claimed
    Emits-undo_claimed c last may =
        Emits-after Undoes _ _ (Quiet-perform _) (λ e. untouched (throw e) (λ x h. cc))
          (λ latest. elim (Bool-cases (is_same_expense last latest)) [
            | inl same ↦ rw same (Emits-delete_configured c last may)
            | inr moved ↦ rw moved (
                Emits-after Undoes _ _ (Quiet-release c) (λ e. untouched (throw e) (λ x h. cc))
                  (λ _. Emits-pure_silent not_found (λ x h. cc)))
          ])

    pub Emits-claim_undo :
        (o : Option String) (source : Json) (last : ExpenseRecord)
        → Allowed last
        → Emits Undoes (claim_undo ports u o source last)
    unfolding claim_undo
    Emits-claim_undo o source last may =
        Emits-after Undoes _ _ (Quiet-sample _) (λ e. untouched (throw e) (λ x h. cc))
          (λ id.
            Emits-after Undoes _ _ (Quiet-operation_or_new o) (λ e. untouched (throw e) (λ x h. cc))
              (λ operation.
                Emits-after Undoes _ _ (Quiet-execute_transition ports _)
                  (λ e. untouched (throw e) (λ x h. cc)) (λ _. Emits-undo_claimed _ last may)))
