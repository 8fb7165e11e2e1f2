-- ===== src/Expense/Undo/Once.antt =====
-- The one row that an undo may delete.
use gastto.Expense.Authorize.{is_stale}
use gastto.Expense.Offers.{authorize_offer, for_expense, authorize_undo, parse_undo, undo_binding}
use gastto.Expense.Offers.Laws.{authorize_offer-IsOffered, IsOffered}
use gastto.Base.{
  ◌∙◌, eq_iff, arith, ◌===◌, String, true, false, Option, none, some, List, ◌++◌, ◌≡◌, refl, inl,
  inr, ap, if-cases, Bool-cases,
}
use gastto.Conversation.State.{Result, throw}
use gastto.Conversation.Execution.{current_state}
use gastto.Expense.Act.{Process, Event, sample, gets, ◌>>=◌, continue}
use gastto.Expense.Act.Emits.{Emits, Emits-after, Quiet-perform}
use gastto.Expense.Ports.{Ports, ExpenseRecord}
use gastto.Expense.Undo.{
  refused, authorized, str, undo, undo_confirmed, Authorization, undo_offer, undo_semantic,
  semantic_request, expense_undo_confirming, UndoPayload, null, Offer, confirmation, requested,
  undo_request, UndoInput, undo_denied, UndoOutcome, not_found,
}
use gastto.Expense.Undo.Trace.{UndoTrace, untouched}
use gastto.Expense.Undo.Deletes.{Emits-pure_silent, Emits-claim_undo}

module _ {S : Type 0} (ports : Ports S) (u : String) where
  -- What allows an expense to be undone.
  unfoldable pub IsAllowed : UndoInput → Process S → ExpenseRecord → Type 0
  IsAllowed (requested immediate) p last = immediate ≡ some last.id
  IsAllowed semantic_request p last = true ≡ false
  IsAllowed (confirmation id received source) p last =
      (o : Offer UndoPayload) × IsOffered ports.runtime undo_binding received
        (ports.now p.outside).0 expense_undo_confirming (parse_undo ports.runtime)
        (current_state u p.world) o
      × (id ≡ o.payload.pending_expense_id)
      × (id ≡ last.id)

  Emits-undo_request :
      (p : Process S) (immediate : Option String) (o : Option ExpenseRecord)
      → Emits
          (UndoTrace ports (IsAllowed (requested immediate) p) u)
          (undo_request ports u immediate o)
  unfolding undo_request IsAllowed
  Emits-undo_request p immediate none = Emits-pure_silent ports u _ not_found (λ x h. cc)
  Emits-undo_request p none (some last) = Emits-pure_silent ports u _ _ (λ x h. cc)
  Emits-undo_request p (some id) (some last) = elim (Bool-cases (id === last.id)) [
    | inl same ↦ rw same (
        Emits-claim_undo ports u _ none null last
          (let e : id ≡ last.id = ground (arith, eq_iff id last.id) in ap some e))
    | inr other ↦ rw other (Emits-pure_silent ports u _ _ (λ x h. cc))
  ]

  Emits-undo_semantic :
      (p : Process S) (o : Option ExpenseRecord)
      → Emits (UndoTrace ports (IsAllowed semantic_request p) u) (undo_semantic ports u o)
  unfolding undo_semantic IsAllowed
  Emits-undo_semantic p none = Emits-pure_silent ports u _ not_found (λ x h. cc)
  Emits-undo_semantic p (some last) = Emits-pure_silent ports u _ _ (λ x h. cc)

  module _ (p : Process S) (id received source : String) where
    abbrev Confirms : Result UndoOutcome → List Event → Type 0
    Confirms r es = UndoTrace ports (IsAllowed (confirmation id received source) p) u r es

    abbrev IsStanding : Offer UndoPayload → Type 0
    IsStanding o =
        IsOffered ports.runtime undo_binding received (ports.now p.outside).0
          expense_undo_confirming (parse_undo ports.runtime) (current_state u p.world) o

    Emits-undo_offer :
        (o : Offer UndoPayload) (latest : Option ExpenseRecord)
        → IsStanding o
        → id ≡ o.payload.pending_expense_id
        → Emits Confirms (undo_offer ports u o source latest)
    unfolding undo_offer IsAllowed
    Emits-undo_offer o none standing same = Emits-pure_silent ports u _ not_found (λ x h. cc)
    Emits-undo_offer o (some last) standing same =
        elim (Bool-cases (o.payload.pending_expense_id === last.id)) [
          | inl latest ↦ rw latest (
              Emits-claim_undo ports u _ (some o.binding.operation_id) (str source) last (
                o,
                standing,
                same,
                same
                    ∙ (let e : o.payload.pending_expense_id ≡ last.id =
                          ground (arith, eq_iff o.payload.pending_expense_id last.id) in
                        e),
              ))
          | inr other ↦ rw other (Emits-pure_silent ports u _ not_found (λ x h. cc))
        ]

    for_expense-authorized :
        (x : Authorization (Offer UndoPayload)) (o : Offer UndoPayload)
        → for_expense id x ≡ authorized o
        → (x ≡ authorized o) × (id ≡ o.payload.pending_expense_id)
    for_expense-authorized (refused r) o h = absurd cc
    for_expense-authorized (authorized q) o h =
        elim (if-cases (id === q.payload.pending_expense_id) (authorized q) (refused is_stale) _
          h) [
            | inr (_, nothing) ↦ absurd cc
            | inl (same, made) ↦
                let e : q ≡ o = cc in
                let i : id ≡ q.payload.pending_expense_id =
                  ground (arith, eq_iff id q.payload.pending_expense_id) in
                (made, i ∙ ap (λ q. q.payload.pending_expense_id) e)
          ]

    Emits-undo_confirmed :
        (x : Authorization (Offer UndoPayload))
        → ((o : Offer UndoPayload)
            → x ≡ authorized o
            → IsStanding o × (id ≡ o.payload.pending_expense_id))
        → Emits Confirms (undo_confirmed ports u source x)
    unfolding undo_confirmed
    Emits-undo_confirmed (refused r) k = Emits-pure_silent ports u _ (undo_denied r) (λ x h. cc)
    Emits-undo_confirmed (authorized o) k =
        let (standing, same) = k o refl in
        Emits-after Confirms _ _ (Quiet-perform _) (λ e. untouched (throw e) (λ x h. cc))
          (λ latest. Emits-undo_offer o latest standing same)

    authorized_stands :
        (o : Offer UndoPayload)
        → authorize_undo ports.runtime (ports.now p.outside).0 (current_state u p.world) received id
          ≡ authorized o
        → IsStanding o × (id ≡ o.payload.pending_expense_id)
    unfolding authorize_undo
    authorized_stands o h =
        let (found, same) =
          for_expense-authorized
            (authorize_offer ports.runtime undo_binding received (ports.now p.outside).0
              expense_undo_confirming (parse_undo ports.runtime) (current_state u p.world))
            o h in
        (
          authorize_offer-IsOffered ports.runtime undo_binding received (ports.now p.outside).0
              expense_undo_confirming (parse_undo ports.runtime) o (current_state u p.world) found,
          same,
        )

  -- An undo deletes no row before the check of its claim has passed; then it deletes the row where an
  -- allowed expense stands, in the spreadsheet of that expense's configuration, and no other, and calls
  -- a second time only where the first call was refused for its token. An expense is allowed that the command named as the one to undo at once, or that an
  -- unexpired offer with no claim on it names, presented before the message that confirms it; a request
  -- that was only understood as an undo allows none. What is reported as undone has been deleted.
  pub undo-once :
      (input : UndoInput) (p : Process S)
      → (es : List Event) × UndoTrace ports (IsAllowed input p) u (undo ports u input p).0 es
        × ((undo ports u input p).1.trace ≡ p.trace ++ es)
  unfolding undo sample gets ◌>>=◌ continue
  undo-once (requested immediate) p =
      (Emits-after (UndoTrace ports (IsAllowed (requested immediate) p) u) _ _ (Quiet-perform _)
          (λ e. untouched (throw e) (λ x h. cc)) (Emits-undo_request p immediate)).at
        p
  undo-once semantic_request p =
      (Emits-after (UndoTrace ports (IsAllowed semantic_request p) u) _ _ (Quiet-perform _)
          (λ e. untouched (throw e) (λ x h. cc)) (Emits-undo_semantic p)).at
        p
  undo-once (confirmation id received source) p =
      (Emits-undo_confirmed p id received source
          (authorize_undo ports.runtime (ports.now p.outside).0 (current_state u p.world) received
            id)
          (authorized_stands p id received source)).at
        (record p { outside = (ports.now p.outside).1 })
