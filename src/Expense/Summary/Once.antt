-- ===== src/Expense/Summary/Once.antt =====
-- An action on a review saves at most once, and only when the action is authorized.
use gastto.Expense.Authorize.Review.{authorize_review-IsAuthorized}
use gastto.Expense.Authorize.Conditions.{IsAuthorized}
use gastto.Base.{
  ap, ◌++◌, ◌&&◌, Bool-cases, false, String, Option, none, some, List, [], ◌≡◌, refl, ◌⊎◌, inl, inr,
}
use gastto.Conversation.State.{Result, ok}
use gastto.Expense.Act.{continue, ◌>>=◌, Process, gets, sample, pure, Event}
use gastto.Expense.Act.Emits.{
  Emits-Quiet, Emits, Quiet, Emits-after, Emits-before, Emits-imp, Emits-attempt, quiet_rules,
  Quiet-perform, Quiet-sample, Quiet-pure,
}
use gastto.Expense.Ports.{Ports}
use gastto.Expense.Review.{ReviewPayload}
use gastto.Expense.Save.{Saved, save}
use gastto.Expense.Save.Trace.{SaveTrace}
use gastto.Expense.Save.Traced.{save-SaveTrace}
use gastto.Expense.Authorize.{
  correct, cancel, authorize_review, is_invalid, refused, authorized, Refusal, Authorization,
  is_confirm, ReviewAction, confirm, Evidence,
}
use gastto.Expense.Retry.{destination_of}
use gastto.Expense.Retry.Once.{IsOneSave}
use gastto.Expense.Summary.{
  current_state, turned_away, resolve_summary, after_review, act_on, is_awaiting_zero,
  handle_action, handle_correct, handle_cancel, ask_again,
}
use gastto.Expense.Confirm.{SummaryInput, save_claim, handle_confirm}
use gastto.Expense.Confirm.Quiet.{
  Quiet-execute_transition, Quiet-cancel_expense, Quiet-after_attempt, move_rules,
}

module _ {S : Type 0} (ports : Ports S) where
  module _ (input : SummaryInput) where
    abbrev OneSave : {A : Type 0} → Result A → List Event → Type 0
    OneSave r es = IsOneSave input.user_id es

    Emits-handle_confirm :
        (ev : Evidence) (p : ReviewPayload) → Emits OneSave (handle_confirm ports input ev p)
    unfolding handle_confirm
    Emits-handle_confirm ev p =
        Emits-after OneSave _ _ (Quiet-sample _) (λ e. inl refl)
          (λ id.
            Emits-after OneSave _ _ (Quiet-execute_transition ports _) (λ e. inl refl)
              (λ _.
                Emits-after OneSave _ _ (Quiet-perform _) (λ e. inl refl)
                  (λ _.
                    Emits-before (IsOneSave input.user_id) _ _
                      (Emits-attempt (IsOneSave input.user_id)
                        (save ports input.user_id p (destination_of p) id)
                        (Emits-imp _ OneSave _
                          (save-SaveTrace ports input.user_id p (destination_of p) id)
                          (λ r es k. inr (id, r, k))))
                      (λ r. Quiet-after_attempt ports input p (save_claim id ev p) r))))

    Quiet-handle_correct : (p : ReviewPayload) → Quiet (handle_correct ports input p)
    unfolding handle_correct
    Quiet-handle_correct p = search move_rules depth 20

    Quiet-handle_cancel : (p : ReviewPayload) → Quiet (handle_cancel ports input p)
    unfolding handle_cancel
    Quiet-handle_cancel p = search (quiet_rules, Quiet-cancel_expense) depth 10

    Quiet-ask_again : (p : ReviewPayload) → Quiet (ask_again ports input p)
    unfolding ask_again
    Quiet-ask_again p = search move_rules depth 20

    -- A save, if the action is a confirmation.
    abbrev Acts : ReviewAction → List Event → Type 0
    Acts a es =
        (es ≡ [])
        ⊎ ((a ≡ confirm) × (c : String) × (r : Result Saved) × SaveTrace input.user_id c r es)

    confirmed-Acts : (es : List Event) → IsOneSave input.user_id es → Acts confirm es
    confirmed-Acts es (inl nothing) = inl nothing
    confirmed-Acts es (inr (c, r, k)) = inr (refl, c, r, k)

    Emits-handle_action :
        (ev : Evidence) (a : ReviewAction) (p : ReviewPayload)
        → Emits (λ r es. Acts a es) (handle_action ports input ev a p)
    unfolding handle_action
    Emits-handle_action ev confirm p =
        Emits-imp OneSave (λ r es. Acts confirm es) _ (Emits-handle_confirm ev p)
          (λ r es k. confirmed-Acts es k)
    Emits-handle_action ev correct p =
        Emits-imp _ (λ r es. Acts correct es) _ (Emits-Quiet _ (Quiet-handle_correct p))
          (λ r es nothing. inl nothing)
    Emits-handle_action ev cancel p =
        Emits-imp _ (λ r es. Acts cancel es) _ (Emits-Quiet _ (Quiet-handle_cancel p))
          (λ r es nothing. inl nothing)

    -- What is done with a payload whose amount of zero has been confirmed, or is not zero.
    abbrev pub ActsOn : ReviewAction → ReviewPayload → List Event → Type 0
    ActsOn a p es =
        (es ≡ [])
        ⊎ ((a ≡ confirm)
            × (is_awaiting_zero p ≡ false)
            × (c : String) × (r : Result Saved) × SaveTrace input.user_id c r es)

    settled-ActsOn :
        (a : ReviewAction) (p : ReviewPayload) (es : List Event)
        → (is_confirm a && is_awaiting_zero p) ≡ false
        → Acts a es
        → ActsOn a p es
    settled-ActsOn a p es h (inl nothing) = inl nothing
    settled-ActsOn a p es h (inr (e, c, r, k)) = inr (
      e,
      (let settled : (is_confirm confirm && is_awaiting_zero p) ≡ false = rw e at h in settled),
      c,
      r,
      k,
    )

    Emits-act_on :
        (ev : Evidence) (a : ReviewAction) (p : ReviewPayload)
        → Emits (λ r es. ActsOn a p es) (act_on ports input ev a p)
    unfolding act_on
    Emits-act_on ev a p = elim (Bool-cases (is_confirm a && is_awaiting_zero p)) [
      | inl again ↦ rw again (
          Emits-imp _ (λ r es. ActsOn a p es) _ (Emits-Quiet _ (Quiet-ask_again p))
            (λ r es nothing. inl nothing))
      | inr settled ↦ rw settled (
          Emits-before (ActsOn a p) _ _
            (Emits-imp _ (λ r es. ActsOn a p es) _ (Emits-handle_action ev a p)
              (λ r es k. settled-ActsOn a p es settled k))
            (λ _. Quiet-pure _))
    ]

    by_review :
        (ev : Option Evidence) (x : Authorization (ReviewAction × ReviewPayload)) (p : Process S)
        → ((r : Refusal) × (after_review ports input ev x p ≡ (ok (turned_away r), p)))
          ⊎ ((a : ReviewAction) × (q : ReviewPayload) × (x ≡ authorized (a, q))
              × (es : List Event) × ActsOn a q es
              × ((after_review ports input ev x p).1.trace ≡ p.trace ++ es))
    unfolding after_review pure
    by_review ev (refused r) p = inl (r, refl)
    by_review none (authorized y) p = inl (is_invalid, refl)
    by_review (some ev) (authorized (a, q)) p =
        let (es, k, e) = (Emits-act_on ev a q).at p in inr (a, q, refl, es, k, e)

    -- An action on a review is either turned away, and then it has changed no conversation state and no
    -- spreadsheet; or it is authorized for the state that was observed at its start. Then it makes one
    -- save at most, under one claim, and only where the user confirms and the payload awaits no second
    -- confirmation of a zero.
    pub resolve_summary-once :
        (p : Process S)
        → ((r : Refusal) × ((resolve_summary ports input p).0 ≡ ok (turned_away r))
            × ((resolve_summary ports input p).1.world ≡ p.world)
            × ((resolve_summary ports input p).1.trace ≡ p.trace))
          ⊎ ((a : ReviewAction) × (q : ReviewPayload) × IsAuthorized ports.runtime
                (ports.now p.outside).0
                (current_state input.user_id p.world)
                input.authorization
                input.action
                a
                q
              × (es : List Event) × ((resolve_summary ports input p).1.trace ≡ p.trace ++ es)
              × ActsOn a q es)
    unfolding resolve_summary sample gets ◌>>=◌ continue
    resolve_summary-once p =
        let (now, s) = ports.now p.outside in
        let p' = record p { outside = s } in
        let state = current_state input.user_id p.world in
        let found = authorize_review ports.runtime now state input.authorization input.action in
        elim (by_review input.authorization found p') [
          | inl (r, e) ↦ inl (r, ap (λ x. x.0) e, ap (λ x. x.1.world) e, ap (λ x. x.1.trace) e)
          | inr (a, q, accepted, es, k, e) ↦ inr (
            a,
            q,
            (authorize_review-IsAuthorized ports.runtime now state input.authorization input.action
                  a q).0
                accepted,
            es,
            e,
            k,
          )
        ]
