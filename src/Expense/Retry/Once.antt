-- ===== src/Expense/Retry/Once.antt =====
-- A retry saves at most once, and only when the user's state offers a retry.
use gastto.Expense.Offers.Laws.{authorize_offer-IsOffered, IsOffered}
use gastto.Base.{ap, String, List, [], ◌++◌, ◌≡◌, refl, ◌⊎◌, inl, inr}
use mathlib.Core.List.{append-nil}
use gastto.Conversation.State.{ok, Result, Error}
use gastto.Expense.Act.{continue, Process, ◌>>=◌, gets, pure, Event, sample}
use gastto.Expense.Act.Emits.{
  Emits-before, Emits, Quiet, Emits-after, Emits-catch, Emits-imp, Emits-Quiet, quiet_rules,
  Quiet-perform, Quiet-sample,
}
use gastto.Expense.Ports.{Ports}
use gastto.Expense.Save.{Saved, save, execute_transition, finalize}
use gastto.Expense.Save.Trace.{SaveTrace}
use gastto.Expense.Save.Traced.{save-SaveTrace}
use gastto.Expense.Offers.{
  parse_save_retry, retry_binding, authorize_retry, SaveRetryPayload, Offer,
}
use gastto.Expense.Claim.{ClaimFields}
use gastto.Expense.Retry.{
  current_state, expense_saving_retry, refused, authorized, denied, Refusal, Authorization, retry,
  after_authorization, finalize, RetryInput, settle_failure, retry_failure, retry_save,
  retry_authorized, give_up, keep_claim, destination_of, retry_claim,
}

-- The events of one save at most, under some claim.
abbrev pub IsOneSave : String → List Event → Type 0
IsOneSave u es = (es ≡ []) ⊎ ((c : String) × (r : Result Saved) × SaveTrace u c r es)

module _ {S : Type 0} (ports : Ports S) (input : RetryInput) where
  Quiet-settle_failure :
      (offer : Offer SaveRetryPayload) (claim : ClaimFields) (e : _)
      → Quiet (settle_failure ports input offer claim e)
  unfolding settle_failure keep_claim give_up finalize
  Quiet-settle_failure offer claim e = search quiet_rules depth 20

  Quiet-retry_failure :
      (offer : Offer SaveRetryPayload) (claim : ClaimFields) (e : Error)
      → Quiet (retry_failure ports input offer claim e)
  unfolding retry_failure
  Quiet-retry_failure offer claim e = search (quiet_rules, Quiet-settle_failure) depth 10

  Emits-retry_save :
      (offer : Offer SaveRetryPayload) (claim : ClaimFields)
      → Emits (λ r es. IsOneSave input.user_id es) (retry_save ports input offer claim)
  unfolding retry_save
  Emits-retry_save offer claim =
      Emits-before (IsOneSave input.user_id)
        (save ports input.user_id offer.payload.expense (destination_of offer.payload.expense)
          claim.claim_id)
        _
        (Emits-imp _ (λ r es. IsOneSave input.user_id es) _
          (save-SaveTrace ports input.user_id offer.payload.expense
            (destination_of offer.payload.expense) claim.claim_id)
          (λ r es k. inr (claim.claim_id, r, k)))
        (λ saved. search quiet_rules depth 10)

  Emits-retry_authorized :
      (offer : Offer SaveRetryPayload)
      → Emits (λ r es. IsOneSave input.user_id es) (retry_authorized ports input offer)
  unfolding retry_authorized execute_transition
  Emits-retry_authorized offer =
      Emits-after (λ r es. IsOneSave input.user_id es) (sample ports.random_uuid) _ (Quiet-sample _)
        (λ e. inl refl)
        (λ id.
          Emits-after (λ r es. IsOneSave input.user_id es) _ _ (search quiet_rules depth 10)
            (λ e. inl refl)
            (λ _.
              Emits-after (λ r es. IsOneSave input.user_id es) _ _ (Quiet-perform _) (λ e. inl refl)
                (λ _.
                  Emits-catch (λ r es. IsOneSave input.user_id es)
                    (λ r es. IsOneSave input.user_id es) _ _
                    (Emits-retry_save offer (retry_claim id input offer)) (λ a es k. k)
                    (λ e es k.
                      Emits-imp _ (λ r fs. IsOneSave input.user_id (es ++ fs)) _
                        (Emits-Quiet _ (Quiet-retry_failure offer (retry_claim id input offer) e))
                        (λ r fs nothing. rw (nothing, append-nil es) k)))))

  by_authorization :
      (x : Authorization (Offer SaveRetryPayload)) (p : Process S)
      → ((r : Refusal) × (after_authorization ports input x p ≡ (ok (denied r), p)))
        ⊎ ((o : Offer SaveRetryPayload) × (x ≡ authorized o)
            × (es : List Event) × IsOneSave input.user_id es
            × ((after_authorization ports input x p).1.trace ≡ p.trace ++ es))
  unfolding after_authorization pure
  by_authorization (refused r) p = inl (r, refl)
  by_authorization (authorized o) p =
      let (es, one, e) = (Emits-retry_authorized o).at p in inr (o, refl, es, one, e)

  -- A retry either turns the user away, and then it has changed no conversation state and no
  -- spreadsheet; or the state observed at its start offers a retry: it is EXPENSE_SAVING_RETRY, has no
  -- claim and has not expired, it can be read, and the message came after the offer was presented. Then
  -- the retry makes one save at most, under one claim.
  pub retry-once :
      (p : Process S)
      → ((r : Refusal) × ((retry ports input p).0 ≡ ok (denied r))
          × ((retry ports input p).1.world ≡ p.world)
          × ((retry ports input p).1.trace ≡ p.trace))
        ⊎ ((o : Offer SaveRetryPayload) × IsOffered ports.runtime retry_binding input.received_at
              (ports.now p.outside).0
              expense_saving_retry
              (parse_save_retry ports.runtime)
              (current_state input.user_id p.world)
              o
            × (es : List Event) × ((retry ports input p).1.trace ≡ p.trace ++ es)
            × IsOneSave input.user_id es)
  unfolding retry sample gets ◌>>=◌ continue authorize_retry
  retry-once p =
      let (now, s) = ports.now p.outside in
      let p' = record p { outside = s } in
      let state = current_state input.user_id p.world in
      elim (by_authorization (authorize_retry ports.runtime now state input.received_at) p') [
        | inl (r, e) ↦ inl (r, ap (λ x. x.0) e, ap (λ x. x.1.world) e, ap (λ x. x.1.trace) e)
        | inr (o, accepted, es, one, e) ↦ inr (
          o,
          authorize_offer-IsOffered ports.runtime retry_binding input.received_at now
              expense_saving_retry (parse_save_retry ports.runtime) o state accepted,
          es,
          e,
          one,
        )
      ]
