-- ===== src/Expense/Save/Traced.antt =====
-- What a save adds to the record.
use gastto.Base.{subst, String, List, [], ◌∷◌, ◌++◌, ◌≡◌, refl, Bool-cases, inl, inr, ◌⊎◌}
use gastto.Json.{Json}
use mathlib.Core.List.{append-nil}
use gastto.Conversation.State.{Result, ok, throw, Error, stale_state, Rejection}
use gastto.Expense.Act.{
  Act, Event, checked, appended, Location, Sheet, Port, perform_recorded, perform, catch, raise,
}
use gastto.Expense.Act.Emits.{
  Quiet-pure, Emits-pure, Emits-raise, Emits, Quiet, Emits-bind, Emits-catch, Emits-after,
  Emits-imp, quiet_rules, Quiet-perform,
}
use gastto.Expense.Review.{ReviewPayload}
use gastto.Expense.Ports.{Ports}
use gastto.Expense.Save.{
  matched, PaymentMethodSelection, require_method, finalize, Saved, Prepared, is_auth_failure,
  retry_refreshed, execute_with_token, check_effect, prepare, append_checked, persist, save,
  append_unfinished, after_append,
}
use gastto.Expense.Save.Trace.{
  Attempts, untried, tried, unrefreshed, retried, Appended, unchecked, checked_first, SaveTrace,
  unstarted, failed, unfinished, saved,
}
use gastto.Expense.Save.Claimed.{IsChecked, Emits-check_effect, Emits-perform_recorded}

module _ {S : Type 0} (ports : Ports S) where
  module _ {A : Type 0} (u : String) (event : Result A → Event) (port : String → Port S A) where
    abbrev call : String → Act S A
    call token = perform_recorded event (port token)

    after_failure :
        (e : Error)
        → Emits (λ r fs. Attempts event r (event (throw e) ∷ fs)) (retry_refreshed ports u call e)
    unfolding retry_refreshed
    after_failure e = elim (Bool-cases (is_auth_failure e)) [
      | inr other ↦
          rw other
            (Emits-raise (λ r fs. Attempts event r (event (throw e) ∷ fs)) e (tried (throw e)))
      | inl auth ↦ rw auth (
          Emits-after (λ r fs. Attempts event r (event (throw e) ∷ fs))
            (perform (ports.force_refresh_access_token u)) call (Quiet-perform _)
            (λ e'. unrefreshed e e' auth)
            (λ token.
              Emits-imp _ _ (call token) (Emits-perform_recorded event (port token))
                (λ r fs once. rw once (retried e r auth))))
    ]

    pub Emits-execute_with_token : Emits (Attempts event) (execute_with_token ports u call)
    unfolding execute_with_token
    Emits-execute_with_token =
        Emits-after (Attempts event) (perform (ports.get_valid_access_token u))
          (λ token. catch (call token) (retry_refreshed ports u call)) (Quiet-perform _) untried
          (λ token.
            Emits-catch (λ r es. es ≡ event r ∷ []) (Attempts event) (call token)
              (retry_refreshed ports u call) (Emits-perform_recorded event (port token))
              (λ a es once. rw once (tried (ok a))) (λ e es once. rw once (after_failure e)))

  Emits-append_checked :
      (u c : String) (sheet : Sheet) (row : List Json)
      → Emits (Appended u c sheet row) (append_checked ports u c sheet row)
  unfolding append_checked
  Emits-append_checked u c sheet row =
      Emits-bind (IsChecked u c) (Appended u c sheet row) (check_effect ports u c)
        (λ _.
          execute_with_token ports u
            (λ token. perform_recorded (appended sheet row) (ports.append_row token sheet row)))
        (Emits-check_effect ports u c) (λ e es nothing. rw nothing (unchecked e))
        (λ _ es (w, held, once). rw once (
          Emits-imp _ _ _
            (Emits-execute_with_token u (appended sheet row)
              (λ token. ports.append_row token sheet row))
            (λ r fs k. checked_first w r fs held k)))

  abbrev IsPersisted : Location → Result Saved → List Event → Type 0
  IsPersisted at (throw e) es = es ≡ []
  IsPersisted at (ok s) es = (es ≡ []) × (s.sheet_name ≡ at.sheet) × (s.row_index ≡ at.row)

  Emits-persist :
      (u : String) (payload : ReviewPayload) (c : String) (x : Prepared) (at : Location)
      → Emits (IsPersisted at) (persist ports u payload c x at)
  unfolding persist finalize
  Emits-persist u payload c x at =
      Emits-after (IsPersisted at) _ _ (Quiet-perform _) (λ e. refl)
        (λ id.
          Emits-after (IsPersisted at) _ _ (Quiet-perform _) (λ e. refl)
            (λ _.
              Emits-after (IsPersisted at) _ _ (search quiet_rules) (λ e. refl)
                (λ _. Emits-pure (IsPersisted at) _ (refl, refl, refl))))

  after_append-cases :
      (e : Error)
      → ((r : Rejection) × (after_append e ≡ stale_state r)) ⊎ (after_append e ≡ append_unfinished)
  after_append-cases (stale_state r) = inl (r, refl)
  after_append-cases _ = inr refl

  finish-SaveTrace :
      (u c : String) (payload : ReviewPayload) (x : Prepared) (at : Location) (r : Result Location)
      (es : List Event)
      → r ≡ ok at
      → Appended u c x.config.destination x.row r es
      → Emits
          (λ r fs. SaveTrace u c r (es ++ fs))
          (catch (persist ports u payload c x at) (λ e. raise (after_append e)))
  finish-SaveTrace u c payload x at _ _ h (unchecked e) = absurd cc
  finish-SaveTrace u c payload x at _ _ h (checked_first w r es held k) =
      let k' : Attempts (appended x.config.destination x.row) (ok at) es =
        subst (λ r. Attempts (appended x.config.destination x.row) r es) h k in
      Emits-catch (IsPersisted at) (λ r fs. SaveTrace u c r (checked u c w ∷ es ++ fs))
        (persist ports u payload c x at) (λ e. raise (after_append e))
        (Emits-persist u payload c x at)
        (λ s fs (nothing, there, its_row).
          rw (nothing, append-nil es)
            (saved x.config.destination x.row w at s es held k' (there, its_row)))
        (λ e fs nothing. rw nothing (
          Emits-raise (λ r fs. SaveTrace u c r (checked u c w ∷ es ++ fs)) (after_append e)
            (rw (append-nil es) (
              unfinished x.config.destination x.row w at (after_append e) es held k'
                (after_append-cases e)))))

  Quiet-require_method :
      (id : String) (s : PaymentMethodSelection) → Quiet (require_method ports id s)
  unfolding require_method
  Quiet-require_method id (matched src m name) = search quiet_rules
  Quiet-require_method id _ = Quiet-pure tt

  Quiet-prepare :
      (u : String) (payload : ReviewPayload) (id : String) → Quiet (prepare ports u payload id)
  unfolding prepare
  Quiet-prepare u payload id = search (quiet_rules, Quiet-require_method) depth 20

  failed-SaveTrace :
      (u c : String) (x : Prepared) (e : Error) (r : Result Location) (es : List Event)
      → r ≡ throw e
      → Appended u c x.config.destination x.row r es
      → SaveTrace u c (throw e) es
  failed-SaveTrace u c x e _ _ h (unchecked e') = unstarted e
  failed-SaveTrace u c x e _ _ h (checked_first w r es held k) =
      failed x.config.destination x.row w e es held
        (subst (λ r. Attempts (appended x.config.destination x.row) r es) h k)

  pub save-SaveTrace :
      (u : String) (payload : ReviewPayload) (id c : String)
      → Emits (SaveTrace u c) (save ports u payload id c)
  unfolding save
  save-SaveTrace u payload id c =
      Emits-after (SaveTrace u c) (prepare ports u payload id) _ (Quiet-prepare u payload id)
        unstarted
        (λ x.
          Emits-bind (Appended u c x.config.destination x.row) (SaveTrace u c)
            (append_checked ports u c x.config.destination x.row) _
            (Emits-append_checked u c x.config.destination x.row)
            (λ e es k. failed-SaveTrace u c x e (throw e) es refl k)
            (λ at es k. finish-SaveTrace u c payload x at (ok at) es refl k))
