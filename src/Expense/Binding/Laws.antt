-- ===== src/Expense/Binding/Laws.antt =====
-- The bindings that are read are those that are written, and an advance stays in their range.
use gastto.Base.{
  ◌==◌, ◌⊎◌, ◌+◌, ◌≤◌, ℕ, String, true, Option, none, some, ◌≡◌, refl, arith, inl, inr, ◌&&◌, leb,
  Bool-cases,
}
use gastto.Json.{Json, obj, get, nat_json, null, str}
use gastto.Expense.Runtime.{Runtime, as_natural}
use gastto.Expense.Binding.{
  is_iso_timestamp, present_binding, create_binding, advance_binding, json_of_option,
  has_binding_keys, presented_well, Binding, max_safe_integer, normalize_binding, normalize_fields,
  binding_json, is_binding, is_operation_id, combine, operation_id_of, in_range, presented_at_of,
}

pub as_natural-nat_json : (n : ℕ) → as_natural (some (nat_json n)) ≡ some n
as_natural-nat_json n = ground arith

presented_at_of-json :
    (run : Runtime) (at : Option String)
    → presented_well run at ≡ true
    → presented_at_of run (some (json_of_option at)) ≡ some at
presented_at_of-json run none h = refl
presented_at_of-json run (some s) h = rw h

-- A binding that can be read is read back as it was written.
pub normalize_binding-binding_json :
    (run : Runtime) (b : Binding)
    → is_binding run b ≡ true
    → normalize_binding run (binding_json b) ≡ some b
unfolding normalize_binding binding_json is_binding normalize_fields get
normalize_binding-binding_json run b h =
    let id : is_operation_id b.operation_id ≡ true = ground arith in
    let range : in_range (some b.revision) ≡ some b.revision = ground arith in
    let at : presented_well run b.presented_at ≡ true = ground arith in
    rw (id, as_natural-nat_json b.revision, range, presented_at_of-json run b.presented_at at)

operation_id_of-some :
    (o : Option Json) (s : String) → operation_id_of o ≡ some s → is_operation_id s ≡ true
operation_id_of-some (some (str t)) s h = ground arith
operation_id_of-some _ s h = cc

in_range-some :
    (o : Option ℕ) (n : ℕ) → in_range o ≡ some n → (leb 1 n && leb n max_safe_integer) ≡ true
in_range-some none n h = cc
in_range-some (some m) n h = ground arith

presented_at_of-some :
    (run : Runtime) (o : Option Json) (at : Option String)
    → presented_at_of run o ≡ some at
    → presented_well run at ≡ true
presented_at_of-some run (some null) at h = ground arith
presented_at_of-some run (some (str s)) at h = ground arith
presented_at_of-some run _ at h = cc

combine-some :
    (o : Option String) (p : Option ℕ) (q : Option (Option String)) (b : Binding)
    → combine o p q ≡ some b
    → (o ≡ some b.operation_id) × (p ≡ some b.revision) × (q ≡ some b.presented_at)
combine-some (some id) (some n) (some at) b h = ground arith
combine-some none p q b h = cc
combine-some (some id) none q b h = cc
combine-some (some id) (some n) none b h = cc

-- What is read is a binding.
pub normalize_binding-is_binding :
    (run : Runtime) (v : Json) (b : Binding)
    → normalize_binding run v ≡ some b
    → is_binding run b ≡ true
unfolding normalize_binding normalize_fields is_binding
normalize_binding-is_binding run (obj fs) b h = elim (Bool-cases (has_binding_keys fs)) [
  | inr other ↦ absurd (let no : none ≡ some b = rw other at h in cc)
  | inl same ↦
      let read : combine (operation_id_of (get "operationId" fs))
            (in_range (as_natural (get "revision" fs))) (presented_at_of run (get "presentedAt" fs))
          ≡ some b =
        rw same at h in
      let (id, n, at) = combine-some _ _ _ b read in
      rw (
        operation_id_of-some (get "operationId" fs) b.operation_id id,
        in_range-some (as_natural (get "revision" fs)) b.revision n,
        presented_at_of-some run (get "presentedAt" fs) b.presented_at at,
      )
]
normalize_binding-is_binding run _ b h = cc

-- An advance of a binding that can be read, with a random id of the right form, can be read; it is not
-- presented, and no binding has both its id and its revision twice: the revision grows by one, or the id
-- is new and the revision is 1.
pub advance_binding-is_binding :
    (run : Runtime) (random_id : String) (b : Binding)
    → is_operation_id random_id ≡ true
    → is_binding run b ≡ true
    → let b' = advance_binding random_id (some b) in
      (is_binding run b' ≡ true)
      × (b'.presented_at ≡ none)
      × (b'.revision ≤ max_safe_integer)
      × (((b'.operation_id ≡ b.operation_id) × (b'.revision ≡ b.revision + 1))
          ⊎ ((b'.operation_id ≡ random_id) × (b'.revision ≡ 1) × (b.revision ≡ max_safe_integer)))
unfolding advance_binding is_binding create_binding
advance_binding-is_binding run random_id b fresh h =
    elim (Bool-cases (b.revision == max_safe_integer)) [
      | inl full ↦ rw full (ground arith, refl, ground arith, inr (refl, refl, ground arith))
      | inr room ↦ rw room (ground arith, refl, ground arith, inl (refl, refl))
    ]

pub present_binding-is_binding :
    (run : Runtime) (at : String) (b : Binding)
    → is_iso_timestamp run at ≡ true
    → is_binding run b ≡ true
    → is_binding run (present_binding at b) ≡ true
unfolding is_binding present_binding
present_binding-is_binding run at b time valid = ground arith

pub advanced-is_binding :
    (run : Runtime) (random_id : String) (o : Option Binding)
    → is_operation_id random_id ≡ true
    → ((b : Binding) → o ≡ some b → is_binding run b ≡ true)
    → is_binding run (advance_binding random_id o) ≡ true
unfolding is_binding advance_binding create_binding
advanced-is_binding run random_id none fresh previous = rw fresh refl
advanced-is_binding run random_id (some b) fresh previous =
    (advance_binding-is_binding run random_id b fresh (previous b refl)).0
