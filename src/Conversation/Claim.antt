-- ===== src/Conversation/Claim.antt =====
-- src/domain/entities/ConversationState.ts: the financial execution claim that a payload may carry.
use gastto.Base.{
  inr, inl, Option-cases, arith, ◌≡◌, refl, String, Bool, true, false, ◌&&◌, Option, none, some,
  List, [], ◌∷◌, if◌then◌else◌, is_some,
}
use gastto.Json.{Json, null, str, arr, obj, Fields, end, get, prints_one_of}

pub record FinancialExecutionClaim : Type 0 where
  pub claim_id : String
  pub kind : Json
  pub operation_id : String
  pub source_message_id : Json
  pub status : Json
  pub target : Json

-- `typeof v === 'object' && v !== null`, and the object's keys. An array has none of the keys
-- that the source reads.
abbrev pub as_object : Json → Option Fields
as_object (obj fs) = some fs
as_object (arr xs) = some end
as_object _ = none

abbrev pub as_string : Option Json → Option String
as_string (some (str s)) = some s
as_string _ = none

abbrev pub is_null_or_string : Option Json → Bool
is_null_or_string (some null) = true
is_null_or_string (some (str s)) = true
is_null_or_string _ = false

abbrev prints_option : List String → Option Json → Bool
prints_option words none = false
prints_option words (some v) = prints_one_of words v

abbrev or_null : Option Json → Json
or_null none = null
or_null (some v) = v

abbrev is_object : Option Json → Bool
is_object none = false
is_object (some v) = is_some (as_object v)

abbrev pub or_empty : Option String → String
or_empty none = ""
or_empty (some s) = s

-- The checks of `getFinancialExecutionClaim` on the claim's own keys.
unfoldable pub is_claim : Fields → Bool
is_claim fs =
    is_some (as_string (get "claimId" fs))
    && prints_option ("save" ∷ "retry" ∷ "undo" ∷ []) (get "kind" fs)
    && is_some (as_string (get "operationId" fs))
    && is_null_or_string (get "sourceMessageId" fs)
    && prints_option ("in_flight" ∷ "outcome_unknown" ∷ []) (get "status" fs)
    && is_object (get "target" fs)

read_claim : Fields → FinancialExecutionClaim
read_claim fs = record {
  claim_id = or_empty (as_string (get "claimId" fs));
  kind = or_null (get "kind" fs);
  operation_id = or_empty (as_string (get "operationId" fs));
  source_message_id = or_null (get "sourceMessageId" fs);
  status = or_null (get "status" fs);
  target = or_null (get "target" fs);
}

claim_of : Option Json → Option FinancialExecutionClaim
unfolding is_claim read_claim
claim_of none = none
claim_of (some v) = elim (as_object v) [
  | none ↦ none
  | some fs ↦ if is_claim fs then some (read_claim fs) else none
]

-- `payload?.executionClaim`.
unfoldable pub claim_value : Option Fields → Option Json
claim_value none = none
claim_value (some fs) = get "executionClaim" fs

unfoldable pub get_financial_execution_claim : Option Fields → Option FinancialExecutionClaim
unfolding claim_of claim_value
get_financial_execution_claim payload = claim_of (claim_value payload)

-- `getFinancialExecutionClaim(payload)?.claimId`.
unfoldable pub claim_id_of : Option Fields → Option String
claim_id_of payload = elim (get_financial_execution_claim payload) [
  | none ↦ none
  | some c ↦ some c.claim_id
]

pub claim_none :
    (payload : Option Fields)
    → claim_value payload ≡ none
    → get_financial_execution_claim payload ≡ none
unfolding get_financial_execution_claim
claim_none payload h = rw h

pub claim_some_of_id :
    (payload : Option Fields) (c : String)
    → claim_id_of payload ≡ some c
    → is_some (get_financial_execution_claim payload) ≡ true
unfolding claim_id_of
claim_some_of_id payload c h = ground arith

pub claim_value_some :
    (payload : Option Fields)
    → is_some (get_financial_execution_claim payload) ≡ true
    → is_some (claim_value payload) ≡ true
unfolding get_financial_execution_claim
claim_value_some payload h = ground arith

pub claim_id_of-some :
    (payload : Option Fields)
    → is_some (get_financial_execution_claim payload) ≡ true
    → (c : String) × (claim_id_of payload ≡ some c)
unfolding claim_id_of
claim_id_of-some payload h = elim (Option-cases (get_financial_execution_claim payload)) [
  | inl nothing ↦ cc
  | inr (claim, there) ↦ (claim.claim_id, rw (there, claim_id_of))
]

read_claim_of :
    (payload : Option Fields) (fs : Fields)
    → claim_value payload ≡ some (obj fs)
    → is_claim fs ≡ true
    → get_financial_execution_claim payload ≡ some (read_claim fs)
unfolding get_financial_execution_claim claim_of
read_claim_of payload fs h good = rw h (rw good refl)

pub claim_id_of-obj :
    (payload : Option Fields) (fs : Fields)
    → claim_value payload ≡ some (obj fs)
    → is_claim fs ≡ true
    → claim_id_of payload ≡ some (or_empty (as_string (get "claimId" fs)))
unfolding claim_id_of read_claim
claim_id_of-obj payload fs h good = rw (read_claim_of payload fs h good, claim_id_of) refl
