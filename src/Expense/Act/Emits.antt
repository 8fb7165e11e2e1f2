-- ===== src/Expense/Act/Emits.antt =====
-- What an action adds to the record of the effects, with a rule for each way to build an action.
use gastto.Base.{
  none, some, sym, Option, ap, [], Bool, true, false, if◌then◌else◌, List, ◌++◌, ◌≡◌, refl, ◌∙◌,
}
use mathlib.Core.List.{append-nil, append_assoc}
use gastto.Conversation.State.{Result, ok, throw, Error}
use gastto.Conversation.Stores.{World, M}
use gastto.Expense.Act.{
  require, or_raise, Event, Process, Act, Port, pure, raise, perform, sample, on_world, gets, catch,
  handle, ◌>>=◌, continue, attempt,
}

-- `m` adds events that `Q` holds of, with what it returns or throws.
pub record Emits {S A : Type 0} (Q : Result A → List Event → Type 0) (m : Act S A) : Type 0 where
  pub at : (p : Process S) → (es : List Event) × Q (m p).0 es × ((m p).1.trace ≡ p.trace ++ es)

-- `m` adds none.
pub record Quiet {S A : Type 0} (m : Act S A) : Type 0 where
  pub kept : (p : Process S) → (m p).1.trace ≡ p.trace

module _ {S A : Type 0} where
  pub Quiet-pure : (a : A) → Quiet (pure {S = S} a)
  unfolding pure
  Quiet-pure a = record { kept = λ p. refl }

  pub Quiet-raise : (e : Error) → Quiet (raise {S = S} {A = A} e)
  unfolding raise
  Quiet-raise e = record { kept = λ p. refl }

  pub Quiet-perform : (port : Port S A) → Quiet (perform port)
  unfolding perform
  Quiet-perform port = record { kept = λ p. refl }

  pub Quiet-sample : (source : S → A × S) → Quiet (sample source)
  unfolding sample
  Quiet-sample source = record { kept = λ p. refl }

  pub Quiet-on_world : (method : M A) → Quiet (on_world {S = S} method)
  unfolding on_world
  Quiet-on_world method = record { kept = λ p. refl }

  pub Quiet-gets : (f : World → A) → Quiet (gets {S = S} f)
  unfolding gets
  Quiet-gets f = record { kept = λ p. refl }

  pub Quiet-if : (b : Bool) (m n : Act S A) → Quiet m → Quiet n → Quiet (if b then m else n)
  Quiet-if true m n km kn = km
  Quiet-if false m n km kn = kn

  Quiet-handle :
      (r : Result A) (handler : Error → Act S A)
      → ((e : Error) → Quiet (handler e))
      → Quiet (handle r handler)
  unfolding handle
  Quiet-handle (ok a) handler k = record { kept = λ p. refl }
  Quiet-handle (throw e) handler k = k e

  pub Quiet-catch :
      (m : Act S A) (handler : Error → Act S A)
      → Quiet m
      → ((e : Error) → Quiet (handler e))
      → Quiet (catch m handler)
  unfolding catch
  Quiet-catch m handler km kh = record {
    kept = λ p. let (r, p') = m p in (Quiet-handle r handler kh).kept p' ∙ km.kept p;
  }

module _ {S A B : Type 0} where
  Quiet-continue : (r : Result A) (f : A → Act S B) → ((a : A) → Quiet (f a)) → Quiet (continue r f)
  unfolding continue
  Quiet-continue (ok a) f k = k a
  Quiet-continue (throw e) f k = record { kept = λ p. refl }

  pub Quiet-bind :
      (m : Act S A) (f : A → Act S B) → Quiet m → ((a : A) → Quiet (f a)) → Quiet (m >>= f)
  unfolding ◌>>=◌
  Quiet-bind m f km kf = record {
    kept = λ p. let (r, p') = m p in (Quiet-continue r f kf).kept p' ∙ km.kept p;
  }

pub Quiet-attempt : {S A : Type 0} (m : Act S A) → Quiet m → Quiet (attempt m)
unfolding attempt
Quiet-attempt m k = record { kept = λ p. k.kept p }

module _ {S A : Type 0} where
  pub Quiet-or_raise : (e : Error) (o : Option A) → Quiet (or_raise {S = S} e o)
  unfolding or_raise
  Quiet-or_raise e none = Quiet-raise e
  Quiet-or_raise e (some a) = Quiet-pure a

pub Quiet-require : {S : Type 0} (e : Error) (b : Bool) → Quiet (require {S = S} e b)
unfolding require
Quiet-require {S} e true = Quiet-pure {S = S} tt
Quiet-require {S} e false = Quiet-raise {S = S} e

pub ruleset quiet_rules = (
  Quiet-pure, Quiet-raise, Quiet-perform, Quiet-sample, Quiet-on_world, Quiet-gets, Quiet-if,
  Quiet-catch, Quiet-bind, Quiet-attempt, Quiet-or_raise, Quiet-require,
)

module _ {S A : Type 0} where
  -- A quiet action adds no event, whatever it returns.
  pub Emits-Quiet : (m : Act S A) → Quiet m → Emits (λ r es. es ≡ []) m
  Emits-Quiet m k = record { at = λ p. ([], refl, k.kept p ∙ sym (append-nil p.trace)) }

  pub Emits-raise :
      (Q : Result A → List Event → Type 0) (e : Error) → Q (throw e) [] → Emits Q (raise {S = S} e)
  unfolding raise
  Emits-raise Q e q = record { at = λ p. ([], q, sym (append-nil p.trace)) }

  pub Emits-pure :
      (Q : Result A → List Event → Type 0) (a : A) → Q (ok a) [] → Emits Q (pure {S = S} a)
  unfolding pure
  Emits-pure Q a q = record { at = λ p. ([], q, sym (append-nil p.trace)) }

  pub Emits-imp :
      (Q R : Result A → List Event → Type 0) (m : Act S A)
      → Emits Q m
      → ((r : Result A) (es : List Event) → Q r es → R r es)
      → Emits R m
  Emits-imp Q R m k imp = record { at = λ p. let (es, q, e) = k.at p in (es, imp (m p).0 es q, e) }

  Emits-handle :
      (Q R : Result A → List Event → Type 0) (r : Result A) (handler : Error → Act S A)
      (p p' : Process S) (es : List Event)
      → Q r es
      → p'.trace ≡ p.trace ++ es
      → ((a : A) (fs : List Event) → Q (ok a) fs → R (ok a) fs)
      → ((e : Error) (fs : List Event)
          → Q (throw e) fs
          → Emits (λ r' gs. R r' (fs ++ gs)) (handler e))
      → (gs : List Event) × R (handle r handler p').0 gs
        × ((handle r handler p').1.trace ≡ p.trace ++ gs)
  unfolding handle
  Emits-handle Q R (ok a) handler p p' es q e returned threw = (es, returned a es q, e)
  Emits-handle Q R (throw x) handler p p' es q e returned threw =
      let (gs, r, e') = (threw x es q).at p' in
      (es ++ gs, r, e' ∙ ap (λ t. t ++ gs) e ∙ append_assoc p.trace es gs)

  pub Emits-catch :
      (Q R : Result A → List Event → Type 0) (m : Act S A) (handler : Error → Act S A)
      → Emits Q m
      → ((a : A) (es : List Event) → Q (ok a) es → R (ok a) es)
      → ((e : Error) (es : List Event)
          → Q (throw e) es
          → Emits (λ r gs. R r (es ++ gs)) (handler e))
      → Emits R (catch m handler)
  unfolding catch
  Emits-catch Q R m handler k returned threw = record {
    at = λ p.
        let (es, q, e) = k.at p in Emits-handle Q R (m p).0 handler p (m p).1 es q e returned threw;
  }

module _ {S A B : Type 0} where
  Emits-continue :
      (Q : Result A → List Event → Type 0) (R : Result B → List Event → Type 0) (r : Result A)
      (f : A → Act S B) (p p' : Process S) (es : List Event)
      → Q r es
      → p'.trace ≡ p.trace ++ es
      → ((e : Error) (fs : List Event) → Q (throw e) fs → R (throw e) fs)
      → ((a : A) (fs : List Event) → Q (ok a) fs → Emits (λ r' gs. R r' (fs ++ gs)) (f a))
      → (gs : List Event) × R (continue r f p').0 gs × ((continue r f p').1.trace ≡ p.trace ++ gs)
  unfolding continue
  Emits-continue Q R (throw x) f p p' es q e threw returned = (es, threw x es q, e)
  Emits-continue Q R (ok a) f p p' es q e threw returned =
      let (gs, r, e') = (returned a es q).at p' in
      (es ++ gs, r, e' ∙ ap (λ t. t ++ gs) e ∙ append_assoc p.trace es gs)

  pub Emits-bind :
      (Q : Result A → List Event → Type 0) (R : Result B → List Event → Type 0) (m : Act S A)
      (f : A → Act S B)
      → Emits Q m
      → ((e : Error) (es : List Event) → Q (throw e) es → R (throw e) es)
      → ((a : A) (es : List Event) → Q (ok a) es → Emits (λ r gs. R r (es ++ gs)) (f a))
      → Emits R (m >>= f)
  unfolding ◌>>=◌
  Emits-bind Q R m f k threw returned = record {
    at = λ p.
        let (es, q, e) = k.at p in Emits-continue Q R (m p).0 f p (m p).1 es q e threw returned;
  }

  -- A quiet action before the one that has the effects.
  pub Emits-after :
      (R : Result B → List Event → Type 0) (m : Act S A) (f : A → Act S B)
      → Quiet m
      → ((e : Error) → R (throw e) [])
      → ((a : A) → Emits R (f a))
      → Emits R (m >>= f)
  Emits-after R m f quiet threw returned =
      Emits-bind (λ r es. es ≡ []) R m f (Emits-Quiet m quiet)
        (λ e es nothing. rw nothing (threw e)) (λ a es nothing. rw nothing (returned a))

  -- A quiet action after it.
  pub Emits-before :
      (Q : List Event → Type 0) (m : Act S A) (f : A → Act S B)
      → Emits (λ r es. Q es) m
      → ((a : A) → Quiet (f a))
      → Emits (λ r es. Q es) (m >>= f)
  Emits-before Q m f k quiet =
      Emits-bind (λ r es. Q es) (λ r es. Q es) m f k (λ e es q. q)
        (λ a es q.
          Emits-imp (λ r es. es ≡ []) (λ r fs. Q (es ++ fs)) (f a) (Emits-Quiet (f a) (quiet a))
            (λ r fs nothing. rw (nothing, append-nil es) q))

module _ {S A : Type 0} where
  pub Emits-attempt :
      (Q : List Event → Type 0) (m : Act S A)
      → Emits (λ r es. Q es) m
      → Emits (λ r es. Q es) (attempt m)
  unfolding attempt
  Emits-attempt Q m k = record { at = λ p. k.at p }

-- What an attempt adds: it never throws.
abbrev pub Attempted :
    {A : Type 0} → (Result A → List Event → Type 0) → Result (Result A) → List Event → Type 0
Attempted Q (ok r) es = Q r es
Attempted Q (throw e) es = true ≡ false

module _ {S A : Type 0} where
  pub Emits-attempt_result :
      (Q : Result A → List Event → Type 0) (m : Act S A)
      → Emits Q m
      → Emits (Attempted Q) (attempt m)
  unfolding attempt
  Emits-attempt_result Q m k = record { at = λ p. k.at p }

  -- A call of a port, which adds no event, and its answer.
  abbrev pub Answered : Port S A → Result A → List Event → Type 0
  Answered port r es = (es ≡ []) × (w : World) × (s : S) × ((port w s).0 ≡ r)

  pub Emits-perform : (port : Port S A) → Emits (Answered port) (perform port)
  unfolding perform
  Emits-perform port = record {
    at = λ p. ([], (refl, p.world, p.outside, refl), sym (append-nil p.trace));
  }
