-- ===== src/Base/Pairs.antt =====
-- A relation between each member of a list and the later ones.
use mathlib.Core.Path.{◌≡◌}
use mathlib.Core.Bool.{Bool, false}
use mathlib.Core.List.{List, [], ◌∷◌, ◌++◌, map}
use native.Mathlib.Omega.{arith}
use mathlib.Core.Logic.{inl, inr}
use gastto.Base.Tests.{Bool-cases}
use gastto.Base.Lists.{All, All-filter, All-append, filter, any}

module _ {ℓ κ} {A : Type ℓ} (R : A → A → Type κ) where
  abbrev pub Pairwise : List A → Type κ
  Pairwise [] = Unit
  Pairwise (x ∷ xs) = All (R x) xs × Pairwise xs

  pub Pairwise-append :
      (xs : List A) (y : A) → Pairwise xs → All (λ x. R x y) xs → Pairwise (xs ++ y ∷ [])
  Pairwise-append [] y p h = (tt, tt)
  Pairwise-append (x ∷ xs) y (r, p) (q, h) =
      (All-append (R x) xs (y ∷ []) r (q, tt), Pairwise-append xs y p h)

  pub Pairwise-filter : (p : A → Bool) (xs : List A) → Pairwise xs → Pairwise (filter p xs)
  Pairwise-filter p [] h = tt
  Pairwise-filter p (x ∷ xs) (r, h) = elim (Bool-cases (p x)) [
    | inl keep ↦ rw keep (All-filter (R x) p xs r, Pairwise-filter p xs h)
    | inr drop ↦ rw drop (Pairwise-filter p xs h)
  ]

  pub Pairwise-map :
      (P : A → Type κ) (f : A → A) (xs : List A)
      → ((x y : A) → P x → P y → R x y → R (f x) (f y))
      → All P xs
      → Pairwise xs
      → Pairwise (map f xs)
  Pairwise-map P f [] step a h = tt
  Pairwise-map P f (x ∷ xs) step (p, a) (r, h) = (related xs a r, Pairwise-map P f xs step a h)
    where
      related : (ys : List A) → All P ys → All (R x) ys → All (R (f x)) (map f ys)
      related [] a r = tt
      related (y ∷ ys) (q, a) (r, rs) = (step x y p q r, related ys a rs)

module _ {ℓ κ} {A : Type ℓ} (P : A → Type κ) where
  pub All-map :
      (Q : A → Type κ) (f : A → A) (xs : List A)
      → ((x : A) → P x → Q (f x))
      → All P xs
      → All Q (map f xs)
  All-map Q f [] step h = tt
  All-map Q f (x ∷ xs) step (p, h) = (step x p, All-map Q f xs step h)

  -- A test that no member passes.
  pub All-any :
      (t : A → Bool) (xs : List A) → ((x : A) → t x ≡ false → P x) → any t xs ≡ false → All P xs
  All-any t [] imp h = tt
  All-any t (x ∷ xs) imp h = (imp x (ground arith), All-any t xs imp (ground arith))

  pub All-imp : (Q : A → Type κ) (xs : List A) → ((x : A) → P x → Q x) → All P xs → All Q xs
  All-imp Q [] step h = tt
  All-imp Q (x ∷ xs) step (p, h) = (step x p, All-imp Q xs step h)

  pub All-both : (Q : A → Type κ) (xs : List A) → All P xs → All Q xs → All (λ x. P x × Q x) xs
  All-both Q [] h k = tt
  All-both Q (x ∷ xs) (p, h) (q, k) = ((p, q), All-both Q xs h k)
