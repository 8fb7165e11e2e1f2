-- ===== src/Vocabulary/Reached.antt =====
-- The vocabularies that the operations can make, and what a search finds in them.
use gastto.Vocabulary.{
  is_excluded, remove_subcategory, move_subcategory, new_subcategory, rename_subcategory,
  subcategory_exists, refused, rename_category, remove_category, normalize_name, add_category, done,
  has_subcategory, has_category, find_subcategory, add_subcategory, Subcategory, CategoryVocabulary,
}
use gastto.Base.{
  refl, ap, ◌∙◌, eq_refl, not, ◌&&◌, none, inl, inr, Bool-cases, arith, ◌∷◌, ◌===◌, ◌++◌, some,
  find, true, any, false, ◌≡◌, List, Bool, [], String,
}
use gastto.Vocabulary.Laws.{
  IsVocabulary, remove_category-IsVocabulary, add_category-IsVocabulary,
  rename_category-IsVocabulary,
}
use gastto.Vocabulary.Children.{
  remove_subcategory-IsVocabulary, move_subcategory-IsVocabulary, rename_subcategory-IsVocabulary,
  add_subcategory-IsVocabulary,
}

module _ (trim to_lower : String → String) where
  -- Made from the empty vocabulary by any operations, where a new entry's id is no other entry's.
  pub data Reached : CategoryVocabulary → Type 0 where
    started : Reached (record { categories = []; subcategories = [] })
    category_added :
        (id name : String) (v : CategoryVocabulary)
        → has_category id v ≡ false
        → Reached v
        → Reached (add_category trim to_lower id name v).1
    category_removed :
        (id : String) (v : CategoryVocabulary) → Reached v → Reached (remove_category id v)
    category_renamed :
        (id name : String) (v : CategoryVocabulary)
        → Reached v
        → Reached (rename_category trim to_lower id name v).1
    subcategory_added :
        (id category_id name : String) (v : CategoryVocabulary)
        → any (λ s. s.id === id) v.subcategories ≡ false
        → Reached v
        → Reached (add_subcategory trim to_lower id category_id name v).1
    subcategory_renamed :
        (id name : String) (v : CategoryVocabulary)
        → Reached v
        → Reached (rename_subcategory trim to_lower id name v).1
    subcategory_moved :
        (id target : String) (v : CategoryVocabulary)
        → Reached v
        → Reached (move_subcategory id target v).1
    subcategory_removed :
        (id : String) (v : CategoryVocabulary) → Reached v → Reached (remove_subcategory id v).1

  -- In every vocabulary that the operations can make, whether they succeed or throw: the ids and the
  -- normalized names of the categories are distinct, as are those of the subcategories of one
  -- category; no normalized name is empty, and each is its name in lower case; and every subcategory
  -- belongs to a category of the vocabulary. A new entry's id is no other entry's.
  pub Reached-IsVocabulary : (v : CategoryVocabulary) → Reached v → IsVocabulary to_lower v
  Reached-IsVocabulary v started = record {
    apart = tt;
    named = tt;
    sub_apart = tt;
    sub_named = tt;
    owned = tt;
  }
  Reached-IsVocabulary v (category_added id name w fresh r) =
      add_category-IsVocabulary trim to_lower id name w (Reached-IsVocabulary w r) fresh
  Reached-IsVocabulary v (category_removed id w r) =
      remove_category-IsVocabulary trim to_lower id w (Reached-IsVocabulary w r)
  Reached-IsVocabulary v (category_renamed id name w r) =
      rename_category-IsVocabulary trim to_lower id name w (Reached-IsVocabulary w r)
  Reached-IsVocabulary v (subcategory_added id c name w fresh r) =
      add_subcategory-IsVocabulary trim to_lower id c name w (Reached-IsVocabulary w r) fresh
  Reached-IsVocabulary v (subcategory_renamed id name w r) =
      rename_subcategory-IsVocabulary trim to_lower id name w (Reached-IsVocabulary w r)
  Reached-IsVocabulary v (subcategory_moved id target w r) =
      move_subcategory-IsVocabulary to_lower id target w (Reached-IsVocabulary w r)
  Reached-IsVocabulary v (subcategory_removed id w r) =
      remove_subcategory-IsVocabulary to_lower id w (Reached-IsVocabulary w r)

  find-last :
      (p q : Subcategory → Bool) (ss : List Subcategory) (s : Subcategory)
      → ((x : Subcategory) → q x ≡ p x)
      → any q ss ≡ false
      → p s ≡ true
      → (find p (ss ++ s ∷ []) ≡ some s) × (any q (ss ++ s ∷ []) ≡ true)
  find-last p q [] s same none_ here = (ground arith, ground (arith, same s))
  find-last p q (x ∷ ss) s same none_ here = ground (arith, find-last p q ss s same, same x)

  -- A subcategory that was added is found afterwards under its category by every name that has its
  -- normalized name, and adding such a name to the category again throws that it exists and changes
  -- nothing.
  pub find_subcategory-add_subcategory :
      (id other_id category_id name other_name : String) (v : CategoryVocabulary) (s : Subcategory)
      → (add_subcategory trim to_lower id category_id name v).0 ≡ done s
      → normalize_name trim to_lower other_name ≡ normalize_name trim to_lower name
      → let v' = (add_subcategory trim to_lower id category_id name v).1 in
        (find_subcategory trim to_lower category_id other_name v' ≡ some s)
        × (add_subcategory trim to_lower other_id category_id other_name v'
            ≡ (refused (subcategory_exists (trim other_name)), v'))
  unfolding add_subcategory find_subcategory has_subcategory
  find_subcategory-add_subcategory id other_id category_id name other_name v s added same =
      let n = normalize_name trim to_lower name in
      let made = new_subcategory trim to_lower id category_id name in
      elim (Bool-cases (has_category category_id v)) [
        | inr missing ↦ absurd (ground (arith, rw missing at added))
        | inl parent ↦ elim (Bool-cases (n === "")) [
          | inl blank ↦ absurd (ground (arith, rw (parent, blank) at added))
          | inr filled ↦ elim (Bool-cases (has_subcategory category_id n none v)) [
            | inl taken ↦ absurd (ground (arith, rw (parent, filled, taken) at added))
            | inr free ↦
                let got : done made ≡ done s = rw (parent, filled, free) at added in
                let it : made ≡ s = cc in
                let (found, again) =
                  find-last (λ x. x.category_id === category_id && x.normalized_name === n)
                    (λ x.
                      not (is_excluded none x.id)
                      && x.category_id === category_id
                      && x.normalized_name === n)
                    v.subcategories made (λ x. refl) free
                    (rw (eq_refl category_id, eq_refl n) refl) in
                rw (parent, filled, free, same)
                  (found ∙ ap some it, rw (parent, filled, again) refl)
          ]
        ]
      ]
