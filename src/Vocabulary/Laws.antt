-- ===== src/Vocabulary/Laws.antt =====
-- The invariant of the aggregate: ids and names are distinct, no name is empty, and every
-- subcategory has its category.
use gastto.Base.{
  All-both, ◌∙◌, All-map, All-any, Pairwise-map, ◌&&◌, sym, All-imp, All-append, All-filter, refl,
  Pairwise-append, Pairwise-filter, [], inr, eq_iff, inl, ◌∷◌, arith, not, ◌++◌, map, filter, ◌===◌,
  Bool-cases, true, false, any, All, List, Pairwise, ◌≡◌, ◌≢◌,
}
use gastto.Vocabulary.{
  rename_category, renamed, new_category, normalize_name, add_category, remove_category, String,
  Category, Subcategory, CategoryVocabulary, has_category,
}

abbrev pub Apart : Category → Category → Type 0
Apart c d = (c.id ≢ d.id) × (c.normalized_name ≢ d.normalized_name)

abbrev pub SubApart : Subcategory → Subcategory → Type 0
SubApart s t =
    (s.id ≢ t.id) × (s.category_id ≡ t.category_id → s.normalized_name ≢ t.normalized_name)

module _ (to_lower : String → String) where
  abbrev pub IsNamed : String → String → Type 0
  IsNamed name normalized = (normalized ≢ "") × (normalized ≡ to_lower name)

  pub record IsVocabulary (v : CategoryVocabulary) : Type 0 where
    pub apart : Pairwise Apart v.categories
    pub named : All (λ c. IsNamed c.name c.normalized_name) v.categories
    pub sub_apart : Pairwise SubApart v.subcategories
    pub sub_named : All (λ s. IsNamed s.name s.normalized_name) v.subcategories
    pub owned : All (λ s. has_category s.category_id v ≡ true) v.subcategories

any-filter_kept :
    (id other : String) (cs : List Category)
    → other ≢ id
    → any (λ c. c.id === other) cs ≡ true
    → any (λ c. c.id === other) (filter (λ c. not (c.id === id)) cs) ≡ true
any-filter_kept id other [] ne h = h
any-filter_kept id other (c ∷ cs) ne h =
    ground (arith, any-filter_kept id other cs ne, eq_iff c.id id, eq_iff c.id other)

any-append :
    (id : String) (cs ds : List Category)
    → any (λ c. c.id === id) cs ≡ true
    → any (λ c. c.id === id) (cs ++ ds) ≡ true
any-append id [] ds h = absurd (ground arith)
any-append id (c ∷ cs) ds h = ground (arith, any-append id cs ds)

any-map :
    (id : String) (f : Category → Category) (cs : List Category)
    → ((c : Category) → (f c).id ≡ c.id)
    → any (λ c. c.id === id) (map f cs) ≡ any (λ c. c.id === id) cs
any-map id f [] same = refl
any-map id f (c ∷ cs) same = rw (same c) (rw (any-map id f cs same) refl)

module _ (trim to_lower : String → String) where
  pub remove_category-IsVocabulary :
      (id : String) (v : CategoryVocabulary)
      → IsVocabulary to_lower v
      → IsVocabulary to_lower (remove_category id v)
  unfolding remove_category
  remove_category-IsVocabulary id v ok = record {
    apart = Pairwise-filter Apart (λ c. not (c.id === id)) v.categories ok.apart;
    named =
        All-filter (λ c. IsNamed to_lower c.name c.normalized_name) (λ c. not (c.id === id))
          v.categories ok.named;
    sub_apart =
        Pairwise-filter SubApart (λ s. not (s.category_id === id)) v.subcategories ok.sub_apart;
    sub_named =
        All-filter (λ s. IsNamed to_lower s.name s.normalized_name)
          (λ s. not (s.category_id === id)) v.subcategories ok.sub_named;
    owned = still_owned v.subcategories ok.owned;
  }
    where
      still_owned :
          (ss : List Subcategory)
          → All (λ s. has_category s.category_id v ≡ true) ss
          → All
              (λ s. has_category s.category_id (remove_category id v) ≡ true)
              (filter (λ s. not (s.category_id === id)) ss)
      still_owned [] h = tt
      still_owned (s ∷ ss) (p, h) = elim (Bool-cases (s.category_id === id)) [
        | inl gone ↦ rw gone (still_owned ss h)
        | inr kept ↦ rw kept (
          any-filter_kept id s.category_id v.categories (ground (arith, eq_iff s.category_id id)) p,
          still_owned ss h,
        )
      ]

  pub add_category-IsVocabulary :
      (id name : String) (v : CategoryVocabulary)
      → IsVocabulary to_lower v
      → has_category id v ≡ false
      → IsVocabulary to_lower (add_category trim to_lower id name v).1
  unfolding add_category
  add_category-IsVocabulary id name v ok fresh =
      elim (Bool-cases (normalize_name trim to_lower name === "")) [
        | inl blank ↦ rw blank ok
        | inr named ↦
            elim (Bool-cases
              (any (λ c. c.normalized_name === normalize_name trim to_lower name) v.categories)) [
                | inl taken ↦ rw (named, taken) ok
                | inr free ↦
                    rw (named, free)
                      (record {
                        apart =
                            Pairwise-append Apart v.categories (new_category trim to_lower id name)
                              ok.apart
                              (All-both (λ c. c.id ≢ id)
                                (λ c. c.normalized_name ≢ normalize_name trim to_lower name)
                                v.categories
                                (All-any (λ c. c.id ≢ id) (λ c. c.id === id) v.categories
                                  (λ c h. ground (arith, eq_iff c.id id)) fresh)
                                (All-any
                                  (λ c. c.normalized_name ≢ normalize_name trim to_lower name)
                                  (λ c. c.normalized_name === normalize_name trim to_lower name)
                                  v.categories
                                  (λ c h. ground (
                                    arith,
                                    eq_iff c.normalized_name (normalize_name trim to_lower name),
                                  ))
                                  free));
                        named =
                            All-append (λ c. IsNamed to_lower c.name c.normalized_name) v.categories
                              (new_category trim to_lower id name ∷ []) ok.named
                              (
                                (
                                  ground (arith, eq_iff (normalize_name trim to_lower name) ""),
                                  refl,
                                ),
                                tt,
                              );
                        sub_apart = ok.sub_apart;
                        sub_named = ok.sub_named;
                        owned =
                            All-imp (λ s. has_category s.category_id v ≡ true)
                              (λ s.
                                any (λ c. c.id === s.category_id)
                                  (v.categories ++ new_category trim to_lower id name ∷ [])
                                ≡ true)
                              v.subcategories
                              (λ s h.
                                any-append s.category_id v.categories
                                  (new_category trim to_lower id name ∷ []) h)
                              ok.owned;
                      })
              ]
      ]

  renamed-Apart :
      (id name : String) (c d : Category)
      → (c.id ≢ id → c.normalized_name ≢ normalize_name trim to_lower name)
      → (d.id ≢ id → d.normalized_name ≢ normalize_name trim to_lower name)
      → Apart c d
      → Apart (renamed trim to_lower id name c) (renamed trim to_lower id name d)
  renamed-Apart id name c d p q (ids, names) = elim (Bool-cases (c.id === id)) [
    | inl hit ↦ elim (Bool-cases (d.id === id)) [
      | inl both ↦ absurd (ids (ground (arith, eq_iff c.id id, eq_iff d.id id)))
      | inr other ↦ rw (hit, other) (ids, λ e. q (ground (arith, eq_iff d.id id)) (sym e))
    ]
    | inr miss ↦ elim (Bool-cases (d.id === id)) [
      | inl hit ↦ rw (miss, hit) (ids, p (ground (arith, eq_iff c.id id)))
      | inr other ↦ rw (miss, other) (ids, names)
    ]
  ]

  pub rename_category-IsVocabulary :
      (id name : String) (v : CategoryVocabulary)
      → IsVocabulary to_lower v
      → IsVocabulary to_lower (rename_category trim to_lower id name v).1
  unfolding rename_category
  rename_category-IsVocabulary id name v ok =
      let n = normalize_name trim to_lower name in
      elim (Bool-cases (n === "")) [
        | inl blank ↦ rw blank ok
        | inr filled ↦
            elim (Bool-cases
              (any (λ c. not (c.id === id) && c.normalized_name === n) v.categories)) [
                | inl taken ↦ rw (filled, taken) ok
                | inr free ↦
                    rw (filled, free)
                      (record {
                        apart =
                            Pairwise-map Apart (λ c. c.id ≢ id → c.normalized_name ≢ n)
                              (renamed trim to_lower id name) v.categories
                              (λ c d. renamed-Apart id name c d)
                              (All-any (λ c. c.id ≢ id → c.normalized_name ≢ n)
                                (λ c. not (c.id === id) && c.normalized_name === n) v.categories
                                (λ c h ne e.
                                  absurd
                                    (ground (arith, eq_iff c.id id, eq_iff c.normalized_name n)))
                                free)
                              ok.apart;
                        named =
                            All-map (λ c. IsNamed to_lower c.name c.normalized_name)
                              (λ c. IsNamed to_lower c.name c.normalized_name)
                              (renamed trim to_lower id name) v.categories
                              (λ c h. elim (Bool-cases (c.id === id)) [
                                | inl hit ↦ rw hit (λ e. absurd (ground (arith, eq_iff n "")), refl)
                                | inr miss ↦ rw miss h
                              ])
                              ok.named;
                        sub_apart = ok.sub_apart;
                        sub_named = ok.sub_named;
                        owned =
                            All-imp (λ s. has_category s.category_id v ≡ true)
                              (λ s.
                                any (λ c. c.id === s.category_id)
                                  (map (renamed trim to_lower id name) v.categories)
                                ≡ true)
                              v.subcategories
                              (λ s h.
                                any-map s.category_id (renamed trim to_lower id name) v.categories
                                  (λ c. elim (Bool-cases (c.id === id)) [
                                    | inl hit ↦ rw hit refl
                                    | inr miss ↦ rw miss refl
                                  ])
                                ∙ h)
                              ok.owned;
                      })
              ]
      ]
