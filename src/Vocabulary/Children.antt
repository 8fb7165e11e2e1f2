-- ===== src/Vocabulary/Children.antt =====
-- The operations on subcategories keep the invariant of the aggregate.
use gastto.Base.{
  [], ◌∷◌, refl, All-append, All-both, subst, All-map, Pairwise-append, find-All, All-any, none,
  find-holds, All-filter, Pairwise-map, sym, eq_iff, Pairwise-filter, arith, ◌&&◌, false, find, inr,
  true, inl, any, Option-cases, some, Bool-cases, ◌===◌, ◌≡◌, if◌then◌else◌, not, ◌≢◌, String,
}
use gastto.Vocabulary.{
  renamed_subcategory, moved_to, new_subcategory, replace_subcategory, normalize_name, has_category,
  rename_found, move_found, CategoryVocabulary, is_excluded, add_subcategory, rename_subcategory,
  move_subcategory, remove_subcategory, has_subcategory, Subcategory,
}
use gastto.Vocabulary.Laws.{SubApart, IsNamed, IsVocabulary}

-- The entry that takes the place of the one with its id stands apart from the others.
Fits : Subcategory → Subcategory → Type 0
Fits r s = s.id ≢ r.id → s.category_id ≡ r.category_id → s.normalized_name ≢ r.normalized_name

replaced-SubApart :
    (r s t : Subcategory)
    → Fits r s
    → Fits r t
    → SubApart s t
    → SubApart (if s.id === r.id then r else s) (if t.id === r.id then r else t)
unfolding Fits
replaced-SubApart r s t p q (ids, names) = elim (Bool-cases (s.id === r.id)) [
  | inl hit ↦ elim (Bool-cases (t.id === r.id)) [
    | inl both ↦ absurd (ids (ground (arith, eq_iff s.id r.id, eq_iff t.id r.id)))
    | inr other ↦
        let ne : t.id ≢ r.id = ground (arith, eq_iff t.id r.id) in
        rw (hit, other) (λ e. ne (sym e), λ c e. q ne (sym c) (sym e))
  ]
  | inr miss ↦ elim (Bool-cases (t.id === r.id)) [
    | inl hit ↦
        let ne : s.id ≢ r.id = ground (arith, eq_iff s.id r.id) in
        rw (miss, hit) (ne, λ c e. p ne c e)
    | inr other ↦ rw (miss, other) (ids, names)
  ]
]

Fits-free :
    (r s : Subcategory)
    → not (is_excluded (some r.id) s.id)
        && s.category_id === r.category_id
        && s.normalized_name === r.normalized_name
      ≡ false
    → Fits r s
unfolding Fits
Fits-free r s h ne same e = absurd (
    ground (
      arith,
      eq_iff s.id r.id,
      eq_iff s.category_id r.category_id,
      eq_iff s.normalized_name r.normalized_name,
    ))

module _ (to_lower : String → String) where
  replace_subcategory-IsVocabulary :
      (r : Subcategory) (v : CategoryVocabulary)
      → IsVocabulary to_lower v
      → IsNamed to_lower r.name r.normalized_name
      → has_category r.category_id v ≡ true
      → has_subcategory r.category_id r.normalized_name (some r.id) v ≡ false
      → IsVocabulary to_lower (replace_subcategory r.id (λ _. r) v)
  unfolding has_subcategory
  replace_subcategory-IsVocabulary r v ok named there free = record {
    apart = ok.apart;
    named = ok.named;
    sub_apart =
        Pairwise-map SubApart (Fits r) (λ s. if s.id === r.id then r else s) v.subcategories
          (λ s t. replaced-SubApart r s t)
          (All-any (Fits r)
            (λ s.
              not (is_excluded (some r.id) s.id)
              && s.category_id === r.category_id
              && s.normalized_name === r.normalized_name)
            v.subcategories (λ s. Fits-free r s) free)
          ok.sub_apart;
    sub_named =
        All-map (λ s. IsNamed to_lower s.name s.normalized_name)
          (λ s. IsNamed to_lower s.name s.normalized_name) (λ s. if s.id === r.id then r else s)
          v.subcategories
          (λ s h. elim (Bool-cases (s.id === r.id)) [
            | inl hit ↦ rw hit named
            | inr miss ↦ rw miss h
          ])
          ok.sub_named;
    owned =
        All-map (λ s. has_category s.category_id v ≡ true)
          (λ s. has_category s.category_id v ≡ true) (λ s. if s.id === r.id then r else s)
          v.subcategories
          (λ s h. elim (Bool-cases (s.id === r.id)) [
            | inl hit ↦ rw hit there
            | inr miss ↦ rw miss h
          ])
          ok.owned;
  }

  pub remove_subcategory-IsVocabulary :
      (id : String) (v : CategoryVocabulary)
      → IsVocabulary to_lower v
      → IsVocabulary to_lower (remove_subcategory id v).1
  unfolding remove_subcategory
  remove_subcategory-IsVocabulary id v ok =
      elim (Bool-cases (any (λ s. s.id === id) v.subcategories)) [
        | inr missing ↦ rw missing ok
        | inl there ↦ rw there (record {
          apart = ok.apart;
          named = ok.named;
          sub_apart =
              Pairwise-filter SubApart (λ s. not (s.id === id)) v.subcategories ok.sub_apart;
          sub_named =
              All-filter (λ s. IsNamed to_lower s.name s.normalized_name) (λ s. not (s.id === id))
                v.subcategories ok.sub_named;
          owned =
              All-filter (λ s. has_category s.category_id v ≡ true) (λ s. not (s.id === id))
                v.subcategories ok.owned;
        })
      ]

  pub move_subcategory-IsVocabulary :
      (id target : String) (v : CategoryVocabulary)
      → IsVocabulary to_lower v
      → IsVocabulary to_lower (move_subcategory id target v).1
  unfolding move_subcategory move_found
  move_subcategory-IsVocabulary id target v ok =
      elim (Option-cases (find (λ s. s.id === id) v.subcategories)) [
        | inl missing ↦ rw missing ok
        | inr (s, there) ↦
            let same : s.id ≡ id =
              (eq_iff s.id id).0 (find-holds (λ s. s.id === id) v.subcategories s there) in
            let named =
              find-All (λ s. IsNamed to_lower s.name s.normalized_name) (λ s. s.id === id)
                v.subcategories ok.sub_named there in
            rw there (elim (Bool-cases (has_category target v)) [
              | inr missing ↦ rw missing ok
              | inl parent ↦
                  elim (Bool-cases (has_subcategory target s.normalized_name (some id) v)) [
                    | inl taken ↦ rw (parent, taken) ok
                    | inr free ↦
                        rw (parent, free)
                          (subst
                            (λ i.
                              IsVocabulary to_lower
                                (replace_subcategory i (λ _. moved_to target s) v))
                            same
                            (replace_subcategory-IsVocabulary (moved_to target s) v ok named parent
                              (rw same free)))
                  ]
            ])
      ]

module _ (trim to_lower : String → String) where
  pub rename_subcategory-IsVocabulary :
      (id name : String) (v : CategoryVocabulary)
      → IsVocabulary to_lower v
      → IsVocabulary to_lower (rename_subcategory trim to_lower id name v).1
  unfolding rename_subcategory rename_found
  rename_subcategory-IsVocabulary id name v ok =
      let n = normalize_name trim to_lower name in
      elim (Option-cases (find (λ s. s.id === id) v.subcategories)) [
        | inl missing ↦ rw missing ok
        | inr (s, there) ↦
            let same : s.id ≡ id =
              (eq_iff s.id id).0 (find-holds (λ s. s.id === id) v.subcategories s there) in
            let parent =
              find-All (λ s. has_category s.category_id v ≡ true) (λ s. s.id === id) v.subcategories
                ok.owned there in
            rw there (elim (Bool-cases (n === "")) [
              | inl blank ↦ rw blank ok
              | inr filled ↦ elim (Bool-cases (has_subcategory s.category_id n (some id) v)) [
                | inl taken ↦ rw (filled, taken) ok
                | inr free ↦
                    rw (filled, free)
                      (subst
                        (λ i.
                          IsVocabulary to_lower (
                            replace_subcategory i (λ _. renamed_subcategory trim to_lower name s)
                              v))
                        same
                        (replace_subcategory-IsVocabulary to_lower
                          (renamed_subcategory trim to_lower name s) v ok
                          (λ e. absurd (ground (arith, eq_iff n "")), refl) parent (rw same free)))
              ]
            ])
      ]

  pub add_subcategory-IsVocabulary :
      (id category_id name : String) (v : CategoryVocabulary)
      → IsVocabulary to_lower v
      → any (λ s. s.id === id) v.subcategories ≡ false
      → IsVocabulary to_lower (add_subcategory trim to_lower id category_id name v).1
  unfolding add_subcategory has_subcategory
  add_subcategory-IsVocabulary id category_id name v ok fresh =
      let n = normalize_name trim to_lower name in
      let made = new_subcategory trim to_lower id category_id name in
      elim (Bool-cases (has_category category_id v)) [
        | inr missing ↦ rw missing ok
        | inl parent ↦ elim (Bool-cases (n === "")) [
          | inl blank ↦ rw (parent, blank) ok
          | inr filled ↦ elim (Bool-cases (has_subcategory category_id n none v)) [
            | inl taken ↦ rw (parent, filled, taken) ok
            | inr free ↦
                rw (parent, filled, free)
                  (record {
                    apart = ok.apart;
                    named = ok.named;
                    sub_apart = Pairwise-append SubApart v.subcategories made ok.sub_apart (
                        All-both (λ s. s.id ≢ id)
                          (λ s. s.category_id ≡ category_id → s.normalized_name ≢ n) v.subcategories
                          (All-any (λ s. s.id ≢ id) (λ s. s.id === id) v.subcategories
                            (λ s h. ground (arith, eq_iff s.id id)) fresh)
                          (All-any (λ s. s.category_id ≡ category_id → s.normalized_name ≢ n)
                            (λ s.
                              not (is_excluded none s.id)
                              && s.category_id === category_id
                              && s.normalized_name === n)
                            v.subcategories
                            (λ s h c e. absurd (
                              ground (
                                arith,
                                eq_iff s.category_id category_id,
                                eq_iff s.normalized_name n,
                              )))
                            free));
                    sub_named =
                        All-append (λ s. IsNamed to_lower s.name s.normalized_name) v.subcategories
                          (made ∷ []) ok.sub_named
                          ((λ e. absurd (ground (arith, eq_iff n "")), refl), tt);
                    owned =
                        All-append (λ s. has_category s.category_id v ≡ true) v.subcategories
                          (made ∷ []) ok.owned (parent, tt);
                  })
          ]
        ]
      ]
