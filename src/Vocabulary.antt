-- ===== src/Vocabulary.antt =====
-- src/domain/entities/CategoryVocabulary.ts: the aggregate of a spreadsheet's categories and
-- subcategories. An operation takes the vocabulary and returns its result, or the error that it
-- throws, with the vocabulary it leaves. `trim` and `toLowerCase`, which the language specifies over
-- Unicode, are parameters; the id of a new entry, from `randomUUID()`, is an argument.
pub mod Laws
pub mod Children
pub mod Reached
use gastto.Base.{
  find, [], ◌∷◌, ◌++◌, ◌&&◌, none, ◌===◌, not, false, any, some, if◌then◌else◌, map, filter, Bool,
  Option, List, String,
}

pub record Category : Type 0 where
  pub id : String
  pub name : String
  pub normalized_name : String

pub record Subcategory : Type 0 where
  pub id : String
  pub category_id : String
  pub name : String
  pub normalized_name : String

pub record CategoryVocabulary : Type 0 where
  pub categories : List Category
  pub subcategories : List Subcategory

-- The `DomainValidationError`s, with the name or the id that the message carries.
pub data ValidationError : Type 0 where
  category_name_empty subcategory_name_empty : ValidationError
  category_exists subcategory_exists subcategory_exists_in_target : String → ValidationError
  category_not_found subcategory_not_found : String → ValidationError

pub data Outcome (A : Type 0) : Type 0 where
  done : A → Outcome A
  refused : ValidationError → Outcome A

abbrev pub has_category : String → CategoryVocabulary → Bool
has_category id v = any (λ c. c.id === id) v.categories

-- `hasSubcategory`; no excluded id is `none`.
abbrev pub is_excluded : Option String → String → Bool
is_excluded none id = false
is_excluded (some x) id = id === x

unfoldable pub has_subcategory : String → String → Option String → CategoryVocabulary → Bool
has_subcategory category_id normalized excluded v =
    any
      (λ s.
        not (is_excluded excluded s.id)
        && s.category_id === category_id
        && s.normalized_name === normalized)
      v.subcategories

unfoldable pub remove_category : String → CategoryVocabulary → CategoryVocabulary
remove_category id v = record {
  categories = filter (λ c. not (c.id === id)) v.categories;
  subcategories = filter (λ s. not (s.category_id === id)) v.subcategories;
}

abbrev pub delete_subcategory : String → CategoryVocabulary → CategoryVocabulary
delete_subcategory id v = record v {
  subcategories = filter (λ s. not (s.id === id)) v.subcategories;
}

abbrev pub replace_subcategory :
    String → (Subcategory → Subcategory) → CategoryVocabulary → CategoryVocabulary
replace_subcategory id f v = record v {
  subcategories = map (λ s. if s.id === id then f s else s) v.subcategories;
}

unfoldable pub remove_subcategory : String → CategoryVocabulary → Outcome Unit × CategoryVocabulary
remove_subcategory id v =
    if any (λ s. s.id === id) v.subcategories
    then (done tt, delete_subcategory id v)
    else (refused (subcategory_not_found id), v)

abbrev pub moved_to : String → Subcategory → Subcategory
moved_to target s = record s { category_id = target }

unfoldable pub move_found :
    String
    → String
    → Option Subcategory
    → CategoryVocabulary
    → Outcome Subcategory × CategoryVocabulary
unfolding has_subcategory
move_found id target none v = (refused (subcategory_not_found id), v)
move_found id target (some existing) v =
    if not (has_category target v)
    then (refused (category_not_found target), v)
    else if has_subcategory target existing.normalized_name (some id) v
    then (refused (subcategory_exists_in_target existing.name), v)
    else (done (moved_to target existing), replace_subcategory id (λ _. moved_to target existing) v)

unfoldable pub move_subcategory :
    String → String → CategoryVocabulary → Outcome Subcategory × CategoryVocabulary
unfolding move_found
move_subcategory id target v = move_found id target (find (λ s. s.id === id) v.subcategories) v

module _ (trim to_lower : String → String) where
  abbrev pub normalize_name : String → String
  normalize_name name = to_lower (trim name)

  unfoldable pub find_subcategory : String → String → CategoryVocabulary → Option Subcategory
  find_subcategory category_id name v =
      find (λ s. s.category_id === category_id && s.normalized_name === normalize_name name)
        v.subcategories

  abbrev pub new_category : String → String → Category
  new_category id name = record { id = id; name = trim name; normalized_name = normalize_name name }

  unfoldable pub add_category :
      String → String → CategoryVocabulary → Outcome Category × CategoryVocabulary
  add_category id name v =
      if normalize_name name === ""
      then (refused category_name_empty, v)
      else if any (λ c. c.normalized_name === normalize_name name) v.categories
      then (refused (category_exists (trim name)), v)
      else (
        done (new_category id name),
        record v { categories = v.categories ++ new_category id name ∷ [] },
      )

  abbrev pub renamed : String → String → Category → Category
  renamed id name c =
      if c.id === id
      then record c { name = trim name; normalized_name = normalize_name name }
      else c

  abbrev pub found_or_refused : String → Option Category → Outcome Category
  found_or_refused id none = refused (category_not_found id)
  found_or_refused id (some c) = done c

  unfoldable pub rename_category :
      String → String → CategoryVocabulary → Outcome Category × CategoryVocabulary
  rename_category id name v =
      let categories = map (renamed id name) v.categories in
      if normalize_name name === ""
      then (refused category_name_empty, v)
      else if any (λ c. not (c.id === id) && c.normalized_name === normalize_name name) v.categories
      then (refused (category_exists (trim name)), v)
      else (
        found_or_refused id (find (λ c. c.id === id) categories),
        record v { categories = categories },
      )

  abbrev pub new_subcategory : String → String → String → Subcategory
  new_subcategory id category_id name = record {
    id = id;
    category_id = category_id;
    name = trim name;
    normalized_name = normalize_name name;
  }

  unfoldable pub add_subcategory :
      String → String → String → CategoryVocabulary → Outcome Subcategory × CategoryVocabulary
  unfolding has_subcategory
  add_subcategory id category_id name v =
      if not (has_category category_id v)
      then (refused (category_not_found category_id), v)
      else if normalize_name name === ""
      then (refused subcategory_name_empty, v)
      else if has_subcategory category_id (normalize_name name) none v
      then (refused (subcategory_exists (trim name)), v)
      else (
        done (new_subcategory id category_id name),
        record v { subcategories = v.subcategories ++ new_subcategory id category_id name ∷ [] },
      )

  abbrev pub renamed_subcategory : String → Subcategory → Subcategory
  renamed_subcategory name s = record s { name = trim name; normalized_name = normalize_name name }

  unfoldable pub rename_found :
      String
      → String
      → Option Subcategory
      → CategoryVocabulary
      → Outcome Subcategory × CategoryVocabulary
  unfolding has_subcategory
  rename_found id name none v = (refused (subcategory_not_found id), v)
  rename_found id name (some existing) v =
      if normalize_name name === ""
      then (refused subcategory_name_empty, v)
      else if has_subcategory existing.category_id (normalize_name name) (some id) v
      then (refused (subcategory_exists (trim name)), v)
      else (
        done (renamed_subcategory name existing),
        replace_subcategory id (λ _. renamed_subcategory name existing) v,
      )

  unfoldable pub rename_subcategory :
      String → String → CategoryVocabulary → Outcome Subcategory × CategoryVocabulary
  unfolding rename_found
  rename_subcategory id name v = rename_found id name (find (λ s. s.id === id) v.subcategories) v
