-- ===== src/Checks/Vocabulary.antt =====
-- The vocabulary on small inputs, with `trim` and `toLowerCase` given at the texts in use.
use gastto.Vocabulary.Laws.{IsVocabulary}
use gastto.Vocabulary.Reached.{
  find_subcategory-add_subcategory, started, category_added, Reached-IsVocabulary,
  subcategory_added, Reached,
}
use gastto.Base.{refl, ◌∷◌, some, ◌===◌, ◌≡◌, [], if◌then◌else◌, String}
use gastto.Vocabulary.{
  rename_subcategory, rename_found, category_not_found, category_exists, subcategory_exists,
  move_found, refused, remove_subcategory, add_subcategory, has_subcategory, rename_category,
  move_subcategory, add_category, find_subcategory, Subcategory, CategoryVocabulary,
  remove_category,
}

vocabulary_parts : Unit {0}
unfolding remove_category has_subcategory remove_subcategory move_found move_subcategory
    find_subcategory add_category rename_category add_subcategory rename_found rename_subcategory
vocabulary_parts = tt

abbrev trim_some : String → String
trim_some s = if s === " Comida " then "Comida" else if s === " Cafe " then "Cafe" else s

abbrev lower_some : String → String
lower_some s = if s === "Comida" then "comida" else if s === "Cafe" then "cafe" else s

abbrev nothing_yet : CategoryVocabulary
nothing_yet = record { categories = []; subcategories = [] }

abbrev with_food : CategoryVocabulary
with_food = (add_category trim_some lower_some "c1" " Comida " nothing_yet).1

abbrev with_coffee : CategoryVocabulary
with_coffee = (add_subcategory trim_some lower_some "s1" "c1" " Cafe " with_food).1

with_coffee-Reached : Reached trim_some lower_some with_coffee
unfolding vocabulary_parts
with_coffee-Reached =
    subcategory_added "s1" "c1" " Cafe " with_food refl
      (category_added "c1" " Comida " nothing_yet refl started)

Reached-IsVocabulary_example : IsVocabulary lower_some with_coffee
Reached-IsVocabulary_example =
    Reached-IsVocabulary trim_some lower_some with_coffee with_coffee-Reached

abbrev coffee : Subcategory
coffee = record { id = "s1"; category_id = "c1"; name = "Cafe"; normalized_name = "cafe" }

find_subcategory-add_subcategory_example :
    (find_subcategory trim_some lower_some "c1" "cafe" with_coffee ≡ some coffee)
    × (add_subcategory trim_some lower_some "s2" "c1" "cafe" with_coffee
        ≡ (refused (subcategory_exists "cafe"), with_coffee))
unfolding vocabulary_parts
find_subcategory-add_subcategory_example =
    find_subcategory-add_subcategory trim_some lower_some "s1" "s2" "c1" " Cafe " "cafe" with_food
      coffee refl refl

removing_takes_the_children : remove_category "c1" with_coffee ≡ nothing_yet
unfolding vocabulary_parts
removing_takes_the_children = refl

same_name_is_refused :
    (add_category trim_some lower_some "c2" "comida" with_coffee).0
    ≡ refused (category_exists "comida")
unfolding vocabulary_parts
same_name_is_refused = refl

a_child_needs_a_target :
    move_subcategory "s1" "c9" with_coffee ≡ (refused (category_not_found "c9"), with_coffee)
unfolding vocabulary_parts
a_child_needs_a_target = refl

renaming_keeps_the_id :
    (rename_category trim_some lower_some "c1" "Cafe" with_food).1.categories
    ≡ record { id = "c1"; name = "Cafe"; normalized_name = "cafe" } ∷ []
unfolding vocabulary_parts
renaming_keeps_the_id = refl
