-- ===== src/Backend.antt =====
-- The backend adapter's recipe language: the tables of api/backend-adapter-constants.js, and how a
-- validator that fills an object with counts is written. A run takes the counts and gives the
-- errors, in their order, with the counts after it.
pub mod Recipe
pub mod Checks
pub mod Outcome
pub mod Response
pub mod Dates
pub mod Dynamic
pub mod Tests
pub mod DynamicTests
use autoform_panel.Stats.{unless}
use autoform_panel.Js.Value.{str, contains, Value}
use autoform_panel.Prelude.{String, Bool, false, not, List, [], ◌∷◌, ◌++◌, str_eq, if◌then◌else◌}
use Prim.Native.String

abbrev pub Run : Type 0 → Type 0
Run S = S → List String × S

module _ {S : Type 0} where
  abbrev pub report : List String → Run S
  report errors counts = (errors, counts)

  infixr 6 ◌>>>◌
  abbrev pub ◌>>>◌ : Run S → Run S → Run S
  ◌>>>◌ first second counts =
      ((first counts).0 ++ (second (first counts).1).0, (second (first counts).1).1)

-- allowOnly of api/backend-adapter-outcome-policy.js, by the names of the object
abbrev pub allow_names : String → List String → List String → List String
allow_names path allowed [] = []
allow_names path allowed (k ∷ ks) =
    unless (contains allowed k) (path ∷ "." ∷ k ∷ " is not supported" ∷ [])
    ++ allow_names path allowed ks

-- `texts.includes(value)`
abbrev pub text_among : List String → Value → Bool
text_among texts (str s) = contains texts s
text_among texts _ = false

-- RECIPE_SELECTOR_ATTRIBUTES
abbrev pub selector_attributes : List String
selector_attributes =
    "id" ∷ "kind" ∷ "type" ∷ "parentType" ∷ "typeName" ∷ "title" ∷ "englishTitle" ∷ "searchText"
    ∷ "required" ∷ "visible" ∷ "hasOptions" ∷ []

-- RECIPE_SEARCH_TEXT_ATTRIBUTES
abbrev pub search_text_attributes : List String
search_text_attributes = "id" ∷ "type" ∷ "parentType" ∷ "typeName" ∷ "title" ∷ "englishTitle" ∷ []

-- RECIPE_PATH_KEYS
abbrev pub path_keys : String → List String
path_keys root =
    if str_eq root "template"
    then "id" ∷ "name" ∷ "sku" ∷ "step" ∷ "warehouseId" ∷ "fieldList" ∷ []
    else if str_eq root "field"
    then "id" ∷ "type" ∷ "parentType" ∷ "typeName" ∷ "title" ∷ "englishTitle" ∷ "required"
      ∷ "visible" ∷ "maxCount" ∷ "options" ∷ "kind" ∷ "searchText" ∷ "hasOptions" ∷ []
    else if str_eq root "option"
    then "id" ∷ "title" ∷ "englishTitle" ∷ "quantity" ∷ "searchText" ∷ "hasOptions" ∷ []
    else if str_eq root "input"
    then "serial" ∷ []
    else if str_eq root "identity"
    then "templateId" ∷ "expectedStep" ∷ "warehouseId" ∷ "sku" ∷ []
    else []

abbrev pub all_roots : List String
all_roots = "template" ∷ "field" ∷ "option" ∷ "input" ∷ "identity" ∷ []
