-- ===== src/Mappings/Tests.antt =====
-- Options of two requests.
use airbyte_python_cdk.Prelude.{
  ℕ, ◌≡◌, refl, Option, none, some, List, [], ◌∷◌, String, text_key, All,
}
use airbyte_python_cdk.Python.Exceptions.{ok, raise, value_error}
use airbyte_python_cdk.Python.Dict
use airbyte_python_cdk.Python.Dict.{Dict, contains, add}
use airbyte_python_cdk.Mappings.{
  Options, mapping, items_of, combine_mappings, combine_mappings-keeps, combine_items,
  string_options, first_text, union, set_items,
}

abbrev options : List (Option (Options ℕ))
options = some (mapping (("page", 1) ∷ [])) ∷ none ∷ some (mapping (("size", 9) ∷ [])) ∷ []

abbrev combined : Dict String ℕ
combined = ("page", 1) ∷ ("size", 9) ∷ []

options_combine : combine_mappings options ≡ ok (mapping combined)
unfolding combine_mappings combine_items string_options first_text union set_items contains add
    Dict.set
options_combine = refl

page_twice : combine_mappings (some (mapping (("page", 1) ∷ [])) ∷ options) ≡ raise value_error
unfolding combine_mappings combine_items string_options first_text union set_items contains add
    Dict.set
page_twice = refl

combine_mappings-keeps_example :
    All (λ item. Dict.get combined item.0 ≡ some item.1) (items_of options)
combine_mappings-keeps_example = combine_mappings-keeps options combined options_combine
