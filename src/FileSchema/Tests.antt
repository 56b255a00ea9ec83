-- ===== src/FileSchema/Tests.antt =====
-- Runs of FileSchema, and the theorems about it on concrete schemas.
use airbyte_python_cdk.Prelude.{◌≡◌, refl, Bool, true, false, none, [], ◌∷◌, String, text_key}
use airbyte_python_cdk.Python.Exceptions.{ok, raise, schema_inference_error}
use airbyte_python_cdk.FileSchema.{
  JsonType, null, integer, string, object, array, one, many, Definition, Schema, int, str, bool,
  dict, Value, plain, get_comparable_type, get_inferred_type, is_equal_or_narrower_type,
  is_valid_type, mapped_type, choose_wider_type, merge_columns, merge_schemas, check_value,
  check_columns, conforms_to_schema, any_type,
}
use airbyte_python_cdk.FileSchema.Merge.{conforms_to_schema-merge_schemas}
use airbyte_python_cdk.Python.Dict.{Dict, get, set, contains}

abbrev column : JsonType → Definition Unit
column t = record { type = one t; items_type = none; rest = tt }

-- No two definitions are equal to the comparison here.
abbrev never_same : Definition Unit → Definition Unit → Bool
never_same d1 d2 = false

abbrev first : Schema Unit
first = ("id", column integer) ∷ ("tags", column null) ∷ []

abbrev second : Schema Unit
second = ("tags", column object) ∷ ("id", column string) ∷ ("at", column string) ∷ []

abbrev merged : Schema Unit
merged = ("id", column string) ∷ ("tags", column object) ∷ ("at", column string) ∷ []

abbrev row : Dict String Value
row = ("id", plain bool) ∷ []

merges : merge_schemas never_same first second ≡ ok merged
unfolding merge_schemas merge_columns choose_wider_type is_valid_type get_comparable_type
    mapped_type get set
merges = refl

refuses :
    merge_schemas never_same (("a", column integer) ∷ []) (("a", column array) ∷ [])
    ≡ raise schema_inference_error
unfolding merge_schemas merge_columns choose_wider_type is_valid_type get_comparable_type
    mapped_type get set
refuses = refl

conforms : conforms_to_schema row first ≡ ok true
unfolding conforms_to_schema check_columns check_value is_equal_or_narrower_type get_comparable_type
    get_inferred_type get contains
conforms = refl

conforms_to_schema-merge_schemas_example : conforms_to_schema row merged ≡ ok true
conforms_to_schema-merge_schemas_example =
    conforms_to_schema-merge_schemas never_same first second merged row merges conforms

abbrev two_types : Definition Unit
two_types = record { type = many (null ∷ string ∷ []); items_type = none; rest = tt }

abbrev odd_row : Dict String Value
odd_row = ("id", plain int) ∷ ("name", plain str) ∷ ("flag", plain dict) ∷ []

name_fits : any_type str (null ∷ string ∷ []) ≡ ok true
unfolding is_equal_or_narrower_type get_comparable_type get_inferred_type
name_fits = refl
