-- ===== src/FileSchema.antt =====
-- airbyte_cdk/sources/file_based/schema_helpers.py: schemas of files, merged and compared with records.
-- A schema is a dictionary of definitions, a value of a record its Python class, and for a list the
-- classes of its items. `V` is what else stands in a definition.
pub mod ListTypes
pub mod Extension
pub mod Widening
pub mod Merge
pub mod Conform
mod Tests
use airbyte_python_cdk.Prelude.{
  ℕ, Bool, true, false, not, ◌&&◌, ◌||◌, Option, none, some, List, [], ◌∷◌, ◌++◌, map, all, leb,
  ltb, if◌then◌else◌, String, text_key, ◌==◌,
}
use airbyte_python_cdk.Python.Exceptions.{
  Result, ok, raise, ◌>>=◌, value_error, key_error, attribute_error, schema_inference_error,
}
use airbyte_python_cdk.Python.Dict.{Dict, get, set, contains}

pub data JsonType : Type 0 where
  null boolean integer number string object array : JsonType
  other : String → JsonType

-- What stands under the key "type" of a definition, if the definition is a mapping and has it.
pub data TypeEntry : Type 0 where
  not_a_mapping absent : TypeEntry
  one : JsonType → TypeEntry
  many : List JsonType → TypeEntry

-- `items_type` is the value of "type" under the key "items".
pub record Definition (V : Type 0) : Type 0 where
  pub type : TypeEntry
  pub items_type : Option JsonType
  pub rest : V

abbrev pub Schema : Type 0 → Type 0
Schema V = Dict String (Definition V)

pub data PyClass : Type 0 where
  none_type bool int float str dict list other_class : PyClass

-- A value that is no list, or of a list the classes of the items.
pub data Value : Type 0 where
  plain : PyClass → Value
  items : List PyClass → Value

-- `get_comparable_type`: the value of ComparableType
unfoldable pub get_comparable_type : JsonType → Option ℕ
get_comparable_type null = some 0
get_comparable_type boolean = some 1
get_comparable_type integer = some 2
get_comparable_type number = some 3
get_comparable_type string = some 4
get_comparable_type object = some 5
get_comparable_type array = none
get_comparable_type (other name) = none

unfoldable pub get_inferred_type : PyClass → Option ℕ
get_inferred_type none_type = some 0
get_inferred_type bool = some 1
get_inferred_type int = some 2
get_inferred_type float = some 3
get_inferred_type str = some 4
get_inferred_type dict = some 5
get_inferred_type list = none
get_inferred_type other_class = none

-- `ComparableType(value)` of None raises.
abbrev pub comparable_type : Option ℕ → Result ℕ
comparable_type none = raise value_error
comparable_type (some rank) = ok rank

abbrev pub expected_rank : Option JsonType → Result ℕ
expected_rank none = raise value_error
expected_rank (some t) = comparable_type (get_comparable_type t)

unfoldable pub is_equal_or_narrower_type : PyClass → Option JsonType → Result Bool
is_equal_or_narrower_type list expected_type = ok false
is_equal_or_narrower_type value expected_type =
    comparable_type (get_inferred_type value) >>= λ inferred.
    expected_rank expected_type >>= λ expected. ok (leb inferred expected)

abbrev pub is_array : JsonType → Bool
is_array array = true
is_array _ = false

abbrev pub is_object : JsonType → Bool
is_object object = true
is_object _ = false

abbrev pub is_null : JsonType → Bool
is_null null = true
is_null _ = false

abbrev pub is_known : Option ℕ → Bool
is_known none = false
is_known (some rank) = true

-- `_is_valid_type` of the type of a mapping
unfoldable pub is_valid_type : TypeEntry → Bool
unfolding get_comparable_type
is_valid_type not_a_mapping = false
is_valid_type absent = false
is_valid_type (many types) = false
is_valid_type (one t) = is_array t || is_known (get_comparable_type t)

-- `TYPE_PYTHON_MAPPING[t][0]`
unfoldable pub mapped_type : JsonType → Result JsonType
mapped_type (other name) = if name == "float" then ok number else raise key_error
mapped_type t = ok t

-- The key by which `max` compares.
abbrev pub rank_of : JsonType → Result ℕ
rank_of t = mapped_type t >>= λ t'. comparable_type (get_comparable_type t')

-- `same` is Python's comparison of two definitions.
module _ {V : Type 0} (same : Definition V → Definition V → Bool) where
  abbrev pub wider_by_rank : Definition V → Definition V → ℕ → ℕ → Definition V
  wider_by_rank d1 d2 rank1 rank2 = if ltb rank1 rank2 then d2 else d1

  abbrev pub wider_of : JsonType → JsonType → Definition V → Definition V → Result (Definition V)
  wider_of t1 t2 d1 d2 =
      if (is_array t1 || is_array t2) && not (same d1 d2)
      then raise schema_inference_error
      else if (is_object t1 || is_object t2)
          && (not (is_null t1) && (not (is_null t2) && not (same d1 d2)))
      then raise schema_inference_error
      else (mapped_type t1 >>= λ m1. mapped_type t2 >>= λ m2.
          if not (is_known (get_comparable_type m1)) && is_known (get_comparable_type m2)
          then raise schema_inference_error
          else (rank_of t1 >>= λ rank1.
              rank_of t2 >>= λ rank2. ok (wider_by_rank d1 d2 rank1 rank2)))

  -- Both types are single ones, since the schemas were found valid.
  abbrev pub choose_by_type :
      TypeEntry → TypeEntry → Definition V → Definition V → Result (Definition V)
  choose_by_type (one t1) (one t2) d1 d2 = wider_of t1 t2 d1 d2
  choose_by_type _ _ d1 d2 = raise key_error

  unfoldable pub choose_wider_type : Definition V → Definition V → Result (Definition V)
  choose_wider_type d1 d2 = choose_by_type d1.type d2.type d1 d2

  -- A column of the second schema
  abbrev pub merge_column :
      Option (Definition V) → String → Definition V → Schema V → Result (Schema V)
  merge_column none k d2 merged = ok (set merged k d2)
  merge_column (some d1) k d2 merged =
      if same d1 d2 then ok merged else (choose_wider_type d1 d2 >>= λ d. ok (set merged k d))

  unfoldable pub merge_columns : Schema V → Schema V → Result (Schema V)
  merge_columns [] merged = ok merged
  merge_columns ((k, d2) ∷ schema2) merged =
      merge_column (get merged k) k d2 merged >>= merge_columns schema2

  unfoldable pub merge_schemas : Schema V → Schema V → Result (Schema V)
  merge_schemas schema1 schema2 =
      if all (λ column. is_valid_type column.1.type) (schema1 ++ schema2)
      then merge_columns schema2 schema1
      else raise schema_inference_error

-- `any` and `all` of a test that may raise stop at the first item that decides.
abbrev pub any_type : PyClass → List JsonType → Result Bool
any_type value [] = ok false
any_type value (t ∷ types) = is_equal_or_narrower_type value (some t) >>= λ fits. elim fits [
  | true ↦ ok true
  | false ↦ any_type value types
]

abbrev pub all_items : List PyClass → Option JsonType → Result Bool
all_items [] t = ok true
all_items (value ∷ values) t = is_equal_or_narrower_type value t >>= λ fits. elim fits [
  | true ↦ all_items values t
  | false ↦ ok false
]

abbrev pub class_of : Value → PyClass
class_of (plain c) = c
class_of (items cs) = list

abbrev pub is_dict : PyClass → Bool
is_dict dict = true
is_dict _ = false

-- A column decides the answer, or the next one is looked at.
pub data Verdict : Type 0 where
  answer : Bool → Verdict
  next_column : Verdict

abbrev pub refuse_or_next : Result Bool → Result Verdict
refuse_or_next (raise x) = raise x
refuse_or_next (ok true) = ok next_column
refuse_or_next (ok false) = ok (answer false)

abbrev pub answer_with : Result Bool → Result Verdict
answer_with (raise x) = raise x
answer_with (ok b) = ok (answer b)

-- A value that is not None, against the type of its column.
unfoldable pub check_value : Value → TypeEntry → Option JsonType → Result Verdict
check_value value not_a_mapping items_type = raise attribute_error
check_value value absent items_type =
    refuse_or_next (is_equal_or_narrower_type (class_of value) none)
check_value value (many types) items_type = answer_with (any_type (class_of value) types)
check_value value (one object) items_type = ok (answer (is_dict (class_of value)))
check_value (plain c) (one array) items_type = ok (answer false)
check_value (items cs) (one array) items_type = refuse_or_next (all_items cs items_type)
check_value value (one t) items_type =
    refuse_or_next (is_equal_or_narrower_type (class_of value) (some t))

abbrev pub after_column : Verdict → Result Bool → Result Bool
after_column (answer b) rest = ok b
after_column next_column rest = rest

module _ {V : Type 0} where
  -- `record.get(column)` is not None
  abbrev pub check_column : Option Value → Definition V → Result Verdict
  check_column none d = elim d.type [ not_a_mapping ↦ raise attribute_error | _ ↦ ok next_column ]
  check_column (some (plain none_type)) d = elim d.type [
    | not_a_mapping ↦ raise attribute_error
    | _ ↦ ok next_column
  ]
  check_column (some value) d = check_value value d.type d.items_type

  unfoldable pub check_columns : Dict String Value → Schema V → Result Bool
  check_columns row [] = ok true
  check_columns row ((column, d) ∷ schema) =
      let rest = check_columns row schema in
      check_column (get row column) d >>= λ verdict. after_column verdict rest

  unfoldable pub conforms_to_schema : Dict String Value → Schema V → Result Bool
  conforms_to_schema row schema =
      if all (λ entry. contains (map (λ column. column.0) schema) entry.0) row
      then check_columns row schema
      else ok false
