-- ===== src/FileSchema/Conform.antt =====
-- When a value that conforms to the type of a column in FileSchema conforms to another type.
use airbyte_python_cdk.Prelude.{
  ℕ, ◌≤◌, ◌≡◌, ◌≢◌, refl, sym, ap, ◌∙◌, Bool, true, false, Option, some, ◌⊎◌, arith,
}
use airbyte_python_cdk.Python.Exceptions.{Result, ok, raise}
use airbyte_python_cdk.FileSchema.{
  JsonType, null, boolean, integer, number, string, object, array, other, TypeEntry, one,
  Definition, PyClass, none_type, list, other_class, Value, plain, items, get_comparable_type,
  get_inferred_type, is_equal_or_narrower_type, is_valid_type, mapped_type, wider_of, check_value,
  class_of, Verdict, answer, next_column, refuse_or_next,
}

abbrev pub is_scalar : JsonType → Bool
is_scalar boolean = true
is_scalar integer = true
is_scalar number = true
is_scalar string = true
is_scalar _ = false

-- The types to which only None conforms.
abbrev pub takes_none : JsonType → Bool
takes_none null = true
takes_none (other name) = true
takes_none _ = false

abbrev pub rank : JsonType → ℕ
rank boolean = 1
rank integer = 2
rank number = 3
rank string = 4
rank object = 5
rank _ = 0

rank_lem : (t : JsonType) → is_scalar t ≡ true → get_comparable_type t ≡ some (rank t)
unfolding get_comparable_type
rank_lem null e = cc
rank_lem object e = cc
rank_lem array e = cc
rank_lem (other name) e = cc
rank_lem t e = refl

check_one :
    (t : JsonType) (value : Value) (items_type : Option JsonType)
    → is_scalar t ≡ true
    → check_value value (one t) items_type
      ≡ refuse_or_next (is_equal_or_narrower_type (class_of value) (some t))
unfolding check_value
check_one null (plain c) items_type e = cc
check_one null (items cs) items_type e = cc
check_one object (plain c) items_type e = cc
check_one object (items cs) items_type e = cc
check_one array (plain c) items_type e = cc
check_one array (items cs) items_type e = cc
check_one (other name) (plain c) items_type e = cc
check_one (other name) (items cs) items_type e = cc
check_one t (plain c) items_type e = refl
check_one t (items cs) items_type e = refl

narrower_mono :
    (c : PyClass) (t1 t2 : JsonType)
    → is_scalar t1 ≡ true
    → is_scalar t2 ≡ true
    → rank t1 ≤ rank t2
    → is_equal_or_narrower_type c (some t1) ≡ ok true
    → is_equal_or_narrower_type c (some t2) ≡ ok true
unfolding is_equal_or_narrower_type get_inferred_type
narrower_mono list t1 t2 e f le h = cc
narrower_mono other_class t1 t2 e f le h = cc
narrower_mono c t1 t2 e f le h = ground (arith, rank_lem t1, rank_lem t2)

-- The verdict lets the record pass here.
abbrev pub is_pass : Verdict → Bool
is_pass (answer b) = b
is_pass next_column = true

narrower_verdict :
    (r : Result Bool) (verdict : Verdict)
    → is_pass verdict ≡ true
    → refuse_or_next r ≡ ok verdict
    → (r ≡ ok true) × (verdict ≡ next_column)
narrower_verdict (raise x) verdict e h = cc
narrower_verdict (ok true) (answer b) e h = cc
narrower_verdict (ok true) next_column e h = (refl, refl)
narrower_verdict (ok false) (answer b) e h = cc
narrower_verdict (ok false) next_column e h = cc

-- No value but None conforms to such a type.
none_conforms :
    (t : JsonType) (c : PyClass)
    → takes_none t ≡ true
    → is_equal_or_narrower_type c (some t) ≡ ok true
    → c ≡ none_type
unfolding is_equal_or_narrower_type get_inferred_type get_comparable_type
none_conforms null none_type e h = refl
none_conforms null c e h = cc
none_conforms (other name) none_type e h = cc
none_conforms (other name) c e h = cc
none_conforms boolean none_type e h = cc
none_conforms boolean c e h = cc
none_conforms t c e h = cc

check_none :
    (t : JsonType) (value : Value) (items_type : Option JsonType)
    → takes_none t ≡ true
    → check_value value (one t) items_type
      ≡ refuse_or_next (is_equal_or_narrower_type (class_of value) (some t))
unfolding check_value
check_none boolean (plain c) items_type e = cc
check_none boolean (items cs) items_type e = cc
check_none integer (plain c) items_type e = cc
check_none integer (items cs) items_type e = cc
check_none number (plain c) items_type e = cc
check_none number (items cs) items_type e = cc
check_none string (plain c) items_type e = cc
check_none string (items cs) items_type e = cc
check_none object (plain c) items_type e = cc
check_none object (items cs) items_type e = cc
check_none array (plain c) items_type e = cc
check_none array (items cs) items_type e = cc
check_none t (plain c) items_type e = refl
check_none t (items cs) items_type e = refl

-- Whatever passes the first type passes the second one, with the same verdict.
abbrev pub IsWider : TypeEntry → Option JsonType → TypeEntry → Option JsonType → Type 0
IsWider t1 items1 t2 items2 =
    (value : Value) (verdict : Verdict)
    → value ≢ plain none_type
    → is_pass verdict ≡ true
    → check_value value t1 items1 ≡ ok verdict
    → check_value value t2 items2 ≡ ok verdict

pub scalar-IsWider :
    (t1 t2 : JsonType) (items1 items2 : Option JsonType)
    → is_scalar t1 ≡ true
    → is_scalar t2 ≡ true
    → rank t1 ≤ rank t2
    → IsWider (one t1) items1 (one t2) items2
scalar-IsWider t1 t2 items1 items2 e1 e2 le value verdict some_value pass h =
    let (fits, next) =
      narrower_verdict (is_equal_or_narrower_type (class_of value) (some t1)) verdict pass
        (sym (check_one t1 value items1 e1) ∙ h) in
    check_one t2 value items2 e2
    ∙ ap refuse_or_next (narrower_mono (class_of value) t1 t2 e1 e2 le fits)
    ∙ ap ok (sym next)

none_type-class_of : (value : Value) → class_of value ≡ none_type → value ≡ plain none_type
none_type-class_of (plain c) e = ap plain e
none_type-class_of (items cs) e = cc

pub none-IsWider :
    (t1 : JsonType) (t2 : TypeEntry) (items1 items2 : Option JsonType)
    → takes_none t1 ≡ true
    → IsWider (one t1) items1 t2 items2
none-IsWider t1 t2 items1 items2 e value verdict some_value pass h =
    let (fits, next) =
      narrower_verdict (is_equal_or_narrower_type (class_of value) (some t1)) verdict pass
        (sym (check_none t1 value items1 e) ∙ h) in
    absurd (some_value (none_type-class_of value (none_conforms t1 (class_of value) e fits)))

-- Of two unequal definitions the first is chosen, or the second with a wider type.
abbrev pub IsChosen :
    {V : Type 0} → JsonType → JsonType → Definition V → Definition V → Definition V → Type 0
IsChosen t1 t2 d1 d2 d =
    (d ≡ d1)
    ⊎ ((d ≡ d2)
        × ((takes_none t1 ≡ true)
            ⊎ ((is_scalar t1 ≡ true) × (is_scalar t2 ≡ true) × (rank t1 ≤ rank t2))))

module _ {V : Type 0} (same : Definition V → Definition V → Bool) where
  pub wider_of-IsChosen :
      (t1 t2 : JsonType) (d1 d2 d : Definition V)
      → same d1 d2 ≡ false
      → is_valid_type (one t2) ≡ true
      → wider_of same t1 t2 d1 d2 ≡ ok d
      → IsChosen t1 t2 d1 d2 d
  unfolding get_comparable_type mapped_type is_valid_type
  wider_of-IsChosen null null d1 d2 d e valid h = ground arith
  wider_of-IsChosen t1 (other name) d1 d2 d e valid h = cc
  wider_of-IsChosen t1 t2 d1 d2 d e valid h = ground arith
