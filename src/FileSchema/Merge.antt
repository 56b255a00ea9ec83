-- ===== src/FileSchema/Merge.antt =====
-- What merging schemas in FileSchema does to the records that conform.
use airbyte_python_cdk.Prelude.{
  ◌≡◌, ◌≢◌, refl, sym, subst, Bool, true, false, Option, none, some, List, [], ◌∷◌, ◌++◌, all,
  if◌then◌else◌, String, text_key, inl, inr, arith, Bool-cases,
}
use airbyte_python_cdk.Python.Exceptions.{schema_inference_error, ok, raise, ◌>>=◌, ok_of_bind}
use airbyte_python_cdk.Python.Dict.{Dict, get, set, contains}
use airbyte_python_cdk.FileSchema.{
  TypeEntry, not_a_mapping, Definition, Schema, Value, is_valid_type, choose_wider_type,
  merge_column, merge_columns, merge_schemas, check_column, conforms_to_schema, next_column,
}
use airbyte_python_cdk.FileSchema.Widening.{choose_by_type-Widens}
use airbyte_python_cdk.FileSchema.Extension.{
  columns, Extends, Extends-refl, Extends-set, Accepts, covered-Extends, check_columns-Extends,
  not_in_row,
}

ok_injective : {A : Type 0} {a b : A} → ok a ≡ ok b → a ≡ b
ok_injective h = cc

same_branch :
    {A : Type 0} (b : Bool) (x y : A) {r : A} → b ≡ true → (if b then x else y) ≡ r → x ≡ r
same_branch true x y e h = h
same_branch false x y e h = cc

different_branch :
    {A : Type 0} (b : Bool) (x y : A) {r : A} → b ≡ false → (if b then x else y) ≡ r → y ≡ r
different_branch true x y e h = cc
different_branch false x y e h = h

-- Only the first branch gives this result.
then_branch :
    {A : Type 0} (b : Bool) (x y : A) {r : A}
    → y ≢ r
    → (if b then x else y) ≡ r
    → (b ≡ true) × (x ≡ r)
then_branch true x y other h = (refl, h)
then_branch false x y other h = absurd (other h)

raise_not_ok : {A : Type 0} {a : A} → raise schema_inference_error ≢ ok a
raise_not_ok e = cc

false_not_true : ok false ≢ ok true
false_not_true e = cc

all-append_right :
    {A : Type 0} (p : A → Bool) (xs ys : List A) → all p (xs ++ ys) ≡ true → all p ys ≡ true
all-append_right p [] ys h = h
all-append_right p (x ∷ xs) ys h = ground (arith, all-append_right p xs ys)

module _ {V : Type 0} (same : Definition V → Definition V → Bool) where
  valid-check_column :
      (t : TypeEntry) (d : Definition V)
      → d.type ≡ t
      → is_valid_type t ≡ true
      → check_column none d ≡ ok next_column
  unfolding is_valid_type
  valid-check_column not_a_mapping d e valid = cc
  valid-check_column t d e valid = rw (e, check_column) refl

  merge_column-Extends :
      (row : Dict String Value) (s m : Schema V) (k : String) (d2 : Definition V) (m' : Schema V)
      (found : Option (Definition V))
      → all (λ entry. contains (columns s) entry.0) row ≡ true
      → is_valid_type d2.type ≡ true
      → Extends row s m
      → get m k ≡ found
      → merge_column same found k d2 m ≡ ok m'
      → Extends row s m'
  unfolding choose_wider_type
  merge_column-Extends row s m k d2 m' none covered valid ext unknown h =
      subst (λ x. Extends row s x) (ok_injective h)
        (Extends-set row s m k d2 ext (
          subst (λ found. Accepts row k found d2) (sym unknown)
            (not_in_row row s m k covered ext unknown, valid-check_column d2.type d2 refl valid)))
  merge_column-Extends row s m k d2 m' (some d1) covered valid ext known h =
      elim (Bool-cases (same d1 d2)) [
        | inl e ↦
            subst (λ x. Extends row s x)
              (ok_injective (
                same_branch (same d1 d2) (ok m)
                  (choose_wider_type same d1 d2 >>= λ d. ok (set m k d)) e h))
              ext
        | inr e ↦
            let (d, chosen, stored) =
              ok_of_bind (choose_wider_type same d1 d2) (λ d. ok (set m k d))
                (different_branch (same d1 d2) (ok m)
                  (choose_wider_type same d1 d2 >>= λ d. ok (set m k d)) e h) in
            subst (λ x. Extends row s x) (ok_injective stored)
              (Extends-set row s m k d ext (
                subst (λ found. Accepts row k found d) (sym known)
                  (choose_by_type-Widens same d1.type d2.type d1 d2 d refl refl e valid chosen)))
      ]

  merge_columns-Extends :
      (row : Dict String Value) (s m schema2 m' : Schema V)
      → all (λ entry. contains (columns s) entry.0) row ≡ true
      → all (λ column. is_valid_type column.1.type) schema2 ≡ true
      → Extends row s m
      → merge_columns same schema2 m ≡ ok m'
      → Extends row s m'
  unfolding merge_columns
  merge_columns-Extends row s m [] m' covered valid ext h =
      subst (λ x. Extends row s x) (ok_injective h) ext
  merge_columns-Extends row s m ((k, d2) ∷ schema2) m' covered valid ext h =
      let (m1, first, others) =
        ok_of_bind (merge_column same (get m k) k d2 m) (merge_columns same schema2) h in
      merge_columns-Extends row s m1 schema2 m' covered (ground arith)
        (merge_column-Extends row s m k d2 m1 (get m k) covered (ground arith) ext refl first)
        others

  -- A record that conforms to the first schema conforms to what merging it with a second one gives.
  pub conforms_to_schema-merge_schemas :
      (schema1 schema2 merged : Schema V) (row : Dict String Value)
      → merge_schemas same schema1 schema2 ≡ ok merged
      → conforms_to_schema row schema1 ≡ ok true
      → conforms_to_schema row merged ≡ ok true
  unfolding merge_schemas conforms_to_schema columns
  conforms_to_schema-merge_schemas schema1 schema2 merged row h conforms =
      let (valid, merges) = then_branch _ _ _ raise_not_ok h in
      let (covered, passes) = then_branch _ _ _ false_not_true conforms in
      let ext =
        merge_columns-Extends row schema1 schema1 schema2 merged covered
          (all-append_right _ schema1 schema2 valid) (Extends-refl row schema1) merges in
      rw (covered-Extends row schema1 merged row ext covered)
        (check_columns-Extends row schema1 merged ext passes)
