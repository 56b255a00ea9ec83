-- ===== src/FileSchema/Extension.antt =====
-- Schemas in FileSchema that keep the columns of another one, and the records that conform.
use airbyte_python_cdk.Prelude.{
  ◌≡◌, refl, sym, subst, Bool, true, false, Option, none, some, List, [], ◌∷◌, map, all, All,
  if◌then◌else◌, String, text_key, ◌==◌, ◌⊎◌, inl, inr, arith, Bool-cases,
}
use airbyte_python_cdk.Python.Exceptions.{Result, ok, ok_of_bind}
use airbyte_python_cdk.Python.Dict.{Dict, get, set, contains}
use airbyte_python_cdk.FileSchema.{
  Definition, Schema, Value, check_column, check_columns, Verdict, answer, next_column,
  after_column,
}
use airbyte_python_cdk.FileSchema.Conform.{is_pass}
use airbyte_python_cdk.FileSchema.Widening.{Widens}

-- The columns of the first schema, maybe wider, then columns that the record does not have.
abbrev pub Extends : {V : Type 0} → Dict String Value → Schema V → Schema V → Type 0
Extends row [] m =
    All (λ column. (get row column.0 ≡ none) × (check_column none column.1 ≡ ok next_column)) m
Extends row ((k, d) ∷ s) [] = ⊥
Extends row ((k, d) ∷ s) ((j, d') ∷ m) = (k ≡ j) × Widens d d' × Extends row s m

-- What may be stored under a column
abbrev pub Accepts :
    {V : Type 0} → Dict String Value → String → Option (Definition V) → Definition V → Type 0
Accepts row k none d = (get row k ≡ none) × (check_column none d ≡ ok next_column)
Accepts row k (some d1) d = Widens d1 d

unfoldable pub columns : {V : Type 0} → Schema V → List String
columns s = map (λ column. column.0) s

contains_of_covered :
    (ks : List String) (r : Dict String Value) (k : String)
    → all (λ entry. contains ks entry.0) r ≡ true
    → (get r k ≡ none) ⊎ (contains ks k ≡ true)
unfolding get
contains_of_covered ks [] k h = inl refl
contains_of_covered ks ((j, v) ∷ r) k h =
    ground (arith, text_key.same_iff j k, contains_of_covered ks r k)

after_column-is_pass :
    (verdict : Verdict) (r : Result Bool)
    → after_column verdict r ≡ ok true
    → is_pass verdict ≡ true
after_column-is_pass (answer b) r h = cc
after_column-is_pass next_column r h = refl

after_column_mono :
    (verdict : Verdict) (r r' : Result Bool)
    → (r ≡ ok true → r' ≡ ok true)
    → after_column verdict r ≡ ok true
    → after_column verdict r' ≡ ok true
after_column_mono (answer b) r r' f h = h
after_column_mono next_column r r' f h = f h

module _ {V : Type 0} (row : Dict String Value) where
  pub Extends-refl : (s : Schema V) → Extends row s s
  Extends-refl [] = tt
  Extends-refl ((k, d) ∷ s) = (refl, (λ value verdict pass h. h), Extends-refl s)

  pub Extends-set :
      (s m : Schema V) (k : String) (d : Definition V)
      → Extends row s m
      → Accepts row k (get m k) d
      → Extends row s (set m k d)
  unfolding get set
  Extends-set [] [] k d ext acc = (acc, tt)
  Extends-set [] ((j, d') ∷ m) k d ext acc = elim (Bool-cases (j == k)) [
    | inl e ↦ rw e (
        let wider = subst (λ x. Accepts row k (if x then some d' else get m k) d) e acc in
        ((ext.0.0, wider none next_column refl ext.0.1), ext.1))
    | inr e ↦ rw e (
      ext.0,
      Extends-set [] m k d ext.1
          (subst (λ x. Accepts row k (if x then some d' else get m k) d) e acc),
    )
  ]
  Extends-set ((i, d1) ∷ s) [] k d ext acc = absurd ext
  Extends-set ((i, d1) ∷ s) ((j, d') ∷ m) k d ext acc = elim (Bool-cases (j == k)) [
    | inl e ↦ rw e (
        let wider = subst (λ x. Accepts row k (if x then some d' else get m k) d) e acc in
        (
          ext.0,
          (λ value verdict pass h. wider value verdict pass (ext.1 value verdict pass h)),
          ext.2,
        ))
    | inr e ↦ rw e (
      ext.0,
      ext.1,
      Extends-set s m k d ext.2
          (subst (λ x. Accepts row k (if x then some d' else get m k) d) e acc),
    )
  ]

  Extends-get :
      (s m : Schema V) (k : String)
      → Extends row s m
      → get m k ≡ none
      → contains (columns s) k ≡ false
  unfolding get contains columns
  Extends-get [] m k ext h = refl
  Extends-get ((i, d) ∷ s) [] k ext h = absurd ext
  Extends-get ((i, d) ∷ s) ((j, d') ∷ m) k ext h = ground (arith, Extends-get s m k ext.2)

  Extends-contains :
      (s m : Schema V) (k : String)
      → Extends row s m
      → contains (columns s) k ≡ true
      → contains (columns m) k ≡ true
  unfolding contains columns
  Extends-contains [] m k ext h = cc
  Extends-contains ((i, d) ∷ s) [] k ext h = absurd ext
  Extends-contains ((i, d) ∷ s) ((j, d') ∷ m) k ext h = ground (arith, Extends-contains s m k ext.2)

  pub covered-Extends :
      (s m : Schema V) (r : Dict String Value)
      → Extends row s m
      → all (λ entry. contains (columns s) entry.0) r ≡ true
      → all (λ entry. contains (columns m) entry.0) r ≡ true
  covered-Extends s m [] ext h = refl
  covered-Extends s m ((k, v) ∷ r) ext h =
      ground (arith, Extends-contains s m k ext, covered-Extends s m r ext)

  pub check_columns-Extends :
      (s m : Schema V)
      → Extends row s m
      → check_columns row s ≡ ok true
      → check_columns row m ≡ ok true
  unfolding check_columns
  check_columns-Extends [] [] ext h = refl
  check_columns-Extends [] ((j, d) ∷ m) ext h =
      rw (ext.0.0, ext.0.1) (check_columns-Extends [] m ext.1 h)
  check_columns-Extends ((i, d) ∷ s) [] ext h = absurd ext
  check_columns-Extends ((i, d) ∷ s) ((j, d') ∷ m) ext h =
      let (verdict, at_d, after) = ok_of_bind (check_column (get row i) d) _ h in
      let next =
        after_column_mono verdict (check_columns row s) (check_columns row m)
          (check_columns-Extends s m ext.2) after in
      let at_d' = ext.1 (get row i) verdict (after_column-is_pass verdict _ after) at_d in
      rw (sym ext.0, at_d') next

  pub not_in_row :
      (s m : Schema V) (k : String)
      → all (λ entry. contains (columns s) entry.0) row ≡ true
      → Extends row s m
      → get m k ≡ none
      → get row k ≡ none
  not_in_row s m k covered ext unknown = elim (contains_of_covered (columns s) row k covered) [
    | inl none_there ↦ none_there
    | inr known ↦ cc (known, Extends-get s m k ext unknown)
  ]
