-- ===== src/FileSchema/Widening.antt =====
-- What the choice between two definitions of a column in FileSchema does to the values that pass.
use airbyte_python_cdk.Prelude.{
  ◌≡◌, ◌≢◌, refl, sym, ap, ◌∙◌, subst, Bool, true, false, Option, none, some, text_key, ◌⊎◌, inl,
  inr,
}
use airbyte_python_cdk.Python.Exceptions.{ok}
use airbyte_python_cdk.FileSchema.{
  JsonType, TypeEntry, not_a_mapping, absent, one, many, Definition, none_type, Value, plain, items,
  is_valid_type, choose_by_type, check_value, check_column, Verdict, next_column,
}
use airbyte_python_cdk.FileSchema.Conform.{
  is_pass, IsWider, scalar-IsWider, none-IsWider, IsChosen, wider_of-IsChosen,
}

is_none_type : (value : Value) → (value ≡ plain none_type) ⊎ (value ≢ plain none_type)
is_none_type (plain none_type) = inl refl
is_none_type (plain c) = inr (λ e. cc)
is_none_type (items cs) = inr (λ e. cc)

module _ {V : Type 0} where
  -- A column that lets a record pass does so with the other definition.
  abbrev pub Widens : Definition V → Definition V → Type 0
  Widens d d' =
      (value : Option Value) (verdict : Verdict)
      → is_pass verdict ≡ true
      → check_column value d ≡ ok verdict
      → check_column value d' ≡ ok verdict

  check_column-none :
      (d : Definition V) (t : JsonType) → d.type ≡ one t → check_column none d ≡ ok next_column
  check_column-none d t e = rw (e, check_column) refl

  check_column-none_type :
      (d : Definition V) (t : JsonType)
      → d.type ≡ one t
      → check_column (some (plain none_type)) d ≡ ok next_column
  check_column-none_type d t e = rw (e, check_column) refl

  check_column-some :
      (value : Value) (d : Definition V)
      → value ≢ plain none_type
      → check_column (some value) d ≡ check_value value d.type d.items_type
  check_column-some (plain none_type) d other = absurd (other refl)
  check_column-some (plain c) d other = refl
  check_column-some (items cs) d other = refl

  IsWider-Widens :
      (d d' : Definition V) (t t' : JsonType)
      → d.type ≡ one t
      → d'.type ≡ one t'
      → IsWider (one t) d.items_type (one t') d'.items_type
      → Widens d d'
  IsWider-Widens d d' t t' e e' wider none verdict pass h =
      check_column-none d' t' e' ∙ sym (check_column-none d t e) ∙ h
  IsWider-Widens d d' t t' e e' wider (some value) verdict pass h = elim (is_none_type value) [
    | inl nothing ↦
        let at_d = ap (λ v. check_column (some v) d) nothing ∙ check_column-none_type d t e in
        let at_d' = ap (λ v. check_column (some v) d') nothing ∙ check_column-none_type d' t' e' in
        at_d' ∙ sym at_d ∙ h
    | inr something ↦
        check_column-some value d' something
        ∙ ap (λ x. check_value value x d'.items_type) e'
        ∙ wider value verdict something pass (
            sym (ap (λ x. check_value value x d.items_type) e)
            ∙ sym (check_column-some value d something)
            ∙ h)
  ]

  IsChosen-Widens :
      (t1 t2 : JsonType) (d1 d2 d : Definition V)
      → d1.type ≡ one t1
      → d2.type ≡ one t2
      → IsChosen t1 t2 d1 d2 d
      → Widens d1 d
  IsChosen-Widens t1 t2 d1 d2 d e1 e2 (inl first) =
      subst (Widens d1) (sym first) (λ value verdict pass h. h)
  IsChosen-Widens t1 t2 d1 d2 d e1 e2 (inr (second, inl nothing)) = subst (Widens d1) (sym second) (
      IsWider-Widens d1 d2 t1 t2 e1 e2
        (none-IsWider t1 (one t2) d1.items_type d2.items_type nothing))
  IsChosen-Widens t1 t2 d1 d2 d e1 e2 (inr (second, inr (s1, s2, le))) =
      subst (Widens d1) (sym second) (
        IsWider-Widens d1 d2 t1 t2 e1 e2
          (scalar-IsWider t1 t2 d1.items_type d2.items_type s1 s2 le))

module _ {V : Type 0} (same : Definition V → Definition V → Bool) where
  pub choose_by_type-Widens :
      (e1 e2 : TypeEntry) (d1 d2 d : Definition V)
      → d1.type ≡ e1
      → d2.type ≡ e2
      → same d1 d2 ≡ false
      → is_valid_type e2 ≡ true
      → choose_by_type same e1 e2 d1 d2 ≡ ok d
      → Widens d1 d
  choose_by_type-Widens (one t1) (one t2) d1 d2 d f1 f2 differ valid h =
      IsChosen-Widens t1 t2 d1 d2 d f1 f2 (wider_of-IsChosen same t1 t2 d1 d2 d differ valid h)
  choose_by_type-Widens not_a_mapping e2 d1 d2 d f1 f2 differ valid h = cc
  choose_by_type-Widens absent e2 d1 d2 d f1 f2 differ valid h = cc
  choose_by_type-Widens (many types) e2 d1 d2 d f1 f2 differ valid h = cc
  choose_by_type-Widens (one t1) not_a_mapping d1 d2 d f1 f2 differ valid h = cc
  choose_by_type-Widens (one t1) absent d1 d2 d f1 f2 differ valid h = cc
  choose_by_type-Widens (one t1) (many types) d1 d2 d f1 f2 differ valid h = cc
