-- ===== src/Python/Extremes.antt =====
-- `min` and `max` of an iterable with a key: the first of the elements that no other precedes.
use airbyte_python_cdk.Prelude.{
  ◌≡◌, refl, sym, subst, Bool, true, false, List, [], ◌∷◌, if◌then◌else◌, Any, All, inl, inr,
  Bool-cases,
}

module _ {A : Type 0} (lt : A → A → Bool) where
  -- The least of `x ∷ xs`; with the arguments of `lt` swapped the greatest.
  unfoldable pub least : A → List A → A
  least x [] = x
  least x (y ∷ ys) = least (if lt y x then y else x) ys

  pub least-Any : (x : A) (xs : List A) → Any (λ y. least x xs ≡ y) (x ∷ xs)
  unfolding least
  least-Any x [] = inl refl
  least-Any x (y ∷ ys) = elim (Bool-cases (lt y x)) [
    | inl e ↦ subst IsHere (sym e) (inr (least-Any y ys))
    | inr e ↦ subst IsHere (sym e) (elim (least-Any x ys) [ inl p ↦ inl p | inr q ↦ inr (inr q) ])
  ]
    where
      IsHere : Bool → Type 0
      IsHere b = Any (λ z. least (if b then y else x) ys ≡ z) (x ∷ y ∷ ys)

  module _ (irrefl : (x : A) → lt x x ≡ false) (asym : (x y : A) → lt x y ≡ true → lt y x ≡ false)
      (trans : (x y z : A) → lt y x ≡ false → lt z y ≡ false → lt z x ≡ false) where
    pub least-All : (x : A) (xs : List A) → All (λ y. lt y (least x xs) ≡ false) (x ∷ xs)
    unfolding least
    least-All x [] = (irrefl x, tt)
    least-All x (y ∷ ys) = elim (Bool-cases (lt y x)) [
      | inl e ↦
          subst Precedes (sym e)
            (let h = least-All y ys in (trans (least y ys) y x h.0 (asym y x e), h))
      | inr e ↦
          subst Precedes (sym e)
            (let h = least-All x ys in (h.0, (trans (least x ys) x y h.0 e, h.1)))
    ]
      where
        Precedes : Bool → Type 0
        Precedes b = All (λ z. lt z (least (if b then y else x) ys) ≡ false) (x ∷ y ∷ ys)
