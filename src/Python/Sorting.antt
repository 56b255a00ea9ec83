-- ===== src/Python/Sorting.antt =====
-- `sorted`: a stable sort, as an insertion sort by a Boolean "comes before or equal".
use airbyte_python_cdk.Prelude.{
  Bool, List, [], ◌∷◌, if◌then◌else◌, Any, All, ◌↔◌, ◌≡◌, inl, inr, Bool-cases, true, false, Chain,
  ChainFrom,
}

module _ {ℓ} {A : Type ℓ} (le : A → A → Bool) where
  unfoldable pub insert : A → List A → List A
  insert x [] = x ∷ []
  insert x (y ∷ ys) = if le x y then x ∷ y ∷ ys else y ∷ insert x ys

  unfoldable pub sorted : List A → List A
  unfolding insert
  sorted [] = []
  sorted (x ∷ xs) = insert x (sorted xs)

  module _ (P : A → Type 0) where
    pub Any-insert : (x : A) (ys : List A) → Any P (insert x ys) ↔ Any P (x ∷ ys)
    unfolding insert
    Any-insert x [] = (λ h. h, λ h. h)
    Any-insert x (y ∷ ys) = elim (Bool-cases (le x y)) [
      | inl e ↦ rw e (λ h. h, λ h. h)
      | inr e ↦ rw e (
        elim [
          | inl p ↦ inr (inl p)
          | inr q ↦ elim ((Any-insert x ys).0 q) [ inl p ↦ inl p | inr r ↦ inr (inr r) ]
        ],
        elim [
          | inl p ↦ inr ((Any-insert x ys).1 (inl p))
          | inr (inl q) ↦ inl q
          | inr (inr r) ↦ inr ((Any-insert x ys).1 (inr r))
        ],
      )
    ]

    -- Sorting keeps the elements.
    pub Any-sorted : (xs : List A) → Any P (sorted xs) ↔ Any P xs
    unfolding sorted
    Any-sorted [] = (λ h. h, λ h. h)
    Any-sorted (x ∷ xs) = (
      λ h. elim ((Any-insert x (sorted xs)).0 h) [
        | inl p ↦ inl p
        | inr r ↦ inr ((Any-sorted xs).0 r)
      ],
      elim [
        | inl p ↦ (Any-insert x (sorted xs)).1 (inl p)
        | inr r ↦ (Any-insert x (sorted xs)).1 (inr ((Any-sorted xs).1 r))
      ],
    )

  module _ (R : A → A → Type 0) (first : (x y : A) → le x y ≡ true → R x y)
      (second : (x y : A) → le x y ≡ false → R y x) where
    ChainFrom-insert :
        (x y : A) (ys : List A) → R y x → ChainFrom R y ys → ChainFrom R y (insert x ys)
    unfolding insert
    ChainFrom-insert x y [] r c = (r, tt)
    ChainFrom-insert x y (z ∷ zs) r c = elim (Bool-cases (le x z)) [
      | inl e ↦ rw e (r, (first x z e, c.1))
      | inr e ↦ rw e (c.0, ChainFrom-insert x z zs (second x z e) c.1)
    ]

    Chain-insert : (x : A) (ys : List A) → Chain R ys → Chain R (insert x ys)
    unfolding insert
    Chain-insert x [] c = tt
    Chain-insert x (y ∷ ys) c = elim (Bool-cases (le x y)) [
      | inl e ↦ rw e (first x y e, c)
      | inr e ↦ rw e (ChainFrom-insert x y ys (second x y e) c)
    ]

    -- Sorting orders the neighbours.
    pub sorted-Chain : (xs : List A) → Chain R (sorted xs)
    unfolding sorted
    sorted-Chain [] = tt
    sorted-Chain (x ∷ xs) = Chain-insert x (sorted xs) (sorted-Chain xs)

  module _ (P : A → Type 0) where
    All-insert : (x : A) (ys : List A) → P x → All P ys → All P (insert x ys)
    unfolding insert
    All-insert x [] p ps = (p, tt)
    All-insert x (y ∷ ys) p ps = elim (Bool-cases (le x y)) [
      | inl e ↦ rw e (p, ps)
      | inr e ↦ rw e (ps.0, All-insert x ys p ps.1)
    ]

    pub All-sorted : (xs : List A) → All P xs → All P (sorted xs)
    unfolding sorted
    All-sorted [] ps = tt
    All-sorted (x ∷ xs) ps = All-insert x (sorted xs) ps.0 (All-sorted xs ps.1)
