-- ===== src/ReadProcessor/Counts.antt =====
-- How often a stream stands in the lists of ReadProcessor, and how often its end was announced.
use airbyte_python_cdk.Prelude.{
  ℕ, ◌+◌, ◌<◌, ◌≡◌, refl, Bool, true, false, List, [], ◌∷◌, ◌++◌, String, map, text_key, ◌||◌,
  Hashable, length, ◌==◌, arith, Bool-cases, inl, inr,
}
use airbyte_python_cdk.Python.Dict.{contains, add, discard}
use airbyte_python_cdk.ReadProcessor.{Message, stream_status, of_repository, complete, incomplete}

abbrev pub indicator : Bool → ℕ
indicator true = 1
indicator false = 0

module _ {A : Type 0} ⦃key : Hashable A⦄ where
  abbrev pub count : A → List A → ℕ
  count x [] = 0
  count x (y ∷ l) = indicator (y == x) + count x l

  pub count-append : (x y : A) (l : List A) → count x (l ++ y ∷ []) ≡ count x l + indicator (y == x)
  count-append x y [] = omega arith
  count-append x y (z ∷ l) = omega (arith, count-append x y l)

  pub count-discard :
      (x y : A) (l : List A)
      → contains l y ≡ true
      → count x (discard l y) + indicator (y == x) ≡ count x l
  unfolding contains discard
  count-discard x y [] h = cc
  count-discard x y (z ∷ l) h = elim (Bool-cases (z == y)) [
    | inl same ↦ let path : z ≡ y = (key.same_iff z y).0 same in rw (same, path) (omega arith)
    | inr other ↦ rw other (omega (arith, count-discard x y l (rw other at h)))
  ]

  pub contains-count : (x : A) (l : List A) → contains l x ≡ true → 0 < count x l
  unfolding contains
  contains-count x [] h = cc
  contains-count x (y ∷ l) h = ground (arith, contains-count x l)

  pub count-contains : (x : A) (l : List A) → 0 < count x l → contains l x ≡ true
  unfolding contains
  count-contains x [] h = absurd (omega arith)
  count-contains x (y ∷ l) h = ground (arith, count-contains x l)

  pub count-eq_zero : (x : A) (l : List A) → contains l x ≡ false → count x l ≡ 0
  unfolding contains
  count-eq_zero x [] h = refl
  count-eq_zero x (y ∷ l) h = ground (arith, count-eq_zero x l)

  pub length-pos : (x : A) (l : List A) → contains l x ≡ true → 0 < length l
  unfolding contains
  length-pos x [] h = cc
  length-pos x (y ∷ l) h = omega arith

  pub ==_refl : (x : A) → (x == x) ≡ true
  ==_refl x = (key.same_iff x x).1 refl

  pub contains-add : (x y : A) (l : List A) → contains (add l y) x ≡ (y == x) || contains l x
  unfolding add
  contains-add x y l = elim (Bool-cases (contains l y)) [
    | inl known ↦ elim (Bool-cases (y == x)) [
      | inl same ↦
          let path : y ≡ x = (key.same_iff y x).0 same in rw (known, same) (rw (← path) known)
      | inr other ↦ rw (known, other)
    ]
    | inr new ↦ unfold contains in rw new
  ]

module _ {R M : Type 0} where
  -- The announcements that the stream ended.
  abbrev pub is_final : String → Message R M → Bool
  is_final name (stream_status j complete) = j == name
  is_final name (stream_status j incomplete) = j == name
  is_final name _ = false

  abbrev pub finals : String → List (Message R M) → ℕ
  finals name [] = 0
  finals name (message ∷ l) = indicator (is_final name message) + finals name l

  pub finals-append :
      (name : String) (k l : List (Message R M))
      → finals name (k ++ l) ≡ finals name k + finals name l
  finals-append name [] l = omega arith
  finals-append name (message ∷ k) l = omega (arith, finals-append name k l)

pub finals-of_repository :
    (R : Type 0) {M : Type 0} (name : String) (l : List M)
    → finals {R = R} name (map of_repository l) ≡ 0
finals-of_repository R name [] = refl
finals-of_repository R name (m ∷ l) = omega (arith, finals-of_repository R name l)
