-- ===== src/Prelude/Lists.antt =====
-- Lists measured by native numbers, under the library's names.
use Prim.Native.Nat.{ℕ, zero, suc, ◌+◌, ◌≤◌, ◌<◌}
use mathlib.Core.Path.{◌≡◌, refl, sym, subst}
use mathlib.Core.Logic.{◌⊎◌, inl, inr}
use mathlib.Core.Bool.{Bool, true, false, ◌&&◌, ◌||◌}
use mathlib.Core.List.{List, [], ◌∷◌, ◌++◌}
use native.Mathlib.Omega.{arith}
use airbyte_python_cdk.Prelude.Tests.{if◌then◌else◌}

module _ {ℓ} {A : Type ℓ} where
  abbrev pub length : List A → ℕ
  length [] = 0
  length (x ∷ xs) = suc (length xs)

  pub length-append : (xs ys : List A) → length (xs ++ ys) ≡ length xs + length ys
  length-append [] ys = omega arith
  length-append (x ∷ xs) ys = omega (arith, length-append xs ys)

  -- A predicate by recursion computes to tuples, which the tactics read and build.
  abbrev pub All {κ} : (A → Type κ) → List A → Type κ
  All P [] = Unit
  All P (x ∷ xs) = P x × All P xs

  abbrev pub Any : (A → Type 0) → List A → Type 0
  Any P [] = ⊥
  Any P (x ∷ xs) = P x ⊎ Any P xs

  -- Neighbours are related, in `x ∷ xs` and in a list.
  abbrev pub ChainFrom : (A → A → Type 0) → A → List A → Type 0
  ChainFrom R x [] = Unit
  ChainFrom R x (y ∷ ys) = R x y × ChainFrom R y ys

  abbrev pub Chain : (A → A → Type 0) → List A → Type 0
  Chain R [] = Unit
  Chain R (x ∷ xs) = ChainFrom R x xs

  -- Python's `any` and `all` over a list.
  abbrev pub any : (A → Bool) → List A → Bool
  any p [] = false
  any p (x ∷ xs) = p x || any p xs

  abbrev pub all : (A → Bool) → List A → Bool
  all p [] = true
  all p (x ∷ xs) = p x && all p xs

  abbrev pub filter : (A → Bool) → List A → List A
  filter p [] = []
  filter p (x ∷ xs) = if p x then x ∷ filter p xs else filter p xs

  -- How many elements pass a test.
  abbrev pub count : (A → Bool) → List A → ℕ
  count p [] = 0
  count p (x ∷ xs) = (if p x then 1 else 0) + count p xs

  pub count-append : (p : A → Bool) (xs ys : List A) → count p (xs ++ ys) ≡ count p xs + count p ys
  count-append p [] ys = omega arith
  count-append p (x ∷ xs) ys = omega (arith, count-append p xs ys)

  unfoldable pub take : ℕ → List A → List A
  take zero l = []
  take (suc n) [] = []
  take (suc n) (x ∷ l) = x ∷ take n l

  unfoldable pub drop : ℕ → List A → List A
  drop zero l = l
  drop (suc n) [] = []
  drop (suc n) (x ∷ l) = drop n l

  pub take-append-drop : (n : ℕ) (l : List A) → take n l ++ drop n l ≡ l
  unfolding take drop
  take-append-drop zero l = refl
  take-append-drop (suc n) [] = refl
  take-append-drop (suc n) (x ∷ l) = rw (take-append-drop n l)

  pub drop-nil : (n : ℕ) → drop n [] ≡ []
  unfolding drop
  drop-nil zero = refl
  drop-nil (suc n) = refl

  pub drop-drop : (m n : ℕ) (l : List A) → drop n (drop m l) ≡ drop (m + n) l
  unfolding drop
  drop-drop zero n l = let whole : 0 + n ≡ n = omega arith in rw whole
  drop-drop (suc m) n [] = let next : suc m + n ≡ suc (m + n) = omega arith in rw next (drop-nil n)
  drop-drop (suc m) n (x ∷ l) =
      let next : suc m + n ≡ suc (m + n) = omega arith in rw next (drop-drop m n l)

  pub length-take : (n : ℕ) (l : List A) → length (take n l) ≤ n
  unfolding take
  length-take zero l = omega arith
  length-take (suc n) [] = omega arith
  length-take (suc n) (x ∷ l) = omega (arith, length-take n l)

  -- A list that is shorter than asked for is taken whole.
  pub take-all : (n : ℕ) (l : List A) → length (take n l) < n → take n l ≡ l
  unfolding take
  take-all zero l h = absurd (omega arith)
  take-all (suc n) [] h = refl
  take-all (suc n) (x ∷ l) h = rw (take-all n l (omega arith))

  pub drop-append : (k l : List A) → drop (length k) (k ++ l) ≡ l
  unfolding drop
  drop-append [] l = refl
  drop-append (x ∷ k) l = drop-append k l

-- What holds of all elements holds of one of them.
pub All-lookup :
    {A : Type 0} (P : A → Type 0) (x : A) (xs : List A) → All P xs → Any (λ y. x ≡ y) xs → P x
All-lookup P x [] ps found = absurd found
All-lookup P x (y ∷ ys) ps (inl e) = subst P (sym e) ps.0
All-lookup P x (y ∷ ys) ps (inr found) = All-lookup P x ys ps.1 found

pub All-map :
    {A : Type 0} (P Q : A → Type 0) → ((x : A) → P x → Q x) → (xs : List A) → All P xs → All Q xs
All-map P Q f [] ps = tt
All-map P Q f (x ∷ xs) ps = (f x ps.0, All-map P Q f xs ps.1)

pub Any-map :
    {A : Type 0} {P Q : A → Type 0} (f : (x : A) → P x → Q x) (xs : List A) → Any P xs → Any Q xs
Any-map f [] found = absurd found
Any-map f (x ∷ xs) (inl p) = inl (f x p)
Any-map f (x ∷ xs) (inr found) = inr (Any-map f xs found)
