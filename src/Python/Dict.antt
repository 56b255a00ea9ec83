-- ===== src/Python/Dict.antt =====
-- A dictionary as an association list in insertion order, and a set as the list of its elements.
use airbyte_python_cdk.Prelude.{
  suc, length, ◌≤◌, ◌<◌, Any, All, inl, inr, Bool-cases, ◌≡◌, refl, Bool, false, ◌||◌, Option, none,
  some, List, [], ◌∷◌, Hashable, ◌==◌, arith, if◌then◌else◌,
}

abbrev pub Dict {ℓ κ} : Type ℓ → Type κ → Type (ℓ ⊔ κ)
Dict K V = List (K × V)

module _ {κ} {K : Type 0} {V : Type κ} ⦃e : Hashable K⦄ where
  -- `m.get(k)`
  unfoldable pub get : Dict K V → K → Option V
  get [] k = none
  get ((j, v) ∷ m) k = if j == k then some v else get m k

  -- `m[k] = v`: a known key keeps its place.
  unfoldable pub set : Dict K V → K → V → Dict K V
  set [] k v = (k, v) ∷ []
  set ((j, w) ∷ m) k v = if j == k then (j, v) ∷ m else (j, w) ∷ set m k v

  -- `m.pop(k, None)` without its result
  unfoldable pub delete : Dict K V → K → Dict K V
  delete [] k = []
  delete ((j, w) ∷ m) k = let rest = delete m k in if j == k then rest else (j, w) ∷ rest

  pub get-set :
      (m : Dict K V) (k j : K) (v : V) → get (set m k v) j ≡ (if k == j then some v else get m j)
  unfolding get set
  get-set [] k j v = refl
  get-set ((i, w) ∷ m) k j v =
      ground (arith, e.same_iff k j, e.same_iff i k, e.same_iff i j, get-set m k j v)

  pub get-delete :
      (m : Dict K V) (k j : K) → get (delete m k) j ≡ (if k == j then none else get m j)
  unfolding get delete
  get-delete [] k j = ground arith
  get-delete ((i, w) ∷ m) k j =
      ground (arith, e.same_iff k j, e.same_iff i k, e.same_iff i j, get-delete m k j)

  pub length-set : (m : Dict K V) (k : K) (v : V) → length (set m k v) ≤ suc (length m)
  unfolding set
  length-set [] k v = omega arith
  length-set ((j, w) ∷ m) k v = ground (arith, length-set m k v)

  pub length-delete : (m : Dict K V) (k : K) → length (delete m k) ≤ length m
  unfolding delete
  length-delete [] k = omega arith
  length-delete ((j, w) ∷ m) k = ground (arith, length-delete m k)

  -- A known key is deleted.
  pub length-delete_known :
      (m : Dict K V) (k : K) → Any (λ entry. k ≡ entry.0) m → length (delete m k) < length m
  unfolding delete
  length-delete_known [] k known = absurd known
  length-delete_known ((j, w) ∷ m) k (inl here) = ground (arith, e.same_iff j k, length-delete m k)
  length-delete_known ((j, w) ∷ m) k (inr there) =
      ground (arith, length-delete m k, length-delete_known m k there)

  pub All-set :
      (P : K × V → Type 0) (m : Dict K V) (k : K) (v : V)
      → ((j : K) → P (j, v))
      → All P m
      → All P (set m k v)
  unfolding set
  All-set P [] k v p ps = (p k, tt)
  All-set P ((j, w) ∷ m) k v p ps = elim (Bool-cases (j == k)) [
    | inl e ↦ rw e (p j, ps.1)
    | inr e ↦ rw e (ps.0, All-set P m k v p ps.1)
  ]

  pub All-delete : (P : K × V → Type 0) (m : Dict K V) (k : K) → All P m → All P (delete m k)
  unfolding delete
  All-delete P [] k ps = tt
  All-delete P ((j, w) ∷ m) k ps = elim (Bool-cases (j == k)) [
    | inl e ↦ rw e (All-delete P m k ps.1)
    | inr e ↦ rw e (ps.0, All-delete P m k ps.1)
  ]

module _ {K : Type 0} ⦃e : Hashable K⦄ where
  -- `k in s`
  unfoldable pub contains : List K → K → Bool
  contains [] k = false
  contains (x ∷ s) k = x == k || contains s k

  -- `s.add(k)`
  unfoldable pub add : List K → K → List K
  unfolding contains
  add s k = if contains s k then s else k ∷ s

  -- `s.discard(k)`, and `l.remove(k)` of a known element of a list: the first occurrence goes.
  unfoldable pub discard : List K → K → List K
  discard [] k = []
  discard (x ∷ s) k = if x == k then s else x ∷ discard s k
