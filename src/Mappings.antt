-- ===== src/Mappings.antt =====
-- airbyte_cdk/utils/mapping_helpers.py: the options of a request, combined. `V` is the type of values.
mod Tests
use airbyte_python_cdk.Prelude.{
  ℕ, zero, suc, ◌+◌, ◌≤◌, ◌<◌, ◌≡◌, refl, sym, ◌∙◌, Bool, true, false, Option, none, some, List, [],
  ◌∷◌, ◌++◌, String, map, ltb, eqb, if◌then◌else◌, ◌&&◌, text_key, ◌==◌, length, All, Bool-cases,
  inl, inr, arith, ◌||◌,
}
use airbyte_python_cdk.Python.Exceptions.{Result, ok, raise, value_error}
use airbyte_python_cdk.Python.Dict
use airbyte_python_cdk.Python.Dict.{Dict, contains, add, get-set}

pub data Options (V : Type 0) : Type 0 where
  mapping : Dict String V → Options V
  text : String → Options V

length-add : (keys : List String) (k : String) → length (add keys k) ≤ length keys + 1
unfolding add
length-add keys k = elim (Bool-cases (contains keys k)) [
  | inl known ↦ rw known (omega arith)
  | inr new ↦ rw new (omega arith)
]

length-add_known :
    (keys : List String) (k : String) → contains keys k ≡ true → length (add keys k) ≡ length keys
unfolding add
length-add_known keys k h = rw h

contains-add :
    (keys : List String) (k j : String) → contains keys j ≡ true → contains (add keys k) j ≡ true
unfolding add contains
contains-add keys k j h = elim (Bool-cases (contains keys k)) [
  | inl known ↦ rw known h
  | inr new ↦ rw new (ground (arith, h))
]

contains-add_self : (keys : List String) (k : String) → contains (add keys k) k ≡ true
unfolding add contains
contains-add_self keys k = elim (Bool-cases (contains keys k)) [
  | inl known ↦ rw known known
  | inr new ↦ let self : (k == k) ≡ true = (text_key.same_iff k k).1 refl in rw (new, self)
]

module _ {V : Type 0} where
  -- The items of all mappings, one mapping after another.
  abbrev pub items_of : List (Option (Options V)) → List (String × V)
  items_of [] = []
  items_of (some (mapping m) ∷ mappings) = m ++ items_of mappings
  items_of (_ ∷ mappings) = items_of mappings

  pub string_options : List (Option (Options V)) → ℕ
  string_options [] = 0
  string_options (some (text s) ∷ mappings) = suc (string_options mappings)
  string_options (_ ∷ mappings) = string_options mappings

  pub first_text : List (Option (Options V)) → Option String
  first_text [] = none
  first_text (some (text s) ∷ mappings) = some s
  first_text (_ ∷ mappings) = first_text mappings

  -- `set().union(*all_keys)`
  pub union : List String → List (String × V) → List String
  union keys [] = keys
  union keys (item ∷ items) = union (add keys item.0) items

  -- The mapping of a list of items: a later one replaces an earlier one.
  pub set_items : Dict String V → List (String × V) → Dict String V
  set_items m [] = m
  set_items m (item ∷ items) = set_items (Dict.set m item.0 item.1) items

  -- The tests that need no text.
  combine_items : List (String × V) → Result (Options V)
  unfolding union set_items
  combine_items items =
      if ltb (length (union [] items)) (length items)
      then raise value_error
      else ok (mapping (set_items [] items))

  abbrev text_or : Option String → Result (Options V) → Result (Options V)
  text_or none combined = combined
  text_or (some s) combined = ok (text s)

  pub combine_mappings : List (Option (Options V)) → Result (Options V)
  unfolding combine_items string_options first_text
  combine_mappings mappings =
      if ltb 1 (string_options mappings)
      then raise value_error
      else if eqb (string_options mappings) 1 && ltb 0 (length (items_of mappings))
      then raise value_error
      else text_or (first_text mappings) (combine_items (items_of mappings))

  length-union :
      (items : List (String × V)) (keys : List String)
      → length (union keys items) ≤ length keys + length items
  unfolding union
  length-union [] keys = omega arith
  length-union (item ∷ items) keys =
      omega (arith, length-union items (add keys item.0), length-add keys item.0)

  -- Where no key stands twice, the first key is new and the rest has none twice either.
  first_is_new :
      (item : String × V) (items : List (String × V)) (keys : List String)
      → length keys + length (item ∷ items) ≤ length (union keys (item ∷ items))
      → (contains keys item.0 ≡ false)
        × (length (add keys item.0) + length items ≤ length (union (add keys item.0) items))
  unfolding union
  first_is_new item items keys h =
      let bound = length-union items (add keys item.0) in
      let grown = length-add keys item.0 in
      elim (Bool-cases (contains keys item.0)) [
        | inl known ↦ absurd (omega (arith, h, bound, length-add_known keys item.0 known))
        | inr new ↦ (new, omega (arith, h, grown))
      ]

  get-set_items :
      (items : List (String × V)) (keys : List String) (m : Dict String V) (k : String)
      → length keys + length items ≤ length (union keys items)
      → contains keys k ≡ true
      → Dict.get (set_items m items) k ≡ Dict.get m k
  unfolding set_items
  get-set_items [] keys m k h known = refl
  get-set_items (item ∷ items) keys m k h known =
      let (new, rest) = first_is_new item items keys h in
      let kept =
        get-set_items items (add keys item.0) (Dict.set m item.0 item.1) k rest
          (contains-add keys item.0 k known) in
      elim (Bool-cases (item.0 == k)) [
        | inl same ↦
            let path : item.0 ≡ k = (text_key.same_iff item.0 k).0 same in
            let new' : contains keys k ≡ false = rw path at new in absurd cc
        | inr other ↦ kept ∙ (get-set m item.0 k item.1 ∙ rw other)
      ]

  set_items-All :
      (items : List (String × V)) (keys : List String) (m : Dict String V)
      → length keys + length items ≤ length (union keys items)
      → All (λ item. Dict.get (set_items m items) item.0 ≡ some item.1) items
  unfolding set_items
  set_items-All [] keys m h = tt
  set_items-All (item ∷ items) keys m h =
      let (new, rest) = first_is_new item items keys h in
      let self : (item.0 == item.0) ≡ true = (text_key.same_iff item.0 item.0).1 refl in
      (
        get-set_items items (add keys item.0) (Dict.set m item.0 item.1) item.0 rest
              (contains-add_self keys item.0)
            ∙ (get-set m item.0 item.0 item.1 ∙ rw self),
        set_items-All items (add keys item.0) (Dict.set m item.0 item.1) rest,
      )

  -- What a mapping as the result says of the tests before it.
  tests_passed :
      (a b c : Bool) (t : Option String) (m combined : Dict String V)
      → (if a
          then raise value_error
          else if b
          then raise value_error
          else text_or t (if c then raise value_error else ok (mapping m)))
        ≡ ok (mapping combined)
      → (c ≡ false) × (m ≡ combined)
  tests_passed true b c t m combined h = cc
  tests_passed false true c t m combined h = cc
  tests_passed false false c (some s) m combined h = cc
  tests_passed false false true none m combined h = cc
  tests_passed false false false none m combined h = (refl, cc)

  -- Options that combine to a mapping keep every item: each key of each mapping has its value.
  pub combine_mappings-keeps :
      (mappings : List (Option (Options V))) (combined : Dict String V)
      → combine_mappings mappings ≡ ok (mapping combined)
      → All (λ item. Dict.get combined item.0 ≡ some item.1) (items_of mappings)
  unfolding combine_mappings combine_items
  combine_mappings-keeps mappings combined h =
      let items = items_of mappings in
      let (distinct, same) =
        tests_passed (ltb 1 (string_options mappings))
          (eqb (string_options mappings) 1 && ltb 0 (length items))
          (ltb (length (union [] items)) (length items)) (first_text mappings) (set_items [] items)
          combined h in
      rw (← same) (set_items-All items [] [] (ground (arith, distinct)))
