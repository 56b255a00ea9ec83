-- ===== src/PerPartition/States.antt =====
-- The dictionary of PerPartition after it was given the states of partitions.
use airbyte_python_cdk.Prelude.{
  suc, ◌≡◌, refl, sym, ap, ◌∙◌, false, none, some, List, [], ◌∷◌, ◌++◌, length, ◌==◌, String,
  text_key, All, arith,
}
use mathlib.Core.List.{append_assoc, append-nil}
use airbyte_python_cdk.Python.Dict.{Dict, get, set}
use airbyte_python_cdk.PerPartition.{Cursors, create_cursor, set_states}

-- A key that is not among the keys of a dictionary.
abbrev pub IsNew {κ} : {V : Type κ} → String → Dict String V → Type 0
IsNew key [] = Unit
IsNew key ((k, v) ∷ m) = ((k == key) ≡ false) × IsNew key m

pub get-IsNew : {V : Type 0} (key : String) (m : Dict String V) → IsNew key m → get m key ≡ none
unfolding get
get-IsNew key [] new = refl
get-IsNew key ((k, v) ∷ m) new = rw new.0 (get-IsNew key m new.1)

pub set-IsNew :
    {V : Type 0} (key : String) (v : V) (m : Dict String V)
    → IsNew key m
    → set m key v ≡ m ++ ((key, v) ∷ [])
unfolding set
set-IsNew key v [] new = refl
set-IsNew key v ((k, w) ∷ m) new = rw (new.0, set-IsNew key v m new.1) refl

pub get-last :
    {V : Type 0} (key : String) (v : V) (m : Dict String V)
    → IsNew key m
    → get (m ++ ((key, v) ∷ [])) key ≡ some v
unfolding get
get-last key v [] new = rw ((text_key.same_iff key key).1 refl) refl
get-last key v ((k, w) ∷ m) new = rw new.0 (get-last key v m new.1)

pub set-last :
    {V : Type 0} (key : String) (v w : V) (m : Dict String V)
    → IsNew key m
    → set (m ++ ((key, v) ∷ [])) key w ≡ m ++ ((key, w) ∷ [])
unfolding set
set-last key v w [] new = rw ((text_key.same_iff key key).1 refl) refl
set-last key v w ((k, u) ∷ m) new = rw (new.0, set-last key v w m new.1) refl

pub IsNew-append :
    {V : Type 0} (key : String) (m n : Dict String V)
    → IsNew key m
    → IsNew key n
    → IsNew key (m ++ n)
IsNew-append key [] n new new' = new'
IsNew-append key ((k, v) ∷ m) n new new' = (new.0, IsNew-append key m n new.1 new')

pub differ_sym : (j k : String) → (j == k) ≡ false → (k == j) ≡ false
differ_sym j k h = ground (arith, text_key.same_iff j k, text_key.same_iff k j)

abbrev pub partitions_of : {P T : Type 0} → List (P × T) → List P
partitions_of [] = []
partitions_of ((partition, state) ∷ states) = partition ∷ partitions_of states

module _ {C P S D T : Type 0} (cursors : Cursors C P S D T) where
  open cursors use {to_partition_key}

  -- The keys of a dictionary are those of the partitions, in order.
  abbrev pub HasKeys : List P → Dict String C → Type 0
  HasKeys [] [] = Unit {0}
  HasKeys [] (entry ∷ m) = ⊥
  HasKeys (partition ∷ partitions) [] = ⊥
  HasKeys (partition ∷ partitions) (entry ∷ m) =
      (entry.0 ≡ to_partition_key partition) × HasKeys partitions m

  -- A key is none of the partitions', and the partitions have different keys.
  abbrev pub IsOther : String → List P → Type 0
  IsOther key [] = Unit {0}
  IsOther key (partition ∷ partitions) =
      ((to_partition_key partition == key) ≡ false) × IsOther key partitions

  abbrev pub Distinct : List P → Type 0
  Distinct [] = Unit {0}
  Distinct (partition ∷ partitions) =
      IsOther (to_partition_key partition) partitions × Distinct partitions

  pub IsNew-HasKeys :
      (key : String) (partitions : List P) (m : Dict String C)
      → IsOther key partitions
      → HasKeys partitions m
      → IsNew key m
  IsNew-HasKeys key [] [] other same = tt
  IsNew-HasKeys key [] (entry ∷ m) other same = absurd same
  IsNew-HasKeys key (partition ∷ partitions) [] other same = absurd same
  IsNew-HasKeys key (partition ∷ partitions) (entry ∷ m) other same =
      (rw same.0 other.0, IsNew-HasKeys key partitions m other.1 same.1)

  -- None of the partitions is known.
  abbrev pub AllNew : List P → Dict String C → Type 0
  AllNew partitions m = All (λ partition. IsNew (to_partition_key partition) m) partitions

  pub AllNew-append :
      (partitions : List P) (key : String) (cursor : C) (m : Dict String C)
      → IsOther key partitions
      → AllNew partitions m
      → AllNew partitions (m ++ ((key, cursor) ∷ []))
  AllNew-append [] key cursor m other new = tt
  AllNew-append (partition ∷ partitions) key cursor m other new = (
    IsNew-append (to_partition_key partition) m ((key, cursor) ∷ []) new.0
        (differ_sym (to_partition_key partition) key other.0, tt),
    AllNew-append partitions key cursor m other.1 new.1,
  )

  abbrev pub entries : List (P × T) → Dict String C
  entries [] = []
  entries ((partition, state) ∷ states) =
      (to_partition_key partition, create_cursor cursors state) ∷ entries states

  pub set_states-entries :
      (states : List (P × T)) (known : Dict String C)
      → Distinct (partitions_of states)
      → AllNew (partitions_of states) known
      → set_states cursors states known ≡ known ++ entries states
  set_states-entries [] known distinct new = sym (append-nil known)
  set_states-entries ((partition, state) ∷ states) known distinct new =
      let entry : String × C = (to_partition_key partition, create_cursor cursors state) in
      rw (set-IsNew (to_partition_key partition) (create_cursor cursors state) known new.0) (
        set_states-entries states (known ++ (entry ∷ [])) distinct.1 (
          AllNew-append (partitions_of states) (to_partition_key partition)
            (create_cursor cursors state) known distinct.0 new.1)
        ∙ append_assoc known (entry ∷ []) (entries states))

  pub entries-HasKeys : (states : List (P × T)) → HasKeys (partitions_of states) (entries states)
  entries-HasKeys [] = tt
  entries-HasKeys ((partition, state) ∷ states) = (refl, entries-HasKeys states)

  pub length-entries : (states : List (P × T)) → length (entries states) ≡ length states
  length-entries [] = refl
  length-entries ((partition, state) ∷ states) = ap suc (length-entries states)

  pub AllNew-nil : (partitions : List P) → AllNew partitions []
  AllNew-nil [] = tt
  AllNew-nil (partition ∷ partitions) = (tt, AllNew-nil partitions)
