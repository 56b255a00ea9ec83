-- ===== src/StateManager/RoundTrip.antt =====
-- A state that StateManager emits is read back.
use airbyte_python_cdk.Prelude.{
  ◌≡◌, refl, ap, ◌∙◌, Bool, true, false, Option, none, some, List, [], ◌∷◌, map, if◌then◌else◌,
  Hashable, ◌==◌, Bool-cases, inl, inr,
}
use airbyte_python_cdk.Python.Exceptions.{ok}
use airbyte_python_cdk.Python.Dict
use airbyte_python_cdk.Python.Dict.{Dict, contains, get-set}
use airbyte_python_cdk.StateManager.{
  collect, stream_entries, extract_from_state_message, init, blob_or, get_stream_state,
  create_state_message,
}

same_state :
    {B : Type 0} (empty : B) (b : Bool) (known : Option (Option B))
    → (b ≡ false → known ≡ none)
    → blob_or empty (if b then some (some (blob_or empty known)) else none) ≡ blob_or empty known
same_state empty true known h = refl
same_state empty false known h = rw (h refl)

module _ {D B : Type 0} ⦃key : Hashable D⦄ (empty : B) where
  -- The entries that the messages of the streams carry.
  abbrev entries_of : Dict D (Option B) → List D → List (D × Option B)
  entries_of states = map (λ d. (d, some (blob_or empty (Dict.get states d))))

  stream_entries-create :
      (states : Dict D (Option B)) (streams : List D)
      → stream_entries (map (create_state_message empty states) streams) ≡ entries_of states streams
  unfolding stream_entries create_state_message
  stream_entries-create states [] = refl
  stream_entries-create states (d ∷ streams) = rw (stream_entries-create states streams)

  get-collect :
      (states collected : Dict D (Option B)) (streams : List D) (d : D)
      → Dict.get (collect collected (entries_of states streams)) d ≡ (
          if contains streams d
          then some (some (blob_or empty (Dict.get states d)))
          else Dict.get collected d)
  unfolding collect contains
  get-collect states collected [] d = refl
  get-collect states collected (x ∷ streams) d =
      let blob = some (blob_or empty (Dict.get states x)) in
      let rest = get-collect states (Dict.set collected x blob) streams d in
      let here = get-set collected x d blob in
      elim (Bool-cases (contains streams d)) [
        | inl later ↦ elim (Bool-cases (x == d)) [
          | inl same ↦ rw same (rest ∙ rw later)
          | inr other ↦ rw (other, later) (rest ∙ rw later)
        ]
        | inr last ↦ elim (Bool-cases (x == d)) [
          | inl same ↦
              let path : x ≡ d = (key.same_iff x d).0 same in
              rw same (rest ∙ rw last (here ∙ rw same (rw path)))
          | inr other ↦ rw (other, last) (rest ∙ rw last (here ∙ rw other))
        ]
      ]

  read_back :
      (states : Dict D (Option B)) (streams : List D)
      → extract_from_state_message (some (map (create_state_message empty states) streams))
        ≡ (none, collect [] (entries_of states streams))
  unfolding extract_from_state_message create_state_message stream_entries
  read_back states [] = refl
  read_back states (d ∷ streams) = rw (stream_entries-create states streams)

  -- A manager that starts from the messages of another, created for streams among which every one
  -- with a state is, accepts them and has the same state for every stream.
  pub init-create_state_message :
      (states : Dict D (Option B)) (streams : List D)
      → ((d : D) → contains streams d ≡ false → Dict.get states d ≡ none)
      → (restored : Dict D (Option B)) × (init
            (some (map (create_state_message empty states) streams))
          ≡ ok restored)
        × ((d : D) → get_stream_state empty restored d ≡ get_stream_state empty states d)
  unfolding init get_stream_state Dict.get
  init-create_state_message states streams covered = (
    collect [] (entries_of states streams),
    rw (read_back states streams),
    λ d.
        ap (blob_or empty) (get-collect states [] streams d)
        ∙ same_state empty (contains streams d) (Dict.get states d) (covered d),
  )
