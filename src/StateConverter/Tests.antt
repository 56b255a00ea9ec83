-- ===== src/StateConverter/Tests.antt =====
-- StateConverter on small inputs: times in microseconds, written as they are in messages.
use airbyte_python_cdk.Prelude.{
  ℕ, ◌+◌, ◌≡◌, refl, true, ltb, not, eqb, none, some, List, [], ◌∷◌, arith, Any, text_key, ◌≤◌,
  ◌++◌,
}
use airbyte_python_cdk.Python.Exceptions.{ok, raise, attribute_error, type_error}
use airbyte_python_cdk.Python.Dict.{set}
use airbyte_python_cdk.Python.Sorting.{sorted}
use airbyte_python_cdk.StateConverter.{
  parsed, Interval, Converter, ConcurrentState, or_empty, serialize, merge_sorted, merge_loop,
  absorb, max_most_recent, merge_intervals, deserialize, convert_to_state_message, sequential,
}
use airbyte_python_cdk.StateConverter.Merge.{Merges, merge_intervals_lem, HoldsNear}
use airbyte_python_cdk.StateConverter.Complete.{convert_to_state_message_complete}
use airbyte_python_cdk.StateConverter.Resume.{deserialize-unparsed}

abbrev pub micros : Converter ℕ
micros = record {
  parse_timestamp = λ v. ok v;
  output_format = λ t. t;
  increment = λ t. t + 1;
  zero_value = 0;
  is_truthy = λ v. not (eqb v 0);
  greater = λ a b. ltb b a;
  is_sequential_state = true;
}

abbrev slice : ℕ → ℕ → Interval ℕ
slice a b = record { start = a; end = b; most_recent = some (parsed b) }

abbrev given : List (Interval ℕ)
given = slice 30 40 ∷ slice 0 10 ∷ slice 11 20 ∷ []

given-merged : merge_intervals micros given ≡ ok (slice 0 20 ∷ slice 30 40 ∷ [])
unfolding merge_intervals merge_sorted merge_loop absorb max_most_recent sorted
given-merged = refl

merge_intervals_lem_example : Merges micros given (slice 0 20 ∷ slice 30 40 ∷ [])
merge_intervals_lem_example = merge_intervals_lem micros given _ given-merged

convert_to_state_message_complete_example :
    (t : ℕ) × (convert_to_state_message micros "updated_at"
        (record { slices = some given; legacy = none })
      ≡ ok (sequential (set [] "updated_at" t)))
    × ((v : ℕ) → Any (λ i. i.start ≤ v) given → v ≤ t → Any (HoldsNear micros v) given)
convert_to_state_message_complete_example =
    convert_to_state_message_complete micros (λ v. omega arith) refl "updated_at" (slice 30 40)
      (slice 0 10 ∷ slice 11 20 ∷ []) none (omega arith)

deserialize-unparsed_example :
    (state : ConcurrentState ℕ) × (deserialize micros
        (some (record { start = 0; end = 10; most_recent = some 9 } ∷ []))
        none
      ≡ ok state)
    × (merge_intervals micros (or_empty state.slices ++ slice 10 20 ∷ []) ≡ raise type_error)
    × (serialize micros state ≡ raise attribute_error)
deserialize-unparsed_example =
    deserialize-unparsed micros (record { start = 0; end = 10; most_recent = some 9 }) none 0 10 20
      9 (slice 10 20) refl refl refl refl (omega arith) (omega arith) refl
