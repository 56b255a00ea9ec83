-- ===== src/PerPartition/Tests.antt =====
-- PerPartition with two partitions and room for two.
use airbyte_python_cdk.Prelude.{ℕ, ◌≡◌, refl, none, List, [], ◌∷◌, filter, not, eqb, String}
use airbyte_python_cdk.Python.Exceptions.{ok}
use airbyte_python_cdk.PerPartition.{
  Cursors, per_partition, init, set_initial_state, stream_slices, get_stream_state,
}
use airbyte_python_cdk.PerPartition.States.{partitions_of}
use airbyte_python_cdk.PerPartition.Limit.{new_slices, stream_slices-forgets}
use airbyte_python_cdk.PerPartition.RoundTrip.{get_stream_state-set_initial_state}

-- A cursor is its state, a number that is 0 without a state; its one slice begins there.
abbrev cursors : Cursors ℕ String ℕ ℕ ℕ
cursors = record {
  create = 0;
  set_initial_state = λ c t. t;
  stream_slices = λ c. c ∷ [];
  observe = λ c s d. d;
  close_slice = λ c s. ok c;
  get_stream_state = λ c. c;
  is_truthy = λ t. not (eqb t 0);
  no_cursor_state = 0;
  to_partition_key = λ p. p;
  to_partition = λ p. p;
}

abbrev states : List (String × ℕ)
states = ("a", 5) ∷ ("b", 7) ∷ []

-- The slices begin at 0, not at 5 and 7.
lost : new_slices cursors (partitions_of states) ≡ ("a", 0) ∷ ("b", 0) ∷ []
lost = refl

stream_slices-forgets_example :
    (stream_slices cursors
      (λ p c. c)
      2
      (partitions_of states)
      (set_initial_state cursors (per_partition states none) init)).0
    ≡ new_slices cursors (partitions_of states)
stream_slices-forgets_example =
    stream_slices-forgets cursors (λ p c. c) states ((refl, tt), (tt, tt))

get_stream_state-set_initial_state_example :
    get_stream_state cursors (set_initial_state cursors (per_partition states none) init)
    ≡ per_partition (filter (λ s. not (eqb s.1 0)) states) none
get_stream_state-set_initial_state_example =
    get_stream_state-set_initial_state cursors (λ p. refl) (λ t. refl) states none
      ((refl, tt), (tt, tt))
