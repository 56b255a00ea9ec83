-- ===== src/PerPartition/RoundTrip.antt =====
-- The state that PerPartition gives after it was given one.
use airbyte_python_cdk.Prelude.{
  ◌≡◌, refl, ap, Option, List, [], ◌∷◌, filter, Bool-cases, inl, inr, none,
}
use airbyte_python_cdk.PerPartition.{
  Cursors, create_cursor, set_initial_state, get_stream_state, states_of, init, per_partition,
}
use airbyte_python_cdk.PerPartition.States.{
  Distinct, partitions_of, entries, set_states-entries, AllNew-nil,
}

module _ {C P S D T : Type 0} (cursors : Cursors C P S D T)
    (to_partition-to_partition_key : (partition : P)
      → cursors.to_partition (cursors.to_partition_key partition) ≡ partition)
    (restored : (state : T) → cursors.get_stream_state (create_cursor cursors state) ≡ state) where
  states_of-entries :
      (states : List (P × T))
      → states_of cursors (entries cursors states) ≡ filter (λ s. cursors.is_truthy s.1) states
  unfolding states_of
  states_of-entries [] = refl
  states_of-entries ((partition, state) ∷ states) = elim (Bool-cases (cursors.is_truthy state)) [
    | inl e ↦
        rw (restored state, e, to_partition-to_partition_key partition, states_of-entries states)
          refl
    | inr e ↦ rw (restored state, e, states_of-entries states) refl
  ]

  -- Where a partition can be read back from its key, and the cursor of a partition gives the state that
  -- it was given: from the states of partitions with different keys, and any value of "state", a new
  -- cursor gives the same states in order, without those that are empty.
  pub get_stream_state-set_initial_state :
      (states : List (P × T)) (state : Option T)
      → Distinct cursors (partitions_of states)
      → get_stream_state cursors (set_initial_state cursors (per_partition states state) init)
        ≡ per_partition (filter (λ s. cursors.is_truthy s.1) states) none
  unfolding get_stream_state set_initial_state init
  get_stream_state-set_initial_state states state distinct =
      rw (set_states-entries cursors states [] distinct (AllNew-nil cursors (partitions_of states)))
        (ap (λ l. per_partition l none) (states_of-entries states))
