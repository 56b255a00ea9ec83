-- ===== src/PerPartition/Limit.antt =====
-- The number of partitions that PerPartition keeps, and what that costs.
use airbyte_python_cdk.Prelude.{
  ℕ, suc, ◌+◌, ◌<◌, ◌≡◌, refl, sym, ◌∙◌, true, false, none, List, [], ◌∷◌, ◌++◌, map, length,
  length-append, leb, String, text_key, arith,
}
use mathlib.Core.List.{append_assoc, append-nil}
use airbyte_python_cdk.PerPartition.States.{
  IsNew, get-IsNew, set-IsNew, get-last, set-last, IsNew-append, HasKeys, Distinct, IsNew-HasKeys,
  AllNew, AllNew-append, entries, partitions_of, set_states-entries, entries-HasKeys,
  length-entries, AllNew-nil,
}
use airbyte_python_cdk.Python.Dict.{Dict}
use airbyte_python_cdk.PerPartition.{
  Cursors, PerPartitionCursor, drop_oldest, ensure_partition_limit, cursor_of_partition,
  create_cursor, after_reading, set_initial_state, init, per_partition, stream_slices,
  generate_slices_from_partition,
}

drop_oldest-room :
    {C : Type 0} (max_partitions : ℕ) (cursors : Dict String C)
    → length cursors < max_partitions
    → drop_oldest max_partitions cursors ≡ (cursors, 0)
unfolding drop_oldest
drop_oldest-room max_partitions [] room = refl
drop_oldest-room max_partitions (entry ∷ cursors) room =
    let below : leb max_partitions (suc (length cursors)) ≡ false = ground arith in rw below refl

-- Of as many entries cursors as the limit the first one goes.
drop_oldest-full :
    {C : Type 0} (max_partitions : ℕ) (entry : String × C) (cursors : Dict String C)
    → suc (length cursors) ≡ max_partitions
    → drop_oldest max_partitions (entry ∷ cursors) ≡ (cursors, 1)
unfolding drop_oldest
drop_oldest-full max_partitions entry cursors full =
    let reached : leb max_partitions (suc (length cursors)) ≡ true = ground arith in
    rw (reached, drop_oldest-room max_partitions cursors (omega arith)) refl

module _ {C P S D T : Type 0} (cursors : Cursors C P S D T) where
  open cursors use {to_partition_key}

  -- The slices of cursors that are new.
  abbrev pub new_slices : List P → List (P × S)
  new_slices [] = []
  new_slices (partition ∷ partitions) =
      map (λ s. (partition, s))
        (cursors.stream_slices (create_cursor cursors cursors.no_cursor_state))
      ++ new_slices partitions

  abbrev fresh : C
  fresh = create_cursor cursors cursors.no_cursor_state

  -- The state of the oldest partition is dropped, and then not found.
  generate_slices-fresh :
      (partition : P) (c : PerPartitionCursor C T) (entry : String × C) (m : Dict String C)
      → c.cursor_per_partition ≡ entry ∷ m
      → c.state_to_migrate_from ≡ none
      → IsNew (to_partition_key partition) m
      → generate_slices_from_partition cursors (suc (length m)) partition c ≡ (
        map (λ s. (partition, s)) (cursors.stream_slices fresh),
        record c {
          cursor_per_partition = m ++ ((to_partition_key partition, fresh) ∷ []);
          over_limit = c.over_limit + 1;
        },
      )
  unfolding generate_slices_from_partition cursor_of_partition ensure_partition_limit
  generate_slices-fresh partition c entry m e none_set unknown =
      let key = to_partition_key partition in
      rw
        (
          e,
          drop_oldest-full (suc (length m)) entry m refl,
          get-IsNew key m unknown,
          none_set,
          set-IsNew key fresh m unknown,
        )
        refl

  after_reading-last :
      (read : P → C → C) (partition : P) (c : PerPartitionCursor C T) (m : Dict String C)
      → c.cursor_per_partition ≡ m ++ ((to_partition_key partition, fresh) ∷ [])
      → IsNew (to_partition_key partition) m
      → after_reading cursors read partition c ≡ record c {
        cursor_per_partition = m ++ ((to_partition_key partition, read partition fresh) ∷ []);
      }
  after_reading-last read partition c m e unknown =
      let key = to_partition_key partition in
      rw
        (
          e,
          get-last key fresh m unknown,
          after_reading,
          e,
          set-last key fresh (read partition fresh) m unknown,
        )
        refl

  module _ (read : P → C → C) where
    -- One partition after another is known, and dropped before it is looked for.
    stream_slices-new_slices :
        (partitions : List P) (c : PerPartitionCursor C T) (old done : Dict String C)
        (max_partitions : ℕ)
        → c.cursor_per_partition ≡ old ++ done
        → c.state_to_migrate_from ≡ none
        → length (old ++ done) ≡ max_partitions
        → HasKeys cursors partitions old
        → Distinct cursors partitions
        → AllNew cursors partitions done
        → (stream_slices cursors read max_partitions partitions c).0 ≡ new_slices partitions
    unfolding stream_slices
    stream_slices-new_slices [] c old done limit e none_set full keys distinct new = refl
    stream_slices-new_slices (partition ∷ partitions) c [] done limit e none_set full keys distinct
          new =
        absurd keys
    stream_slices-new_slices (partition ∷ partitions) c (entry ∷ old) done limit e none_set full
          keys distinct new =
        let key = to_partition_key partition in
        let unknown : IsNew key (old ++ done) =
          IsNew-append key old done (IsNew-HasKeys cursors key partitions old distinct.0 keys.1)
            new.0 in
        let opened : PerPartitionCursor C T = record c {
          cursor_per_partition = (old ++ done) ++ ((key, fresh) ∷ []);
          over_limit = c.over_limit + 1;
        } in
        let next : PerPartitionCursor C T = record opened {
          cursor_per_partition = (old ++ done) ++ ((key, read partition fresh) ∷ []);
        } in
        let ih =
          stream_slices-new_slices partitions next old (done ++ ((key, read partition fresh) ∷ []))
            limit (append_assoc old done ((key, read partition fresh) ∷ [])) none_set
            (omega (
              arith,
              full,
              length-append old (done ++ ((key, read partition fresh) ∷ [])),
              length-append old done,
              length-append done ((key, read partition fresh) ∷ []),
            ))
            keys.1 distinct.1
            (AllNew-append cursors partitions key (read partition fresh) done distinct.0 new.1) in
        rw
          (
            ← full,
            generate_slices-fresh partition c entry (old ++ done) e none_set unknown,
            after_reading-last read partition opened (old ++ done) refl unknown,
            ih,
          )
          refl

  -- A cursor that starts from the states of as many partitions as it may keep, all with different keys,
  -- and is asked for the slices of the same partitions in the same order, whatever reading them does to
  -- their cursors: the slices are those of new cursors without a state, all states are lost.
  pub stream_slices-forgets :
      (read : P → C → C) (states : List (P × T))
      → Distinct cursors (partitions_of states)
      → (stream_slices cursors read
          (length states)
          (partitions_of states)
          (set_initial_state cursors (per_partition states none) init)).0
        ≡ new_slices (partitions_of states)
  unfolding set_initial_state init
  stream_slices-forgets read states distinct =
      let known =
        set_states-entries cursors states [] distinct (AllNew-nil cursors (partitions_of states)) in
      stream_slices-new_slices read (partitions_of states)
        (set_initial_state cursors (per_partition states none) init) (entries cursors states) []
        (length states) (known ∙ sym (append-nil (entries cursors states))) refl
        (omega (arith, length-entries cursors states, length-append (entries cursors states) []))
        (entries-HasKeys cursors states) distinct (AllNew-nil cursors (partitions_of states))
