-- ===== src/PerPartition.antt =====
-- airbyte_cdk/sources/declarative/incremental/per_partition_cursor.py: a cursor for each partition. `C`
-- is a partition's cursor, `P` a partition, `S` a cursor slice, `D` a record, `T` a state mapping. The
-- key of a partition is the text that PerPartitionKeySerializer makes of it; that it tells partitions
-- apart and can be read back is a hypothesis. An OrderedDict is a dictionary in insertion order.
pub mod States
pub mod Limit
pub mod RoundTrip
mod Tests
use airbyte_python_cdk.Prelude.{
  ℕ, suc, ◌+◌, Bool, true, false, Option, none, some, List, [], ◌∷◌, ◌++◌, map, length, leb, ltb,
  if◌then◌else◌, String, text_key,
}
use airbyte_python_cdk.Python.Exceptions.{Result, ok, raise, value_error, key_error, ◌>>=◌}
use airbyte_python_cdk.Python.Dict.{Dict, get, set}

-- The cursors that the factory makes, and the partition router with the serializer of its partitions.
pub record Cursors (C P S D T : Type 0) : Type 0 where
  pub create : C
  pub set_initial_state : C → T → C
  pub stream_slices : C → List S
  pub observe : C → S → D → C
  pub close_slice : C → S → Result C
  pub get_stream_state : C → T
  pub is_truthy : T → Bool
  pub no_cursor_state : T
  pub to_partition_key : P → String
  pub to_partition : String → P

pub record PerPartitionCursor (C T : Type 0) : Type 0 where
  pub cursor_per_partition : Dict String C
  pub over_limit : ℕ
  -- What is not set, or empty, is `none`.
  pub state_to_migrate_from : Option T

-- What `set_initial_state` reads: an empty state, one without the key "states", or the partitions with
-- their states and the value of "state".
pub data StreamState (P T : Type 0) : Type 0 where
  empty : StreamState P T
  global : T → StreamState P T
  per_partition : List (P × T) → Option T → StreamState P T

unfoldable pub init : {C T : Type 0} → PerPartitionCursor C T
init = record { cursor_per_partition = []; over_limit = 0; state_to_migrate_from = none }

-- The loop of `_ensure_partition_limit`, with a limit that is not 0: the oldest entries go while there
-- are as many as the limit; then how many went.
unfoldable pub drop_oldest : {C : Type 0} → ℕ → Dict String C → Dict String C × ℕ
drop_oldest max_partitions [] = ([], 0)
drop_oldest max_partitions (entry ∷ cursors) =
    let (rest, dropped) = drop_oldest max_partitions cursors in
    if leb max_partitions (suc (length cursors)) then (rest, suc dropped) else (entry ∷ cursors, 0)

unfoldable pub ensure_partition_limit :
    {C T : Type 0} → ℕ → PerPartitionCursor C T → PerPartitionCursor C T
unfolding drop_oldest
ensure_partition_limit max_partitions c =
    let (cursors, dropped) = drop_oldest max_partitions c.cursor_per_partition in
    record c { cursor_per_partition = cursors; over_limit = c.over_limit + dropped }

unfoldable pub limit_reached : {C T : Type 0} → ℕ → PerPartitionCursor C T → Bool
limit_reached max_partitions c = ltb max_partitions c.over_limit

module _ {C P S D T : Type 0} (cursors : Cursors C P S D T) where
  abbrev pub create_cursor : T → C
  create_cursor state = cursors.set_initial_state cursors.create state

  -- The cursor of a partition that is not known.
  abbrev pub new_cursor : PerPartitionCursor C T → C
  new_cursor c = elim c.state_to_migrate_from [
    | none ↦ create_cursor cursors.no_cursor_state
    | some state ↦
        if cursors.is_truthy state
        then create_cursor state
        else create_cursor cursors.no_cursor_state
  ]

  abbrev pub known_or_new : Option C → String → PerPartitionCursor C T → C × PerPartitionCursor C T
  known_or_new (some cursor) key c = (cursor, c)
  known_or_new none key c = (
    new_cursor c,
    record c { cursor_per_partition = set c.cursor_per_partition key (new_cursor c) },
  )

  -- `generate_slices_from_partition` as far as the cursor of the partition, which then gives its slices.
  unfoldable pub cursor_of_partition : ℕ → P → PerPartitionCursor C T → C × PerPartitionCursor C T
  cursor_of_partition max_partitions partition c =
      let c' = ensure_partition_limit max_partitions c in
      known_or_new (get c'.cursor_per_partition (cursors.to_partition_key partition))
        (cursors.to_partition_key partition) c'

  unfoldable pub generate_slices_from_partition :
      ℕ → P → PerPartitionCursor C T → List (P × S) × PerPartitionCursor C T
  unfolding cursor_of_partition
  generate_slices_from_partition max_partitions partition c =
      let (cursor, c') = cursor_of_partition max_partitions partition c in
      (map (λ s. (partition, s)) (cursors.stream_slices cursor), c')

  abbrev pub set_states : List (P × T) → Dict String C → Dict String C
  set_states [] known = known
  set_states ((partition, state) ∷ states) known =
      set_states states (set known (cursors.to_partition_key partition) (create_cursor state))

  unfoldable pub set_initial_state :
      StreamState P T → PerPartitionCursor C T → PerPartitionCursor C T
  set_initial_state empty c = c
  set_initial_state (global state) c = record c { state_to_migrate_from = some state }
  set_initial_state (per_partition states state) c = record c {
    cursor_per_partition = set_states states c.cursor_per_partition;
    state_to_migrate_from = elim state [ none ↦ c.state_to_migrate_from | some value ↦ some value ];
  }

  -- Of a partition that is not known, a KeyError.
  unfoldable pub observe : P → S → D → PerPartitionCursor C T → Result (PerPartitionCursor C T)
  observe partition s d c =
      let key = cursors.to_partition_key partition in
      elim (get c.cursor_per_partition key) [
        | none ↦ raise key_error
        | some cursor ↦ ok (record c {
          cursor_per_partition = set c.cursor_per_partition key (cursors.observe cursor s d);
        })
      ]

  -- A KeyError of the partition's cursor becomes a ValueError too.
  abbrev pub as_value_error : Result C → Result C
  as_value_error (ok cursor) = ok cursor
  as_value_error (raise key_error) = raise value_error
  as_value_error (raise x) = raise x

  unfoldable pub close_slice : P → S → PerPartitionCursor C T → Result (PerPartitionCursor C T)
  close_slice partition s c =
      let key = cursors.to_partition_key partition in
      elim (get c.cursor_per_partition key) [
        | none ↦ raise value_error
        | some cursor ↦
            (as_value_error (cursors.close_slice cursor s) >>= λ cursor'.
            ok (record c { cursor_per_partition = set c.cursor_per_partition key cursor' }))
      ]

  -- The value of "states": the cursors whose state is not empty.
  unfoldable pub states_of : Dict String C → List (P × T)
  states_of [] = []
  states_of ((key, cursor) ∷ known) =
      if cursors.is_truthy (cursors.get_stream_state cursor)
      then (cursors.to_partition key, cursors.get_stream_state cursor) ∷ states_of known
      else states_of known

  -- `get_stream_state`, without the parent state, which is the router's
  unfoldable pub get_stream_state : PerPartitionCursor C T → StreamState P T
  unfolding states_of
  get_stream_state c = per_partition (states_of c.cursor_per_partition) none

  -- `select_state` of a slice that is not empty
  unfoldable pub select_state : P → PerPartitionCursor C T → Option T
  select_state partition c =
      elim (get c.cursor_per_partition (cursors.to_partition_key partition)) [
        | none ↦ none
        | some cursor ↦ some (cursors.get_stream_state cursor)
      ]

  -- The caller reads the slices of a partition, which leaves its cursor as `read` says.
  abbrev pub after_reading : (P → C → C) → P → PerPartitionCursor C T → PerPartitionCursor C T
  after_reading read partition c =
      let key = cursors.to_partition_key partition in
      elim (get c.cursor_per_partition key) [
        | none ↦ c
        | some cursor ↦ record c {
          cursor_per_partition = set c.cursor_per_partition key (read partition cursor);
        }
      ]

  -- `stream_slices` over the partitions of the router
  unfoldable pub stream_slices :
      (P → C → C) → ℕ → List P → PerPartitionCursor C T → List (P × S) × PerPartitionCursor C T
  stream_slices read max_partitions [] c = ([], c)
  stream_slices read max_partitions (partition ∷ partitions) c =
      let (slices, c') = generate_slices_from_partition max_partitions partition c in
      let (rest, c'') =
        stream_slices read max_partitions partitions (after_reading read partition c') in
      (slices ++ rest, c'')
