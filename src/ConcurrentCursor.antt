-- ===== src/ConcurrentCursor.antt =====
-- airbyte_cdk/sources/streams/concurrent/cursor.py: the cursor of a concurrent stream. `S` is the
-- type of stream slices, `V` that of the values of records, slices and messages. A `timedelta` is
-- its number of microseconds, and none of them is negative.
pub mod Slices
pub mod Close
mod Tests
use airbyte_python_cdk.Prelude.{
  ℕ, suc, zero, ◌+◌, ◌-◌, Bool, true, false, not, Option, none, some, List, [], ◌∷◌, ◌++◌, String,
  max, min, leb, ltb, if◌then◌else◌, text_key, ◌&&◌, ◌||◌, Hashable, length, map,
}
use airbyte_python_cdk.Python.Exceptions.{
  Exception, Result, ok, raise, ◌>>=◌, value_error, key_error, runtime_error, overflow_error,
}
use airbyte_python_cdk.Python.Generators.{
  Generator, nothing, just, fails, diverges, ◌then_from◌, yield_then, run_then,
}
use airbyte_python_cdk.Python.Dict
use airbyte_python_cdk.Python.Dict.{Dict}
use airbyte_python_cdk.StateConverter.{
  parsed, Interval, StateMessage, date_range, sequential, ConcurrentState, Converter, or_empty,
  merge_intervals, convert_to_state_message, deserialize, convert_from_sequential_state,
}

pub record Record (S V : Type 0) : Type 0 where
  pub content : Dict String V
  pub associated_slice : S

-- The arguments of the constructor. `end_value` is what `end_provider` returns, `datetime_max` is
-- `datetime.max`, and `slice_field` is the subscription of a slice by a key.
pub record Config (S V : Type 0) : Type 0 where
  pub converter : Converter V
  pub cursor_field : String
  pub slice_boundary_fields : Option (String × String)
  pub initial_start : Option ℕ
  pub end_value : ℕ
  pub datetime_max : ℕ
  pub lookback_window : Option ℕ
  pub slice_range : Option ℕ
  pub cursor_granularity : Option ℕ
  pub slice_field : S → String → Option V

-- The fields that change, and the state messages emitted so far.
pub record Cursor (S V : Type 0) : Type 0 where
  pub start : ℕ
  pub state : ConcurrentState V
  pub most_recent_per_partition : Dict S ℕ
  pub has_closed_at_least_one_slice : Bool
  pub emitted : List (StateMessage V)

-- The boundaries of a slice to read.
pub record Range : Type 0 where
  pub lower : ℕ
  pub upper : ℕ

-- A `timedelta` that is given and not zero.
abbrev pub truthy_gap : Option ℕ → Option ℕ
truthy_gap none = none
truthy_gap (some zero) = none
truthy_gap (some (suc n)) = some (suc n)

-- `a - gap` on a datetime, which has a least value.
abbrev pub sub_gap : ℕ → ℕ → Result ℕ
sub_gap a gap = if leb gap a then ok (a - gap) else raise overflow_error

abbrev pub sub_option : ℕ → Option ℕ → Result ℕ
sub_option a none = ok a
sub_option a (some gap) = sub_gap a gap

-- `most_recent is None or most_recent < value`
abbrev pub is_new : Option ℕ → ℕ → Bool
is_new none value = true
is_new (some recent) value = ltb recent value

module _ {S V : Type 0} ⦃e : Hashable S⦄ (config : Config S V) where
  open config use {
    converter, cursor_field, slice_boundary_fields, initial_start, end_value, datetime_max,
    lookback_window, slice_range, cursor_granularity, slice_field,
  }

  -- `_get_concurrent_state`
  get_concurrent_state : StateMessage V → Result (ℕ × ConcurrentState V)
  get_concurrent_state (date_range slices legacy) = do
    state ← deserialize converter slices legacy
    ok (elim initial_start [ none ↦ converter.zero_value | some t ↦ t ], state)
  get_concurrent_state (sequential legacy) =
      convert_from_sequential_state converter cursor_field legacy initial_start

  pub init : StateMessage V → Result (Cursor S V)
  unfolding get_concurrent_state
  init stream_state = do
    start_and_state ← get_concurrent_state stream_state
    ok (record {
      start = start_and_state.0;
      state = start_and_state.1;
      most_recent_per_partition = [];
      has_closed_at_least_one_slice = false;
      emitted = [];
    })

  -- `CursorField.extract_value` and `parse_value`
  pub extract_cursor_value : Record S V → Result ℕ
  extract_cursor_value record_read = elim (Dict.get record_read.content cursor_field) [
    | none ↦ raise value_error
    | some v ↦ converter.parse_timestamp v
  ]

  -- A `ValueError` is caught and logged; any other exception goes on.
  pub observe : Cursor S V → Record S V → Result (Cursor S V)
  observe cursor record_read =
      let slice = record_read.associated_slice in
      let seen = cursor.most_recent_per_partition in
      elim (extract_cursor_value record_read) [
        | ok value ↦ ok (
            if is_new (Dict.get seen slice) value
            then record cursor { most_recent_per_partition = Dict.set seen slice value }
            else cursor)
        | raise value_error ↦ ok cursor
        | raise other ↦ raise other
      ]

  pub should_be_synced : Cursor S V → Record S V → Result Bool
  should_be_synced cursor record_read = elim (extract_cursor_value record_read) [
    | ok value ↦ ok (leb cursor.start value && leb value end_value)
    | raise value_error ↦ ok true
    | raise other ↦ raise other
  ]

  pub extract_from_slice : S → String → Result ℕ
  extract_from_slice slice key = elim (slice_field slice key) [
    | none ↦ raise key_error
    | some v ↦ converter.parse_timestamp v
  ]

  -- `self.state["slices"].append(...)`
  append_slice : Cursor S V → Exception → Result (Interval V) → Result (Cursor S V)
  append_slice cursor missing interval = elim cursor.state.slices [
    | none ↦ raise missing
    | some slices ↦ do
      i ← interval
      ok (record cursor { state = record cursor.state { slices = some (slices ++ i ∷ []) } })
  ]

  pub add_slice_to_state : Cursor S V → S → Result (Cursor S V)
  unfolding append_slice
  add_slice_to_state cursor slice =
      let recent = Dict.get cursor.most_recent_per_partition slice in
      elim slice_boundary_fields [
        | some (start_field, end_field) ↦ append_slice cursor runtime_error (do
          a ← extract_from_slice slice start_field
          b ← extract_from_slice slice end_field
          ok (record {
            start = a;
            end = b;
            most_recent = elim recent [ none ↦ none | some t ↦ some (parsed t) ];
          }))
        | none ↦ elim recent [
          | none ↦ ok cursor
          | some t ↦
              if cursor.has_closed_at_least_one_slice
              then raise value_error
              else append_slice cursor key_error
                  (ok (record { start = cursor.start; end = t; most_recent = some (parsed t) }))
        ]
      ]

  pub emit_state_message : Cursor S V → Result (Cursor S V)
  emit_state_message cursor = do
    message ← convert_to_state_message converter cursor_field cursor.state
    ok (record cursor { emitted = cursor.emitted ++ message ∷ [] })

  pub ensure_at_least_one_state_emitted : Cursor S V → Result (Cursor S V)
  unfolding emit_state_message
  ensure_at_least_one_state_emitted cursor = emit_state_message cursor

  -- The state stays as it is if the slices are missing or cannot be merged.
  pub merge_partitions : Cursor S V → Result (Cursor S V)
  merge_partitions cursor = elim cursor.state.slices [
    | none ↦ raise key_error
    | some slices ↦ do
      merged ← merge_intervals converter slices
      ok (record cursor { state = record cursor.state { slices = some merged } })
  ]

  abbrev pub close : Cursor S V → Cursor S V
  close cursor = record cursor { has_closed_at_least_one_slice = true }

  -- The end of `close_partition`, where a slice was added. A failing step leaves what the steps
  -- before it have written.
  merge_and_emit : Cursor S V → Result (Unit {0}) × Cursor S V
  merge_and_emit added = elim (merge_partitions added) [
    | raise x ↦ (raise x, added)
    | ok merged ↦ elim (emit_state_message merged) [
      | raise x ↦ (raise x, merged)
      | ok after ↦ (ok tt, close after)
    ]
  ]

  pub close_partition : Cursor S V → S → Result (Unit {0}) × Cursor S V
  close_partition cursor slice = elim (add_slice_to_state cursor slice) [
    | raise x ↦ (raise x, cursor)
    | ok added ↦ elim added.state.slices [
      | none ↦ (raise key_error, added)
      | some slices ↦
          if ltb (length (or_empty cursor.state.slices)) (length slices)
          then merge_and_emit added
          else (ok tt, close added)
    ]
  ]
