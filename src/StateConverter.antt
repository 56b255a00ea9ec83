-- ===== src/StateConverter.antt =====
-- airbyte_cdk/sources/streams/concurrent/state_converters: the state of a concurrent stream as a
-- list of intervals of the cursor. A `datetime` is the number of its microseconds after
-- `datetime.min`; a message value (a text or a number of the state message) is of the type `V`.
pub mod Merge
pub mod Complete
pub mod Resume
pub mod Tests
use airbyte_python_cdk.Prelude.{
  ℕ, Bool, true, false, Option, none, some, List, [], ◌∷◌, String, max, leb, if◌then◌else◌,
  text_key, ◌&&◌, ltb, eqb, ◌||◌,
}
use airbyte_python_cdk.Python.Exceptions.{
  Result, ok, raise, ◌>>=◌, runtime_error, attribute_error, type_error,
}
use airbyte_python_cdk.Python.Dict.{Dict, get, set}
use airbyte_python_cdk.Python.Sorting.{sorted}

-- A cursor value of a state: a `datetime`, or a message that was never parsed.
pub data CursorValue (V : Type 0) : Type 0 where
  parsed : ℕ → CursorValue V
  unparsed : V → CursorValue V

pub record Interval (V : Type 0) : Type 0 where
  pub start : ℕ
  pub end : ℕ
  pub most_recent : Option (CursorValue V)

pub record MessageInterval (V : Type 0) : Type 0 where
  pub start : V
  pub end : V
  pub most_recent : Option V

-- The mapping that a cursor keeps; its `state_type` is always "date-range".
pub record ConcurrentState (V : Type 0) : Type 0 where
  pub slices : Option (List (Interval V))
  pub legacy : Option (Dict String V)

-- A state message: one of `state_type` "date-range", or any other mapping.
pub data StateMessage (V : Type 0) : Type 0 where
  date_range : Option (List (MessageInterval V)) → Option (Dict String V) → StateMessage V
  sequential : Dict String V → StateMessage V

-- What a subclass of `AbstractStreamStateConverter` supplies, and what Python does with a message
-- value: its truth value, and `>` on two of them.
pub record Converter (V : Type 0) : Type 0 where
  pub parse_timestamp : V → Result ℕ
  pub output_format : ℕ → V
  pub increment : ℕ → ℕ
  pub zero_value : ℕ
  pub is_truthy : V → Bool
  pub greater : V → V → Bool
  pub is_sequential_state : Bool

-- `m.get(key, [])` and `m.get(key, {})`
abbrev pub or_empty {ℓ} : {A : Type ℓ} → Option (List A) → List A
or_empty none = []
or_empty (some l) = l

module _ {V : Type 0} where
  -- The order of the tuples (start, end).
  abbrev pub by_boundaries : Interval V → Interval V → Bool
  by_boundaries a b = ltb a.start b.start || (eqb a.start b.start && leb a.end b.end)

  pub is_state_message_compatible : StateMessage V → Bool
  is_state_message_compatible (date_range _ _) = true
  is_state_message_compatible (sequential _) = false

module _ {V : Type 0} (converter : Converter V) where
  open converter use {
    parse_timestamp, output_format, increment, zero_value, is_truthy, greater, is_sequential_state,
  }

  pub truth : Option (CursorValue V) → Bool
  truth none = false
  truth (some (parsed t)) = true
  truth (some (unparsed v)) = is_truthy v

  -- `max(a, b)`, which raises on values of two types.
  pub max_value : CursorValue V → CursorValue V → Result (CursorValue V)
  max_value (parsed a) (parsed b) = ok (parsed (max a b))
  max_value (unparsed a) (unparsed b) = ok (unparsed (if greater b a then b else a))
  max_value _ _ = raise type_error

  pub max_most_recent :
      Option (CursorValue V) → Option (CursorValue V) → Result (Option (CursorValue V))
  unfolding truth max_value
  max_most_recent (some c) (some l) =
      if truth (some c) && truth (some l)
      then (do m ← max_value c l; ok (some m))
      else ok (if truth (some c) then some c else some l)
  max_most_recent c l = ok (if truth c then c else l)

  -- The body of the loop of `merge_intervals` where the intervals touch.
  pub absorb : Interval V → Interval V → Result (Interval V)
  absorb last current = do
    m ← max_most_recent current.most_recent last.most_recent
    ok (record last { end = max last.end current.end; most_recent = m })

  -- The loop of `merge_intervals`: `last` is the last merged interval so far.
  pub merge_loop : Interval V → List (Interval V) → Result (List (Interval V))
  merge_loop last [] = ok (last ∷ [])
  merge_loop last (current ∷ rest) =
      let merged = (do last' ← absorb last current; merge_loop last' rest) in
      let added = (do others ← merge_loop current rest; ok (last ∷ others)) in
      if leb current.start (increment last.end) then merged else added

  pub merge_sorted : List (Interval V) → Result (List (Interval V))
  unfolding merge_loop
  merge_sorted [] = ok []
  merge_sorted (first ∷ rest) = merge_loop first rest

  pub merge_intervals : List (Interval V) → Result (List (Interval V))
  merge_intervals intervals = merge_sorted (sorted by_boundaries intervals)

  -- `most_recent_cursor_value or start` of the first merged interval.
  pub first_complete : List (Interval V) → Result (CursorValue V)
  unfolding truth
  first_complete [] = raise runtime_error
  first_complete (first ∷ _) = ok (elim first.most_recent [
    | none ↦ parsed first.start
    | some v ↦ if truth (some v) then v else parsed first.start
  ])

  pub get_latest_complete_time : List (Interval V) → Result (CursorValue V)
  get_latest_complete_time [] = raise runtime_error
  get_latest_complete_time (s ∷ slices) = do
    merged ← merge_intervals (s ∷ slices)
    first_complete merged

  -- `_to_state_message`: formatting is a method of `datetime`.
  pub to_state_message : CursorValue V → Result V
  to_state_message (parsed t) = ok (output_format t)
  to_state_message (unparsed v) = raise attribute_error

  deserialize_slices : List (MessageInterval V) → Result (List (Interval V))
  deserialize_slices [] = ok []
  deserialize_slices (s ∷ slices) = do
    start ← parse_timestamp s.start
    end ← parse_timestamp s.end
    rest ← deserialize_slices slices
    ok (
        record {
          start = start;
          end = end;
          most_recent = elim s.most_recent [ none ↦ none | some v ↦ some (unparsed v) ];
        }
        ∷ rest)

  -- `deserialize` of a compatible message: it parses the boundaries of each slice in place.
  pub deserialize :
      Option (List (MessageInterval V)) → Option (Dict String V) → Result (ConcurrentState V)
  unfolding deserialize_slices
  deserialize none legacy = ok (record { slices = none; legacy = legacy })
  deserialize (some slices) legacy = do
    parsed_slices ← deserialize_slices slices
    ok (record { slices = some parsed_slices; legacy = legacy })

  serialize_slices : List (Interval V) → Result (List (MessageInterval V))
  unfolding truth to_state_message
  serialize_slices [] = ok []
  serialize_slices (s ∷ slices) = do
    recent ← (elim s.most_recent [
      | none ↦ ok none
      | some v ↦ if truth (some v) then (do m ← to_state_message v; ok (some m)) else ok none
    ])
    rest ← serialize_slices slices
    ok (
        record { start = output_format s.start; end = output_format s.end; most_recent = recent }
        ∷ rest)

  pub serialize : ConcurrentState V → Result (StateMessage V)
  unfolding serialize_slices
  serialize state = do
    slices ← serialize_slices (or_empty state.slices)
    ok (date_range (some slices) none)

  pub convert_to_state_message : String → ConcurrentState V → Result (StateMessage V)
  convert_to_state_message cursor_field state =
      if is_sequential_state
      then (do
        latest ← get_latest_complete_time (or_empty state.slices)
        message ← to_state_message latest
        ok (sequential (set (or_empty state.legacy) cursor_field message)))
      else serialize state

  -- `start if start is not None else zero_value`
  abbrev start_or_zero : Option ℕ → ℕ
  start_or_zero none = zero_value
  start_or_zero (some t) = t

  abbrev low_water_mark : ℕ → Option V → Result ℕ
  low_water_mark sync_start none = ok sync_start
  low_water_mark sync_start (some v) = do
    mark ← parse_timestamp v
    ok (if leb sync_start mark then mark else sync_start)

  pub get_sync_start : String → Dict String V → Option ℕ → Result ℕ
  unfolding get
  get_sync_start cursor_field stream_state start =
      low_water_mark (start_or_zero start) (get stream_state cursor_field)

  pub convert_from_sequential_state :
      String → Dict String V → Option ℕ → Result (ℕ × ConcurrentState V)
  unfolding get_sync_start
  convert_from_sequential_state cursor_field stream_state start = do
    sync_start ← get_sync_start cursor_field stream_state start
    ok (
      sync_start,
      record {
        slices = some (
            record {
              start = elim start [ none ↦ sync_start | some t ↦ t ];
              end = sync_start;
              most_recent = some (parsed sync_start);
            }
            ∷ []);
        legacy = some stream_state;
      },
    )
