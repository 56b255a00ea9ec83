-- ===== src/ConcurrentCursor/Slices.antt =====
-- `stream_slices` of ConcurrentCursor: the slices that are still to be read.
pub mod Split
use airbyte_python_cdk.Prelude.{
  ℕ, zero, suc, ◌+◌, ◌-◌, Bool, true, false, not, Option, none, some, List, [], ◌∷◌, max, min, leb,
  ltb, if◌then◌else◌, ◌&&◌, ◌||◌, Hashable, String, map, text_key,
}
use airbyte_python_cdk.Python.Exceptions.{Result, ok, raise, ◌>>=◌, value_error, overflow_error}
use airbyte_python_cdk.Python.Generators.{
  Generator, nothing, just, fails, diverges, ◌then_from◌, yield_then, run_then,
}
use airbyte_python_cdk.Python.Dict.{Dict, set}
use airbyte_python_cdk.StateConverter.{Interval, Converter}
use airbyte_python_cdk.ConcurrentCursor.{
  Config, Cursor, Range, truthy_gap, sub_gap, sub_option, merge_partitions,
}

-- `max(value, start) if start else value`, and `start and upper < start`.
abbrev pub clip : Option ℕ → ℕ → ℕ
clip none value = value
clip (some start) value = max value start

abbrev pub is_before : ℕ → Option ℕ → Bool
is_before value none = false
is_before value (some start) = ltb value start

-- The granularity that is taken off the upper boundary, except at the very end.
abbrev pub granularity_unless : Bool → Option ℕ → Option ℕ
granularity_unless true gap = none
granularity_unless false gap = truthy_gap gap

module _ {S V : Type 0} (config : Config S V) where
  open config use {
    converter, slice_boundary_fields, initial_start, end_value, datetime_max, lookback_window,
    slice_range, cursor_granularity,
  }

  -- Adding past `datetime.max` raises, and the end of the sync is taken instead.
  pub evaluate_upper_safely : ℕ → ℕ → ℕ
  evaluate_upper_safely lower step =
      if leb (lower + step) datetime_max then lower + step else end_value

  -- The `while` loop of `_split_per_slice_range`.
  pub split_loop : ℕ → ℕ → ℕ → Bool → ℕ → Generator Range
  unfolding evaluate_upper_safely
  split_loop zero step upper upper_is_end lower = diverges
  split_loop (suc fuel) step upper upper_is_end lower =
      let current_upper = min (evaluate_upper_safely lower step) upper in
      let reached = leb upper current_upper in
      let rest = split_loop fuel step upper upper_is_end current_upper in
      run_then
        (sub_option current_upper (granularity_unless (upper_is_end && reached) cursor_granularity))
        (λ end.
          yield_then (record { lower = lower; upper = end }) (if reached then nothing else rest))

  -- Without a slice range, or with one that reaches the upper boundary at once.
  split_once : ℕ → ℕ → Bool → Generator Range
  split_once lower upper upper_is_end =
      run_then (sub_option upper (granularity_unless upper_is_end cursor_granularity))
        (λ end. just (record { lower = lower; upper = end }))

  split_clipped : Option ℕ → ℕ → ℕ → Bool → Generator Range
  unfolding split_once split_loop
  split_clipped none lower upper upper_is_end = split_once lower upper upper_is_end
  split_clipped (some step) lower upper upper_is_end =
      if leb upper (evaluate_upper_safely lower step)
      then split_once lower upper upper_is_end
      else split_loop (suc (upper - lower)) step upper upper_is_end lower

  unfoldable pub split_per_slice_range : ℕ → ℕ → Bool → Generator Range
  unfolding split_clipped
  split_per_slice_range lower upper upper_is_end =
      if leb upper lower || is_before upper initial_start
      then nothing
      else split_clipped (truthy_gap slice_range) (clip initial_start lower) upper upper_is_end

  -- The part before the first slice of the state.
  abbrev before_first : Option ℕ → ℕ → Generator Range
  before_first none first_start = nothing
  before_first (some start) first_start =
      if ltb start first_start then split_per_slice_range start first_start false else nothing

  -- Adding the granularity, which raises past `datetime.max`.
  abbrev add_option : ℕ → Option ℕ → Result ℕ
  add_option a none = ok a
  add_option a (some gap) =
      if leb (a + gap) datetime_max then ok (a + gap) else raise overflow_error

  -- The gaps between the slices of the state, and the part behind the last.
  pub between_and_after : Interval V → List (Interval V) → Generator Range
  unfolding split_per_slice_range
  between_and_after last [] =
      run_then (sub_option last.end (truthy_gap lookback_window))
        (λ lower. split_per_slice_range lower end_value true)
  between_and_after last (next ∷ rest) =
      run_then (add_option last.end (truthy_gap cursor_granularity))
        (λ lower. split_per_slice_range lower next.start false)
      then_from between_and_after next rest

  ranges_of : List (Interval V) → Generator Range
  unfolding between_and_after
  ranges_of [] = fails value_error
  ranges_of (first ∷ rest) =
      before_first initial_start first.start then_from between_and_after first rest

  abbrev boundary_fields : Option (String × String) → String × String
  boundary_fields none = ("start", "end")
  boundary_fields (some fields) = fields

  -- The cursor slice of a `StreamSlice` that is yielded; its partition is empty.
  cursor_slice : Range → Dict String V
  cursor_slice range =
      let (start_field, end_field) = boundary_fields slice_boundary_fields in
      set (set [] start_field (converter.output_format range.lower)) end_field
        (converter.output_format range.upper)

module _ {S V : Type 0} ⦃e : Hashable S⦄ (config : Config S V) where
  -- `stream_slices` up to the format of its slices. The cursor also keeps the merged state.
  pub stream_ranges : Cursor S V → Generator Range
  unfolding merge_partitions ranges_of
  stream_ranges cursor = run_then (merge_partitions config cursor) (λ merged.
      elim merged.state.slices [ none ↦ fails value_error | some slices ↦ ranges_of config slices ])

  pub stream_slices : Cursor S V → Generator (Dict String V)
  unfolding stream_ranges cursor_slice
  stream_slices cursor =
      let ranges = stream_ranges cursor in
      record { items = map (cursor_slice config) ranges.items; outcome = ranges.outcome }
