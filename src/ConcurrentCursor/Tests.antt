-- ===== src/ConcurrentCursor/Tests.antt =====
-- ConcurrentCursor on small inputs: a stream slice is the number where it starts, and is ten long.
use airbyte_python_cdk.Prelude.{
  ℕ, ◌+◌, ◌≡◌, refl, some, none, [], ◌∷◌, arith, ◌==◌, number_key, text_key, if◌then◌else◌, false,
}
use airbyte_python_cdk.Python.Exceptions.{ok}
use airbyte_python_cdk.Python.Dict
use airbyte_python_cdk.StateConverter.{parsed, Interval}
use airbyte_python_cdk.StateConverter.Tests.{micros}
use airbyte_python_cdk.ConcurrentCursor.{
  Record, Config, Cursor, extract_cursor_value, extract_from_slice, observe, close_partition,
}
use airbyte_python_cdk.ConcurrentCursor.Slices.{split_per_slice_range}
use airbyte_python_cdk.ConcurrentCursor.Slices.Split.{IsSplitOf, split_per_slice_range-IsSplitOf}
use airbyte_python_cdk.ConcurrentCursor.Close.{
  newest, observe_lem, ClosesInto, closed_slice, close_partition-ClosesInto,
}

abbrev config : Config ℕ ℕ
config = record {
  converter = micros;
  cursor_field = "updated_at";
  slice_boundary_fields = some ("start", "end");
  initial_start = some 5;
  end_value = 100;
  datetime_max = 1000;
  lookback_window = none;
  slice_range = some 10;
  cursor_granularity = some 1;
  slice_field =
      λ s key. if key == "start" then some s else if key == "end" then some (s + 10) else none;
}

abbrev before : Interval ℕ
before = record { start = 0; end = 20; most_recent = some (parsed 20) }

abbrev cursor : Cursor ℕ ℕ
cursor = record {
  start = 5;
  state = record { slices = some (before ∷ []); legacy = none };
  most_recent_per_partition = (21, 25) ∷ [];
  has_closed_at_least_one_slice = false;
  emitted = [];
}

abbrev seen : Record ℕ ℕ
seen = record { content = ("updated_at", 29) ∷ []; associated_slice = 21 }

split_per_slice_range-IsSplitOf_example :
    IsSplitOf config (some 10) 5 30 false (split_per_slice_range config 2 30 false)
split_per_slice_range-IsSplitOf_example =
    split_per_slice_range-IsSplitOf config 2 30 false (omega arith) (omega arith) (omega arith)
      (omega arith) (omega arith) (λ step h. ground arith)

split_test :
    (split_per_slice_range config 2 30 false).items
    ≡ record { lower = 5; upper = 14 }
      ∷ record { lower = 15; upper = 24 }
      ∷ record { lower = 25; upper = 29 }
      ∷ []
unfolding split_per_slice_range
split_test = refl

observe_lem_example :
    (seen_values : Dict.Dict ℕ ℕ) × (observe config cursor seen
      ≡ ok (record cursor { most_recent_per_partition = seen_values }))
    × ((s : ℕ)
        → Dict.get seen_values s ≡ (
            if 21 == s
            then some (newest (Dict.get cursor.most_recent_per_partition 21) 29)
            else Dict.get cursor.most_recent_per_partition s))
unfolding extract_cursor_value Dict.get
observe_lem_example = observe_lem config cursor seen 29 refl

close_partition-ClosesInto_example :
    ClosesInto config cursor
      (before ∷ closed_slice config cursor 21 21 31 ∷ [])
      (close_partition config cursor 21)
unfolding extract_from_slice Dict.get
close_partition-ClosesInto_example =
    close_partition-ClosesInto config cursor 21 (before ∷ []) "start" "end" 21 31 (λ v. omega arith)
      refl refl refl (omega arith) refl refl (omega arith)
