-- ===== src/GlobalCursor.antt =====
-- airbyte_cdk/sources/declarative/incremental/global_substream_cursor.py: one cursor for all
-- partitions of a substream, which is closed when every slice is. `C` is the stream cursor, `S` a
-- slice, `D` a record, `T` a state mapping. The thread that generates slices and those that close
-- them take their steps in any order, which is a list of choices.
pub mod Tracking
pub mod Closing
mod Tests
use airbyte_python_cdk.Prelude.{
  ℕ, zero, suc, ◌+◌, ◌-◌, Bool, true, false, Option, none, some, List, [], ◌∷◌, ◌++◌, if◌then◌else◌,
  ◌&&◌, eqb,
}
use Prim.Native.Nat.{◌/◌}
use airbyte_python_cdk.Python.Exceptions.{Result, ok, raise, runtime_error}

-- `iterate_with_last_flag_and_state`: a generator gives each element with what it is then.
unfoldable pub iterate_with_last_flag_and_state :
    {A W T : Type 0} → (W → T) → List (A × W) → List (A × Bool × T)
iterate_with_last_flag_and_state get_stream_state [] = []
iterate_with_last_flag_and_state get_stream_state ((current, w) ∷ []) =
    (current, true, get_stream_state w) ∷ []
iterate_with_last_flag_and_state get_stream_state ((current, w) ∷ next_item ∷ rest) =
    (current, false, get_stream_state w)
    ∷ iterate_with_last_flag_and_state get_stream_state (next_item ∷ rest)

-- `finish` of Timer: times are nanoseconds, the duration is rounded up to seconds. The source divides
-- floats, which gives the same below 2 ^ 53 nanoseconds that it can tell apart, some three months.
unfoldable pub finish : Option ℕ → ℕ → Result ℕ
finish none now = raise runtime_error
finish (some start) now =
    if eqb start 0 then raise runtime_error else ok ((now - start + 999999999) / 1000000000)

-- The cursor of the slices, a DatetimeBasedCursor.
pub record StreamCursor (C S D T : Type 0) : Type 0 where
  pub close_slice : C → S → C
  pub observe : C → S → D → C
  pub get_stream_state : C → T

pub record GlobalSubstreamCursor (C T : Type 0) : Type 0 where
  pub stream_cursor : C
  pub timer : Option ℕ
  pub slice_semaphore : ℕ
  pub all_slices_yielded : Bool
  pub lookback_window : Option ℕ
  pub parent_state : Option T

-- What `get_stream_state` puts together: the keys "state", "parent_state" and "lookback_window".
pub record State (T : Type 0) : Type 0 where
  pub state : T
  pub parent_state : Option T
  pub lookback_window : Option ℕ

module _ {C T : Type 0} where
  unfoldable pub init : C → GlobalSubstreamCursor C T
  init stream_cursor = record {
    stream_cursor = stream_cursor;
    timer = none;
    slice_semaphore = 0;
    all_slices_yielded = false;
    lookback_window = none;
    parent_state = none;
  }

  unfoldable pub start_slices_generation : ℕ → GlobalSubstreamCursor C T → GlobalSubstreamCursor C T
  start_slices_generation now g = record g { timer = some now }

  abbrev pub release : GlobalSubstreamCursor C T → GlobalSubstreamCursor C T
  release g = record g { slice_semaphore = suc g.slice_semaphore }

  abbrev pub flag_last : Bool → GlobalSubstreamCursor C T → GlobalSubstreamCursor C T
  flag_last true g = record g { all_slices_yielded = true }
  flag_last false g = g

  unfoldable pub register_slice : Bool → GlobalSubstreamCursor C T → GlobalSubstreamCursor C T
  register_slice last g = flag_last last (release g)

  abbrev pub acquire_at : ℕ → GlobalSubstreamCursor C T → Option (GlobalSubstreamCursor C T)
  acquire_at zero g = none
  acquire_at (suc n) g = some (record g { slice_semaphore = n })

  -- `acquire` of the semaphore waits where it is 0.
  abbrev pub acquire : GlobalSubstreamCursor C T → Option (GlobalSubstreamCursor C T)
  acquire g = acquire_at g.slice_semaphore g

module _ {C S D T : Type 0} (cursor : StreamCursor C S D T) where
  abbrev pub close_with :
      Result ℕ → S → GlobalSubstreamCursor C T → Result (Unit {0}) × GlobalSubstreamCursor C T
  close_with (raise x) s g = (raise x, g)
  close_with (ok seconds) s g = (
    ok tt,
    record g {
      lookback_window = some seconds;
      stream_cursor = cursor.close_slice g.stream_cursor s;
    },
  )

  -- The last slice closes the stream cursor, or raises where the timer was not started.
  unfoldable pub close_if_last :
      ℕ → S → GlobalSubstreamCursor C T → Result (Unit {0}) × GlobalSubstreamCursor C T
  close_if_last now s g =
      if g.all_slices_yielded && eqb g.slice_semaphore 0
      then close_with (finish g.timer now) s g
      else (ok tt, g)

  unfoldable pub close_slice :
      ℕ → S → GlobalSubstreamCursor C T → Option (Result (Unit {0}) × GlobalSubstreamCursor C T)
  close_slice now s g = elim (acquire g) [ none ↦ none | some g' ↦ some (close_if_last now s g') ]

  unfoldable pub observe : S → D → GlobalSubstreamCursor C T → GlobalSubstreamCursor C T
  observe s d g = record g { stream_cursor = cursor.observe g.stream_cursor s d }

  -- `is_truthy` is the truth value of a state mapping.
  unfoldable pub get_stream_state : (T → Bool) → GlobalSubstreamCursor C T → State T
  get_stream_state is_truthy g = record {
    state = cursor.get_stream_state g.stream_cursor;
    parent_state = elim g.parent_state [
      | none ↦ none
      | some state ↦ if is_truthy state then some state else none
    ];
    lookback_window = g.lookback_window;
  }

-- Where the loop of `stream_slices` stands: before a slice is registered, between the release of the
-- semaphore and the flag, or before the slice is yielded.
pub data Generator (S T : Type 0) : Type 0 where
  next : List (S × Bool × T) → Generator S T
  released : S → Bool → List (S × Bool × T) → Generator S T
  registered : S → List (S × Bool × T) → Generator S T

-- `open` are the slices that were yielded and not closed; `closing` has the lock, and the semaphore.
pub record System (C S T : Type 0) : Type 0 where
  pub global_cursor : GlobalSubstreamCursor C T
  pub generator : Generator S T
  pub open_slices : List S
  pub closing : Option S
  pub final_parent_state : T

-- A step of the generator; a thread that takes the lock to close a slice, and what it does then, at
-- a time; or a thread that observes a record.
pub data Choice (S D : Type 0) : Type 0 where
  generate : Choice S D
  take_lock : ℕ → Choice S D
  close : ℕ → Choice S D
  observe_record : S → D → Choice S D

-- The element at an index, with the others.
unfoldable pub remove_at : {A : Type 0} → ℕ → List A → Option (A × List A)
remove_at n [] = none
remove_at zero (x ∷ xs) = some (x, xs)
remove_at (suc n) (x ∷ xs) = elim (remove_at n xs) [
  | none ↦ none
  | some (y, rest) ↦ some (y, x ∷ rest)
]

module _ {C S D T : Type 0} (cursor : StreamCursor C S D T) where
  abbrev pub generate_next : Generator S T → System C S T → System C S T
  generate_next (next []) sys = record sys {
    global_cursor = record sys.global_cursor { parent_state = some sys.final_parent_state };
  }
  generate_next (next ((s, last, state) ∷ rest)) sys = record sys {
    global_cursor = release (record sys.global_cursor { parent_state = some state });
    generator = released s last rest;
  }
  generate_next (released s last rest) sys = record sys {
    global_cursor = flag_last last sys.global_cursor;
    generator = registered s rest;
  }
  generate_next (registered s rest) sys = record sys {
    generator = next rest;
    open_slices = s ∷ sys.open_slices;
  }

  abbrev pub lock_with :
      Option (GlobalSubstreamCursor C T) → Option (S × List S) → System C S T → System C S T
  lock_with (some g) (some (s, rest)) sys = record sys {
    global_cursor = g;
    open_slices = rest;
    closing = some s;
  }
  lock_with _ _ sys = sys

  abbrev pub lock : Option S → ℕ → System C S T → System C S T
  lock (some s) i sys = sys
  lock none i sys = lock_with (acquire sys.global_cursor) (remove_at i sys.open_slices) sys

  abbrev pub close_locked : Option S → ℕ → System C S T → System C S T
  close_locked none now sys = sys
  close_locked (some s) now sys = record sys {
    global_cursor = (close_if_last cursor now s sys.global_cursor).1;
    closing = none;
  }

  unfoldable pub perform : Choice S D → System C S T → System C S T
  perform generate sys = generate_next sys.generator sys
  perform (take_lock i) sys = lock sys.closing i sys
  perform (close now) sys = close_locked sys.closing now sys
  perform (observe_record s d) sys = record sys {
    global_cursor = observe cursor s d sys.global_cursor;
  }

  unfoldable pub perform_all : List (Choice S D) → System C S T → System C S T
  perform_all [] sys = sys
  perform_all (choice ∷ choices) sys = perform_all choices (perform choice sys)

  -- `stream_slices`, when the generation starts.
  unfoldable pub begin :
      {W : Type 0} → ℕ → (W → T) → List (S × W) → W → GlobalSubstreamCursor C T → System C S T
  begin now get_parent_state slices w g = record {
    global_cursor = start_slices_generation now g;
    generator = next (iterate_with_last_flag_and_state get_parent_state slices);
    open_slices = [];
    closing = none;
    final_parent_state = get_parent_state w;
  }
