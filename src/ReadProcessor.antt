-- ===== src/ReadProcessor.antt =====
-- airbyte_cdk/sources/concurrent_source/concurrent_read_processor.py and the loop of
-- concurrent_source.py: the main thread of a concurrent read, which handles the items of the queue.
-- A stream is its name. `W` is the state of the streams' cursors and of the message repository, `P`
-- the type of partitions, `R` that of records, `M` that of the repository's messages.
pub mod Counts
pub mod Invariant
pub mod Generation
pub mod Lifecycle
pub mod Progress
pub mod Consume
mod Tests
use airbyte_python_cdk.Prelude.{
  ℕ, zero, suc, ◌+◌, Bool, true, false, not, Option, none, some, List, [], ◌∷◌, ◌++◌, String, map,
  eqb, if◌then◌else◌, text_key, ◌&&◌, ◌||◌, Hashable, length, all, ◌==◌,
}
use airbyte_python_cdk.Python.Exceptions.{
  Exception, Result, ok, raise, value_error, key_error, runtime_error,
}
use airbyte_python_cdk.Python.Dict
use airbyte_python_cdk.Python.Dict.{Dict, contains, add, discard}

-- What the streams, their cursors, the slice logger and the message repository do.
pub record Environment (W P R M : Type 0) : Type 0 where
  pub stream_of_partition : P → String
  pub stream_of_record : R → String
  -- The record becomes a RECORD message, and its data is no empty mapping.
  pub is_record_message : R → Bool
  pub is_truthy : R → Bool
  pub observe : W → R → Result W
  pub close_partition : W → P → Result (Unit {0}) × W
  pub ensure_at_least_one_state_emitted : W → String → Result (Unit {0}) × W
  pub log_slice : W → P → W
  pub consume_queue : W → List M × W

pub data Status : Type 0 where
  started running complete incomplete : Status

-- A message that the read yields.
pub data Message (R M : Type 0) : Type 0 where
  stream_status : String → Status → Message R M
  trace : String → Message R M
  of_record : R → Message R M
  of_repository : M → Message R M

-- A task handed to the thread pool.
pub data Task (P : Type 0) : Type 0 where
  generate_partitions : String → Task P
  process_partition : P → Task P

pub data QueueItem (P R : Type 0) : Type 0 where
  thread_exception : String → Exception → QueueItem P R
  partition_generation_completed : String → QueueItem P R
  partition : P → QueueItem P R
  partition_complete : P → Bool → QueueItem P R
  record_read : R → QueueItem P R

-- `yielded` is the messages so far, `submitted` the tasks so far.
pub record Processor (W P R M : Type 0) : Type 0 where
  pub streams : List String
  pub record_counter : Dict String ℕ
  pub running_partitions : Dict String (List P)
  pub to_start : List String
  pub generating : List String
  pub done : List String
  pub exceptions : Dict String (List Exception)
  pub world : W
  pub yielded : List (Message R M)
  pub submitted : List (Task P)

abbrev pub or_empty {ℓ} : {A : Type ℓ} → Option (List A) → List A
or_empty none = []
or_empty (some l) = l

-- The state comes back beside an exception too.
abbrev pub Handled : (W P R M : Type 0) → Type 0
Handled W P R M = Result (Unit {0}) × Processor W P R M

abbrev pub is_failed : List Exception → Bool
is_failed [] = false
is_failed (x ∷ xs) = true

abbrev pub is_empty {ℓ} : {A : Type ℓ} → List A → Bool
is_empty [] = true
is_empty (x ∷ xs) = false

module _ {W P R M : Type 0} where
  -- One statement after another: an exception skips the second.
  abbrev pub and_then : Handled W P R M → (Processor W P R M → Handled W P R M) → Handled W P R M
  and_then (ok _, s) next = next s
  and_then (raise x, s) next = (raise x, s)

  abbrev pub yields : Message R M → Processor W P R M → Processor W P R M
  yields message s = record s { yielded = s.yielded ++ message ∷ [] }

  abbrev pub running_of : Processor W P R M → String → List P
  running_of s name = or_empty (Dict.get s.running_partitions name)

  -- `__init__` over the streams to read.
  unfoldable pub init : List String → W → Processor W P R M
  init streams world = record {
    streams = streams;
    record_counter = map (λ name. (name, zero)) streams;
    running_partitions = map (λ name. (name, [])) streams;
    to_start = streams;
    generating = [];
    done = [];
    exceptions = [];
    world = world;
    yielded = [];
    submitted = [];
  }

  pub flag_exception : String → Exception → Processor W P R M → Processor W P R M
  flag_exception name x s = record s {
    exceptions = Dict.set s.exceptions name (or_empty (Dict.get s.exceptions name) ++ x ∷ []);
  }

  -- `start_next_partition_generator`, with what it returns yielded by its callers.
  unfoldable pub start_first : List String → Processor W P R M → Processor W P R M
  start_first [] s = s
  start_first (name ∷ rest) s = record s {
    to_start = rest;
    submitted = s.submitted ++ generate_partitions name ∷ [];
    generating = s.generating ++ name ∷ [];
    yielded = s.yielded ++ stream_status name started ∷ [];
  }

  unfoldable pub start_next_partition_generator : Processor W P R M → Processor W P R M
  unfolding start_first
  start_next_partition_generator s = start_first s.to_start s

  unfoldable pub count_record : String → ℕ → Processor W P R M → Processor W P R M
  count_record name count s =
      let counted = record s { record_counter = Dict.set s.record_counter name (count + 1) } in
      if eqb count 0 then yields (stream_status name running) counted else counted

  abbrev pub observed_by : Processor W P R M → Result W → Handled W P R M
  observed_by s (ok world) = (ok tt, record s { world = world })
  observed_by s (raise x) = (raise x, s)

  -- `is_done`
  unfoldable pub is_done : Processor W P R M → Result Bool
  is_done s =
      let finished = all (contains s.done) s.streams in
      if finished && not (eqb (length s.exceptions) 0) then raise runtime_error else ok finished

module _ {W P R M : Type 0} ⦃key : Hashable P⦄ (environment : Environment W P R M) where
  open environment use {
    stream_of_partition, stream_of_record, is_record_message, observe, close_partition,
    ensure_at_least_one_state_emitted, log_slice, consume_queue,
  }

  -- `yield from self._message_repository.consume_queue()`
  unfoldable pub consume : Processor W P R M → Processor W P R M
  consume s =
      let (messages, world) = consume_queue s.world in
      record s { world = world; yielded = s.yielded ++ map of_repository messages }

  -- The rest of `_on_stream_is_done`, once the state is emitted.
  unfoldable pub mark_done : String → Processor W P R M → Processor W P R M
  unfolding consume
  mark_done name s =
      let s' = consume s in
      record s' {
        done = add s'.done name;
        yielded =
            s'.yielded
            ++ stream_status name (
                if is_failed (or_empty (Dict.get s'.exceptions name)) then incomplete else complete)
              ∷ [];
      }

  unfoldable pub on_stream_is_done : String → Processor W P R M → Handled W P R M
  on_stream_is_done name s =
      if contains s.streams name
      then and_then
          (let (result, world) = ensure_at_least_one_state_emitted s.world name in
            (result, record s { world = world }))
          (λ s'. (ok tt, mark_done name s'))
      else (raise key_error, s)

  abbrev pub finish_if : Bool → String → Processor W P R M → Handled W P R M
  finish_if test name s = if test then on_stream_is_done name s else (ok tt, s)

  unfoldable pub on_partition_generation_completed : String → Processor W P R M → Handled W P R M
  on_partition_generation_completed name s =
      if contains s.generating name
      then (let s' = record s { generating = discard s.generating name } in
          and_then (finish_if (contains s'.done name || is_empty (running_of s' name)) name s')
            (λ s''. (ok tt, start_next_partition_generator s'')))
      else (raise value_error, s)

  unfoldable pub on_partition : P → Processor W P R M → Handled W P R M
  on_partition p s =
      let name = stream_of_partition p in
      elim (Dict.get s.running_partitions name) [
        | none ↦ (raise key_error, s)
        | some opened ↦ (
          ok tt,
          record s {
            running_partitions = Dict.set s.running_partitions name (add opened p);
            world = log_slice s.world p;
            submitted = s.submitted ++ process_partition p ∷ [];
          },
        )
      ]

  -- The `try` of `on_partition_complete_sentinel` after its call, and its `except`.
  unfoldable pub closed_by : P → Result (Unit {0}) × W → Processor W P R M → Processor W P R M
  closed_by p (ok _, world) s = record s { world = world }
  closed_by p (raise x, world) s =
      let name = stream_of_partition p in
      yields (trace name) (flag_exception name x (record s { world = world }))

  unfoldable pub close : P → Bool → Processor W P R M → Processor W P R M
  unfolding closed_by
  close p false s = s
  close p true s =
      let name = stream_of_partition p in
      if contains s.streams name
      then closed_by p (close_partition s.world p) s
      else yields (trace name) (flag_exception name key_error s)

  abbrev pub remove_partition : P → List P → Processor W P R M → Processor W P R M
  remove_partition p opened s = record s {
    running_partitions = Dict.set s.running_partitions (stream_of_partition p) (discard opened p);
  }

  -- Its `finally`.
  unfoldable pub settle : P → Processor W P R M → Handled W P R M
  settle p s =
      let name = stream_of_partition p in
      elim (Dict.get s.running_partitions name) [
        | none ↦ (raise key_error, s)
        | some opened ↦
            and_then
              (if contains opened p
                then finish_if (not (contains s.generating name) && is_empty (discard opened p))
                    name (remove_partition p opened s)
                else (ok tt, s))
              (λ s'. (ok tt, consume s'))
      ]

  unfoldable pub on_partition_complete_sentinel : P → Bool → Processor W P R M → Handled W P R M
  on_partition_complete_sentinel p is_successful s = settle p (close p is_successful s)

  unfoldable pub observe_record : R → Processor W P R M → Handled W P R M
  unfolding count_record
  observe_record r s =
      let name = stream_of_record r in
      elim (Dict.get s.record_counter name) [
        | none ↦ (raise key_error, s)
        | some count ↦ let s' = count_record name count s in observed_by s' (observe s'.world r)
      ]

  unfoldable pub on_record : R → Processor W P R M → Handled W P R M
  on_record r s =
      if contains s.streams (stream_of_record r)
      then and_then (if is_record_message r then observe_record r s else (ok tt, s))
          (λ s'. (ok tt, consume (yields (of_record r) s')))
      else (raise key_error, s)

  pub on_exception : String → Exception → Processor W P R M → Handled W P R M
  on_exception name x s = (ok tt, yields (trace name) (flag_exception name x s))

  -- `_handle_item` of concurrent_source.py
  unfoldable pub handle_item : QueueItem P R → Processor W P R M → Handled W P R M
  handle_item (thread_exception name x) s = on_exception name x s
  handle_item (partition_generation_completed name) s = on_partition_generation_completed name s
  handle_item (partition p) s = on_partition p s
  handle_item (partition_complete p is_successful) s =
      on_partition_complete_sentinel p is_successful s
  handle_item (record_read r) s = on_record r s
