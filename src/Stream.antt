-- ===== src/Stream.antt =====
-- `read` of airbyte_cdk/sources/streams/core.py with any checkpoint reader of CheckpointReader. `W`
-- is the stream with what it has read, which `read_records` changes, `S` a slice, `C` a state, `R`
-- a record. A generator gives each item with the stream as it is when the item is yielded.
pub mod Readers
pub mod Data
pub mod Limit
mod Tests
use airbyte_python_cdk.Prelude.{
  ℕ, zero, suc, ◌+◌, Bool, true, false, not, Option, none, some, List, [], ◌∷◌, ◌++◌, if◌then◌else◌,
  ◌&&◌, Hashable, ◌==◌, eqb, leb,
}
use Prim.Native.Nat.{◌%◌}
use airbyte_python_cdk.Python.Exceptions.{Exception, Result, ok, raise}

-- An interface of checkpoint readers: `A` is the state that a reader keeps.
pub record CheckpointReader (A W S C : Type 0) : Type 0 where
  pub next : W → A → Result (Option S) × A
  pub observe : C → A → A
  pub get_checkpoint : W → A → Option C × A

-- A mapping, an AirbyteMessage of type RECORD, or another AirbyteMessage.
pub data StreamData (R M : Type 0) : Type 0 where
  record_data : R → StreamData R M
  record_message : R → StreamData R M
  other_message : M → StreamData R M

-- What iterating over the records of a slice gives, before it ends or raises.
pub record Records (W R M : Type 0) : Type 0 where
  pub items : List (StreamData R M × W)
  pub raised : Option Exception
  pub after : W

-- A stream with the arguments of its `read`. An overridden `get_updated_state` is pure; a `state` of
-- `none` raises AttributeError.
pub record Stream (W S C R M : Type 0) : Type 0 where
  pub read_records : W → S → Records W R M
  pub has_cursor_field : Bool
  pub get_updated_state : Option (C → R → C)
  pub state : W → Option C
  pub empty_state : C
  pub state_checkpoint_interval : Option ℕ
  pub should_checkpoint : Bool
  pub should_log_slice_message : Bool
  pub limit : Option ℕ

-- What `read` yields; a state stands for the message that the state manager makes of it.
pub data Output (S C R M : Type 0) : Type 0 where
  slice_log : S → Output S C R M
  data_read : StreamData R M → Output S C R M
  state_message : C → Output S C R M

-- The local variables of `read`, and the stream.
pub record Sync (A W C : Type 0) : Type 0 where
  pub stream : W
  pub reader : A
  pub stream_state_tracker : C
  pub record_counter : ℕ

-- How `read` leaves off; `unfinished` where the fuel runs out.
pub data Left : Type 0 where
  ended unfinished : Left
  failed : Exception → Left

-- `is_limit_reached` of InternalConfig
abbrev pub is_limit_reached : Option ℕ → ℕ → Bool
is_limit_reached none records_counter = false
is_limit_reached (some limit) records_counter = not (eqb limit 0) && leb limit records_counter

-- `checkpoint_interval and record_counter % checkpoint_interval == 0`
abbrev pub is_checkpoint_due : Option ℕ → ℕ → Bool
is_checkpoint_due none record_counter = false
is_checkpoint_due (some interval) record_counter =
    not (eqb interval 0) && eqb (record_counter % interval) 0

module _ {S C R M : Type 0} where
  -- `if test and checkpoint is not None`
  abbrev pub state_if : Bool → Option C → List (Output S C R M)
  state_if test none = []
  state_if test (some state) = if test then state_message state ∷ [] else []

  abbrev pub log_slice : Bool → S → List (Output S C R M)
  log_slice test s = if test then slice_log s ∷ [] else []

module _ {A W S C R M : Type 0} ⦃key : Hashable C⦄ (reader : CheckpointReader A W S C)
    (self : Stream W S C R M) where
  open reader use {next, observe, get_checkpoint}
  open self use {read_records, get_updated_state, state, empty_state, should_checkpoint, limit}

  abbrev pub is_truthy_state : Option C → Bool
  is_truthy_state none = false
  is_truthy_state (some c) = not (c == empty_state)

  abbrev pub observe_truthy : Option C → A → A
  observe_truthy none a = a
  observe_truthy (some c) a = if c == empty_state then a else observe c a

  -- `_observe_state`; an argument that is left out is None.
  unfoldable pub observe_state : W → Option C → A → A
  observe_state w stream_state a =
      if is_truthy_state stream_state
      then observe_truthy stream_state a
      else elim get_updated_state [ none ↦ observe_truthy (state w) a | some f ↦ a ]

  abbrev pub updated_state : C → R → C
  updated_state tracker r = elim get_updated_state [ none ↦ empty_state | some f ↦ f tracker r ]

  -- The state that is tracked by the records, if the stream has a cursor field.
  unfoldable pub track : R → Sync A W C → Sync A W C
  track r s =
      let tracker = updated_state s.stream_state_tracker r in
      if self.has_cursor_field
      then record s {
        stream_state_tracker = tracker;
        reader = observe_state s.stream (some tracker) s.reader;
      }
      else s

  -- What follows a record that was yielded.
  unfoldable pub on_record : R → Sync A W C → List (Output S C R M) × Sync A W C
  on_record r s =
      let t = track r s in
      let counter = suc t.record_counter in
      let (checkpoint, a) = get_checkpoint t.stream t.reader in
      (
        state_if (should_checkpoint && is_checkpoint_due self.state_checkpoint_interval counter)
            checkpoint,
        record t { record_counter = counter; reader = a },
      )

  -- A record that was yielded with the states that followed: the loop breaks, or goes ahead.
  abbrev pub after_record :
      Bool
      → StreamData R M
      → List (Output S C R M) × Sync A W C
      → List (Output S C R M) × Bool × Sync A W C
      → List (Output S C R M) × Bool × Sync A W C
  after_record true item (states, t) ahead = (data_read item ∷ states, true, t)
  after_record false item (states, t) (outputs, broken, u) =
      (data_read item ∷ states ++ outputs, broken, u)

  -- The loop over the records of a slice, and whether it was left by `break`.
  unfoldable pub read_items :
      List (StreamData R M × W) → Sync A W C → List (Output S C R M) × Bool × Sync A W C
  read_items [] s = ([], false, s)
  read_items ((record_data r, w) ∷ items) s =
      let (states, t) = on_record r (record s { stream = w }) in
      after_record (is_limit_reached limit t.record_counter) (record_data r) (states, t)
        (read_items items t)
  read_items ((record_message r, w) ∷ items) s =
      let (states, t) = on_record r (record s { stream = w }) in
      after_record (is_limit_reached limit t.record_counter) (record_message r) (states, t)
        (read_items items t)
  read_items ((other_message m, w) ∷ items) s =
      let (outputs, broken, t) = read_items items (record s { stream = w }) in
      (data_read (other_message m) ∷ outputs, broken, t)

  -- A loop that is not left by `break` goes on to the end of the generator, or raises.
  abbrev pub leave_items : Bool → Records W R M → Sync A W C → Result (Sync A W C)
  leave_items true records s = ok s
  leave_items false records s = elim records.raised [
    | none ↦ ok (record s { stream = records.after })
    | some x ↦ raise x
  ]

  -- What follows the records of a slice.
  unfoldable pub checkpoint_slice : Sync A W C → List (Output S C R M) × Sync A W C
  checkpoint_slice s =
      let (checkpoint, a) = get_checkpoint s.stream (observe_state s.stream none s.reader) in
      (state_if should_checkpoint checkpoint, record s { reader = a })

  unfoldable pub final_checkpoint : Sync A W C → List (Output S C R M)
  final_checkpoint s = state_if should_checkpoint (get_checkpoint s.stream s.reader).0

  abbrev pub after_items :
      Result (Sync A W C)
      → (Sync A W C → List (Output S C R M) × Left)
      → List (Output S C R M) × Left
  after_items (raise x) rounds = ([], failed x)
  after_items (ok s) rounds =
      let (states, t) = checkpoint_slice s in
      let (outputs, left) = rounds t in (states ++ outputs, left)

  -- A round of the loop over the slices: the slice, or what follows the last one.
  abbrev pub read_slice :
      Result (Option S)
      → Sync A W C
      → (Sync A W C → List (Output S C R M) × Left)
      → List (Output S C R M) × Left
  read_slice (raise x) s rounds = ([], failed x)
  read_slice (ok none) s rounds = (final_checkpoint s, ended)
  read_slice (ok (some slice)) s rounds =
      let records = read_records s.stream slice in
      let (items, broken, t) = read_items records.items s in
      let (outputs, left) = after_items (leave_items broken records t) rounds in
      (log_slice self.should_log_slice_message slice ++ items ++ outputs, left)

  unfoldable pub read_slices : ℕ → Sync A W C → List (Output S C R M) × Left
  read_slices zero s = ([], unfinished)
  read_slices (suc fuel) s =
      let (result, a) = next s.stream s.reader in
      read_slice result (record s { reader = a }) (read_slices fuel)

  unfoldable pub read : ℕ → W → A → C → List (Output S C R M) × Left
  read fuel w a stream_state =
      read_slices fuel
        (record { stream = w; reader = a; stream_state_tracker = stream_state; record_counter = 0 })
