-- ===== src/Stream/Limit.antt =====
-- How many records a read of Stream yields when `_limit` of InternalConfig is set.
use airbyte_python_cdk.Prelude.{
  ℕ, zero, suc, ◌+◌, ◌-◌, ◌≤◌, ◌<◌, ◌≡◌, refl, sym, ap, ◌∙◌, Bool, true, false, Option, none, some,
  List, [], ◌∷◌, ◌++◌, Hashable, length, Bool-cases, Option-cases, ◌⊎◌, inl, inr, arith,
}
use airbyte_python_cdk.Python.Exceptions.{Exception, ok, raise}
use airbyte_python_cdk.Stream.{
  CheckpointReader, StreamData, record_data, record_message, other_message, Records, Stream, Output,
  data_read, Sync, Left, is_limit_reached, state_if, log_slice, track, on_record, after_record,
  read_items, leave_items, checkpoint_slice, final_checkpoint, read_slice, read_slices, read,
}
use airbyte_python_cdk.Stream.Readers.{Feeds}
use airbyte_python_cdk.Stream.Data.{on_record_lem, checkpoint_slice_lem}

module _ {S C R M : Type 0} where
  abbrev pub record_weight : Output S C R M → ℕ
  record_weight (data_read (record_data r)) = 1
  record_weight (data_read (record_message r)) = 1
  record_weight _ = 0

  -- How many records are yielded.
  abbrev pub count_records : List (Output S C R M) → ℕ
  count_records [] = 0
  count_records (output ∷ outputs) = record_weight output + count_records outputs

  count_records-append :
      (k l : List (Output S C R M)) → count_records (k ++ l) ≡ count_records k + count_records l
  count_records-append [] l = omega arith
  count_records-append (output ∷ k) l = omega (arith, count_records-append k l)

count_records-state_if :
    (S R M : Type 0) {C : Type 0} (test : Bool) (state : Option C)
    → count_records (state_if {S = S} {R = R} {M = M} test state) ≡ 0
count_records-state_if S R M test none = refl
count_records-state_if S R M true (some state) = refl
count_records-state_if S R M false (some state) = refl

count_records-log_slice :
    (C R M : Type 0) {S : Type 0} (test : Bool) (s : S)
    → count_records (log_slice {C = C} {R = R} {M = M} test s) ≡ 0
count_records-log_slice C R M true s = refl
count_records-log_slice C R M false s = refl

limit_lem :
    (limit : Option ℕ) (n counter : ℕ)
    → limit ≡ some n
    → 0 < n
    → is_limit_reached limit counter ≡ false
    → counter < n
limit_lem none n counter e pos h = cc
limit_lem (some limit) n counter e pos h = let same : n ≡ limit = cc in ground (arith, same)

module _ {A W S C R M : Type 0} ⦃key : Hashable C⦄ (reader : CheckpointReader A W S C)
    (self : Stream W S C R M) (feeds : Feeds reader) (n : ℕ) (limited : self.limit ≡ some n)
    (pos : 0 < n) where
  open feeds use {slices_left, next_lem}

  track_counter :
      (r : R) (s : Sync A W C) → (track reader self r s).record_counter ≡ s.record_counter
  unfolding track
  track_counter r s = elim (Bool-cases self.has_cursor_field) [
    | inl has ↦ simp has refl
    | inr without ↦ simp without refl
  ]

  on_record_counter :
      (r : R) (s : Sync A W C)
      → ((on_record reader self r s).1.record_counter ≡ suc s.record_counter)
        × (count_records (on_record reader self r s).0 ≡ 0)
  unfolding on_record
  on_record_counter r s = (
    ap suc (track_counter r s),
    count_records-state_if S R M _
        (reader.get_checkpoint (track reader self r s).stream (track reader self r s).reader).0,
  )

  -- The loop over the items counts the records that it yields, and passes the limit at most by the
  -- record that it starts with.
  Counts : Sync A W C → List (Output S C R M) × Bool × Sync A W C → Type 0
  Counts s (outputs, broken, u) =
      (count_records outputs + s.record_counter ≡ u.record_counter)
      × ((b : ℕ) → n ≤ suc b → s.record_counter ≤ b → u.record_counter ≤ suc b)
      × (slices_left u.reader ≡ slices_left s.reader)

  after_record-Counts :
      (item : StreamData R M) (r : R) (s : Sync A W C)
      (ahead : List (Output S C R M) × Bool × Sync A W C)
      → record_weight {S = S} {C = C} {R = R} {M = M} (data_read item) ≡ 1
      → let (states, t) = on_record reader self r s in
        Counts t ahead
        → Counts s (
            after_record reader self
              (is_limit_reached self.limit t.record_counter)
              item
              (states, t)
              ahead)
  unfolding Counts
  after_record-Counts item r s (outputs, broken, u) one (counted, bounded, left) =
      let (states, t) = on_record reader self r s in
      let (counter, none_read) = on_record_counter r s in
      let left' = (on_record_lem reader self feeds r s).0 in
      elim (Bool-cases (is_limit_reached self.limit t.record_counter)) [
        | inl reached ↦
            rw reached
              (omega (arith, counter, none_read, one), λ b h k. omega (arith, counter, k), left')
        | inr below ↦
            let less : t.record_counter < n =
              limit_lem self.limit n t.record_counter limited pos below in
            rw below (
              omega (arith, counter, none_read, one, counted, count_records-append states outputs),
              λ b h k. bounded b h (omega (arith, less, h)),
              left ∙ left',
            )
      ]

  read_items-Counts :
      (items : List (StreamData R M × W)) (s : Sync A W C)
      → Counts s (read_items reader self items s)
  unfolding Counts read_items
  read_items-Counts [] s = (omega arith, λ b h k. omega (arith, k), refl)
  read_items-Counts ((record_data r, w) ∷ items) s =
      after_record-Counts (record_data r) r (record s { stream = w }) _ refl
        (read_items-Counts items _)
  read_items-Counts ((record_message r, w) ∷ items) s =
      after_record-Counts (record_message r) r (record s { stream = w }) _ refl
        (read_items-Counts items _)
  read_items-Counts ((other_message m, w) ∷ items) s =
      let (counted, bounded, left) = read_items-Counts items (record s { stream = w }) in
      (omega (arith, counted), bounded, left)

  Bounded : ℕ → ℕ → Sync A W C → List (Output S C R M) × Left → Type 0
  Bounded b slices s (outputs, left) = count_records outputs + s.record_counter ≤ b + slices

  checkpoint_slice_counts :
      (s : Sync A W C)
      → ((checkpoint_slice reader self s).1.record_counter ≡ s.record_counter)
        × (count_records (checkpoint_slice reader self s).0 ≡ 0)
        × (slices_left (checkpoint_slice reader self s).1.reader ≡ slices_left s.reader)
  unfolding checkpoint_slice
  checkpoint_slice_counts s = (
    refl,
    count_records-state_if S R M self.should_checkpoint _,
    (checkpoint_slice_lem reader self feeds s).0,
  )

  leave_items_cases :
      (broken : Bool) (records : Records W R M) (t : Sync A W C)
      → ((x : Exception) × (leave_items reader self broken records t ≡ raise x))
        ⊎ ((w : W) × (leave_items reader self broken records t ≡ ok (record t { stream = w })))
  leave_items_cases true records t = inr (t.stream, refl)
  leave_items_cases false records t = elim (Option-cases records.raised) [
    | inl none_raised ↦ inr (records.after, rw none_raised refl)
    | inr (x, e) ↦ inl (x, rw e refl)
  ]

  count_round :
      (slice : S) (items outputs : List (Output S C R M))
      → count_records (log_slice self.should_log_slice_message slice ++ items ++ outputs)
        ≡ count_records items + count_records outputs
  count_round slice items outputs = omega (
    arith,
    count_records-append (log_slice self.should_log_slice_message slice) items,
    count_records-append (log_slice self.should_log_slice_message slice) (items ++ outputs),
    count_records-append (log_slice self.should_log_slice_message slice ++ items) outputs,
    count_records-append items outputs,
    count_records-log_slice C R M self.should_log_slice_message slice,
  )

  read_slice-Bounded :
      (slice : S) (b slices fuel : ℕ) (s : Sync A W C)
      → n ≤ suc b
      → s.record_counter ≤ b
      → ((t : Sync A W C)
          → slices_left t.reader ≡ slices_left s.reader
          → t.record_counter ≤ suc b
          → Bounded (suc b) slices t (read_slices reader self fuel t))
      → Bounded b
          (suc slices)
          s
          (read_slice reader self (ok (some slice)) s (read_slices reader self fuel))
  unfolding Bounded Counts
  read_slice-Bounded slice b slices fuel s h k rest =
      let records = self.read_records s.stream slice in
      let (items, broken, t) = read_items reader self records.items s in
      let (counted, bounded, left) = read_items-Counts records.items s in
      let logged = count_records-log_slice C R M self.should_log_slice_message slice in
      elim (leave_items_cases broken records t) [
        | inl (x, e) ↦ rw e (omega (arith, count_round slice items [], counted, bounded b h k))
        | inr (w, e) ↦
            let (counter, none_read, left') = checkpoint_slice_counts (record t { stream = w }) in
            let (states, u) = checkpoint_slice reader self (record t { stream = w }) in
            let outputs = (read_slices reader self fuel u).0 in
            rw e (
              omega (
                arith,
                count_round slice items (states ++ outputs),
                count_records-append states outputs,
                counted,
                none_read,
                counter,
                rest u (left' ∙ left) (omega (arith, counter, bounded b h k)),
              ))
      ]

  read_slices-Bounded :
      (slices : List S) (b fuel : ℕ) (s : Sync A W C)
      → slices_left s.reader ≡ slices
      → n ≤ suc b
      → s.record_counter ≤ b
      → Bounded b (length slices) s (read_slices reader self fuel s)
  unfolding Bounded read_slices final_checkpoint
  read_slices-Bounded slices b zero s e h k = omega (arith, k)
  read_slices-Bounded slices b (suc fuel) s e h k = elim (next_lem s.stream s.reader) [
    | inl (none_left, stops) ↦
        let a = (reader.next s.stream s.reader).1 in
        rw stops (
          omega (
            arith,
            k,
            count_records-state_if S R M self.should_checkpoint
                (reader.get_checkpoint s.stream a).0,
          ))
    | inr (slice, rest, first, gives, moves) ↦
        let a = (reader.next s.stream s.reader).1 in
        rw (gives, sym e ∙ first)
          (read_slice-Bounded slice b (length rest) fuel (record s { reader = a }) h k
            (λ t e' k'. read_slices-Bounded rest (suc b) fuel t (e' ∙ moves) (omega (arith, h)) k'))
  ]

  -- With any reader that gives the slices of a list and a limit that is not 0, a read yields, for
  -- any fuel and whatever raises, at most the limit's number of records and one more for each slice
  -- but the first.
  pub read-count_records :
      (fuel : ℕ) (w : W) (a : A) (stream_state : C)
      → count_records (read reader self fuel w a stream_state).0 ≤ (n - 1) + length (slices_left a)
  unfolding read Bounded
  read-count_records fuel w a stream_state =
      let bounded =
        read_slices-Bounded (slices_left a) (n - 1) fuel
          (record {
            stream = w;
            reader = a;
            stream_state_tracker = stream_state;
            record_counter = 0;
          })
          refl (omega arith) (omega arith) in
      omega (arith, bounded)
