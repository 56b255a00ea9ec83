-- ===== src/ConcurrentCursor/Close.antt =====
-- What observing a record and closing a partition do to the state of ConcurrentCursor.
use airbyte_python_cdk.Prelude.{
  ℕ, ◌≤◌, ◌≡◌, refl, true, false, Option, none, some, List, [], ◌∷◌, ◌++◌, max, ltb, arith, All,
  Any, Bool-cases, inl, inr, if◌then◌else◌, Hashable, ◌==◌, String, length, length-append, Chain,
  text_key,
}
use airbyte_python_cdk.Python.Exceptions.{Result, ok}
use airbyte_python_cdk.Python.Dict
use airbyte_python_cdk.Python.Dict.{Dict, get-set}
use airbyte_python_cdk.StateConverter.{
  parsed, Interval, StateMessage, sequential, merge_intervals, convert_to_state_message, or_empty,
}
use airbyte_python_cdk.StateConverter.Merge.{Holds, AreApart, Merges, merge_intervals_lem}
use airbyte_python_cdk.StateConverter.Complete.{
  IsClosed, merge_intervals-IsClosed, convert_to_state_message_complete,
}
use airbyte_python_cdk.ConcurrentCursor.{
  Record, Config, Cursor, extract_cursor_value, observe, is_new, add_slice_to_state,
  extract_from_slice, merge_partitions, emit_state_message, merge_and_emit, close, close_partition,
}

-- The larger of what was seen and a new value.
abbrev pub newest : Option ℕ → ℕ → ℕ
newest none value = value
newest (some recent) value = max recent value

newest_of_new : (o : Option ℕ) (value : ℕ) → is_new o value ≡ true → newest o value ≡ value
newest_of_new none value h = refl
newest_of_new (some recent) value h = ground arith

newest_of_old : (o : Option ℕ) (value : ℕ) → is_new o value ≡ false → o ≡ some (newest o value)
newest_of_old none value h = cc
newest_of_old (some recent) value h = ground arith

module _ {S : Type 0} ⦃e : Hashable S⦄ where
  abbrev updated : Dict S ℕ → S → ℕ → Dict S ℕ
  updated seen slice value =
      if is_new (Dict.get seen slice) value then Dict.set seen slice value else seen

  get-updated :
      (seen : Dict S ℕ) (slice : S) (value : ℕ) (s : S)
      → Dict.get (updated seen slice value) s
        ≡ (if slice == s then some (newest (Dict.get seen slice) value) else Dict.get seen s)
  get-updated seen slice value s = elim (Bool-cases (is_new (Dict.get seen slice) value)) [
    | inl new ↦ rw (new, newest_of_new (Dict.get seen slice) value new) (get-set seen slice s value)
    | inr old ↦ rw old (elim (Bool-cases (slice == s)) [
      | inl same ↦
          let path : slice ≡ s = (e.same_iff slice s).0 same in
          rw (same, ← path) (newest_of_old (Dict.get seen slice) value old)
      | inr other ↦ rw other
    ])
  ]

-- Observing a record that has a cursor value returns, keeps for its slice the largest value seen, and
-- changes neither what was seen of another slice nor anything else of the cursor.
pub observe_lem :
    {S V : Type 0} ⦃e : Hashable S⦄ (config : Config S V) (cursor : Cursor S V) (r : Record S V)
    (value : ℕ)
    → extract_cursor_value config r ≡ ok value
    → (seen : Dict S ℕ) × (observe config cursor r
        ≡ ok (record cursor { most_recent_per_partition = seen }))
      × ((s : S)
          → Dict.get seen s ≡ (
              if r.associated_slice == s
              then some
                  (newest (Dict.get cursor.most_recent_per_partition r.associated_slice) value)
              else Dict.get cursor.most_recent_per_partition s))
unfolding observe
observe_lem config cursor r value h =
    elim (Bool-cases
      (is_new (Dict.get cursor.most_recent_per_partition r.associated_slice) value)) [
        | inl new ↦ (
          Dict.set cursor.most_recent_per_partition r.associated_slice value,
          rw (h, observe, new),
          λ s. rw new at (get-updated cursor.most_recent_per_partition r.associated_slice value s),
        )
        | inr old ↦ (
          cursor.most_recent_per_partition,
          rw (h, observe, old),
          λ s. rw old at (get-updated cursor.most_recent_per_partition r.associated_slice value s),
        )
      ]

module _ {S V : Type 0} ⦃e : Hashable S⦄ (config : Config S V) where
  open config use {converter}

  -- The slice that closing a partition adds, where the boundaries are fields of the stream slice.
  abbrev pub closed_slice : Cursor S V → S → ℕ → ℕ → Interval V
  closed_slice cursor slice a b = record {
    start = a;
    end = b;
    most_recent = elim (Dict.get cursor.most_recent_per_partition slice) [
      | none ↦ none
      | some t ↦ some (parsed t)
    ];
  }

  add_slice_lem :
      (cursor : Cursor S V) (slice : S) (slices : List (Interval V))
      (start_field end_field : String)
      → (a b : ℕ) → config.slice_boundary_fields ≡ some (start_field, end_field)
      → cursor.state.slices ≡ some slices
      → extract_from_slice config slice start_field ≡ ok a
      → extract_from_slice config slice end_field ≡ ok b
      → add_slice_to_state config cursor slice
        ≡ ok (record cursor {
          state = record cursor.state {
            slices = some (slices ++ closed_slice cursor slice a b ∷ []);
          };
        })
  unfolding add_slice_to_state
  add_slice_lem cursor slice slices start_field end_field a b hf hs ha hb =
      rw (hf, add_slice_to_state, hs, ha, hb)

  -- The partition is closed without an exception: the slices are merged, still closed, hold all that
  -- `slices` hold, and are apart; and one state message is emitted.
  abbrev pub ClosesInto : Cursor S V → List (Interval V) → Result (Unit {0}) × Cursor S V → Type 0
  ClosesInto cursor slices outcome =
      (merged : List (Interval V)) × (message : StateMessage V) × (outcome ≡ (
        ok tt,
        close config (record cursor {
          state = record cursor.state { slices = some merged };
          emitted = cursor.emitted ++ message ∷ [];
        }),
      ))
      × All IsClosed merged
      × ((v : ℕ) → Any (Holds v) slices → Any (Holds v) merged)
      × Chain (AreApart converter) merged

  merge_partitions_lem :
      (cursor : Cursor S V) (slices merged : List (Interval V))
      → cursor.state.slices ≡ some slices
      → merge_intervals converter slices ≡ ok merged
      → merge_partitions config cursor
        ≡ ok (record cursor { state = record cursor.state { slices = some merged } })
  unfolding merge_partitions
  merge_partitions_lem cursor slices merged hs e = rw (hs, merge_partitions, e)

  emit_state_message_lem :
      (cursor : Cursor S V) (message : StateMessage V)
      → convert_to_state_message converter config.cursor_field cursor.state ≡ ok message
      → emit_state_message config cursor
        ≡ ok (record cursor { emitted = cursor.emitted ++ message ∷ [] })
  unfolding emit_state_message
  emit_state_message_lem cursor message e = rw e

  emit_merged :
      (added : Cursor S V) (slices merged : List (Interval V)) (v : ℕ)
      → ((v : ℕ) → v ≤ converter.increment v)
      → converter.is_sequential_state ≡ true
      → added.state.slices ≡ some slices
      → merge_intervals converter slices ≡ ok merged
      → All IsClosed merged
      → Merges converter slices merged
      → Any (Holds v) merged
      → ClosesInto added slices (merge_and_emit config added)
  unfolding merge_and_emit
  emit_merged added slices [] v grows mode hs e h m a = elim a [ ]
  emit_merged added slices (first ∷ rest) v grows mode hs e h (holds, near, apart) a =
      let (t, written, _) =
        convert_to_state_message_complete converter grows mode config.cursor_field first rest
          added.state.legacy h in
      (
        first ∷ rest,
        sequential (
            Dict.set (or_empty added.state.legacy) config.cursor_field (converter.output_format t)),
        rw (merge_partitions_lem added slices (first ∷ rest) hs e, merge_and_emit)
            (rw (
              emit_state_message_lem
                  (record added { state = record added.state { slices = some (first ∷ rest) } }) _
                  written,
              merge_and_emit,
            )),
        h,
        holds,
        apart,
      )

  merge_and_emit_lem :
      (added : Cursor S V) (slices : List (Interval V)) (v : ℕ)
      → ((v : ℕ) → v ≤ converter.increment v)
      → converter.is_sequential_state ≡ true
      → added.state.slices ≡ some slices
      → All IsClosed slices
      → Any (Holds v) slices
      → ClosesInto added slices (merge_and_emit config added)
  merge_and_emit_lem added slices v grows mode hs h a =
      let (merged, e, all_closed) = merge_intervals-IsClosed converter slices h in
      let merges : Merges converter slices merged = merge_intervals_lem converter slices merged e in
      emit_merged added slices merged v grows mode hs e all_closed merges (merges.0 v a)

snoc-All :
    {V : Type 0} (xs : List (Interval V)) (x : Interval V)
    → All IsClosed xs
    → IsClosed x
    → All IsClosed (xs ++ x ∷ [])
snoc-All [] x h hx = (hx, tt)
snoc-All (y ∷ xs) x h hx = (h.0, snoc-All xs x h.1 hx)

snoc-Any :
    {V : Type 0} (v : ℕ) (xs : List (Interval V)) (x : Interval V)
    → Holds v x
    → Any (Holds v) (xs ++ x ∷ [])
snoc-Any v [] x h = inl h
snoc-Any v (y ∷ xs) x h = inr (snoc-Any v xs x h)

-- In a sequential state, whose slices are closed, closing a partition does not raise if the boundary
-- fields are set, the slice has both with values that parse, start and end in order, and what was observed
-- of it lies within them: it adds one slice and emits one state message; the merged slices are closed,
-- hold all that the old slices and the new one hold, and are apart. The increment never decreases a value.
pub close_partition-ClosesInto :
    {S V : Type 0} ⦃e : Hashable S⦄ (config : Config S V) (cursor : Cursor S V) (slice : S)
    → (slices : List (Interval V)) (start_field end_field : String) (a b : ℕ)
    → ((v : ℕ) → v ≤ config.converter.increment v)
    → config.converter.is_sequential_state ≡ true
    → config.slice_boundary_fields ≡ some (start_field, end_field)
    → cursor.state.slices ≡ some slices
    → All IsClosed slices
    → extract_from_slice config slice start_field ≡ ok a
    → extract_from_slice config slice end_field ≡ ok b
    → IsClosed (closed_slice config cursor slice a b)
    → ClosesInto config cursor
        (slices ++ closed_slice config cursor slice a b ∷ [])
        (close_partition config cursor slice)
unfolding close_partition
close_partition-ClosesInto config cursor slice slices start_field end_field a b grows mode hf hs h
      ha hb hn =
    let new = closed_slice config cursor slice a b in
    let added = add_slice_lem config cursor slice slices start_field end_field a b hf hs ha hb in
    let longer : ltb (length slices) (length (slices ++ new ∷ [])) ≡ true =
      ground (arith, length-append slices (new ∷ [])) in
    rw (added, close_partition, hs, longer)
      (merge_and_emit_lem config
        (record cursor { state = record cursor.state { slices = some (slices ++ new ∷ []) } })
        (slices ++ new ∷ []) a grows mode refl (snoc-All slices new h hn)
        (snoc-Any a slices new (omega arith, hn.within)))
