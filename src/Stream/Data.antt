-- ===== src/Stream/Data.antt =====
-- Which items a read of Stream yields.
use airbyte_python_cdk.Prelude.{
  ℕ, zero, suc, ◌<◌, ◌≡◌, refl, sym, ap, ◌∙◌, Bool, true, false, Option, none, some, List, [], ◌∷◌,
  ◌++◌, map, Hashable, ◌==◌, length, Bool-cases, Option-cases, inl, inr, arith,
}
use airbyte_python_cdk.Python.Exceptions.{ok}
use airbyte_python_cdk.Stream.{
  CheckpointReader, StreamData, Stream, Output, slice_log, data_read, state_message, Sync, ended,
  is_limit_reached, after_record, state_if, log_slice, record_data, record_message, other_message,
  is_truthy_state, observe_truthy, observe_state, track, on_record, read_items, checkpoint_slice,
  final_checkpoint, read_slice, read_slices, read,
}
use airbyte_python_cdk.Stream.Readers.{Feeds}

module _ {S C R M : Type 0} where
  -- The items among what is yielded.
  abbrev pub data_of : List (Output S C R M) → List (StreamData R M)
  data_of [] = []
  data_of (data_read item ∷ outputs) = item ∷ data_of outputs
  data_of (_ ∷ outputs) = data_of outputs

  pub data_of-append : (k l : List (Output S C R M)) → data_of (k ++ l) ≡ data_of k ++ data_of l
  data_of-append [] l = refl
  data_of-append (data_read item ∷ k) l = rw (data_of-append k l)
  data_of-append (slice_log s ∷ k) l = data_of-append k l
  data_of-append (state_message c ∷ k) l = data_of-append k l

pub data_of-state_if :
    (S R M : Type 0) {C : Type 0} (test : Bool) (state : Option C)
    → data_of (state_if {S = S} {R = R} {M = M} test state) ≡ []
data_of-state_if S R M test none = refl
data_of-state_if S R M true (some state) = refl
data_of-state_if S R M false (some state) = refl

pub data_of-log_slice :
    (C R M : Type 0) {S : Type 0} (test : Bool) (s : S)
    → data_of (log_slice {C = C} {R = R} {M = M} test s) ≡ []
data_of-log_slice C R M true s = refl
data_of-log_slice C R M false s = refl

module _ {A W S C R M : Type 0} ⦃key : Hashable C⦄ (reader : CheckpointReader A W S C)
    (self : Stream W S C R M) (feeds : Feeds reader) where
  open feeds use {slices_left, next_lem, observe_lem, get_checkpoint_lem}
  open self use {read_records}

  -- The items that the slices give when they are read one after another.
  abbrev pub all_data : W → List S → List (StreamData R M)
  all_data w [] = []
  all_data w (s ∷ slices) =
      let records = read_records w s in
      map (λ x. x.0) records.items ++ all_data records.after slices

  observe_truthy_lem :
      (c : Option C) (a : A) → slices_left (observe_truthy reader self c a) ≡ slices_left a
  observe_truthy_lem none a = refl
  observe_truthy_lem (some c) a = elim (Bool-cases (c == self.empty_state)) [
    | inl empty ↦ rw empty refl
    | inr full ↦ rw full (observe_lem c a)
  ]

  pub observe_state_lem :
      (w : W) (c : Option C) (a : A) → slices_left (observe_state reader self w c a) ≡ slices_left a
  unfolding observe_state
  observe_state_lem w c a = elim (Bool-cases (is_truthy_state reader self c)) [
    | inl given ↦ rw given (observe_truthy_lem c a)
    | inr left_out ↦ rw left_out (elim (Option-cases self.get_updated_state) [
      | inl default ↦ rw default (observe_truthy_lem (self.state w) a)
      | inr (f, e) ↦ rw e refl
    ])
  ]

  track_lem :
      (r : R) (s : Sync A W C) → slices_left (track reader self r s).reader ≡ slices_left s.reader
  unfolding track
  track_lem r s = elim (Bool-cases self.has_cursor_field) [
    | inl has ↦ simp has (observe_state_lem s.stream _ s.reader)
    | inr without ↦ simp without refl
  ]

  pub on_record_lem :
      (r : R) (s : Sync A W C)
      → (slices_left (on_record reader self r s).1.reader ≡ slices_left s.reader)
        × (data_of (on_record reader self r s).0 ≡ [])
  unfolding on_record
  on_record_lem r s =
      let t = track reader self r s in
      (
        get_checkpoint_lem t.stream t.reader ∙ track_lem r s,
        data_of-state_if S R M _ (reader.get_checkpoint t.stream t.reader).0,
      )

  pub checkpoint_slice_lem :
      (s : Sync A W C)
      → (slices_left (checkpoint_slice reader self s).1.reader ≡ slices_left s.reader)
        × (data_of (checkpoint_slice reader self s).0 ≡ [])
        × ((checkpoint_slice reader self s).1.stream ≡ s.stream)
  unfolding checkpoint_slice
  checkpoint_slice_lem s =
      let a = observe_state reader self s.stream none s.reader in
      (
        get_checkpoint_lem s.stream a ∙ observe_state_lem s.stream none s.reader,
        data_of-state_if S R M self.should_checkpoint (reader.get_checkpoint s.stream a).0,
        refl,
      )

  module _ (unlimited : self.limit ≡ none) where
    -- What the loop over the items of a slice does.
    abbrev pub ReadsAll : List (StreamData R M × W) → Sync A W C → Type 0
    ReadsAll items s =
        ((read_items reader self items s).1 ≡ false)
        × (data_of (read_items reader self items s).0 ≡ map (λ x. x.0) items)
        × (slices_left (read_items reader self items s).2.reader ≡ slices_left s.reader)

    goes_on : (n : ℕ) → is_limit_reached self.limit n ≡ false
    goes_on n = rw unlimited refl

    after_record_lem :
        (item : StreamData R M) (r : R) (items : List (StreamData R M × W)) (s : Sync A W C)
        → let (states, t) = on_record reader self r s in
          let (outputs, broken, u) =
            after_record reader self
              (is_limit_reached self.limit t.record_counter)
              item
              (states, t)
              (read_items reader self items t) in
          ReadsAll items t
          → (broken ≡ false)
            × (data_of outputs ≡ item ∷ map (λ x. x.0) items)
            × (slices_left u.reader ≡ slices_left s.reader)
    after_record_lem item r items s (whole, all, left) =
        let (states, t) = on_record reader self r s in
        let (left', none_read) = on_record_lem r s in
        let split : data_of (states ++ (read_items reader self items t).0) ≡ map (λ x. x.0) items =
          data_of-append states (read_items reader self items t).0
          ∙ (ap (λ l. l ++ data_of (read_items reader self items t).0) none_read ∙ all) in
        rw (goes_on t.record_counter) (whole, ap (λ l. item ∷ l) split, left ∙ left')

    pub read_items_lem : (items : List (StreamData R M × W)) (s : Sync A W C) → ReadsAll items s
    unfolding read_items
    read_items_lem [] s = (refl, refl, refl)
    read_items_lem ((record_data r, w) ∷ items) s =
        after_record_lem (record_data r) r items (record s { stream = w }) (read_items_lem items _)
    read_items_lem ((record_message r, w) ∷ items) s =
        after_record_lem (record_message r) r items (record s { stream = w })
          (read_items_lem items _)
    read_items_lem ((other_message m, w) ∷ items) s =
        let (whole, all, left) = read_items_lem items (record s { stream = w }) in
        (whole, ap (λ l. other_message m ∷ l) all, left)

    module _ (succeeds : (w : W) (s : S) → (read_records w s).raised ≡ none) where
      ReadsSlices : (fuel : ℕ) (s : Sync A W C) → Type 0
      ReadsSlices fuel s =
          ((read_slices reader self fuel s).1 ≡ ended)
          × (data_of (read_slices reader self fuel s).0 ≡ all_data s.stream (slices_left s.reader))

      data_of_round :
          (s : S) (items states outputs : List (Output S C R M)) (l k : List (StreamData R M))
          → data_of items ≡ l
          → data_of states ≡ []
          → data_of outputs ≡ k
          → data_of (log_slice self.should_log_slice_message s ++ items ++ (states ++ outputs))
            ≡ l ++ k
      data_of_round s items states outputs l k e f g =
          simp (data_of-append, data_of-log_slice, e, f, g) refl

      read_slice_lem :
          (slice : S) (slices : List S) (s : Sync A W C) (fuel : ℕ)
          → slices_left s.reader ≡ slices
          → ((t : Sync A W C) → slices_left t.reader ≡ slices → ReadsSlices fuel t)
          → ((read_slice reader self (ok (some slice)) s (read_slices reader self fuel)).1 ≡ ended)
            × (data_of (read_slice reader self (ok (some slice)) s (read_slices reader self fuel)).0
                ≡ all_data s.stream (slice ∷ slices))
      unfolding ReadsSlices checkpoint_slice
      read_slice_lem slice slices s fuel e rest =
          let records = read_records s.stream slice in
          let (items, broken, t) = read_items reader self records.items s in
          let (whole, all, left) = read_items_lem records.items s in
          let t' : Sync A W C = record t { stream = records.after } in
          let (left', none_read, same) = checkpoint_slice_lem t' in
          let (ends, others) = rest (checkpoint_slice reader self t').1 (left' ∙ (left ∙ e)) in
          rw (whole, succeeds s.stream slice)
            (
              ends,
              data_of_round slice items (checkpoint_slice reader self t').0 _ _ _ all none_read
                  (others ∙ rw (left', left, e) refl),
            )

      read_slices_lem :
          (slices : List S) (fuel : ℕ) (s : Sync A W C)
          → slices_left s.reader ≡ slices
          → length slices < fuel
          → ReadsSlices fuel s
      unfolding ReadsSlices read_slices final_checkpoint
      read_slices_lem slices zero s e h = absurd (omega arith)
      read_slices_lem slices (suc fuel) s e h = elim (next_lem s.stream s.reader) [
        | inl (none_left, stops) ↦
            rw (stops, none_left) (refl, data_of-state_if S R M self.should_checkpoint _)
        | inr (slice, rest, first, gives, moves) ↦
            let a = (reader.next s.stream s.reader).1 in
            let fewer : length rest < fuel = omega (arith, h, ap length (sym e ∙ first)) in
            rw (gives, first)
              (read_slice_lem slice rest (record s { reader = a }) fuel moves
                (λ t e'. read_slices_lem rest fuel t e' fewer))
      ]

      -- With any reader that gives the slices of a list, a read without a limit whose records never
      -- raise ends after a round for each slice and one more, and yields exactly the items of all
      -- slices in their order, whatever the stream logs and checkpoints.
      pub read-AllData :
          (w : W) (a : A) (stream_state : C)
          → let (outputs, left) =
              read reader self (suc (length (slices_left a))) w a stream_state in
            (left ≡ ended) × (data_of outputs ≡ all_data w (slices_left a))
      unfolding read ReadsSlices
      read-AllData w a stream_state =
          read_slices_lem (slices_left a) (suc (length (slices_left a))) _ refl (omega arith)
