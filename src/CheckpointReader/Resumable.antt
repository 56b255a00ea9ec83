-- ===== src/CheckpointReader/Resumable.antt =====
-- A resumable full refresh with CheckpointReader: the loop of `Stream.read` over the slices of a
-- CursorBasedCheckpointReader that reads the state from its cursor.
use airbyte_python_cdk.Prelude.{
  ℕ, zero, suc, ◌+◌, ◌-◌, ◌≤◌, ◌<◌, ◌≡◌, refl, sym, ap, ◌∙◌, Bool, true, false, Option, none, some,
  List, [], ◌∷◌, map, if◌then◌else◌, Hashable, ◌==◌, eqb, All, Bool-cases, inl, inr, ◌⊎◌, arith,
}
use airbyte_python_cdk.Python.Exceptions.{Result, ok, raise}
use airbyte_python_cdk.CheckpointReader.{
  StreamSlice, slice, or_empty_state, States, Cursor, CursorBasedReader, found, stop_iteration,
  is_complete, with_state, next_incomplete, find_next_slice, next,
}

-- The state with which a partition is to be read: its own, or `{}` where there is none.
abbrev pub state_to_read : {C : Type 0} → States C → Option C → C
state_to_read states none = states.empty
state_to_read states (some state) = state

abbrev pub HasState :
    {W P C E : Type 0} → States C → Cursor W P C E → W → StreamSlice P C E → Type 0
HasState states cursor w s = s.cursor_slice ≡ state_to_read states (cursor.select_state w s)

-- What reading a slice does: if its cursor slice is the state of its partition, from which the stream
-- knows which page comes next, it takes one page off its partition, and it changes no other partition. The
-- state depends on the partition alone, and is complete when no page is left.
pub record Paged {W P C E : Type 0} ⦃states_key : Hashable C⦄ ⦃key : Hashable P⦄ (states : States C)
    (cursor : Cursor W P C E) (read_slice : W → StreamSlice P C E → W) : Type 0 where
  pub pages_left : W → P → ℕ
  pub complete_iff :
      (w : W) (s : StreamSlice P C E)
      → is_complete states cursor (cursor.select_state w s) ≡ eqb (pages_left w s.partition) 0
  pub state_of_partition :
      (w : W) (s : StreamSlice P C E) (state : C)
      → cursor.select_state w (record s { cursor_slice = state }) ≡ cursor.select_state w s
  pub page_read :
      (w : W) (s : StreamSlice P C E) (p : P)
      → HasState states cursor w s
      → pages_left (read_slice w s) p
        ≡ (if s.partition == p then pages_left w p - 1 else pages_left w p)

module _ {W P C E : Type 0} ⦃states_key : Hashable C⦄ ⦃key : Hashable P⦄ (states : States C)
    (cursor : Cursor W P C E) (read_slice : W → StreamSlice P C E → W) where
  after_next : Result (Option (StreamSlice P C E)) → W → (W → Option W) → Option W
  after_next (ok none) w rounds = some w
  after_next (ok (some s)) w rounds = rounds (read_slice w s)
  after_next (raise x) w rounds = none

  -- The loop: what the cursor has seen at the end, or `none` where the fuel runs out or it raises.
  unfoldable pub sync : ℕ → W → CursorBasedReader P C E → Option W
  unfolding after_next
  sync zero w r = none
  sync (suc fuel) w r =
      let (result, r') = next states cursor w r in after_next result w (λ w'. sync fuel w' r')

  module _ (paged : Paged states cursor read_slice) where
    open paged use {pages_left, complete_iff, page_read, state_of_partition}

    abbrev pub total : W → List (StreamSlice P C E) → ℕ
    total w [] = 0
    total w (s ∷ slices) = pages_left w s.partition + total w slices

    abbrev pub AllRead : W → List (StreamSlice P C E) → Type 0
    AllRead w = All (λ s. pages_left w s.partition ≡ 0)

    -- No partition has more pages left than before.
    abbrev pub IsLater : W → W → Type 0
    IsLater w w' = (p : P) → pages_left w' p ≤ pages_left w p

    -- The slices that are skipped are read, and so are all where those from the found one are.
    record Skips (w : W) (slices : List (StreamSlice P C E)) (s : StreamSlice P C E)
        (rest : List (StreamSlice P C E)) : Type 0 where
      finds :
          next_incomplete states cursor w (map slice slices)
          ≡ found (with_state states cursor (cursor.select_state w s) s) (map slice rest)
      open_page : 0 < pages_left w s.partition
      bounded : total w (s ∷ rest) ≤ total w slices
      enough : (w' : W) → IsLater w w' → AllRead w' (s ∷ rest) → AllRead w' slices

    next_incomplete_cases :
        (w : W) (slices : List (StreamSlice P C E))
        → ((next_incomplete states cursor w (map slice slices) ≡ stop_iteration) × AllRead w slices)
          ⊎ ((s : StreamSlice P C E) × (rest : List (StreamSlice P C E)) × Skips w slices s rest)
    unfolding next_incomplete
    next_incomplete_cases w [] = inl (refl, tt)
    next_incomplete_cases w (s ∷ slices) =
        let test = complete_iff w s in
        elim (Bool-cases (eqb (pages_left w s.partition) 0)) [
          | inl read ↦
              let none_left : pages_left w s.partition ≡ 0 = ground (arith, read) in
              elim (next_incomplete_cases w slices) [
                | inl (stops, all) ↦ inl (rw (test, read) stops, (none_left, all))
                | inr (t, rest, k) ↦ inr (
                  t,
                  rest,
                  record {
                    finds = rw (test, read) k.finds;
                    open_page = k.open_page;
                    bounded = omega (arith, k.bounded);
                    enough = λ w' later h.
                        (omega (arith, later s.partition, none_left), k.enough w' later h);
                  },
                )
              ]
          | inr more ↦ inr (
            s,
            slices,
            record {
              finds = rw (test, more) refl;
              open_page = ground (arith, more);
              bounded = omega arith;
              enough = λ w' later h. h;
            },
          )
        ]

    abbrev pub pending :
        Option (StreamSlice P C E) → List (StreamSlice P C E) → List (StreamSlice P C E)
    pending none slices = slices
    pending (some current) slices = current ∷ slices

    abbrev pub reader_at :
        Option (StreamSlice P C E)
        → List (StreamSlice P C E)
        → Bool
        → Option C
        → CursorBasedReader P C E
    reader_at current slices finished previous = record {
      stream_slices = map slice slices;
      read_state_from_cursor = true;
      current_slice = current;
      finished_sync = finished;
      previous_state = previous;
    }

    find_next_slice_lem :
        (w : W) (current : Option (StreamSlice P C E)) (slices : List (StreamSlice P C E))
        (finished : Bool) (previous : Option C)
        → find_next_slice states cursor w (reader_at current slices finished previous)
          ≡ next_incomplete states cursor w (map slice (pending current slices))
    unfolding find_next_slice next_incomplete
    find_next_slice_lem w none slices finished previous = refl
    find_next_slice_lem w (some current) slices finished previous = refl

    -- The slice that is handed out.
    abbrev given : W → StreamSlice P C E → StreamSlice P C E
    given w s = with_state states cursor (cursor.select_state w s) s

    given-HasState : (w : W) (s : StreamSlice P C E) → HasState states cursor w (given w s)
    given-HasState w s =
        handed_out (cursor.select_state w s)
        ∙ sym (
            ap (state_to_read states)
              (state_of_partition w s (or_empty_state states cursor (cursor.select_state w s))))
      where
        handed_out :
            (state : Option C) → or_empty_state states cursor state ≡ state_to_read states state
        handed_out none = refl
        handed_out (some state) = refl

    -- What a page more leads to.
    page_read-IsLater :
        (w : W) (s : StreamSlice P C E)
        → 0 < pages_left w s.partition
        → IsLater w (read_slice w (given w s))
    page_read-IsLater w s open_page p =
        ground (arith, page_read w (given w s) p (given-HasState w s))

    total_later :
        (w w' : W) (slices : List (StreamSlice P C E))
        → IsLater w w'
        → total w' slices ≤ total w slices
    total_later w w' [] later = omega arith
    total_later w w' (s ∷ slices) later =
        omega (arith, later s.partition, total_later w w' slices later)

    total_less :
        (w : W) (s : StreamSlice P C E) (rest : List (StreamSlice P C E))
        → 0 < pages_left w s.partition
        → total (read_slice w (given w s)) (s ∷ rest) < total w (s ∷ rest)
    total_less w s rest open_page =
        let s' = given w s in
        let later = page_read-IsLater w s open_page in
        ground (
          arith,
          page_read w s' s.partition (given-HasState w s),
          key.same_iff s.partition s.partition,
          total_later w (read_slice w s') rest later,
          open_page,
        )

    sync_lem :
        (fuel : ℕ) (w : W) (current : Option (StreamSlice P C E))
        (slices : List (StreamSlice P C E)) (finished : Bool) (previous : Option C)
        → total w (pending current slices) < fuel
        → (w' : W) × (sync fuel w (reader_at current slices finished previous) ≡ some w')
          × IsLater w w'
          × AllRead w' (pending current slices)
    unfolding sync after_next next
    sync_lem zero w current slices finished previous enough = absurd (omega arith)
    sync_lem (suc fuel) w current slices finished previous enough =
        let step = find_next_slice_lem w current slices finished previous in
        elim (next_incomplete_cases w (pending current slices)) [
          | inl (stops, all) ↦ (w, rw (step, stops), λ p. omega arith, all)
          | inr (s, rest, k) ↦
              let s' = given w s in
              let w1 = read_slice w s' in
              let less = total_less w s rest k.open_page in
              let (w', e, later, all) =
                sync_lem fuel w1 (some s') rest finished previous
                  (omega (arith, less, k.bounded, enough)) in
              let later' : IsLater w w' =
                λ p. omega (arith, later p, page_read-IsLater w s k.open_page p) in
              (w', rw (step, k.finds, e), later', k.enough w' later' all)
        ]

    -- Where reading a slice that carries the state of its partition takes one page off it, as `paged` says,
    -- a resumable full refresh ends, after at most as many rounds as there are pages left and one
    -- more, with every slice read to its end, and no partition has more pages left than before.
    pub sync-AllRead :
        (w : W) (slices : List (StreamSlice P C E))
        → (w' : W) × (sync (suc (total w slices)) w (reader_at none slices false none) ≡ some w')
          × IsLater w w'
          × AllRead w' slices
    sync-AllRead w slices = sync_lem (suc (total w slices)) w none slices false none (omega arith)
