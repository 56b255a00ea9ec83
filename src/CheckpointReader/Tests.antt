-- ===== src/CheckpointReader/Tests.antt =====
-- Runs of the readers of CheckpointReader.
use airbyte_python_cdk.Prelude.{
  ℕ, suc, ◌+◌, ◌-◌, ◌≡◌, refl, ap, ◌∙◌, arith, inl, inr, Bool-cases, true, false, none, some, List,
  [], ◌∷◌, eqb, if◌then◌else◌, number_key, ◌==◌,
}
use airbyte_python_cdk.CheckpointReader.{
  StreamSlice, States, Cursor, IncrementalReader, next_incremental, incremental_checkpoint,
  observe_incremental, init_resumable, next_resumable, observe_resumable,
}
use airbyte_python_cdk.CheckpointReader.Resumable.{
  Paged, sync, sync-AllRead, total, reader_at, IsLater, AllRead,
}

abbrev states : States ℕ
states = record { empty = 0; complete = 1 }

abbrev slice_of : ℕ → StreamSlice ℕ ℕ (Unit {0})
slice_of p = record { partition = p; cursor_slice = 0; extra_fields = tt }

-- The cursor has the pages that each partition has left; its state is complete if there are none, else it
-- tells them, and a page is read only with the right state.
abbrev state_of : ℕ → ℕ
state_of pages = if eqb pages 0 then 1 else pages + 2

abbrev cursor : Cursor (ℕ → ℕ) ℕ ℕ (Unit {0})
cursor = record { select_state = λ w s. some (state_of (w s.partition)); get_stream_state = λ w. 0 }

abbrev read_page : (ℕ → ℕ) → StreamSlice ℕ ℕ (Unit {0}) → ℕ → ℕ
read_page w s p =
    if s.partition == p then (if s.cursor_slice == state_of (w p) then w p - 1 else w p) else w p

paged : Paged states cursor read_page
paged = record {
  pages_left = λ w p. w p;
  complete_iff = λ w s. complete_lem (w s.partition);
  state_of_partition = λ w s state. refl;
  page_read = page_read_lem;
}
  where
    complete_lem : (pages : ℕ) → (state_of pages == 1) ≡ eqb pages 0
    complete_lem pages = ground arith

    page_read_lem :
        (w : ℕ → ℕ) (s : StreamSlice ℕ ℕ (Unit {0})) (p : ℕ)
        → s.cursor_slice ≡ state_of (w s.partition)
        → read_page w s p ≡ (if s.partition == p then w p - 1 else w p)
    page_read_lem w s p has_state = elim (Bool-cases (s.partition == p)) [
      | inl e ↦
          let path : s.partition ≡ p = (number_key.same_iff s.partition p).0 e in
          let right : (s.cursor_slice == state_of (w p)) ≡ true =
            (number_key.same_iff s.cursor_slice (state_of (w p))).1
              (has_state ∙ ap (λ q. state_of (w q)) path) in
          rw (e, right) refl
      | inr e ↦ rw e refl
    ]

-- Partition `p` has `p` pages.
abbrev slices : List (StreamSlice ℕ ℕ (Unit {0}))
slices = slice_of 2 ∷ slice_of 0 ∷ slice_of 1 ∷ []

sync-AllRead_example :
    (w' : ℕ → ℕ) × (sync states cursor read_page
        (suc (total states cursor read_page paged (λ p. p) slices))
        (λ p. p)
        (reader_at states cursor read_page paged none slices false none)
      ≡ some w')
    × IsLater states cursor read_page paged (λ p. p) w'
    × AllRead states cursor read_page paged w' slices
sync-AllRead_example = sync-AllRead states cursor read_page paged (λ p. p) slices

-- A reader that has given all its slices has no state left to emit, one without slices has.
abbrev two_slices : IncrementalReader ℕ ℕ
two_slices = record { state = some 7; stream_slices = 1 ∷ 2 ∷ []; has_slices = false }

state_after_slices :
    let r = (next_incremental (next_incremental two_slices).1).1 in
    (incremental_checkpoint (observe_incremental 9 r) ≡ some 9)
    × (incremental_checkpoint (next_incremental (observe_incremental 9 r)).1 ≡ none)
unfolding next_incremental incremental_checkpoint observe_incremental
state_after_slices = (refl, refl)

state_without_slices :
    incremental_checkpoint (next_incremental (record two_slices { stream_slices = [] })).1 ≡ some 7
unfolding next_incremental incremental_checkpoint
state_without_slices = refl

-- A first page is read whatever the state; then a complete state ends the sync.
resumable_ends :
    ((next_resumable states (init_resumable states 0)).0 ≡ some 0)
    × ((next_resumable states
          (observe_resumable states 1 (next_resumable states (init_resumable states 0)).1)).0
        ≡ none)
unfolding next_resumable init_resumable observe_resumable
resumable_ends = (refl, refl)
