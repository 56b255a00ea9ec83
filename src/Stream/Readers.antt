-- ===== src/Stream/Readers.antt =====
-- The readers of CheckpointReader as checkpoint readers of Stream, and what a read needs of them.
use airbyte_python_cdk.Prelude.{◌≡◌, refl, none, some, List, [], ◌∷◌, ◌⊎◌, inl, inr}
use airbyte_python_cdk.Python.Exceptions.{ok}
use airbyte_python_cdk.CheckpointReader.{
  IncrementalReader, next_incremental, observe_incremental, incremental_checkpoint,
  FullRefreshReader, next_full_refresh, full_refresh_checkpoint,
}
use airbyte_python_cdk.Stream.{CheckpointReader}

-- A reader that gives the slices of a list in its order, whatever happens between.
pub record Feeds {A W S C : Type 0} (reader : CheckpointReader A W S C) : Type 0 where
  pub slices_left : A → List S
  pub next_lem :
      (w : W) (a : A)
      → ((slices_left a ≡ []) × ((reader.next w a).0 ≡ ok none))
        ⊎ ((s : S) × (rest : List S) × (slices_left a ≡ s ∷ rest)
            × ((reader.next w a).0 ≡ ok (some s))
            × (slices_left (reader.next w a).1 ≡ rest))
  pub observe_lem : (c : C) (a : A) → slices_left (reader.observe c a) ≡ slices_left a
  pub get_checkpoint_lem :
      (w : W) (a : A) → slices_left (reader.get_checkpoint w a).1 ≡ slices_left a

module _ {W S C : Type 0} where
  abbrev pub incremental_reader : CheckpointReader (IncrementalReader S C) W S C
  incremental_reader = record {
    next = λ w r. let (s, r') = next_incremental r in (ok s, r');
    observe = observe_incremental;
    get_checkpoint = λ w r. (incremental_checkpoint r, r);
  }

  abbrev pub full_refresh_reader : C → CheckpointReader (FullRefreshReader S) W S C
  full_refresh_reader no_cursor = record {
    next = λ w r. let (s, r') = next_full_refresh r in (ok s, r');
    observe = λ c r. r;
    get_checkpoint = λ w r. (full_refresh_checkpoint no_cursor r, r);
  }

  unfoldable pub incremental_reader-Feeds : Feeds incremental_reader
  unfolding next_incremental observe_incremental
  incremental_reader-Feeds = record {
    slices_left = λ r. r.stream_slices;
    next_lem = λ w r. by_slices r r.stream_slices refl;
    observe_lem = λ c r. refl;
    get_checkpoint_lem = λ w r. refl;
  }
    where
      by_slices :
          (r : IncrementalReader S C) (slices : List S)
          → r.stream_slices ≡ slices
          → ((r.stream_slices ≡ []) × ((ok (next_incremental r).0) ≡ ok none))
            ⊎ ((s : S) × (rest : List S) × (r.stream_slices ≡ s ∷ rest)
                × ((ok (next_incremental r).0) ≡ ok (some s))
                × ((next_incremental r).1.stream_slices ≡ rest))
      by_slices r [] e = inl (e, rw e refl)
      by_slices r (s ∷ rest) e = inr (s, rest, e, rw e refl, rw e refl)

  unfoldable pub full_refresh_reader-Feeds : (no_cursor : C) → Feeds (full_refresh_reader no_cursor)
  unfolding next_full_refresh
  full_refresh_reader-Feeds no_cursor = record {
    slices_left = λ r. r.stream_slices;
    next_lem = λ w r. by_slices r r.stream_slices refl;
    observe_lem = λ c r. refl;
    get_checkpoint_lem = λ w r. refl;
  }
    where
      by_slices :
          (r : FullRefreshReader S) (slices : List S)
          → r.stream_slices ≡ slices
          → ((r.stream_slices ≡ []) × ((ok (next_full_refresh r).0) ≡ ok none))
            ⊎ ((s : S) × (rest : List S) × (r.stream_slices ≡ s ∷ rest)
                × ((ok (next_full_refresh r).0) ≡ ok (some s))
                × ((next_full_refresh r).1.stream_slices ≡ rest))
      by_slices r [] e = inl (e, rw e refl)
      by_slices r (s ∷ rest) e = inr (s, rest, e, rw e refl, rw e refl)
