-- ===== src/StateConverter/Complete.antt =====
-- The sequential state message of StateConverter: merging returns, and the emitted cursor value lies
-- behind no gap.
use airbyte_python_cdk.Prelude.{
  ℕ, ◌≤◌, ◌≡◌, refl, true, Option, none, some, List, [], ◌∷◌, max, leb, Bool-cases, inl, inr, Any,
  All, Chain, arith, String, text_key,
}
use airbyte_python_cdk.Python.Exceptions.{ok}
use airbyte_python_cdk.Python.Dict.{Dict, set}
use airbyte_python_cdk.Python.Sorting.{sorted, All-sorted}
use airbyte_python_cdk.StateConverter.{
  CursorValue, parsed, unparsed, Interval, Converter, by_boundaries, or_empty, max_most_recent,
  absorb, merge_loop, merge_sorted, merge_intervals, first_complete, get_latest_complete_time,
  convert_to_state_message, sequential, to_state_message,
}
use airbyte_python_cdk.StateConverter.Merge.{
  Holds, HoldsNear, AreApart, Merges, merge_intervals_lem,
}

-- No value, or a parsed one up to the bound.
abbrev pub IsObserved : {V : Type 0} → Option (CursorValue V) → ℕ → Type 0
IsObserved none bound = Unit
IsObserved (some (parsed t)) bound = t ≤ bound
IsObserved (some (unparsed _)) bound = ⊥

-- A slice that was closed in this sync: its records were observed within its boundaries.
pub record IsClosed {V : Type 0} (i : Interval V) : Type 0 where
  pub within : i.start ≤ i.end
  pub observed : IsObserved i.most_recent i.end

module _ {V : Type 0} (converter : Converter V) where
  max_most_recent_total :
      (c l : Option (CursorValue V)) (m n : ℕ)
      → IsObserved c m
      → IsObserved l n
      → (r : Option (CursorValue V)) × (max_most_recent converter c l ≡ ok r)
        × IsObserved r (max n m)
  unfolding max_most_recent
  max_most_recent_total none none m n hc hl = (none, refl, tt)
  max_most_recent_total none (some (parsed t)) m n hc hl = (some (parsed t), refl, omega arith)
  max_most_recent_total (some (parsed s)) none m n hc hl = (some (parsed s), refl, omega arith)
  max_most_recent_total (some (parsed s)) (some (parsed t)) m n hc hl =
      (some (parsed (max s t)), refl, omega arith)
  max_most_recent_total (some (unparsed v)) l m n hc hl = absurd hc
  max_most_recent_total none (some (unparsed v)) m n hc hl = absurd hl
  max_most_recent_total (some (parsed s)) (some (unparsed v)) m n hc hl = absurd hl

  absorb_total :
      (last current : Interval V)
      → IsClosed last
      → IsClosed current
      → (merged : Interval V) × (absorb converter last current ≡ ok merged) × IsClosed merged
  unfolding absorb
  absorb_total last current hl hc =
      let (m, e, o) =
        max_most_recent_total current.most_recent last.most_recent current.end last.end hc.observed
          hl.observed in
      (
        record last { end = max last.end current.end; most_recent = m },
        rw e,
        record {
          within = (let h : last.start ≤ last.end = hl.within in omega arith);
          observed = o;
        },
      )

  merge_loop_total :
      (last : Interval V) (rest : List (Interval V))
      → IsClosed last
      → All IsClosed rest
      → (merged : List (Interval V)) × (merge_loop converter last rest ≡ ok merged)
        × All IsClosed merged
  unfolding merge_loop
  merge_loop_total last [] h hs = (last ∷ [], refl, (h, tt))
  merge_loop_total last (current ∷ rest) h hs =
      elim (Bool-cases (leb current.start (converter.increment last.end))) [
        | inl near ↦
            let (last', e, h') = absorb_total last current h hs.0 in
            let (merged, e', all_closed) = merge_loop_total last' rest h' hs.1 in
            (merged, rw (near, e, e'), all_closed)
        | inr far ↦
            let (others, e, all_closed) = merge_loop_total current rest hs.0 hs.1 in
            (last ∷ others, rw (far, e), (h, all_closed))
      ]

  merge_sorted_total :
      (l : List (Interval V))
      → All IsClosed l
      → (merged : List (Interval V)) × (merge_sorted converter l ≡ ok merged) × All IsClosed merged
  unfolding merge_sorted
  merge_sorted_total [] h = ([], refl, tt)
  merge_sorted_total (first ∷ rest) h = merge_loop_total first rest h.0 h.1

  -- Merging closed slices returns closed slices: nothing raises.
  pub merge_intervals-IsClosed :
      (intervals : List (Interval V))
      → All IsClosed intervals
      → (merged : List (Interval V)) × (merge_intervals converter intervals ≡ ok merged)
        × All IsClosed merged
  unfolding merge_intervals
  merge_intervals-IsClosed intervals h =
      merge_sorted_total (sorted by_boundaries intervals)
        (All-sorted by_boundaries IsClosed intervals h)

  module _ (increment_grows : (v : ℕ) → v ≤ converter.increment v) where
    first_start_le :
        (v : ℕ) (first : Interval V) (others : List (Interval V))
        → All IsClosed (first ∷ others)
        → Chain (AreApart converter) (first ∷ others)
        → Any (Holds v) (first ∷ others)
        → first.start ≤ v
    first_start_le v first others h c (inl (a, b)) = a
    first_start_le v first [] h c (inr a) = elim a [ ]
    first_start_le v first (next ∷ others) h c (inr a) =
        let later : next.start ≤ v = first_start_le v next others h.1 c.1 a in
        let own : first.start ≤ first.end = h.0.within in omega (arith, increment_grows first.end)

    starts_hold :
        (v : ℕ) (l : List (Interval V))
        → All IsClosed l
        → Any (λ i. i.start ≤ v) l
        → (w : ℕ) × (w ≤ v) × Any (Holds w) l
    starts_hold v [] h a = elim a [ ]
    starts_hold v (i ∷ l) h (inl a) = (i.start, a, inl (omega arith, h.0.within))
    starts_hold v (i ∷ l) h (inr a) = let (w, le, held) = starts_hold v l h.1 a in (w, le, inr held)

    -- The value of `first_complete`, and that all up to it is in the first interval.
    first_complete_total :
        (first : Interval V) (others : List (Interval V))
        → IsClosed first
        → (t : ℕ) × (first_complete converter (first ∷ others) ≡ ok (parsed t))
          × ((v : ℕ) → first.start ≤ v → v ≤ t → HoldsNear converter v first)
    unfolding first_complete
    first_complete_total first others h = go first.most_recent refl h.observed
      where
        go :
            (o : Option (CursorValue V))
            → first.most_recent ≡ o
            → IsObserved o first.end
            → (t : ℕ) × (first_complete converter (first ∷ others) ≡ ok (parsed t))
              × ((v : ℕ) → first.start ≤ v → v ≤ t → HoldsNear converter v first)
        go none e b = (
          first.start,
          rw e,
          λ v a z. (
            a,
            let w : first.start ≤ first.end = h.within in omega (arith, increment_grows first.end),
          ),
        )
        go (some (parsed t)) e b = (t, rw e, λ v a z. (a, omega (arith, increment_grows first.end)))
        go (some (unparsed x)) e b = absurd b

    abbrev CompletesUpTo : List (Interval V) → ℕ → Type 0
    CompletesUpTo slices t =
        (v : ℕ) → Any (λ i. i.start ≤ v) slices → v ≤ t → Any (HoldsNear converter v) slices

    complete_of_merged :
        (slices merged : List (Interval V))
        → Any (λ i. i.start ≤ i.end) slices
        → All IsClosed slices
        → All IsClosed merged
        → Merges converter slices merged
        → (t : ℕ) × (first_complete converter merged ≡ ok (parsed t)) × CompletesUpTo slices t
    complete_of_merged [] [] some_slice h hm m = elim some_slice [ ]
    complete_of_merged (s ∷ slices) [] some_slice h hm (holds, near, apart) =
        absurd (holds s.start (inl (omega arith, h.0.within)))
    complete_of_merged slices (first ∷ others) some_slice h hm (holds, near, apart) =
        let (t, e, up_to) = first_complete_total first others hm.0 in
        (
          t,
          e,
          λ v a z.
              let (w, le, held) = starts_hold v slices h a in
              let from : first.start ≤ w = first_start_le w first others hm apart (holds w held) in
              near v (inl (up_to v (omega arith) z)),
        )

    latest_total :
        (s : Interval V) (slices : List (Interval V))
        → All IsClosed (s ∷ slices)
        → (t : ℕ) × (get_latest_complete_time converter (s ∷ slices) ≡ ok (parsed t))
          × CompletesUpTo (s ∷ slices) t
    unfolding get_latest_complete_time
    latest_total s slices h =
        let (merged, e, all_closed) = merge_intervals-IsClosed (s ∷ slices) h in
        let (t, e', up_to) =
          complete_of_merged (s ∷ slices) merged (inl h.0.within) h all_closed
            (merge_intervals_lem converter (s ∷ slices) merged e) in
        (t, rw (e, e'), up_to)

-- The sequential state message of closed slices is always produced, and its cursor value stands
-- behind no gap: each value between a slice's start and it lies in a slice, or at most one unit
-- behind one.
pub convert_to_state_message_complete :
    {V : Type 0} (converter : Converter V)
    → ((v : ℕ) → v ≤ converter.increment v)
    → converter.is_sequential_state ≡ true
    → (cursor_field : String) (s : Interval V) (slices : List (Interval V))
    → (legacy : Option (Dict String V)) → All IsClosed (s ∷ slices)
    → (t : ℕ) × (convert_to_state_message converter cursor_field
          (record { slices = some (s ∷ slices); legacy = legacy })
        ≡ ok (sequential (set (or_empty legacy) cursor_field (converter.output_format t))))
      × ((v : ℕ)
          → Any (λ i. i.start ≤ v) (s ∷ slices)
          → v ≤ t
          → Any (HoldsNear converter v) (s ∷ slices))
unfolding convert_to_state_message to_state_message
convert_to_state_message_complete converter grows mode cursor_field s slices legacy h =
    let (t, e, up_to) = latest_total converter grows s slices h in (t, simp (mode, e), up_to)
