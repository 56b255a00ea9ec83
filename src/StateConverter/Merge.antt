-- ===== src/StateConverter/Merge.antt =====
-- What `merge_intervals` of StateConverter keeps: the covered values, and the gaps.
use airbyte_python_cdk.Prelude.{
  ℕ, ◌≤◌, ◌<◌, ◌≡◌, refl, List, [], ◌∷◌, max, leb, Bool-cases, inl, inr, ◌⊎◌, Any, Chain, ChainFrom,
  arith, ◌&&◌, ◌∙◌,
}
use airbyte_python_cdk.Python.Exceptions.{ok, ok_of_bind}
use airbyte_python_cdk.Python.Sorting.{sorted, Any-sorted, sorted-Chain}
use airbyte_python_cdk.StateConverter.{
  Interval, Converter, by_boundaries, max_most_recent, absorb, merge_loop, merge_sorted,
  merge_intervals,
}

-- `v` lies in the interval, and `v` lies in it or in the gap of one unit behind it.
abbrev pub Holds : {V : Type 0} → ℕ → Interval V → Type 0
Holds v i = (i.start ≤ v) × (v ≤ i.end)

module _ {V : Type 0} (converter : Converter V) where
  open converter use {increment}

  abbrev pub HoldsNear : ℕ → Interval V → Type 0
  HoldsNear v i = (i.start ≤ v) × (v ≤ increment i.end)

  -- Further apart than one unit.
  abbrev pub AreApart : Interval V → Interval V → Type 0
  AreApart i j = increment i.end < j.start

  abbrev pub StartsBefore : Interval V → Interval V → Type 0
  StartsBefore i j = i.start ≤ j.start

  absorb_boundaries :
      (last current merged : Interval V)
      → absorb converter last current ≡ ok merged
      → (merged.start ≡ last.start) × (merged.end ≡ max last.end current.end)
  unfolding absorb
  absorb_boundaries last current merged h =
      let (m, _, e) =
        ok_of_bind (max_most_recent converter current.most_recent last.most_recent) _ h in
      ground arith

  merge_loop_cases :
      (last current : Interval V) (rest merged : List (Interval V))
      → merge_loop converter last (current ∷ rest) ≡ ok merged
      → ((current.start ≤ increment last.end)
          × ((last' : Interval V) × (last'.start ≡ last.start)
              × (last'.end ≡ max last.end current.end)
              × (merge_loop converter last' rest ≡ ok merged)))
        ⊎ ((increment last.end < current.start)
            × ((others : List (Interval V)) × (merge_loop converter current rest ≡ ok others)
                × (merged ≡ last ∷ others)))
  unfolding merge_loop
  merge_loop_cases last current rest merged h =
      elim (Bool-cases (leb current.start (increment last.end))) [
        | inl near ↦
            let (last', e, h') = ok_of_bind (absorb converter last current) _ (rw near at h) in
            inl (
              ground arith,
              (
                last',
                (absorb_boundaries last current last' e).0,
                (absorb_boundaries last current last' e).1,
                h',
              ),
            )
        | inr far ↦
            let (others, e, h') = ok_of_bind (merge_loop converter current rest) _ (rw far at h) in
            inr (ground arith, (others, e, ground arith))
      ]

  starts_before :
      (i j : Interval V) (rest : List (Interval V))
      → i.start ≤ j.start
      → ChainFrom StartsBefore j rest
      → ChainFrom StartsBefore i rest
  starts_before i j [] h c = tt
  starts_before i j (k ∷ rest) h c = (omega arith, c.1)

  widen :
      (v : ℕ) (last current last' : Interval V) (rest : List (Interval V))
      → last.start ≤ current.start
      → last'.start ≡ last.start
      → last'.end ≡ max last.end current.end
      → Any (Holds v) (last ∷ current ∷ rest)
      → Any (Holds v) (last' ∷ rest)
  widen v last current last' rest le s e (inl h) = inl (omega arith, omega arith)
  widen v last current last' rest le s e (inr (inl h)) = inl (omega arith, omega arith)
  widen v last current last' rest le s e (inr (inr h)) = inr h

  -- Every value of a given interval lies in a merged one.
  merge_loop-Holds :
      (v : ℕ) (last : Interval V) (rest merged : List (Interval V))
      → merge_loop converter last rest ≡ ok merged
      → ChainFrom StartsBefore last rest
      → Any (Holds v) (last ∷ rest)
      → Any (Holds v) merged
  unfolding merge_loop
  merge_loop-Holds v last [] merged h c a = let e : merged ≡ last ∷ [] = ground arith in rw e a
  merge_loop-Holds v last (current ∷ rest) merged h c a =
      elim (merge_loop_cases last current rest merged h) [
        | inl (near, (last', s, e, h')) ↦
            merge_loop-Holds v last' rest merged h'
              (starts_before last' current rest (omega arith) c.1)
              (widen v last current last' rest c.0 s e a)
        | inr (far, (others, h', e)) ↦ rw e (elim a [
          | inl here ↦ inl here
          | inr there ↦ inr (merge_loop-Holds v current rest others h' c.1 there)
        ])
      ]

  narrow :
      (v : ℕ) (last current last' : Interval V) (rest : List (Interval V))
      → current.start ≤ increment last.end
      → last'.start ≡ last.start
      → last'.end ≡ max last.end current.end
      → Any (HoldsNear v) (last' ∷ rest)
      → Any (HoldsNear v) (last ∷ current ∷ rest)
  narrow v last current last' rest near s e (inl h) =
      elim (Bool-cases (leb last.end current.end && leb current.start v)) [
        | inl later ↦
            let same : last'.end ≡ current.end = ground arith in
            inr (inl (ground arith, rw same at h.1))
        | inr earlier ↦ elim (Bool-cases (leb last.end current.end)) [
          | inl longer ↦ inl (omega arith, ground arith)
          | inr shorter ↦
              let same : last'.end ≡ last.end = ground arith in inl (omega arith, rw same at h.1)
        ]
      ]
  narrow v last current last' rest near s e (inr h) = inr (inr h)

  -- Every value of a merged interval is near a given one.
  merge_loop-HoldsNear :
      (v : ℕ) (last : Interval V) (rest merged : List (Interval V))
      → merge_loop converter last rest ≡ ok merged
      → Any (HoldsNear v) merged
      → Any (HoldsNear v) (last ∷ rest)
  unfolding merge_loop
  merge_loop-HoldsNear v last [] merged h a = let e : merged ≡ last ∷ [] = ground arith in rw e at a
  merge_loop-HoldsNear v last (current ∷ rest) merged h a =
      elim (merge_loop_cases last current rest merged h) [
        | inl (near, (last', s, e, h')) ↦
            narrow v last current last' rest near s e
              (merge_loop-HoldsNear v last' rest merged h' a)
        | inr (far, (others, h', e)) ↦ elim (rw e at a) [
          | inl here ↦ inl here
          | inr there ↦ inr (merge_loop-HoldsNear v current rest others h' there)
        ]
      ]

  -- The first merged interval starts where the first given one starts.
  merge_loop-AreApart :
      (last : Interval V) (rest merged : List (Interval V))
      → merge_loop converter last rest ≡ ok merged
      → Chain AreApart merged
        × ((first : Interval V) × (others : List (Interval V)) × (merged ≡ first ∷ others)
            × (first.start ≡ last.start))
  unfolding merge_loop
  merge_loop-AreApart last [] merged h =
      let e : merged ≡ last ∷ [] = ground arith in (rw e tt, (last, [], e, refl))
  merge_loop-AreApart last (current ∷ rest) merged h =
      elim (merge_loop_cases last current rest merged h) [
        | inl (near, (last', s, e, h')) ↦
            let (apart, (first, others, e', s')) = merge_loop-AreApart last' rest merged h' in
            (apart, (first, others, e', s' ∙ s))
        | inr (far, (others, h', e)) ↦
            let (apart, (first, others', e', s')) = merge_loop-AreApart current rest others h' in
            (rw (e, e') (omega arith, rw e' at apart), (last, others, e, refl))
      ]

  abbrev pub Merges : List (Interval V) → List (Interval V) → Type 0
  Merges intervals merged =
      ((v : ℕ) → Any (Holds v) intervals → Any (Holds v) merged)
      × ((v : ℕ) → Any (HoldsNear v) merged → Any (HoldsNear v) intervals)
      × Chain AreApart merged

  merge_sorted-Merges :
      (l merged : List (Interval V))
      → merge_sorted converter l ≡ ok merged
      → Chain StartsBefore l
      → Merges l merged
  unfolding merge_sorted
  merge_sorted-Merges [] merged h c =
      let e : merged ≡ [] = ground arith in rw e (λ v a. a, λ v a. a, tt)
  merge_sorted-Merges (first ∷ rest) merged h c = (
    λ v. merge_loop-Holds v first rest merged h c,
    λ v. merge_loop-HoldsNear v first rest merged h,
    (merge_loop-AreApart first rest merged h).0,
  )

  -- The merged intervals hold every value that a given interval holds, and beyond these only values
  -- in a gap of one unit behind a given interval; and neighbours are further apart than one unit.
  pub merge_intervals_lem :
      (intervals merged : List (Interval V))
      → merge_intervals converter intervals ≡ ok merged
      → Merges intervals merged
  unfolding merge_intervals
  merge_intervals_lem intervals merged h =
      let (holds, near, apart) = merge_sorted-Merges (sorted by_boundaries intervals) merged h (
        sorted-Chain by_boundaries StartsBefore (λ x y e. ground arith) (λ x y e. ground arith)
          intervals) in
      (
        λ v a. holds v ((Any-sorted by_boundaries (Holds v) intervals).1 a),
        λ v a. (Any-sorted by_boundaries (HoldsNear v) intervals).0 (near v a),
        apart,
      )
