-- ===== src/ConcurrentCursor/Slices/Split.antt =====
-- `_split_per_slice_range` of ConcurrentCursor: its ranges tile what it is given, and its loop ends.
use airbyte_python_cdk.Prelude.{
  ℕ, zero, suc, ◌+◌, ◌-◌, ◌≤◌, ◌<◌, ◌≡◌, refl, Bool, true, false, Option, none, some, List, [], ◌∷◌,
  min, leb, ◌&&◌, arith, All, ◌∙◌, Bool-cases, inl, inr,
}
use airbyte_python_cdk.Python.Exceptions.{ok}
use airbyte_python_cdk.Python.Generators.{Generator, returned, just, yield_then}
use airbyte_python_cdk.ConcurrentCursor.{Config, Range, truthy_gap, sub_option}
use airbyte_python_cdk.ConcurrentCursor.Slices.{
  granularity_unless, evaluate_upper_safely, split_loop, split_once, split_clipped,
  split_per_slice_range, clip, is_before,
}

-- From `lower` to `last`, each range begins one granularity behind the range before it.
abbrev pub Tiles : ℕ → ℕ → ℕ → List Range → Type 0
Tiles gap last lower [] = ⊥
Tiles gap last lower (r ∷ []) = (r.lower ≡ lower) × (r.upper ≡ last)
Tiles gap last lower (r ∷ next ∷ rest) =
    (r.lower ≡ lower) × Tiles gap last (r.upper + gap) (next ∷ rest)

-- The granularity as a number.
abbrev pub gap_size : Option ℕ → ℕ
gap_size none = 0
gap_size (some gap) = gap

-- What the last range leaves out at its upper end.
abbrev pub last_gap : Bool → Option ℕ → ℕ
last_gap true gap = 0
last_gap false gap = gap_size gap

-- The upper boundary of a range, with or without the granularity taken off.
sub_granularity :
    (a : ℕ) (at_end : Bool) (gap : Option ℕ)
    → gap_size gap ≤ a
    → sub_option a (granularity_unless at_end gap) ≡ ok (a - last_gap at_end gap)
sub_granularity a true gap h = ground arith
sub_granularity a false none h = ground arith
sub_granularity a false (some zero) h = ground arith
sub_granularity a false (some (suc n)) h = ground arith

and_true : (b : Bool) → (b && true) ≡ b
and_true true = refl
and_true false = refl

and_false : (b : Bool) → (b && false) ≡ false
and_false true = refl
and_false false = refl

module _ {S V : Type 0} (config : Config S V) where
  open config use {cursor_granularity, end_value, datetime_max}

  abbrev IsSplit : ℕ → ℕ → ℕ → ℕ → Generator Range → Type 0
  IsSplit step last lower upper ranges =
      (ranges.outcome ≡ returned)
      × Tiles (gap_size cursor_granularity) last lower ranges.items
      × All (λ r. (r.upper ≤ r.lower + step) × (r.upper ≤ upper)) ranges.items

  Tiles-cons :
      (gap last lower : ℕ) (r : Range) (rest : List Range)
      → r.lower ≡ lower
      → Tiles gap last (r.upper + gap) rest
      → Tiles gap last lower (r ∷ rest)
  Tiles-cons gap last lower r [] e t = elim t [ ]
  Tiles-cons gap last lower r (next ∷ rest) e t = (e, t)

  -- The overflow branch never matters below the end of the sync.
  next_upper :
      (lower step upper : ℕ)
      → upper ≤ end_value
      → upper ≤ datetime_max
      → min (evaluate_upper_safely config lower step) upper ≡ min (lower + step) upper
  unfolding evaluate_upper_safely
  next_upper lower step upper he hm = ground arith

  last_round :
      (fuel step upper : ℕ) (upper_is_end : Bool) (lower : ℕ)
      → min (evaluate_upper_safely config lower step) upper ≡ upper
      → gap_size cursor_granularity ≤ upper
      → split_loop config (suc fuel) step upper upper_is_end lower
        ≡ just (record { lower = lower; upper = upper - last_gap upper_is_end cursor_granularity })
  unfolding split_loop
  last_round fuel step upper upper_is_end lower e fits =
      let reached : leb upper upper ≡ true = ground arith in
      rw (
        e,
        reached,
        and_true upper_is_end,
        sub_granularity upper upper_is_end cursor_granularity fits,
      )

  inner_round :
      (fuel step upper : ℕ) (upper_is_end : Bool) (lower next : ℕ)
      → min (evaluate_upper_safely config lower step) upper ≡ next
      → next < upper
      → gap_size cursor_granularity ≤ next
      → split_loop config (suc fuel) step upper upper_is_end lower
        ≡ yield_then
            (record { lower = lower; upper = next - gap_size cursor_granularity })
            (split_loop config fuel step upper upper_is_end next)
  unfolding split_loop
  inner_round fuel step upper upper_is_end lower next e lt fits =
      let before : leb upper next ≡ false = ground arith in
      rw (e, before, and_false upper_is_end, sub_granularity next false cursor_granularity fits)

  split_loop_tiles :
      (fuel step upper : ℕ) (upper_is_end : Bool) (lower : ℕ)
      → 0 < step
      → upper ≤ end_value
      → upper ≤ datetime_max
      → gap_size cursor_granularity ≤ step
      → gap_size cursor_granularity ≤ upper
      → lower < upper
      → upper - lower < fuel
      → IsSplit step
          (upper - last_gap upper_is_end cursor_granularity)
          lower
          upper
          (split_loop config fuel step upper upper_is_end lower)
  split_loop_tiles zero step upper upper_is_end lower pos end_le max_le fits below lt enough =
      elim enough [ ]
  split_loop_tiles (suc fuel) step upper upper_is_end lower pos end_le max_le fits below lt enough =
      elim (Bool-cases (leb upper (lower + step))) [
        | inl reached ↦
            rw
              (last_round fuel step upper upper_is_end lower
                (next_upper lower step upper end_le max_le ∙ ground arith) below)
              (refl, (refl, refl), ((ground arith, omega arith), tt))
        | inr before ↦
            let rest =
              split_loop_tiles fuel step upper upper_is_end (lower + step) pos end_le max_le fits
                below (ground arith) (ground arith) in
            rw
              (inner_round fuel step upper upper_is_end lower (lower + step)
                (next_upper lower step upper end_le max_le ∙ ground arith) (ground arith)
                (omega arith))
              (
                rest.0,
                Tiles-cons _ _ lower _ _ refl (
                    let e : lower + step - gap_size cursor_granularity + gap_size cursor_granularity
                        ≡ lower + step =
                      omega arith in
                    rw e rest.1),
                ((omega arith, ground arith), rest.2),
              )
      ]

  -- A range is at most one slice range long, where there is a slice range.
  abbrev pub IsWithin : Option ℕ → Range → Type 0
  IsWithin none r = Unit
  IsWithin (some step) r = r.upper ≤ r.lower + step

  -- What `_split_per_slice_range` promises for the boundaries that are left after clipping.
  abbrev pub IsSplitOf : Option ℕ → ℕ → ℕ → Bool → Generator Range → Type 0
  IsSplitOf slice_range lower upper upper_is_end ranges =
      (ranges.outcome ≡ returned)
      × Tiles (gap_size cursor_granularity) (upper - last_gap upper_is_end cursor_granularity) lower
          ranges.items
      × All (λ r. IsWithin slice_range r × (r.upper ≤ upper)) ranges.items

  split_once_lem :
      (lower upper : ℕ) (upper_is_end : Bool)
      → gap_size cursor_granularity ≤ upper
      → split_once config lower upper upper_is_end
        ≡ just (record { lower = lower; upper = upper - last_gap upper_is_end cursor_granularity })
  unfolding split_once
  split_once_lem lower upper upper_is_end fits =
      rw (sub_granularity upper upper_is_end cursor_granularity fits)

  reach :
      (lower step upper : ℕ)
      → leb upper (evaluate_upper_safely config lower step) ≡ true
      → upper ≤ datetime_max
      → upper ≤ lower + step
  unfolding evaluate_upper_safely
  reach lower step upper h hm = ground arith

  split_clipped-IsSplitOf :
      (slice_range : Option ℕ) (lower upper : ℕ) (upper_is_end : Bool)
      → gap_size cursor_granularity ≤ upper
      → upper ≤ end_value
      → upper ≤ datetime_max
      → lower < upper
      → ((step : ℕ) → slice_range ≡ some step → (0 < step) × (gap_size cursor_granularity ≤ step))
      → IsSplitOf slice_range lower upper upper_is_end
          (split_clipped config slice_range lower upper upper_is_end)
  unfolding split_clipped
  split_clipped-IsSplitOf none lower upper upper_is_end fits he hm lt steps =
      rw (split_once_lem lower upper upper_is_end fits)
        (refl, (refl, refl), ((tt, omega arith), tt))
  split_clipped-IsSplitOf (some step) lower upper upper_is_end fits he hm lt steps =
      elim (Bool-cases (leb upper (evaluate_upper_safely config lower step))) [
        | inl once ↦
            rw (once, split_once_lem lower upper upper_is_end fits)
              (
                refl,
                (refl, refl),
                (
                  (
                    let w : upper ≤ lower + step = reach lower step upper once hm in omega arith,
                    omega arith,
                  ),
                  tt,
                ),
              )
        | inr loop ↦
            let (pos, le) = steps step refl in
            rw loop (
              split_loop_tiles (suc (upper - lower)) step upper upper_is_end lower pos he hm le fits
                lt (omega arith))
      ]

not_before :
    (start : Option ℕ) (lower upper : ℕ) → clip start lower < upper → is_before upper start ≡ false
not_before none lower upper h = refl
not_before (some start) lower upper h = ground arith

-- Where the lower boundary, clipped to the start of the sync, is below the upper one, the ranges
-- tile what is between, one granularity apart, and each is at most a slice range long; the generator
-- ends. The conditions: the upper boundary is at most the end of the sync and the largest datetime,
-- and the granularity is at most the upper boundary and the slice range.
pub split_per_slice_range-IsSplitOf :
    {S V : Type 0} (config : Config S V) (lower upper : ℕ) (upper_is_end : Bool)
    → gap_size config.cursor_granularity ≤ upper
    → upper ≤ config.end_value
    → upper ≤ config.datetime_max
    → lower < upper
    → clip config.initial_start lower < upper
    → ((step : ℕ)
        → truthy_gap config.slice_range ≡ some step
        → (0 < step) × (gap_size config.cursor_granularity ≤ step))
    → IsSplitOf config
        (truthy_gap config.slice_range)
        (clip config.initial_start lower)
        upper
        upper_is_end
        (split_per_slice_range config lower upper upper_is_end)
unfolding split_per_slice_range
split_per_slice_range-IsSplitOf config lower upper upper_is_end fits he hm lt clipped steps =
    let inside : leb upper lower ≡ false = ground arith in
    rw (inside, not_before config.initial_start lower upper clipped)
      (split_clipped-IsSplitOf config (truthy_gap config.slice_range)
        (clip config.initial_start lower) upper upper_is_end fits he hm clipped steps)
