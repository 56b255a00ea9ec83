-- ===== src/AsyncJob/Lookahead.antt =====
-- LookaheadIterator of airbyte_cdk/sources/declarative/async_job/job_orchestrator.py, over an
-- iterator that is the list of its items.
use airbyte_python_cdk.Prelude.{
  ◌≡◌, refl, Bool, true, false, Option, none, some, List, [], ◌∷◌, sym,
}

pub record LookaheadIterator (T : Type 0) : Type 0 where
  pub iterator : List T
  pub buffer : List T

module _ {T : Type 0} where
  -- `self._buffer.pop()` takes the last item of what is not empty.
  unfoldable pub pop : T → List T → T × List T
  pop x [] = (x, [])
  pop x (y ∷ l) = let (last, rest) = pop y l in (last, x ∷ rest)

  -- Without a buffer, the iterator's next item.
  abbrev next_item : List T → Option (T × LookaheadIterator T)
  next_item [] = none
  next_item (x ∷ iterator) = some (x, record { iterator = iterator; buffer = [] })

  -- `__next__`; StopIteration is `none`.
  unfoldable pub next : LookaheadIterator T → Option (T × LookaheadIterator T)
  next s = elim s.buffer [
    | [] ↦ next_item s.iterator
    | x ∷ buffer ↦ let (last, rest) = pop x buffer in some (last, record s { buffer = rest })
  ]

  abbrev look_ahead : List T → Bool × LookaheadIterator T
  look_ahead [] = (false, record { iterator = []; buffer = [] })
  look_ahead (x ∷ iterator) = (true, record { iterator = iterator; buffer = x ∷ [] })

  unfoldable pub has_next : LookaheadIterator T → Bool × LookaheadIterator T
  has_next s = elim s.buffer [ [] ↦ look_ahead s.iterator | x ∷ buffer ↦ (true, s) ]

  unfoldable pub add_at_the_beginning : T → LookaheadIterator T → LookaheadIterator T
  add_at_the_beginning item s = record s { buffer = item ∷ s.buffer }

  -- The items that are still to come: those of the buffer from its end, then the iterator's.
  abbrev pub coming : List T → List T → List T
  coming [] iterator = iterator
  coming (x ∷ buffer) iterator = coming buffer (x ∷ iterator)

  abbrev pub upcoming : LookaheadIterator T → List T
  upcoming s = coming s.buffer s.iterator

  coming-pop :
      (x : T) (buffer iterator : List T)
      → coming (x ∷ buffer) iterator ≡ (pop x buffer).0 ∷ coming (pop x buffer).1 iterator
  unfolding pop
  coming-pop x [] iterator = refl
  coming-pop x (y ∷ buffer) iterator = coming-pop y buffer (x ∷ iterator)

  -- What `__next__` does to the items to come.
  abbrev pub IsNext : List T → Option (T × LookaheadIterator T) → Type 0
  IsNext l none = l ≡ []
  IsNext l (some (x, s)) = l ≡ x ∷ upcoming s

  next_item_lem : (iterator : List T) → IsNext iterator (next_item iterator)
  next_item_lem [] = refl
  next_item_lem (x ∷ iterator) = refl

  next_lem :
      (iterator buffer : List T)
      → IsNext (coming buffer iterator) (next (record { iterator = iterator; buffer = buffer }))
  unfolding next
  next_lem iterator [] = next_item_lem iterator
  next_lem iterator (x ∷ buffer) = coming-pop x buffer iterator

  abbrev pub is_some_item : List T → Bool
  is_some_item [] = false
  is_some_item (x ∷ l) = true

  coming-IsSome :
      (x : T) (buffer iterator : List T) → is_some_item (coming buffer (x ∷ iterator)) ≡ true
  coming-IsSome x [] iterator = refl
  coming-IsSome x (y ∷ buffer) iterator = coming-IsSome y buffer (x ∷ iterator)

  has_next_lem :
      (iterator buffer : List T)
      → (upcoming (has_next (record { iterator = iterator; buffer = buffer })).1
          ≡ coming buffer iterator)
        × ((has_next (record { iterator = iterator; buffer = buffer })).0
            ≡ is_some_item (coming buffer iterator))
  unfolding has_next
  has_next_lem [] [] = (refl, refl)
  has_next_lem (x ∷ iterator) [] = (refl, refl)
  has_next_lem iterator (x ∷ buffer) = (refl, sym (coming-IsSome x buffer iterator))

  pub next-IsNext : (s : LookaheadIterator T) → IsNext (upcoming s) (next s)
  next-IsNext s = next_lem s.iterator s.buffer

  pub upcoming-has_next : (s : LookaheadIterator T) → upcoming (has_next s).1 ≡ upcoming s
  upcoming-has_next s = (has_next_lem s.iterator s.buffer).0

  pub has_next_iff : (s : LookaheadIterator T) → (has_next s).0 ≡ is_some_item (upcoming s)
  has_next_iff s = (has_next_lem s.iterator s.buffer).1

  -- The iterator is a queue: `__next__` takes the first of the items to come, has_next says whether
  -- there is one and keeps them, and an item added at the beginning comes after those that are
  -- already buffered, so first only if none is.
  pub lookahead_lem :
      (s : LookaheadIterator T) (item : T)
      → IsNext (upcoming s) (next s)
        × (upcoming (has_next s).1 ≡ upcoming s)
        × ((has_next s).0 ≡ is_some_item (upcoming s))
        × (upcoming (add_at_the_beginning item s) ≡ coming s.buffer (item ∷ s.iterator))
  unfolding add_at_the_beginning
  lookahead_lem s item = (
    next_lem s.iterator s.buffer,
    (has_next_lem s.iterator s.buffer).0,
    (has_next_lem s.iterator s.buffer).1,
    refl,
  )
