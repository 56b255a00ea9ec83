-- ===== src/ReadProcessor/Consume/Ending.antt =====
-- What a whole read of ReadProcessor.Consume announces about each stream.
use airbyte_python_cdk.Prelude.{
  ℕ, zero, suc, ◌≤◌, ◌≡◌, refl, Bool, true, false, not, List, [], ◌∷◌, String, map, eqb,
  if◌then◌else◌, text_key, ◌&&◌, Hashable, length, ◌==◌, all, All, arith, Bool-cases, inl, inr, ap,
  ◌∙◌,
}
use airbyte_python_cdk.Python.Exceptions.{Result, ok, raise, runtime_error}
use airbyte_python_cdk.Python.Dict
use airbyte_python_cdk.Python.Dict.{contains}
use airbyte_python_cdk.ReadProcessor.{
  Environment, QueueItem, Processor, running_of, or_empty, init, start_next_partition_generator,
  is_done, handle_item,
}
use airbyte_python_cdk.ReadProcessor.Counts.{indicator, count, finals}
use airbyte_python_cdk.ReadProcessor.Invariant.{IsOrderly, start_next-IsOrderly}
use airbyte_python_cdk.ReadProcessor.Lifecycle.{IsExpected, handle_item-IsOrderly}
use airbyte_python_cdk.ReadProcessor.Progress.{
  Advances, stays, then-Advances, start_next-Advances, handle_item-streams,
}
use airbyte_python_cdk.ReadProcessor.Consume.{
  Outcome, ended, submit_initial, is_truthy_item, unless_done, after_item, consume_from_queue, read,
}

none_running :
    (P : Type 0) (n : String) (streams : List String)
    → length (or_empty {A = P} (Dict.get (map (λ name. (name, [])) streams) n)) ≡ 0
unfolding Dict.get
none_running P n [] = refl
none_running P n (name ∷ rest) = elim (Bool-cases (name == n)) [
  | inl same ↦ rw same refl
  | inr other ↦ rw other (none_running P n rest)
]

pub init-IsOrderly :
    {W : Type 0} (P R M : Type 0) (streams : List String) (world : W)
    → ((n : String) → count n streams ≤ 1)
    → IsOrderly (init {W = W} {P = P} {R = R} {M = M} streams world)
unfolding init contains
init-IsOrderly P R M streams world distinct n = record {
  phases = omega (arith, distinct n);
  busy = inl (none_running P n streams);
  once = refl;
}

module _ {W P R M : Type 0} where
  pub submit_initial-IsOrderly :
      (initial : ℕ) (s : Processor W P R M) → IsOrderly s → IsOrderly (submit_initial initial s)
  unfolding submit_initial
  submit_initial-IsOrderly zero s o = o
  submit_initial-IsOrderly (suc k) s o =
      submit_initial-IsOrderly k (start_next_partition_generator s) (start_next-IsOrderly s o)

module _ {W P R M : Type 0} where
  pub submit_initial-Advances :
      (initial : ℕ) (s : Processor W P R M) → Advances s (submit_initial initial s)
  unfolding submit_initial
  submit_initial-Advances zero s = stays s s refl refl refl
  submit_initial-Advances (suc k) s =
      let t = start_next_partition_generator s in
      then-Advances s t (submit_initial k t) (start_next-Advances s) (submit_initial-Advances k t)

module _ {W P R M : Type 0} ⦃key : Hashable P⦄ (environment : Environment W P R M) where
  -- Every partition comes while its stream generates partitions.
  abbrev pub AreExpected : List (QueueItem P R × Bool) → Processor W P R M → Type 0
  AreExpected [] s = Unit {0}
  AreExpected ((item, empty) ∷ rest) s =
      IsExpected environment s item × AreExpected rest (handle_item environment item s).1

  -- The read left off with no stream open and none that failed.
  abbrev pub IsFinished : Processor W P R M → Type 0
  IsFinished s = is_done s ≡ ok true

  -- Of the streams that were to be read.
  pub record EndsOnce (streams : List String) (r : Outcome × Processor W P R M) : Type 0 where
    pub at_most_once : (n : String) → finals n r.1.yielded ≤ 1
    pub all_ended :
        r.0 ≡ ended
        → (n : String) → contains streams n ≡ true
        → (finals n r.1.yielded ≡ 1) × (length (running_of r.1 n) ≡ 0) × (length r.1.exceptions ≡ 0)

  -- What an item that is handled leads to, if the rest goes well.
  after_item_lem :
      (result : Result (Unit {0})) (empty : Bool) (s : Processor W P R M)
      (ahead : Outcome × Processor W P R M)
      → IsOrderly s
      → IsOrderly ahead.1 × (ahead.0 ≡ ended → IsFinished ahead.1)
      → IsOrderly (after_item environment result empty s ahead).1
        × ((after_item environment result empty s ahead).0 ≡ ended
            → IsFinished (after_item environment result empty s ahead).1)
  after_item_lem (raise x) empty s ahead o h = (o, λ e. cc)
  after_item_lem (ok _) empty s ahead o h = by_test (is_done s) refl
    where
      by_test :
          (finished : Result Bool)
          → is_done s ≡ finished
          → IsOrderly (unless_done environment finished empty s ahead).1
            × ((unless_done environment finished empty s ahead).0 ≡ ended
                → IsFinished (unless_done environment finished empty s ahead).1)
      by_test (raise x) e = (o, λ e'. cc)
      by_test (ok true) e = elim (Bool-cases empty) [
        | inl now ↦ rw now (o, λ e'. e)
        | inr later ↦ rw later h
      ]
      by_test (ok false) e = h

  after_item-streams :
      (result : Result (Unit {0})) (empty : Bool) (s : Processor W P R M)
      (ahead : Outcome × Processor W P R M)
      → ahead.1.streams ≡ s.streams
      → (after_item environment result empty s ahead).1.streams ≡ s.streams
  after_item-streams (raise x) empty s ahead same = refl
  after_item-streams (ok _) empty s ahead same = by_test (is_done s)
    where
      by_test :
          (finished : Result Bool)
          → (unless_done environment finished empty s ahead).1.streams ≡ s.streams
      by_test (raise x) = refl
      by_test (ok true) = elim (Bool-cases empty) [
        | inl now ↦ rw now refl
        | inr later ↦ rw later same
      ]
      by_test (ok false) = same

  consume_from_queue-streams :
      (items : List (QueueItem P R × Bool)) (s : Processor W P R M)
      → (consume_from_queue environment items s).1.streams ≡ s.streams
  unfolding consume_from_queue
  consume_from_queue-streams [] s = refl
  consume_from_queue-streams ((item, empty) ∷ rest) s =
      let s' = (handle_item environment item s).1 in
      elim (Bool-cases (is_truthy_item environment item)) [
        | inl truthy ↦ rw truthy (
            after_item-streams (handle_item environment item s).0 empty s'
              (consume_from_queue environment rest s') (consume_from_queue-streams rest s')
            ∙ handle_item-streams environment item s)
        | inr falsy ↦ rw falsy refl
      ]

  pub consume_from_queue_lem :
      (items : List (QueueItem P R × Bool)) (s : Processor W P R M)
      → All (λ x. is_truthy_item environment x.0 ≡ true) items
      → AreExpected items s
      → IsOrderly s
      → IsOrderly (consume_from_queue environment items s).1
        × ((consume_from_queue environment items s).0 ≡ ended
            → IsFinished (consume_from_queue environment items s).1)
  unfolding consume_from_queue
  consume_from_queue_lem [] s t x o = (o, λ e. cc)
  consume_from_queue_lem ((item, empty) ∷ rest) s t x o =
      let s' = (handle_item environment item s).1 in
      let o' = handle_item-IsOrderly environment item s x.0 o in
      rw t.0 (
        after_item_lem (handle_item environment item s).0 empty s'
          (consume_from_queue environment rest s') o' (consume_from_queue_lem rest s' t.1 x.1 o'))

  all_known :
      (p : String → Bool) (l : List String) (n : String)
      → all p l ≡ true
      → contains l n ≡ true
      → p n ≡ true
  unfolding contains
  all_known p [] n a h = cc
  all_known p (x ∷ l) n a h = elim (Bool-cases (x == n)) [
    | inl same ↦ let path : x ≡ n = (text_key.same_iff x n).0 same in rw (← path) (both_of_and a).0
    | inr other ↦ all_known p l n (both_of_and a).1 (rw other at h)
  ]
    where
      both_of_and : {a b : Bool} → (a && b) ≡ true → (a ≡ true) × (b ≡ true)
      both_of_and h = ground arith

  finished_lem :
      (s : Processor W P R M)
      → is_done s ≡ ok true
      → (all (contains s.done) s.streams ≡ true) × (length s.exceptions ≡ 0)
  unfolding is_done
  finished_lem s h = by_test (all (contains s.done) s.streams) (length s.exceptions) h
    where
      by_test :
          (finished : Bool) (n : ℕ)
          → (if finished && not (eqb n 0) then raise runtime_error else ok finished) ≡ ok true
          → (finished ≡ true) × (n ≡ 0)
      by_test finished n h = ground arith

  pub orderly-EndsOnce :
      (streams : List String) (outcome : Outcome) (s : Processor W P R M)
      → s.streams ≡ streams
      → IsOrderly s
      → (outcome ≡ ended → IsFinished s)
      → EndsOnce streams (outcome, s)
  orderly-EndsOnce streams outcome s same o f = record {
    at_most_once = λ n. omega (arith, (o n).phases, (o n).once);
    all_ended = λ e n known.
        let (d, none_failed) = finished_lem s (f e) in
        let once : indicator (contains s.done n) ≡ 1 =
          ap indicator
            (all_known (contains s.done) s.streams n d (ap (λ l. contains l n) same ∙ known)) in
        (
          omega (arith, once, (o n).once),
          elim (o n).busy [
            | inl none_open ↦ none_open
            | inr idle ↦ absurd (omega (arith, idle, once))
          ],
          none_failed,
        );
  }

  -- A read over streams with distinct names, whose items are truthy and whose partitions come while
  -- their stream generates partitions, announces the end of each stream at most once; and if the
  -- read ends without raising, it announced the end of each stream that it was given once, no
  -- partition of it is left running, and no exception was flagged.
  pub read-EndsOnce :
      (initial : ℕ) (streams : List String) (world : W) (items : List (QueueItem P R × Bool))
      → ((n : String) → count n streams ≤ 1)
      → All (λ x. is_truthy_item environment x.0 ≡ true) items
      → AreExpected items (submit_initial initial (init streams world))
      → EndsOnce streams (read environment initial streams world items)
  unfolding read init
  read-EndsOnce initial streams world items distinct t x =
      let (o, f) = consume_from_queue_lem items (submit_initial initial (init streams world)) t x (
        submit_initial-IsOrderly initial (init streams world)
          (init-IsOrderly P R M streams world distinct)) in
      orderly-EndsOnce streams _ _
        (consume_from_queue-streams items (submit_initial initial (init streams world))
          ∙ (submit_initial-Advances initial (init streams world)).same_streams)
        o f
