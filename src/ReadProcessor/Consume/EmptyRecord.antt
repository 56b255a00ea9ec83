-- ===== src/ReadProcessor/Consume/EmptyRecord.antt =====
-- What a record without data does to a read of ReadProcessor.Consume.
use airbyte_python_cdk.Prelude.{
  ℕ, ◌≤◌, ◌≡◌, refl, Bool, true, false, List, [], ◌∷◌, String, text_key, Hashable, All, arith,
  Bool-cases, inl, inr, ap, ◌∙◌, ◌++◌, subst,
}
use airbyte_python_cdk.Python.Exceptions.{Result, ok, raise}
use airbyte_python_cdk.Python.Dict.{contains}
use airbyte_python_cdk.ReadProcessor.{
  Environment, QueueItem, record_read, Processor, init, is_done, handle_item,
}
use airbyte_python_cdk.ReadProcessor.Counts.{indicator, count, finals}
use airbyte_python_cdk.ReadProcessor.Invariant.{IsOrderly}
use airbyte_python_cdk.ReadProcessor.Consume.{
  Outcome, ended, blocked, submit_initial, is_truthy_item, unless_done, after_item,
  consume_from_queue, read,
}
use airbyte_python_cdk.ReadProcessor.Consume.Ending.{
  init-IsOrderly, submit_initial-IsOrderly, AreExpected, consume_from_queue_lem,
}

module _ {W P R M : Type 0} ⦃key : Hashable P⦄ (environment : Environment W P R M) where
  -- A loop that waits went on after the item.
  after_item-waits :
      (result : Result (Unit {0})) (empty : Bool) (s s' : Processor W P R M)
      (ahead further goal : Outcome × Processor W P R M)
      → (ahead ≡ (blocked, s') → further ≡ goal)
      → after_item environment result empty s ahead ≡ (blocked, s')
      → after_item environment result empty s further ≡ goal
  after_item-waits (raise x) empty s s' ahead further goal go_on h = cc
  after_item-waits (ok _) empty s s' ahead further goal go_on h = by_test (is_done s) h
    where
      by_test :
          (finished : Result Bool)
          → unless_done environment finished empty s ahead ≡ (blocked, s')
          → unless_done environment finished empty s further ≡ goal
      by_test (raise x) h' = cc
      by_test (ok true) h' = elim (Bool-cases empty) [
        | inl now ↦ let stopped : (ended, s) ≡ (blocked, s') = rw now at h' in cc
        | inr later ↦ rw later (go_on (rw later at h'))
      ]
      by_test (ok false) h' = go_on h'

  -- The read goes on with what stands behind the items after which it waits.
  consume_from_queue-append :
      (before more : List (QueueItem P R × Bool)) (s s' : Processor W P R M)
      → consume_from_queue environment before s ≡ (blocked, s')
      → consume_from_queue environment (before ++ more) s ≡ consume_from_queue environment more s'
  unfolding consume_from_queue
  consume_from_queue-append [] more s s' h =
      ap (λ result. consume_from_queue environment more result.1) h
  consume_from_queue-append ((item, empty) ∷ before) more s s' h =
      elim (Bool-cases (is_truthy_item environment item)) [
        | inl truthy ↦
            let t = (handle_item environment item s).1 in
            rw truthy (
              after_item-waits (handle_item environment item s).0 empty t s'
                (consume_from_queue environment before t)
                (consume_from_queue environment (before ++ more) t)
                (consume_from_queue environment more s')
                (consume_from_queue-append before more t s') (rw truthy at h))
        | inr falsy ↦ let stopped : (ended, s) ≡ (blocked, s') = rw falsy at h in cc
      ]

  -- Where a read waits after some items, whose partitions come while their stream generates partitions,
  -- a record without data behind them ends it without raising, whatever stands behind that: all of it
  -- is lost, and of each stream that is not done no end was announced.
  pub read-empty_record :
      (initial : ℕ) (streams : List String) (world : W) (before rest : List (QueueItem P R × Bool))
      (r : R) (empty : Bool) (s : Processor W P R M)
      → ((n : String) → count n streams ≤ 1)
      → All (λ x. is_truthy_item environment x.0 ≡ true) before
      → AreExpected environment before (submit_initial initial (init streams world))
      → read environment initial streams world before ≡ (blocked, s)
      → environment.is_truthy r ≡ false
      → (read environment initial streams world (before ++ (record_read r, empty) ∷ rest)
          ≡ (ended, s))
        × ((n : String) → contains s.done n ≡ false → finals n s.yielded ≡ 0)
  unfolding read consume_from_queue
  read-empty_record initial streams world before rest r empty s distinct t x waits falsy =
      let first = submit_initial initial (init streams world) in
      let (o, f) = consume_from_queue_lem environment before first t x (
        submit_initial-IsOrderly initial (init streams world)
          (init-IsOrderly P R M streams world distinct)) in
      let o' = subst (λ (result : Outcome × Processor W P R M). IsOrderly result.1) waits o in
      (
        consume_from_queue-append before ((record_read r, empty) ∷ rest) first s waits
            ∙ rw (falsy, consume_from_queue) refl,
        λ n open_still.
            let open_now : indicator (contains s.done n) ≡ 0 = ap indicator open_still in
            omega (arith, open_now, (o' n).once),
      )
