-- ===== src/ReadProcessor/Lifecycle.antt =====
-- The invariant of ReadProcessor for the handling of an item, and for a whole read.
use airbyte_python_cdk.Prelude.{
  ℕ, ◌+◌, ◌<◌, ◌≡◌, refl, Bool, true, false, not, some, List, [], ◌∷◌, String, eqb, if◌then◌else◌,
  text_key, ◌&&◌, Hashable, length, arith, Bool-cases, Option-cases, inl, inr, ap, ◌∙◌,
}
use airbyte_python_cdk.Python.Exceptions.{Exception, Result, ok, raise, key_error}
use airbyte_python_cdk.Python.Dict
use airbyte_python_cdk.Python.Dict.{contains, add, discard, get-set}
use airbyte_python_cdk.ReadProcessor.{
  Environment, stream_status, trace, of_record, running, QueueItem, thread_exception,
  partition_generation_completed, partition, partition_complete, record_read, observed_by,
  Processor, yields, or_empty, flag_exception, consume, finish_if, is_empty, close, closed_by,
  remove_partition, settle, on_partition_complete_sentinel, count_record, observe_record, on_record,
  on_exception, handle_item,
}
use airbyte_python_cdk.ReadProcessor.Counts.{count-eq_zero, length-pos, ==_refl}
use airbyte_python_cdk.ReadProcessor.Invariant.{
  Tally, IsConsistent, tally, IsOrderly, CanFinish, yields-IsOrderly, and_then-IsOrderly,
  consume-IsOrderly, finish_if-IsOrderly,
}
use airbyte_python_cdk.ReadProcessor.Generation.{
  set_running-IsConsistent, length-running, generation_completed-IsOrderly, partition-IsOrderly,
}

module _ {W P R M : Type 0} ⦃key : Hashable P⦄ (environment : Environment W P R M) where
  open environment use {stream_of_partition}

  flagged-IsOrderly :
      (name : String) (x : Exception) (s : Processor W P R M)
      → IsOrderly s
      → IsOrderly (yields (trace name) (flag_exception name x s))
  unfolding flag_exception
  flagged-IsOrderly name x s o =
      yields-IsOrderly (flag_exception name x s) (trace name) (λ n. refl) o

  closed-IsOrderly :
      (p : P) (s : Processor W P R M) (h : Result (Unit {0}) × W)
      → IsOrderly s
      → IsOrderly (closed_by environment p h s)
  unfolding closed_by
  closed-IsOrderly p s (ok _, world) o = o
  closed-IsOrderly p s (raise x, world) o =
      flagged-IsOrderly (stream_of_partition p) x (record s { world = world }) o

  close-IsOrderly :
      (p : P) (is_successful : Bool) (s : Processor W P R M)
      → IsOrderly s
      → IsOrderly (close environment p is_successful s)
  unfolding close
  close-IsOrderly p false s o = o
  close-IsOrderly p true s o = elim (Bool-cases (contains s.streams (stream_of_partition p))) [
    | inl known ↦ rw known (closed-IsOrderly p s (environment.close_partition s.world p) o)
    | inr other ↦ rw other (flagged-IsOrderly (stream_of_partition p) key_error s o)
  ]

  busy_of_contains :
      (p : P) (opened : List P) (t : Tally)
      → contains opened p ≡ true
      → t.opened ≡ length opened
      → IsConsistent t
      → t.waiting + t.done ≡ 0
  busy_of_contains p opened t known e c =
      let pos : 0 < length opened = length-pos p opened known in
      elim c.busy [ inl none_open ↦ absurd (omega arith) | inr idle ↦ idle ]

  removed-IsOrderly :
      (p : P) (opened : List P) (s : Processor W P R M)
      → (tally (stream_of_partition p) s).waiting + (tally (stream_of_partition p) s).done ≡ 0
      → IsOrderly s
      → IsOrderly (remove_partition environment p opened s)
  removed-IsOrderly p opened s idle o n = record {
    phases = (o n).phases;
    busy =
        set_running-IsConsistent environment s (stream_of_partition p) n (discard opened p) idle o;
    once = (o n).once;
  }

  finish_settled :
      (p : P) (opened : List P) (s : Processor W P R M)
      → (tally (stream_of_partition p) s).waiting + (tally (stream_of_partition p) s).done ≡ 0
      → (not (contains s.generating (stream_of_partition p)) && is_empty (discard opened p)) ≡ true
      → CanFinish (tally (stream_of_partition p) (remove_partition environment p opened s))
  finish_settled p opened s idle e =
      let name = stream_of_partition p in
      let (stopped, rest) = both_of_and (contains s.generating name) (discard opened p) e in
      (
        omega (arith, idle, count-eq_zero name s.generating stopped),
        length-running environment s name name (discard opened p) ∙ rw (==_refl name) rest,
      )
    where
      both_of_and :
          (b : Bool) (l : List P) → (not b && is_empty l) ≡ true → (b ≡ false) × (length l ≡ 0)
      both_of_and true l h = cc
      both_of_and false [] h = (refl, refl)
      both_of_and false (x ∷ l) h = cc

  -- The partition is removed, and its stream finished if it was the last.
  settled-IsOrderly :
      (p : P) (opened : List P) (s : Processor W P R M)
      → Dict.get s.running_partitions (stream_of_partition p) ≡ some opened
      → IsOrderly s
      → IsOrderly
          (if contains opened p
            then finish_if environment
                (not (contains s.generating (stream_of_partition p)) && is_empty (discard opened p))
                (stream_of_partition p)
                (remove_partition environment p opened s)
            else (ok tt, s)).1
  settled-IsOrderly p opened s e o = elim (Bool-cases (contains opened p)) [
    | inl known ↦
        let idle =
          busy_of_contains p opened (tally (stream_of_partition p) s) known
            (ap (λ l. length (or_empty l)) e) (o (stream_of_partition p)) in
        rw known (
          finish_if-IsOrderly environment _ (stream_of_partition p)
            (remove_partition environment p opened s) (finish_settled p opened s idle)
            (removed-IsOrderly p opened s idle o))
    | inr other ↦ rw other o
  ]

  settle-IsOrderly :
      (p : P) (s : Processor W P R M) → IsOrderly s → IsOrderly (settle environment p s).1
  unfolding settle
  settle-IsOrderly p s o =
      elim (Option-cases (Dict.get s.running_partitions (stream_of_partition p))) [
        | inl missing ↦ rw (missing, settle) o
        | inr (opened, e) ↦
            rw (e, settle)
              (and_then-IsOrderly _ (λ s'. (ok tt, consume environment s'))
                (settled-IsOrderly p opened s e o) (λ s' o'. consume-IsOrderly environment s' o'))
      ]

  complete-IsOrderly :
      (p : P) (is_successful : Bool) (s : Processor W P R M)
      → IsOrderly s
      → IsOrderly (on_partition_complete_sentinel environment p is_successful s).1
  unfolding on_partition_complete_sentinel
  complete-IsOrderly p is_successful s o =
      settle-IsOrderly p _ (close-IsOrderly p is_successful s o)

  counted-IsOrderly :
      (name : String) (n : ℕ) (s : Processor W P R M)
      → IsOrderly s
      → IsOrderly (count_record name n s)
  unfolding count_record
  counted-IsOrderly name n s o = elim (Bool-cases (eqb n 0)) [
    | inl first ↦ rw first (
        yields-IsOrderly (record s { record_counter = Dict.set s.record_counter name (n + 1) })
          (stream_status name running) (λ m. refl) o)
    | inr later ↦ rw later o
  ]

  observation-IsOrderly :
      (h : Result W) (s : Processor W P R M) → IsOrderly s → IsOrderly (observed_by s h).1
  observation-IsOrderly (ok world) s o = o
  observation-IsOrderly (raise x) s o = o

  observed-IsOrderly :
      (r : R) (s : Processor W P R M) → IsOrderly s → IsOrderly (observe_record environment r s).1
  unfolding observe_record
  observed-IsOrderly r s o =
      elim (Option-cases (Dict.get s.record_counter (environment.stream_of_record r))) [
        | inl missing ↦ rw (missing, observe_record) o
        | inr (n, e) ↦
            rw (e, observe_record) (observation-IsOrderly _ _ (counted-IsOrderly _ n s o))
      ]

  record-IsOrderly :
      (r : R) (s : Processor W P R M) → IsOrderly s → IsOrderly (on_record environment r s).1
  unfolding on_record
  record-IsOrderly r s o = elim (Bool-cases (contains s.streams (environment.stream_of_record r))) [
    | inl known ↦ rw known (
        and_then-IsOrderly
          (if environment.is_record_message r then observe_record environment r s else (ok tt, s))
          (λ s'. (ok tt, consume environment (yields (of_record r) s')))
          (elim (Bool-cases (environment.is_record_message r)) [
            | inl message ↦ rw message (observed-IsOrderly r s o)
            | inr other ↦ rw other o
          ])
          (λ s' o'.
            consume-IsOrderly environment (yields (of_record r) s')
              (yields-IsOrderly s' (of_record r) (λ n. refl) o')))
    | inr other ↦ rw other o
  ]

  -- A partition comes from a stream that generates its partitions.
  abbrev pub IsExpected : Processor W P R M → QueueItem P R → Type 0
  IsExpected s (partition p) = contains s.generating (stream_of_partition p) ≡ true
  IsExpected s item = Unit {0}

  -- The handling of an item keeps every stream's phase, its running partitions and the number of
  -- its final statuses consistent, if a partition only comes while its stream generates partitions.
  pub handle_item-IsOrderly :
      (item : QueueItem P R) (s : Processor W P R M)
      → IsExpected s item
      → IsOrderly s
      → IsOrderly (handle_item environment item s).1
  unfolding handle_item on_exception
  handle_item-IsOrderly (thread_exception name x) s h o = flagged-IsOrderly name x s o
  handle_item-IsOrderly (partition_generation_completed name) s h o =
      generation_completed-IsOrderly environment name s o
  handle_item-IsOrderly (partition p) s h o = partition-IsOrderly environment p s h o
  handle_item-IsOrderly (partition_complete p is_successful) s h o =
      complete-IsOrderly p is_successful s o
  handle_item-IsOrderly (record_read r) s h o = record-IsOrderly r s o
