-- ===== src/ReadProcessor/Generation.antt =====
-- The handling of generated partitions, and of the end of their generation, keeps the life cycle of
-- each stream.
use airbyte_python_cdk.Prelude.{
  ◌+◌, ◌<◌, ◌≡◌, refl, Bool, true, false, some, List, [], ◌∷◌, String, if◌then◌else◌, text_key,
  ◌||◌, Hashable, length, ◌==◌, arith, Bool-cases, Option-cases, inl, inr, ap, ◌∙◌, ◌⊎◌,
}
use airbyte_python_cdk.Python.Dict
use airbyte_python_cdk.Python.Dict.{contains, add, discard, get-set}
use airbyte_python_cdk.ReadProcessor.{
  Environment, Processor, running_of, or_empty, is_empty, on_partition_generation_completed,
  on_partition,
}
use airbyte_python_cdk.ReadProcessor.Counts.{
  indicator, count, ==_refl, count-discard, contains-count,
}
use airbyte_python_cdk.ReadProcessor.Invariant.{
  tally, IsOrderly, and_then-IsOrderly, start_next-IsOrderly, finish_if-IsOrderly,
}

module _ {W P R M : Type 0} ⦃key : Hashable P⦄ (environment : Environment W P R M) where
  open environment use {stream_of_partition}

  empty_of_test :
      (b : Bool) (l : List P) → indicator b ≡ 0 → (b || is_empty l) ≡ true → length l ≡ 0
  empty_of_test b [] h e = refl
  empty_of_test true (x ∷ l) h e = absurd (omega arith)
  empty_of_test false (x ∷ l) h e = cc

  pub generation_completed-IsOrderly :
      (name : String) (s : Processor W P R M)
      → IsOrderly s
      → IsOrderly (on_partition_generation_completed environment name s).1
  unfolding on_partition_generation_completed
  generation_completed-IsOrderly name s o = elim (Bool-cases (contains s.generating name)) [
    | inl known ↦
        let s' : Processor W P R M = record s { generating = discard s.generating name } in
        let o' : IsOrderly s' = λ n. record {
          phases = omega (arith, count-discard n name s.generating known, (o n).phases);
          busy = (o n).busy;
          once = (o n).once;
        } in
        rw known (
          and_then-IsOrderly _ _
            (finish_if-IsOrderly environment _ name s'
              (λ e.
                let one : count name s'.generating + indicator (name == name)
                    ≡ count name s.generating =
                  count-discard name name s.generating known in
                let self : indicator (name == name) ≡ 1 = ap indicator (==_refl name) in
                let pos : 0 < count name s.generating = contains-count name s.generating known in
                let ended : (tally name s).done ≡ 0 = omega (arith, pos, (o name).phases) in
                (
                  omega (arith, one, self, pos, (o name).phases),
                  empty_of_test (contains s.done name) (running_of s name) ended e,
                ))
              o')
            (λ s'' o''. start_next-IsOrderly s'' o''))
    | inr other ↦ rw other o
  ]

  pub length-running :
      (s : Processor W P R M) (name n : String) (l : List P)
      → length (or_empty (Dict.get (Dict.set s.running_partitions name l) n))
        ≡ (if name == n then length l else length (running_of s n))
  length-running s name n l = rw (get-set s.running_partitions name n l) (pull (name == n))
    where
      pull :
          (b : Bool)
          → length (or_empty (if b then some l else Dict.get s.running_partitions n))
            ≡ (if b then length l else length (running_of s n))
      pull true = refl
      pull false = refl

  -- Changing the partitions of a stream that neither waits nor is done.
  pub set_running-IsConsistent :
      (s : Processor W P R M) (name n : String) (l : List P)
      → (tally name s).waiting + (tally name s).done ≡ 0
      → IsOrderly s
      → (length (or_empty (Dict.get (Dict.set s.running_partitions name l) n)) ≡ 0)
        ⊎ ((tally n s).waiting + (tally n s).done ≡ 0)
  set_running-IsConsistent s name n l idle o = elim (Bool-cases (name == n)) [
    | inl same ↦ let path : name ≡ n = (text_key.same_iff name n).0 same in inr (rw path at idle)
    | inr other ↦
        let e : length (or_empty (Dict.get (Dict.set s.running_partitions name l) n))
            ≡ length (running_of s n) =
          length-running s name n l ∙ rw other in
        elim (o n).busy [ inl none_open ↦ inl (e ∙ none_open) | inr i ↦ inr i ]
  ]

  pub partition-IsOrderly :
      (p : P) (s : Processor W P R M)
      → contains s.generating (stream_of_partition p) ≡ true
      → IsOrderly s
      → IsOrderly (on_partition environment p s).1
  unfolding on_partition
  partition-IsOrderly p s known o =
      elim (Option-cases (Dict.get s.running_partitions (stream_of_partition p))) [
        | inl missing ↦ rw (missing, on_partition) o
        | inr (opened, e) ↦
            let name = stream_of_partition p in
            let pos : 0 < count name s.generating = contains-count name s.generating known in
            rw (e, on_partition)
              (λ n. record {
                phases = (o n).phases;
                busy =
                    set_running-IsConsistent s name n (add opened p)
                      (omega (arith, pos, (o name).phases)) o;
                once = (o n).once;
              })
      ]
