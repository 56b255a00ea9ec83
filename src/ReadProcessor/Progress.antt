-- ===== src/ReadProcessor/Progress.antt =====
-- What the handlers of ReadProcessor submit to the pool, and which streams then generate partitions.
use airbyte_python_cdk.Prelude.{
  ℕ, ◌+◌, ◌≡◌, refl, sym, ap, ◌∙◌, Bool, true, false, not, List, [], ◌∷◌, ◌++◌, String, eqb,
  if◌then◌else◌, text_key, ◌&&◌, ◌||◌, Hashable, ◌==◌, Bool-cases, Option-cases, inl, inr, arith,
}
use airbyte_python_cdk.Python.Exceptions.{Result, ok, raise}
use airbyte_python_cdk.Python.Dict
use airbyte_python_cdk.Python.Dict.{contains, discard}
use airbyte_python_cdk.ReadProcessor.{
  Environment, QueueItem, thread_exception, partition_generation_completed, partition,
  partition_complete, record_read, Task, generate_partitions, process_partition, Processor, Handled,
  and_then, yields, flag_exception, start_first, start_next_partition_generator, consume, mark_done,
  on_stream_is_done, finish_if, of_record, on_partition_generation_completed, on_partition, close,
  closed_by, settle, on_partition_complete_sentinel, count_record, observed_by, observe_record,
  on_record, on_exception, handle_item, remove_partition, is_empty, running_of,
}
use airbyte_python_cdk.ReadProcessor.Counts.{indicator, count, count-append, count-discard}

abbrev pub task_completion : {P : Type 0} → String → Task P → ℕ
task_completion n (generate_partitions name) = indicator (name == n)
task_completion n (process_partition p) = 0

abbrev pub task_completions : {P : Type 0} → String → List (Task P) → ℕ
task_completions n [] = 0
task_completions n (task ∷ tasks) = task_completion n task + task_completions n tasks

pub task_completions-append :
    {P : Type 0} (n : String) (k l : List (Task P))
    → task_completions n (k ++ l) ≡ task_completions n k + task_completions n l
task_completions-append n [] l = omega arith
task_completions-append n (task ∷ k) l = omega (arith, task_completions-append n k l)

-- The item says that the stream's generation is completed.
abbrev pub completion : {P R : Type 0} → String → QueueItem P R → ℕ
completion n (partition_generation_completed name) = indicator (name == n)
completion n _ = 0

append_assoc : {A : Type 0} (k l m : List A) → (k ++ l) ++ m ≡ k ++ (l ++ m)
append_assoc [] l m = refl
append_assoc (x ∷ k) l m = rw (append_assoc k l m)

append_nil : {A : Type 0} (l : List A) → l ++ [] ≡ l
append_nil [] = refl
append_nil (x ∷ l) = rw (append_nil l)

module _ {W P R M : Type 0} where
  -- The second processor reads the same streams and has submitted some more tasks, and the streams whose generation it has
  -- submitted are those that it has begun to generate.
  pub record Advances (s s' : Processor W P R M) : Type 0 where
    pub new : List (Task P)
    pub grown : s'.submitted ≡ s.submitted ++ new
    pub counted :
        (n : String) → count n s'.generating ≡ count n s.generating + task_completions n new
    pub same_streams : s'.streams ≡ s.streams

  pub stays :
      (s s' : Processor W P R M)
      → s'.submitted ≡ s.submitted
      → s'.generating ≡ s.generating
      → s'.streams ≡ s.streams
      → Advances s s'
  stays s s' e f same = record {
    same_streams = same;
    new = [];
    grown = e ∙ sym (append_nil s.submitted);
    counted = λ n. omega (arith, ap (λ l. count n l) f);
  }

  pub then-Advances : (s t u : Processor W P R M) → Advances s t → Advances t u → Advances s u
  then-Advances s t u a b = record {
    same_streams = b.same_streams ∙ a.same_streams;
    new = a.new ++ b.new;
    grown = b.grown ∙ (ap (λ l. l ++ b.new) a.grown ∙ append_assoc s.submitted a.new b.new);
    counted = λ n. omega (arith, a.counted n, b.counted n, task_completions-append n a.new b.new);
  }

  and_then-Advances :
      (s : Processor W P R M) (h : Handled W P R M) (next : Processor W P R M → Handled W P R M)
      → Advances s h.1
      → ((t : Processor W P R M) → Advances t (next t).1)
      → Advances s (and_then h next).1
  and_then-Advances s (ok _, t) next a b = then-Advances s t (next t).1 a (b t)
  and_then-Advances s (raise x, t) next a b = a

  start_first-Advances :
      (to_start : List String) (s : Processor W P R M) → Advances s (start_first to_start s)
  unfolding start_first
  start_first-Advances [] s = stays s s refl refl refl
  start_first-Advances (name ∷ rest) s = record {
    same_streams = refl;
    new = generate_partitions name ∷ [];
    grown = refl;
    counted = λ n. omega (arith, count-append n name s.generating);
  }

  pub start_next-Advances : (s : Processor W P R M) → Advances s (start_next_partition_generator s)
  unfolding start_next_partition_generator
  start_next-Advances s = start_first-Advances s.to_start s

  counted-Advances :
      (name : String) (n : ℕ) (s : Processor W P R M) → Advances s (count_record name n s)
  unfolding count_record
  counted-Advances name n s = elim (Bool-cases (eqb n 0)) [
    | inl first ↦ rw first (stays s _ refl refl refl)
    | inr later ↦ rw later (stays s _ refl refl refl)
  ]

  observation-Advances : (h : Result W) (s : Processor W P R M) → Advances s (observed_by s h).1
  observation-Advances (ok world) s = stays s _ refl refl refl
  observation-Advances (raise x) s = stays s s refl refl refl

  -- An item that says so is one of a stream that generates partitions.
  abbrev pub IsAwaited : Processor W P R M → QueueItem P R → Type 0
  IsAwaited s (partition_generation_completed name) = contains s.generating name ≡ true
  IsAwaited s _ = Unit {0}

  -- The streams that generate partitions are those whose generation was submitted and is not yet
  -- completed, and the tasks submitted before stay.
  pub record Handles (item : QueueItem P R) (s s' : Processor W P R M) : Type 0 where
    pub new : List (Task P)
    pub grown : s'.submitted ≡ s.submitted ++ new
    pub counted :
        (n : String)
        → count n s'.generating + completion n item ≡ count n s.generating + task_completions n new

module _ {W P R M : Type 0} ⦃key : Hashable P⦄ (environment : Environment W P R M) where
  open environment use {stream_of_partition, stream_of_record}

  consume-Advances : (s : Processor W P R M) → Advances s (consume environment s)
  unfolding consume
  consume-Advances s = stays s _ refl refl refl

  mark_done-Advances :
      (name : String) (s : Processor W P R M) → Advances s (mark_done environment name s)
  unfolding mark_done consume
  mark_done-Advances name s = stays s _ refl refl refl

  on_stream_is_done-Advances :
      (name : String) (s : Processor W P R M) → Advances s (on_stream_is_done environment name s).1
  unfolding on_stream_is_done
  on_stream_is_done-Advances name s = elim (Bool-cases (contains s.streams name)) [
    | inl known ↦
        let (result, world) = environment.ensure_at_least_one_state_emitted s.world name in
        rw known (
          and_then-Advances s (result, record s { world = world })
            (λ t. (ok tt, mark_done environment name t)) (stays s _ refl refl refl)
            (mark_done-Advances name))
    | inr other ↦ rw other (stays s s refl refl refl)
  ]

  finish_if-Advances :
      (test : Bool) (name : String) (s : Processor W P R M)
      → Advances s (finish_if environment test name s).1
  finish_if-Advances true name s = on_stream_is_done-Advances name s
  finish_if-Advances false name s = stays s s refl refl refl

  partition-Advances : (p : P) (s : Processor W P R M) → Advances s (on_partition environment p s).1
  unfolding on_partition
  partition-Advances p s =
      elim (Option-cases (Dict.get s.running_partitions (stream_of_partition p))) [
        | inl missing ↦ rw (missing, on_partition) (stays s s refl refl refl)
        | inr (opened, e) ↦
            rw (e, on_partition)
              (record {
                same_streams = refl;
                new = process_partition p ∷ [];
                grown = refl;
                counted = λ n. omega arith;
              })
      ]

  closed-Advances :
      (p : P) (s : Processor W P R M) (h : Result (Unit {0}) × W)
      → Advances s (closed_by environment p h s)
  unfolding closed_by flag_exception
  closed-Advances p s (ok _, world) = stays s _ refl refl refl
  closed-Advances p s (raise x, world) = stays s _ refl refl refl

  close-Advances :
      (p : P) (is_successful : Bool) (s : Processor W P R M)
      → Advances s (close environment p is_successful s)
  unfolding close flag_exception
  close-Advances p false s = stays s s refl refl refl
  close-Advances p true s = elim (Bool-cases (contains s.streams (stream_of_partition p))) [
    | inl known ↦ rw known (closed-Advances p s (environment.close_partition s.world p))
    | inr other ↦ rw other (stays s _ refl refl refl)
  ]

  settled-Advances :
      (p : P) (opened : List P) (s : Processor W P R M)
      → Advances s
          (if contains opened p
            then finish_if environment
                (not (contains s.generating (stream_of_partition p)) && is_empty (discard opened p))
                (stream_of_partition p)
                (remove_partition environment p opened s)
            else (ok tt, s)).1
  settled-Advances p opened s = elim (Bool-cases (contains opened p)) [
    | inl known ↦
        let t = remove_partition environment p opened s in
        rw known (
          then-Advances s t _ (stays s t refl refl refl)
            (finish_if-Advances _ (stream_of_partition p) t))
    | inr other ↦ rw other (stays s s refl refl refl)
  ]

  settle-Advances : (p : P) (s : Processor W P R M) → Advances s (settle environment p s).1
  unfolding settle
  settle-Advances p s =
      elim (Option-cases (Dict.get s.running_partitions (stream_of_partition p))) [
        | inl missing ↦ rw (missing, settle) (stays s s refl refl refl)
        | inr (opened, e) ↦
            rw (e, settle)
              (and_then-Advances s _ (λ t. (ok tt, consume environment t))
                (settled-Advances p opened s) consume-Advances)
      ]

  complete-Advances :
      (p : P) (is_successful : Bool) (s : Processor W P R M)
      → Advances s (on_partition_complete_sentinel environment p is_successful s).1
  unfolding on_partition_complete_sentinel
  complete-Advances p is_successful s =
      then-Advances s (close environment p is_successful s) _ (close-Advances p is_successful s)
        (settle-Advances p (close environment p is_successful s))

  observed-Advances :
      (r : R) (s : Processor W P R M) → Advances s (observe_record environment r s).1
  unfolding observe_record
  observed-Advances r s = elim (Option-cases (Dict.get s.record_counter (stream_of_record r))) [
    | inl missing ↦ rw (missing, observe_record) (stays s s refl refl refl)
    | inr (n, e) ↦
        let t = count_record (stream_of_record r) n s in
        rw (e, observe_record)
          (then-Advances s t _ (counted-Advances (stream_of_record r) n s)
            (observation-Advances (environment.observe t.world r) t))
  ]

  record-Advances : (r : R) (s : Processor W P R M) → Advances s (on_record environment r s).1
  unfolding on_record
  record-Advances r s = elim (Bool-cases (contains s.streams (stream_of_record r))) [
    | inl known ↦ rw known (
        and_then-Advances s
          (if environment.is_record_message r then observe_record environment r s else (ok tt, s))
          (λ t. (ok tt, consume environment (yields (of_record r) t)))
          (elim (Bool-cases (environment.is_record_message r)) [
            | inl message ↦ rw message (observed-Advances r s)
            | inr other ↦ rw other (stays s s refl refl refl)
          ])
          (λ t.
            then-Advances t (yields (of_record r) t) _ (stays t _ refl refl refl)
              (consume-Advances (yields (of_record r) t))))
    | inr other ↦ rw other (stays s s refl refl refl)
  ]

  of_advance :
      (item : QueueItem P R) (s s' : Processor W P R M)
      → ((n : String) → completion n item ≡ 0)
      → Advances s s'
      → Handles item s s'
  of_advance item s s' none_completed a = record {
    new = a.new;
    grown = a.grown;
    counted = λ n. omega (arith, none_completed n, a.counted n);
  }

  completed-Handles :
      (name : String) (s : Processor W P R M)
      → contains s.generating name ≡ true
      → Handles
          (partition_generation_completed name)
          s
          (on_partition_generation_completed environment name s).1
  unfolding on_partition_generation_completed
  completed-Handles name s known =
      let t : Processor W P R M = record s { generating = discard s.generating name } in
      let finished = contains t.done name || is_empty (running_of t name) in
      let a =
        and_then-Advances t (finish_if environment finished name t)
          (λ u. (ok tt, start_next_partition_generator u)) (finish_if-Advances finished name t)
          start_next-Advances in
      rw known (record {
        new = a.new;
        grown = a.grown;
        counted = λ n. omega (arith, a.counted n, count-discard n name s.generating known);
      })

  pub handle_item-Handles :
      (item : QueueItem P R) (s : Processor W P R M)
      → IsAwaited s item
      → Handles item s (handle_item environment item s).1
  unfolding handle_item on_exception flag_exception
  handle_item-Handles (thread_exception name x) s h =
      of_advance _ s _ (λ n. refl) (stays s _ refl refl refl)
  handle_item-Handles (partition_generation_completed name) s h = completed-Handles name s h
  handle_item-Handles (partition p) s h = of_advance _ s _ (λ n. refl) (partition-Advances p s)
  handle_item-Handles (partition_complete p is_successful) s h =
      of_advance _ s _ (λ n. refl) (complete-Advances p is_successful s)
  handle_item-Handles (record_read r) s h = of_advance _ s _ (λ n. refl) (record-Advances r s)

  completed-streams :
      (name : String) (s : Processor W P R M)
      → (on_partition_generation_completed environment name s).1.streams ≡ s.streams
  unfolding on_partition_generation_completed
  completed-streams name s = elim (Bool-cases (contains s.generating name)) [
    | inl known ↦
        let t : Processor W P R M = record s { generating = discard s.generating name } in
        let finished = contains t.done name || is_empty (running_of t name) in
        rw known
          (and_then-Advances t (finish_if environment finished name t)
            (λ u. (ok tt, start_next_partition_generator u)) (finish_if-Advances finished name t)
            start_next-Advances).same_streams
    | inr other ↦ rw other refl
  ]

  -- No item changes which streams are read.
  pub handle_item-streams :
      (item : QueueItem P R) (s : Processor W P R M)
      → (handle_item environment item s).1.streams ≡ s.streams
  unfolding handle_item on_exception flag_exception
  handle_item-streams (thread_exception name x) s = refl
  handle_item-streams (partition_generation_completed name) s = completed-streams name s
  handle_item-streams (partition p) s = (partition-Advances p s).same_streams
  handle_item-streams (partition_complete p is_successful) s =
      (complete-Advances p is_successful s).same_streams
  handle_item-streams (record_read r) s = (record-Advances r s).same_streams
