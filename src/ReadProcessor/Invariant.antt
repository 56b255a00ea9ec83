-- ===== src/ReadProcessor/Invariant.antt =====
-- The life cycle of each stream of ReadProcessor, and that ending a stream keeps it.
use airbyte_python_cdk.Prelude.{
  ℕ, ◌+◌, ◌≤◌, ◌≡◌, refl, Bool, true, false, List, [], ◌∷◌, String, if◌then◌else◌, text_key, ◌||◌,
  Hashable, length, ◌==◌, arith, Bool-cases, inl, inr, ap, ◌∙◌, ◌⊎◌,
}
use airbyte_python_cdk.Python.Exceptions.{Result, ok, raise}
use airbyte_python_cdk.Python.Dict.{contains}
use airbyte_python_cdk.ReadProcessor.{
  Environment, Message, stream_status, complete, incomplete, Processor, Handled, and_then, yields,
  running_of, start_first, start_next_partition_generator, consume, mark_done, on_stream_is_done,
  finish_if,
}
use airbyte_python_cdk.ReadProcessor.Counts.{
  indicator, count, count-append, contains-add, is_final, finals, finals-append,
  finals-of_repository,
}

-- What the processor holds about one stream.
pub record Tally : Type 0 where
  pub waiting : ℕ
  pub generating : ℕ
  pub done : ℕ
  pub opened : ℕ
  pub announced : ℕ

-- A stream waits, generates its partitions or is done, at most one of them and once; while it has
-- running partitions it neither waits nor is done; and its end was announced once if it is done.
pub record IsConsistent (t : Tally) : Type 0 where
  pub phases : t.waiting + t.generating + t.done ≤ 1
  pub busy : (t.opened ≡ 0) ⊎ (t.waiting + t.done ≡ 0)
  pub once : t.announced ≡ t.done

module _ {W P R M : Type 0} where
  abbrev pub tally : String → Processor W P R M → Tally
  tally n s = record {
    waiting = count n s.to_start;
    generating = count n s.generating;
    done = indicator (contains s.done n);
    opened = length (running_of s n);
    announced = finals n s.yielded;
  }

  abbrev pub IsOrderly : Processor W P R M → Type 0
  IsOrderly s = (n : String) → IsConsistent (tally n s)

  pub yields-IsOrderly :
      (s : Processor W P R M) (message : Message R M)
      → ((n : String) → is_final n message ≡ false)
      → IsOrderly s
      → IsOrderly (yields message s)
  yields-IsOrderly s message h o n = record {
    phases = (o n).phases;
    busy = (o n).busy;
    once = simp (finals-append, h n) (omega (arith, (o n).once));
  }

  pub and_then-IsOrderly :
      (h : Handled W P R M) (next : Processor W P R M → Handled W P R M)
      → IsOrderly h.1
      → ((s : Processor W P R M) → IsOrderly s → IsOrderly (next s).1)
      → IsOrderly (and_then h next).1
  and_then-IsOrderly (ok _, s) next o k = k s o
  and_then-IsOrderly (raise x, s) next o k = o

  start_first-IsOrderly :
      (l : List String) (s : Processor W P R M)
      → s.to_start ≡ l
      → IsOrderly s
      → IsOrderly (start_first l s)
  unfolding start_first
  start_first-IsOrderly [] s e o n = o n
  start_first-IsOrderly (name ∷ rest) s e o n =
      let w : count n s.to_start ≡ indicator (name == n) + count n rest = ap (count n) e in
      record {
        phases = omega (arith, w, count-append n name s.generating, (o n).phases);
        busy = elim (o n).busy [
          | inl none_open ↦ inl none_open
          | inr idle ↦ inr (omega (arith, w, idle))
        ];
        once = simp finals-append (omega (arith, (o n).once));
      }

  pub start_next-IsOrderly :
      (s : Processor W P R M) → IsOrderly s → IsOrderly (start_next_partition_generator s)
  unfolding start_next_partition_generator
  start_next-IsOrderly s o = start_first-IsOrderly s.to_start s refl o

-- The stream can be marked as done.
abbrev pub CanFinish : Tally → Type 0
CanFinish t = (t.waiting + t.generating + t.done ≡ 0) × (t.opened ≡ 0)

module _ {W P R M : Type 0} ⦃key : Hashable P⦄ (environment : Environment W P R M) where
  pub consume-IsOrderly : (s : Processor W P R M) → IsOrderly s → IsOrderly (consume environment s)
  unfolding consume
  consume-IsOrderly s o n = record {
    phases = (o n).phases;
    busy = (o n).busy;
    once = simp (finals-append, finals-of_repository R) (omega (arith, (o n).once));
  }

  final_status :
      (n name : String) (b : Bool)
      → is_final {R = R} {M = M} n (stream_status name (if b then incomplete else complete))
        ≡ (name == n)
  final_status n name true = refl
  final_status n name false = refl

  -- The numbers of a stream after `mark_done`.
  mark_done_done :
      (n name : String) (s : Processor W P R M)
      → (tally n (mark_done environment name s)).done ≡ indicator ((name == n) || contains s.done n)
  unfolding mark_done consume
  mark_done_done n name s = ap indicator (contains-add n name s.done)

  mark_done_announced :
      (n name : String) (s : Processor W P R M)
      → (tally n (mark_done environment name s)).announced
        ≡ (tally n s).announced + indicator (name == n)
  unfolding mark_done consume
  mark_done_announced n name s =
      simp (finals-append, finals-of_repository R, final_status n name) (omega arith)

  mark_done_others :
      (n name : String) (s : Processor W P R M)
      → ((tally n (mark_done environment name s)).waiting ≡ (tally n s).waiting)
        × ((tally n (mark_done environment name s)).generating ≡ (tally n s).generating)
        × ((tally n (mark_done environment name s)).opened ≡ (tally n s).opened)
  unfolding mark_done consume
  mark_done_others n name s = (refl, refl, refl)

  mark_done-IsOrderly :
      (name : String) (s : Processor W P R M)
      → CanFinish (tally name s)
      → IsOrderly s
      → IsOrderly (mark_done environment name s)
  mark_done-IsOrderly name s f o n = elim (Bool-cases (name == n)) [
    | inl same ↦
        let path : name ≡ n = (text_key.same_iff name n).0 same in
        let f' : CanFinish (tally n s) = rw path at f in
        let d : (tally n (mark_done environment name s)).done ≡ 1 =
          mark_done_done n name s ∙ rw same in
        let a : (tally n (mark_done environment name s)).announced ≡ (tally n s).announced + 1 =
          mark_done_announced n name s ∙ rw same in
        let (w, g, q) = mark_done_others n name s in
        record {
          phases = omega (arith, f'.0, d, w, g);
          busy = inl (q ∙ f'.1);
          once = omega (arith, a, d, f'.0, (o n).once);
        }
    | inr other ↦
        let d : (tally n (mark_done environment name s)).done ≡ (tally n s).done =
          mark_done_done n name s ∙ rw other in
        let a : (tally n (mark_done environment name s)).announced ≡ (tally n s).announced + 0 =
          mark_done_announced n name s ∙ rw other in
        let (w, g, q) = mark_done_others n name s in
        record {
          phases = omega (arith, d, w, g, (o n).phases);
          busy = elim (o n).busy [
            | inl none_open ↦ inl (q ∙ none_open)
            | inr idle ↦ inr (omega (arith, idle, w, d))
          ];
          once = omega (arith, a, d, (o n).once);
        }
  ]

  ensured-IsOrderly :
      (name : String) (s : Processor W P R M) (h : Result (Unit {0}) × W)
      → CanFinish (tally name s)
      → IsOrderly s
      → IsOrderly
          (and_then
            (h.0, record s { world = h.1 })
            (λ s'. (ok tt, mark_done environment name s'))).1
  ensured-IsOrderly name s (ok _, world) f o =
      mark_done-IsOrderly name (record s { world = world }) f o
  ensured-IsOrderly name s (raise x, world) f o = o

  on_stream_is_done-IsOrderly :
      (name : String) (s : Processor W P R M)
      → CanFinish (tally name s)
      → IsOrderly s
      → IsOrderly (on_stream_is_done environment name s).1
  unfolding on_stream_is_done
  on_stream_is_done-IsOrderly name s f o = elim (Bool-cases (contains s.streams name)) [
    | inl known ↦
        rw known (
          ensured-IsOrderly name s (environment.ensure_at_least_one_state_emitted s.world name) f o)
    | inr other ↦ rw other o
  ]

  pub finish_if-IsOrderly :
      (test : Bool) (name : String) (s : Processor W P R M)
      → (test ≡ true → CanFinish (tally name s))
      → IsOrderly s
      → IsOrderly (finish_if environment test name s).1
  finish_if-IsOrderly true name s f o = on_stream_is_done-IsOrderly name s (f refl) o
  finish_if-IsOrderly false name s f o = o
