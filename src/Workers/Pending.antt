-- ===== src/Workers/Pending.antt =====
-- The ends of generation that are still to come in Workers, and where they stand in the queue.
use airbyte_python_cdk.Prelude.{
  ℕ, zero, suc, ◌+◌, ◌≤◌, ◌≡◌, refl, ap, Option, none, some, List, [], ◌∷◌, ◌++◌, String, map,
  text_key, Hashable, ◌==◌, All, arith,
}
use airbyte_python_cdk.Python.Exceptions.{Exception}
use airbyte_python_cdk.ReadProcessor.{
  Environment, QueueItem, thread_exception, partition_generation_completed, partition,
  partition_complete, record_read, Task, generate_partitions, process_partition,
}
use airbyte_python_cdk.ReadProcessor.Counts.{indicator, ==_refl}
use airbyte_python_cdk.ReadProcessor.Progress.{completion, task_completion}
use airbyte_python_cdk.Workers.{Sources, put_next, outputs, end_generation, end_partition}

abbrev pub nowhere : String → ℕ
nowhere n = 0

module _ {P R : Type 0} where
  abbrev pub completions : String → List (QueueItem P R) → ℕ
  completions n [] = 0
  completions n (item ∷ items) = completion n item + completions n items

  abbrev pub worker_completions : String → List (List (QueueItem P R)) → ℕ
  worker_completions n [] = 0
  worker_completions n (worker ∷ workers) = completions n worker + worker_completions n workers

  pub completions-append :
      (n : String) (k l : List (QueueItem P R))
      → completions n (k ++ l) ≡ completions n k + completions n l
  completions-append n [] l = omega arith
  completions-append n (item ∷ k) l = omega (arith, completions-append n k l)

  pub worker_completions-append :
      (n : String) (k l : List (List (QueueItem P R)))
      → worker_completions n (k ++ l) ≡ worker_completions n k + worker_completions n l
  worker_completions-append n [] l = omega arith
  worker_completions-append n (worker ∷ k) l = omega (arith, worker_completions-append n k l)

  -- A worker's next item moves from the workers to what is put.
  pub put_next-completions :
      (n : String) (i : ℕ) (workers : List (List (QueueItem P R)))
      → completions n (put_next i workers).0 + worker_completions n (put_next i workers).1
        ≡ worker_completions n workers
  unfolding put_next
  put_next-completions n i [] = omega arith
  put_next-completions n zero ([] ∷ workers) = omega arith
  put_next-completions n zero ((item ∷ items) ∷ workers) = omega arith
  put_next-completions n (suc i) (worker ∷ workers) =
      omega (arith, put_next-completions n i workers)

module _ {W P R M : Type 0} ⦃key : Hashable P⦄ (environment : Environment W P R M) where
  open environment use {stream_of_partition}

  -- A partition needs the end of its stream's generation behind it, among the items that follow or
  -- elsewhere.
  abbrev pub Needs : QueueItem P R → List (QueueItem P R) → (String → ℕ) → Type 0
  Needs (partition p) rest elsewhere =
      1 ≤ completions (stream_of_partition p) rest + elsewhere (stream_of_partition p)
  Needs _ rest elsewhere = Unit {0}

  abbrev pub Covered : List (QueueItem P R) → (String → ℕ) → Type 0
  Covered [] elsewhere = Unit {0}
  Covered (item ∷ rest) elsewhere = Needs item rest elsewhere × Covered rest elsewhere

  Needs-le :
      (item : QueueItem P R) (rest rest' : List (QueueItem P R)) (f g : String → ℕ)
      → ((n : String) → completions n rest + f n ≤ completions n rest' + g n)
      → Needs item rest f
      → Needs item rest' g
  Needs-le (partition p) rest rest' f g h c = omega (arith, h (stream_of_partition p), c)
  Needs-le (thread_exception name x) rest rest' f g h c = tt
  Needs-le (partition_generation_completed name) rest rest' f g h c = tt
  Needs-le (partition_complete p b) rest rest' f g h c = tt
  Needs-le (record_read r) rest rest' f g h c = tt

  pub Covered-le :
      (items : List (QueueItem P R)) (f g : String → ℕ)
      → ((n : String) → f n ≤ g n)
      → Covered items f
      → Covered items g
  Covered-le [] f g h c = tt
  Covered-le (item ∷ rest) f g h c =
      (Needs-le item rest rest f g (λ n. omega (arith, h n)) c.0, Covered-le rest f g h c.1)

  -- Items that are put behind others keep those covered, if what is elsewhere is only moved.
  pub Covered-append :
      (items put : List (QueueItem P R)) (f g : String → ℕ)
      → ((n : String) → f n ≤ completions n put + g n)
      → Covered items f
      → Covered put g
      → Covered (items ++ put) g
  Covered-append [] put f g h c d = d
  Covered-append (item ∷ rest) put f g h c d = (
    Needs-le item rest (rest ++ put) f g (λ n. omega (arith, h n, completions-append n rest put))
        c.0,
    Covered-append rest put f g h c.1 d,
  )

  -- What is put next is covered by what its worker has left, and so stay the workers.
  pub put_next-Covered :
      (i : ℕ) (workers : List (List (QueueItem P R)))
      → All (λ worker. Covered worker nowhere) workers
      → Covered (put_next i workers).0 (λ n. worker_completions n (put_next i workers).1)
        × All (λ worker. Covered worker nowhere) (put_next i workers).1
  unfolding put_next
  put_next-Covered i [] c = (tt, tt)
  put_next-Covered zero ([] ∷ workers) c = (tt, c)
  put_next-Covered zero ((item ∷ items) ∷ workers) c =
      ((Needs-le item items [] nowhere _ (λ n. omega arith) c.0.0, tt), (c.0.1, c.1))
  put_next-Covered (suc i) (worker ∷ workers) c =
      let (d, e) = put_next-Covered i workers c.1 in
      (Covered-le (put_next i workers).0 _ _ (λ n. omega arith) d, (c.0, e))

  module _ (sources : Sources P R) where
    open sources use {generated, records}

    partitions-Covered :
        (name : String) (partitions : List P) (rest : List (QueueItem P R))
        → All (λ p. stream_of_partition p ≡ name) partitions
        → 1 ≤ completions name rest
        → Covered rest nowhere
        → Covered (map partition partitions ++ rest) nowhere
    partitions-Covered name [] rest own ends c = c
    partitions-Covered name (p ∷ partitions) rest own ends c = (
      rw own.0 (omega (arith, completions-append name (map partition partitions) rest, ends)),
      partitions-Covered name partitions rest own.1 ends c,
    )

    completions_partitions :
        (n : String) (partitions : List P) → completions {R = R} n (map partition partitions) ≡ 0
    completions_partitions n [] = refl
    completions_partitions n (p ∷ partitions) = omega (arith, completions_partitions n partitions)

    completions_records :
        (n : String) (rs : List R) → completions {P = P} n (map record_read rs) ≡ 0
    completions_records n [] = refl
    completions_records n (r ∷ rs) = omega (arith, completions_records n rs)

    records-Covered :
        (rs : List R) (rest : List (QueueItem P R))
        → Covered rest nowhere
        → Covered (map record_read rs ++ rest) nowhere
    records-Covered [] rest c = c
    records-Covered (r ∷ rs) rest c = (tt, records-Covered rs rest c)

    end_generation_lem :
        (name : String) (x : Option Exception)
        → Covered (end_generation {P = P} {R = R} name x) nowhere
          × ((n : String)
              → completions n (end_generation {P = P} {R = R} name x) ≡ indicator (name == n))
    end_generation_lem name none = ((tt, tt), λ n. omega arith)
    end_generation_lem name (some x) = ((tt, (tt, tt)), λ n. omega arith)

    end_partition_lem :
        (p : P) (x : Option Exception)
        → Covered (end_partition environment sources p x) nowhere
          × ((n : String) → completions n (end_partition environment sources p x) ≡ 0)
    end_partition_lem p none = ((tt, tt), λ n. refl)
    end_partition_lem p (some x) = ((tt, (tt, tt)), λ n. refl)

    -- A task ends the generation of its stream, if it generates partitions.
    pub outputs-completions :
        (n : String) (task : Task P)
        → completions n (outputs environment sources task) ≡ task_completion n task
    unfolding outputs
    outputs-completions n (generate_partitions name) = omega (
      arith,
      completions-append n (map partition (generated name).0)
          (end_generation name (generated name).1),
      completions_partitions n (generated name).0,
      (end_generation_lem name (generated name).1).1 n,
    )
    outputs-completions n (process_partition p) = omega (
      arith,
      completions-append n (map record_read (records p).0)
          (end_partition environment sources p (records p).1),
      completions_records n (records p).0,
      (end_partition_lem p (records p).1).1 n,
    )

    pub outputs-Covered :
        (task : Task P)
        → ((name : String) → All (λ p. stream_of_partition p ≡ name) (generated name).0)
        → Covered (outputs environment sources task) nowhere
    unfolding outputs
    outputs-Covered (generate_partitions name) own =
        let (covered, counted) = end_generation_lem name (generated name).1 in
        let self : indicator (name == name) ≡ 1 = ap indicator (==_refl name) in
        partitions-Covered name (generated name).0 (end_generation name (generated name).1)
          (own name) (omega (arith, counted name, self)) covered
    outputs-Covered (process_partition p) own =
        records-Covered (records p).0 (end_partition environment sources p (records p).1)
          (end_partition_lem p (records p).1).0
