-- ===== src/GlobalCursor/Tracking.antt =====
-- What holds of GlobalCursor between the steps of its threads.
use airbyte_python_cdk.Prelude.{
  ℕ, zero, suc, ◌+◌, ◌-◌, ◌<◌, ◌≡◌, refl, ap, ◌∙◌, subst, Bool, true, false, Option, none, some,
  List, [], ◌∷◌, if◌then◌else◌, ◌&&◌, eqb, length, Bool-cases, inl, inr, ◌⊎◌, arith,
}
use Prim.Native.Nat.{◌/◌}
use airbyte_python_cdk.Python.Exceptions.{ok}
use airbyte_python_cdk.GlobalCursor.{
  iterate_with_last_flag_and_state, finish, StreamCursor, acquire_at, close_if_last, observe,
  Generator, next, released, registered, System, Choice, generate, take_lock, close, observe_record,
  remove_at, generate_next, lock_with, lock, close_locked, perform, perform_all,
}

-- A measure of how often a stream cursor was closed.
pub record Counter {C S D T : Type 0} (cursor : StreamCursor C S D T) : Type 0 where
  pub closes : C → ℕ
  pub close_slice_lem : (c : C) (s : S) → closes (cursor.close_slice c s) ≡ suc (closes c)
  pub observe_lem : (c : C) (s : S) (d : D) → closes (cursor.observe c s d) ≡ closes c

module _ {S T : Type 0} where
  abbrev pub is_last : List (S × Bool × T) → Bool
  is_last [] = true
  is_last (item ∷ rest) = false

  -- Exactly the last slice that is still to come has the flag.
  abbrev pub IsFlagged : List (S × Bool × T) → Type 0
  IsFlagged [] = Unit {0}
  IsFlagged ((s, last, state) ∷ rest) = (last ≡ is_last rest) × IsFlagged rest

  -- What the flag of the cursor says of the slices that the generator has still to register.
  abbrev pub Agrees : Generator S T → Bool → Type 0
  Agrees (next rest) flag = (flag ≡ is_last rest) × IsFlagged rest
  Agrees (released s last rest) flag = (flag ≡ false) × (last ≡ is_last rest) × IsFlagged rest
  Agrees (registered s rest) flag = (flag ≡ is_last rest) × IsFlagged rest

  -- The slice that has released the semaphore and is not yet yielded.
  abbrev pub pending : Generator S T → ℕ
  pending (next rest) = 0
  pending (released s last rest) = 1
  pending (registered s rest) = 1

abbrev pub is_free : {S : Type 0} → Option S → Bool
is_free none = true
is_free (some s) = false

-- Once, if every slice was registered and closed and none is being closed.
abbrev pub once_if : {S : Type 0} → Bool → ℕ → Option S → ℕ
once_if flag semaphore closing = if flag && (eqb semaphore 0 && is_free closing) then 1 else 0

once_if-false :
    {S : Type 0} (flag : Bool) (semaphore : ℕ) (closing : Option S)
    → flag ≡ false
    → once_if flag semaphore closing ≡ 0
once_if-false flag semaphore closing e = rw e refl

once_if_pos :
    {S : Type 0} (flag : Bool) (semaphore : ℕ) (closing : Option S)
    → 0 < semaphore
    → once_if flag semaphore closing ≡ 0
once_if_pos flag semaphore closing pos = ground arith

once_if-some :
    {S : Type 0} (flag : Bool) (semaphore : ℕ) (s : S) → once_if flag semaphore (some s) ≡ 0
once_if-some flag semaphore s = ground arith

once_if-whole :
    (S : Type 0) (flag : Bool) (semaphore : ℕ)
    → (flag && eqb semaphore 0) ≡ true
    → once_if {S = S} flag semaphore none ≡ 1
once_if-whole S flag semaphore e = ground arith

once_if-part :
    (S : Type 0) (flag : Bool) (semaphore : ℕ)
    → (flag && eqb semaphore 0) ≡ false
    → once_if {S = S} flag semaphore none ≡ 0
once_if-part S flag semaphore e = ground arith

pub iterate-IsFlagged :
    {A W T : Type 0} (get_stream_state : W → T) (items : List (A × W))
    → IsFlagged (iterate_with_last_flag_and_state get_stream_state items)
unfolding iterate_with_last_flag_and_state
iterate-IsFlagged get_stream_state [] = tt
iterate-IsFlagged get_stream_state ((a, w) ∷ []) = (refl, tt)
iterate-IsFlagged get_stream_state ((a, w) ∷ (b, v) ∷ []) =
    (refl, iterate-IsFlagged get_stream_state ((b, v) ∷ []))
iterate-IsFlagged get_stream_state ((a, w) ∷ (b, v) ∷ item ∷ rest) =
    (refl, iterate-IsFlagged get_stream_state ((b, v) ∷ item ∷ rest))

length-remove_at :
    {A : Type 0} (i : ℕ) (xs : List A)
    → (remove_at i xs ≡ none)
      ⊎ ((x : A) × (rest : List A) × (remove_at i xs ≡ some (x, rest))
          × (length xs ≡ suc (length rest)))
unfolding remove_at
length-remove_at i [] = inl refl
length-remove_at zero (x ∷ xs) = inr (x, xs, refl, refl)
length-remove_at (suc i) (x ∷ xs) = elim (length-remove_at i xs) [
  | inl missing ↦ inl (rw missing refl)
  | inr (y, rest, e, shorter) ↦ inr (y, x ∷ rest, rw e refl, ap suc shorter)
]

finish_lem : (start now : ℕ) → 0 < start → (seconds : ℕ) × (finish (some start) now ≡ ok seconds)
unfolding finish
finish_lem start now pos =
    let started : eqb start 0 ≡ false = ground arith in
    ((now - start + 999999999) / 1000000000, rw started refl)

module _ {C S D T : Type 0} (cursor : StreamCursor C S D T) (counter : Counter cursor) (before : ℕ)
    (start : ℕ) (pos : 0 < start) where
  open counter use {closes, close_slice_lem, observe_lem}

  -- The semaphore counts the slices that are registered and not being closed, and the stream cursor
  -- was closed once if there are none and never otherwise.
  pub record IsTracked (sys : System C S T) : Type 0 where
    pub counted : sys.global_cursor.slice_semaphore ≡ length sys.open_slices + pending sys.generator
    pub agrees : Agrees sys.generator sys.global_cursor.all_slices_yielded
    pub timed : sys.global_cursor.timer ≡ some start
    pub closed :
        closes sys.global_cursor.stream_cursor
        ≡ before
          + once_if sys.global_cursor.all_slices_yielded sys.global_cursor.slice_semaphore
              sys.closing

  generate-IsTracked :
      (generator : Generator S T) (sys : System C S T)
      → sys.generator ≡ generator
      → IsTracked sys
      → IsTracked (generate_next cursor generator sys)
  generate-IsTracked (next []) sys e c = record {
    counted = c.counted;
    agrees = c.agrees;
    timed = c.timed;
    closed = c.closed;
  }
  generate-IsTracked (next ((s, last, state) ∷ rest)) sys e c =
      let (flag, flagged) = subst (λ g. Agrees g sys.global_cursor.all_slices_yielded) e c.agrees in
      record {
        counted = omega (arith, c.counted, ap pending e);
        agrees = (flag, flagged.0, flagged.1);
        timed = c.timed;
        closed = omega (
          arith,
          c.closed,
          once_if-false _ sys.global_cursor.slice_semaphore sys.closing flag,
          once_if-false _ (suc sys.global_cursor.slice_semaphore) sys.closing flag,
        );
      }
  generate-IsTracked (released s true rest) sys e c =
      let (flag, ends, flagged) =
        subst (λ g. Agrees g sys.global_cursor.all_slices_yielded) e c.agrees in
      record {
        counted = omega (arith, c.counted, ap pending e);
        agrees = (ends, flagged);
        timed = c.timed;
        closed = omega (
          arith,
          c.closed,
          once_if-false _ sys.global_cursor.slice_semaphore sys.closing flag,
          once_if_pos true sys.global_cursor.slice_semaphore sys.closing
              (omega (arith, c.counted, ap pending e)),
        );
      }
  generate-IsTracked (released s false rest) sys e c =
      let (flag, ends, flagged) =
        subst (λ g. Agrees g sys.global_cursor.all_slices_yielded) e c.agrees in
      record {
        counted = omega (arith, c.counted, ap pending e);
        agrees = (flag ∙ ends, flagged);
        timed = c.timed;
        closed = c.closed;
      }
  generate-IsTracked (registered s rest) sys e c =
      let (flag, flagged) = subst (λ g. Agrees g sys.global_cursor.all_slices_yielded) e c.agrees in
      record {
        counted = omega (arith, c.counted, ap pending e);
        agrees = (flag, flagged);
        timed = c.timed;
        closed = c.closed;
      }

  lock_with-IsTracked :
      (n i : ℕ) (sys : System C S T)
      → sys.global_cursor.slice_semaphore ≡ n
      → IsTracked sys
      → IsTracked
          (lock_with cursor (acquire_at n sys.global_cursor) (remove_at i sys.open_slices) sys)
  lock_with-IsTracked zero i sys f c = c
  lock_with-IsTracked (suc n) i sys f c = elim (length-remove_at i sys.open_slices) [
    | inl missing ↦ rw missing c
    | inr (s, rest, taken, shorter) ↦ rw taken (record {
      counted = omega (arith, c.counted, f, shorter);
      agrees = c.agrees;
      timed = c.timed;
      closed = omega (
        arith,
        c.closed,
        f,
        once_if_pos sys.global_cursor.all_slices_yielded sys.global_cursor.slice_semaphore
            sys.closing (omega (arith, f)),
        once_if-some sys.global_cursor.all_slices_yielded n s,
      );
    })
  ]

  lock-IsTracked :
      (closing : Option S) (i : ℕ) (sys : System C S T)
      → IsTracked sys
      → IsTracked (lock cursor closing i sys)
  lock-IsTracked (some s) i sys c = c
  lock-IsTracked none i sys c = lock_with-IsTracked sys.global_cursor.slice_semaphore i sys refl c

  close-IsTracked :
      (closing : Option S) (now : ℕ) (sys : System C S T)
      → sys.closing ≡ closing
      → IsTracked sys
      → IsTracked (close_locked cursor closing now sys)
  unfolding close_if_last
  close-IsTracked none now sys e c = c
  close-IsTracked (some s) now sys e c =
      let g = sys.global_cursor in
      let open_before = once_if-some g.all_slices_yielded g.slice_semaphore s in
      let e' : once_if g.all_slices_yielded g.slice_semaphore sys.closing
          ≡ once_if g.all_slices_yielded g.slice_semaphore (some s) =
        ap (once_if g.all_slices_yielded g.slice_semaphore) e in
      let (seconds, timely) = finish_lem start now pos in
      let finished : finish g.timer now ≡ ok seconds = ap (λ t. finish t now) c.timed ∙ timely in
      elim (Bool-cases (g.all_slices_yielded && eqb g.slice_semaphore 0)) [
        | inl whole ↦
            rw (whole, finished)
              (record {
                counted = c.counted;
                agrees = c.agrees;
                timed = c.timed;
                closed = omega (
                  arith,
                  c.closed,
                  e',
                  open_before,
                  close_slice_lem g.stream_cursor s,
                  once_if-whole S g.all_slices_yielded g.slice_semaphore whole,
                );
              })
        | inr part ↦ rw part (record {
          counted = c.counted;
          agrees = c.agrees;
          timed = c.timed;
          closed = omega (
            arith,
            c.closed,
            e',
            open_before,
            once_if-part S g.all_slices_yielded g.slice_semaphore part,
          );
        })
      ]

  perform-IsTracked :
      (choice : Choice S D) (sys : System C S T)
      → IsTracked sys
      → IsTracked (perform cursor choice sys)
  unfolding perform observe
  perform-IsTracked generate sys c = generate-IsTracked sys.generator sys refl c
  perform-IsTracked (take_lock i) sys c = lock-IsTracked sys.closing i sys c
  perform-IsTracked (close now) sys c = close-IsTracked sys.closing now sys refl c
  perform-IsTracked (observe_record s d) sys c = record {
    counted = c.counted;
    agrees = c.agrees;
    timed = c.timed;
    closed = observe_lem sys.global_cursor.stream_cursor s d ∙ c.closed;
  }

  pub perform_all-IsTracked :
      (choices : List (Choice S D)) (sys : System C S T)
      → IsTracked sys
      → IsTracked (perform_all cursor choices sys)
  unfolding perform_all
  perform_all-IsTracked [] sys c = c
  perform_all-IsTracked (choice ∷ choices) sys c =
      perform_all-IsTracked choices (perform cursor choice sys) (perform-IsTracked choice sys c)
