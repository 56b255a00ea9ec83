-- ===== src/GlobalCursor/Closing.antt =====
-- When the stream cursor of GlobalCursor is closed, in every order of the steps of the threads.
use airbyte_python_cdk.Prelude.{
  ℕ, ◌+◌, ◌<◌, ◌≡◌, refl, ◌∙◌, ap, Bool, true, false, Option, none, some, List, [], ◌∷◌,
  if◌then◌else◌, length, arith,
}
use airbyte_python_cdk.GlobalCursor.{
  iterate_with_last_flag_and_state, StreamCursor, init, start_slices_generation, Generator, next,
  released, registered, Choice, perform_all, begin,
}
use airbyte_python_cdk.GlobalCursor.Tracking.{
  Counter, IsTracked, once_if, is_last, Agrees, pending, iterate-IsFlagged, perform_all-IsTracked,
}

-- Nothing is left to do: every slice was registered, yielded and closed.
abbrev pub is_over : {S T : Type 0} → Generator S T → List S → Option S → Bool
is_over (next []) [] none = true
is_over (next []) [] (some s) = false
is_over (next []) (s ∷ open_slices) closing = false
is_over (next (item ∷ rest)) open_slices closing = false
is_over (released s last rest) open_slices closing = false
is_over (registered s rest) open_slices closing = false

once_if-is_over :
    {S T : Type 0} (generator : Generator S T) (open_slices : List S) (closing : Option S)
    (flag : Bool) (semaphore : ℕ)
    → Agrees generator flag
    → semaphore ≡ length open_slices + pending generator
    → once_if flag semaphore closing ≡ (if is_over generator open_slices closing then 1 else 0)
once_if-is_over (next []) [] none flag semaphore agrees counted = ground (arith, agrees.0)
once_if-is_over (next []) [] (some s) flag semaphore agrees counted = ground arith
once_if-is_over (next []) (s ∷ open_slices) closing flag semaphore agrees counted = ground arith
once_if-is_over (next (item ∷ rest)) open_slices closing flag semaphore agrees counted =
    ground (arith, agrees.0)
once_if-is_over (released s last rest) open_slices closing flag semaphore agrees counted =
    ground (arith, agrees.0)
once_if-is_over (registered s rest) open_slices closing flag semaphore agrees counted = ground arith

iterate-goes_on :
    {A W T : Type 0} (get_stream_state : W → T) (item : A × W) (rest : List (A × W))
    → false ≡ is_last (iterate_with_last_flag_and_state get_stream_state (item ∷ rest))
unfolding iterate_with_last_flag_and_state
iterate-goes_on get_stream_state (a, w) [] = refl
iterate-goes_on get_stream_state (a, w) (item ∷ rest) = refl

module _ {C S D T W : Type 0} (cursor : StreamCursor C S D T) (counter : Counter cursor)
    (get_parent_state : W → T) (slice : S × W) (slices : List (S × W)) (w : W) (start : ℕ)
    (pos : 0 < start) (c : C) where
  open counter use {closes}

  begin-IsTracked :
      IsTracked cursor counter
        (closes c)
        start
        pos
        (begin cursor start get_parent_state (slice ∷ slices) w (init c))
  unfolding begin init start_slices_generation
  begin-IsTracked = record {
    counted = omega arith;
    agrees = (
      iterate-goes_on get_parent_state slice slices,
      iterate-IsFlagged get_parent_state (slice ∷ slices),
    );
    timed = refl;
    closed = omega arith;
  }

  -- A cursor that is asked for the slices of a list which is not empty, at a time that is not 0: in
  -- every order of the steps of the generator, of the threads that take the lock, close a slice or
  -- observe a record, the stream cursor is closed exactly once when every slice was registered,
  -- yielded and closed, and never before.
  pub perform_all-closes :
      (choices : List (Choice S D))
      → (let sys =
            perform_all cursor choices
              (begin cursor start get_parent_state (slice ∷ slices) w (init c)) in
          closes sys.global_cursor.stream_cursor
          ≡ closes c + (if is_over sys.generator sys.open_slices sys.closing then 1 else 0))
  perform_all-closes choices =
      let sys =
        perform_all cursor choices
          (begin cursor start get_parent_state (slice ∷ slices) w (init c)) in
      let t =
        perform_all-IsTracked cursor counter (closes c) start pos choices
          (begin cursor start get_parent_state (slice ∷ slices) w (init c)) begin-IsTracked in
      t.closed
      ∙ ap (λ (n : ℕ). closes c + n)
          (once_if-is_over sys.generator sys.open_slices sys.closing
            sys.global_cursor.all_slices_yielded sys.global_cursor.slice_semaphore t.agrees
            t.counted)
