-- ===== src/GlobalCursor/Tests.antt =====
-- Tests of GlobalCursor, and the theorem at an input.
use airbyte_python_cdk.Prelude.{ℕ, suc, ◌+◌, ◌≡◌, refl, List, [], ◌∷◌, if◌then◌else◌, arith}
use airbyte_python_cdk.GlobalCursor.{
  StreamCursor, init, Choice, generate, take_lock, close, observe_record, perform, perform_all,
  begin, iterate_with_last_flag_and_state, remove_at, close_if_last, observe,
  start_slices_generation, finish,
}
use airbyte_python_cdk.GlobalCursor.Tracking.{Counter}
use airbyte_python_cdk.GlobalCursor.Closing.{is_over, perform_all-closes}

-- A stream cursor that counts how often it was closed.
abbrev counting : StreamCursor ℕ ℕ ℕ ℕ
counting = record { close_slice = λ c s. suc c; observe = λ c s d. c; get_stream_state = λ c. c }

abbrev counter : Counter counting
counter = record { closes = λ c. c; close_slice_lem = λ c s. refl; observe_lem = λ c s d. refl }

-- The slice 1 is closed before the slice 2 is registered, and the slice 2 at the end.
abbrev choices : List (Choice ℕ ℕ)
choices =
    generate
    ∷ generate
    ∷ generate
    ∷ take_lock 0
    ∷ close 5
    ∷ observe_record 1 7
    ∷ generate
    ∷ generate
    ∷ generate
    ∷ take_lock 0
    ∷ close 9
    ∷ generate
    ∷ []

two_slices :
    (perform_all counting choices
      (begin counting 3 (λ w. w) ((1, 10) ∷ (2, 20) ∷ []) 20 (init 0))).global_cursor.stream_cursor
    ≡ 1
unfolding perform_all perform begin init iterate_with_last_flag_and_state remove_at close_if_last
    observe start_slices_generation finish
two_slices = refl

perform_all-closes_example :
    (let sys =
        perform_all counting choices
          (begin counting 3 (λ w. w) ((1, 10) ∷ (2, 20) ∷ []) 20 (init 0)) in
      sys.global_cursor.stream_cursor
      ≡ 0 + (if is_over sys.generator sys.open_slices sys.closing then 1 else 0))
perform_all-closes_example =
    perform_all-closes counting counter (λ (w : ℕ). w) (1, 10) ((2, 20) ∷ []) 20 3 (omega arith) 0
      choices
