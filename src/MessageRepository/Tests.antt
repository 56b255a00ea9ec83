-- ===== src/MessageRepository/Tests.antt =====
-- A repository at level INFO with one waiting message.
use airbyte_python_cdk.Prelude.{ℕ, ◌≡◌, refl, List, [], ◌∷◌}
use airbyte_python_cdk.MessageRepository.{
  warn, info, debug, in_memory, consume_queue, Event, emitted, logged, handle_all, kept,
  consume_queue_lem, is_severe_enough,
}

abbrev events : List (Event ℕ)
events = emitted 1 ∷ logged debug 2 ∷ logged warn 3 ∷ []

two_are_kept : kept info events ≡ 1 ∷ 3 ∷ []
unfolding is_severe_enough
two_are_kept = refl

consume_queue_lem_example :
    consume_queue (handle_all events (in_memory info (9 ∷ [])))
    ≡ (9 ∷ kept info events, in_memory info [])
consume_queue_lem_example = consume_queue_lem events info (9 ∷ [])
