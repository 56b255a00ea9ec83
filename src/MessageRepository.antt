-- ===== src/MessageRepository.antt =====
-- airbyte_cdk/sources/message/repository.py: the queue of messages that a source emits beside its
-- records. `M` is the type of messages.
mod Tests
use airbyte_python_cdk.Prelude.{
  ℕ, zero, suc, ◌≡◌, refl, sym, ◌∙◌, Bool, true, false, List, [], ◌∷◌, ◌++◌, leb, if◌then◌else◌,
  Bool-cases, inl, inr, ◌≤◌, ◌↔◌, arith,
}

pub data Level : Type 0 where
  fatal error warn info debug trace : Level

-- `_SEVERITY_BY_LOG_LEVEL`, which has every level.
pub severity : Level → ℕ
severity fatal = 1
severity error = 2
severity warn = 3
severity info = 4
severity debug = 5
severity trace = 5

pub is_severe_enough : Level → Level → Bool
unfolding severity
is_severe_enough threshold level = leb (severity level) (severity threshold)

-- NoopMessageRepository, or InMemoryMessageRepository with its level and its queue.
pub data MessageRepository (M : Type 0) : Type 0 where
  noop : MessageRepository M
  in_memory : Level → List M → MessageRepository M

-- An emitted or a logged message.
pub data Event (M : Type 0) : Type 0 where
  emitted : M → Event M
  logged : Level → M → Event M

module _ {M : Type 0} where
  pub emit_message : M → MessageRepository M → MessageRepository M
  emit_message message noop = noop
  emit_message message (in_memory log_level queue) = in_memory log_level (queue ++ message ∷ [])

  -- `log_message`, with the log message that the provider makes.
  pub log_message : Level → M → MessageRepository M → MessageRepository M
  unfolding emit_message
  log_message level message noop = noop
  log_message level message (in_memory log_level queue) =
      if is_severe_enough log_level level
      then emit_message message (in_memory log_level queue)
      else in_memory log_level queue

  -- The loop of `consume_queue` takes messages off the front until there is none.
  drain : List M → List M
  drain [] = []
  drain (message ∷ queue) = message ∷ drain queue

  pub consume_queue : MessageRepository M → List M × MessageRepository M
  unfolding drain
  consume_queue noop = ([], noop)
  consume_queue (in_memory log_level queue) = (drain queue, in_memory log_level [])

  abbrev pub handle_all : List (Event M) → MessageRepository M → MessageRepository M
  handle_all [] r = r
  handle_all (emitted message ∷ events) r = handle_all events (emit_message message r)
  handle_all (logged level message ∷ events) r = handle_all events (log_message level message r)

  -- The messages that are emitted, or logged at a level that the threshold lets through.
  abbrev pub kept : Level → List (Event M) → List M
  kept threshold [] = []
  kept threshold (emitted message ∷ events) = message ∷ kept threshold events
  kept threshold (logged level message ∷ events) =
      if is_severe_enough threshold level
      then message ∷ kept threshold events
      else kept threshold events

  append_assoc : (k : List M) (x : M) (l : List M) → (k ++ x ∷ []) ++ l ≡ k ++ x ∷ l
  append_assoc [] x l = refl
  append_assoc (y ∷ k) x l = rw (append_assoc k x l)

  append_nil : (l : List M) → l ++ [] ≡ l
  append_nil [] = refl
  append_nil (x ∷ l) = rw (append_nil l)

  drain_all : (queue : List M) → drain queue ≡ queue
  unfolding drain
  drain_all [] = refl
  drain_all (message ∷ queue) = rw (drain_all queue)

  queued :
      (events : List (Event M)) (log_level : Level) (queue : List M)
      → handle_all events (in_memory log_level queue)
        ≡ in_memory log_level (queue ++ kept log_level events)
  unfolding emit_message log_message
  queued [] log_level queue = rw (append_nil queue)
  queued (emitted message ∷ events) log_level queue =
      queued events log_level (queue ++ message ∷ [])
      ∙ rw (append_assoc queue message (kept log_level events))
  queued (logged level message ∷ events) log_level queue =
      elim (Bool-cases (is_severe_enough log_level level)) [
        | inl severe ↦ rw severe (
            queued events log_level (queue ++ message ∷ [])
            ∙ rw (append_assoc queue message (kept log_level events)))
        | inr other ↦ rw other (queued events log_level queue)
      ]

  -- Consuming the queue after any emissions and logs gives the messages that were waiting, then
  -- those emitted or logged severely enough, in their order, and leaves the queue empty.
  pub consume_queue_lem :
      (events : List (Event M)) (log_level : Level) (queue : List M)
      → consume_queue (handle_all events (in_memory log_level queue))
        ≡ (queue ++ kept log_level events, in_memory log_level [])
  unfolding consume_queue
  consume_queue_lem events log_level queue =
      rw (queued events log_level queue, drain_all (queue ++ kept log_level events))
