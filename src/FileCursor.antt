-- ===== src/FileCursor.antt =====
-- What the cursors of file-based streams share: airbyte_cdk/sources/file_based/stream/cursor and
-- stream/concurrent/cursor. The history maps the URI of a file to the text of the time at which it
-- was last modified; texts compare by code points. A datetime is the number of its microseconds
-- after `datetime.min`; `strftime` and `strptime` with DATE_TIME_FORMAT are Python's.
pub mod Default
pub mod Concurrent
pub mod Eviction
pub mod Resync
pub mod Pending
pub mod Restart
pub mod Tests
use airbyte_python_cdk.Prelude.{
  ℕ, ◌-◌, ◌*◌, ◌≡◌, Bool, true, false, Option, none, some, List, [], ◌∷◌, map, length,
  if◌then◌else◌, ltb, leb, min, ◌&&◌, ◌||◌, eqb, All,
}
use airbyte_python_cdk.Python.Exceptions.{Result, ok, raise, ◌>>=◌, overflow_error, exception}
use airbyte_python_cdk.Python.Dict.{Dict, set, delete}
use airbyte_python_cdk.Python.Text.{Text, text_eq, text_ltb, code_key}
use airbyte_python_cdk.Python.Extremes.{least}

pub record RemoteFile : Type 0 where
  pub uri : Text
  pub last_modified : ℕ

pub record DateTimeFormat : Type 0 where
  pub strftime : ℕ → Text
  pub strptime : Text → Result ℕ

-- The class attributes. DEFAULT_MAX_HISTORY_SIZE is 10_000 where a subclass does not replace it.
pub record Config : Type 0 where
  pub date_time_format : DateTimeFormat
  pub max_history_size : ℕ

abbrev pub History : Type 0
History = Dict Text Text

-- `(f[1], f[0]) < (g[1], g[0])` of two entries of the history
unfoldable pub entry_ltb : Text × Text → Text × Text → Bool
entry_ltb (uri, time) (uri', time') =
    text_ltb time time' || (text_eq time time' && text_ltb uri uri')

module _ (config : Config) where
  open config.date_time_format use {strftime, strptime}

  -- The file that an entry of the history stands for.
  abbrev pub file_of : Text × Text → Result (Option RemoteFile)
  file_of (uri, time) = strptime time >>= λ t. ok (some (record { uri = uri; last_modified = t }))

  unfoldable pub compute_earliest_file_in_history : History → Result (Option RemoteFile)
  compute_earliest_file_in_history [] = ok none
  compute_earliest_file_in_history (entry ∷ history) = file_of (least entry_ltb entry history)

  unfoldable pub is_history_full : History → Bool
  is_history_full history = leb config.max_history_size (length history)

  abbrev pub delete_oldest : Option RemoteFile → History → Result History
  delete_oldest none history = raise exception
  delete_oldest (some oldest) history = ok (delete history oldest.uri)

  -- What `add_file` does to the history.
  unfoldable pub add_to_history : RemoteFile → History → Result History
  add_to_history file history =
      let history' = set history file.uri (strftime file.last_modified) in
      if ltb config.max_history_size (length history')
      then (compute_earliest_file_in_history history' >>= λ oldest. delete_oldest oldest history')
      else ok history'

  -- `datetime.now() - time_window`
  abbrev pub before_now : ℕ → ℕ → Result ℕ
  before_now now time_window =
      if ltb now time_window then raise overflow_error else ok (now - time_window)

  abbrev pub times : History → List Text
  times history = map (λ entry. entry.1) history

  unfoldable pub compute_start_time : ℕ → ℕ → History → Result ℕ
  unfolding is_history_full
  compute_start_time now time_window [] = ok 0
  compute_start_time now time_window ((uri, time) ∷ history) =
      strptime (least text_ltb time (times history)) >>= λ earliest.
      if is_history_full ((uri, time) ∷ history)
      then (before_now now time_window >>= λ start. ok (min earliest start))
      else ok earliest

-- `timedelta(days=days or DEFAULT_DAYS_TO_SYNC_IF_HISTORY_IS_FULL)`, where the days are not negative:
-- its microseconds.
unfoldable pub time_window_if_history_is_full : ℕ → Result ℕ
time_window_if_history_is_full days =
    let days' = if eqb days 0 then 3 else days in
    if ltb 999999999 days' then raise overflow_error else ok (days' * 86400000000)
