-- ===== src/FileCursor/Resync.antt =====
-- Which files a cursor of FileCursor.Default gives after it was told of some.
use airbyte_python_cdk.Prelude.{
  ℕ, ◌+◌, ◌≤◌, ◌<◌, ◌≡◌, refl, ap, ◌∙◌, Bool, true, false, Option, none, some, List, [], ◌∷◌,
  length, if◌then◌else◌, ltb, leb, ◌==◌, filter, inl, inr, arith, Bool-cases, Option-cases,
}
use airbyte_python_cdk.Python.Exceptions.{Result, ok, ◌>>=◌}
use airbyte_python_cdk.Python.Dict.{get, set, get-set, length-set}
use airbyte_python_cdk.Python.Generators.{returned}
use airbyte_python_cdk.Python.Text.{Text, code_key}
use airbyte_python_cdk.FileCursor.{RemoteFile, Config, History, add_to_history, is_history_full}
use airbyte_python_cdk.FileCursor.Default.{Cursor, add_file, should_sync_file, get_files_to_sync}
use airbyte_python_cdk.FileCursor.Eviction.{IsWithin, IsAdded, add_to_history_lem}

-- The files of a sync, each added when it was read.
unfoldable pub add_files : Config → List RemoteFile → Cursor → Result Cursor
add_files config [] c = ok c
add_files config (file ∷ files) c = add_file config file c >>= add_files config files

-- The time of the last of the files with a name.
abbrev pub last_synced : List RemoteFile → Text → Option ℕ
last_synced [] uri = none
last_synced (file ∷ files) uri = elim (last_synced files uri) [
  | some t ↦ some t
  | none ↦ if file.uri == uri then some file.last_modified else none
]

-- The file was never synced, or modified since.
abbrev pub is_new : List RemoteFile → RemoteFile → Bool
is_new synced file = elim (last_synced synced file.uri) [
  | some t ↦ ltb t file.last_modified
  | none ↦ true
]

module _ (config : Config)
    (strptime-strftime : (t : ℕ)
      → config.date_time_format.strptime (config.date_time_format.strftime t) ≡ ok t) where
  open config.date_time_format use {strftime, strptime}

  -- A cursor whose history is within its bound and can be read: adding a file never raises, changes
  -- the history alone, keeps it within its bound, and the history is the old one with the file or,
  -- where that exceeds the bound, this without its oldest entry.
  pub add_file-IsAdded :
      (file : RemoteFile) (c : Cursor)
      → IsWithin config strptime-strftime c.history
      → (history : History) × (add_file config file c ≡ ok (record c { history = history }))
        × IsWithin config strptime-strftime history
        × IsAdded config strptime-strftime file c.history history
  unfolding add_file
  add_file-IsAdded file c within =
      let (history, e, kept, added) =
        add_to_history_lem config strptime-strftime file c.history within in
      (history, rw e refl, kept, added)

  add_file-room :
      (file : RemoteFile) (c : Cursor)
      → length c.history < config.max_history_size
      → add_file config file c
        ≡ ok (record c { history = set c.history file.uri (strftime file.last_modified) })
  unfolding add_file add_to_history
  add_file-room file c room =
      let bound = length-set c.history file.uri (strftime file.last_modified) in
      let fits : ltb config.max_history_size
            (length (set c.history file.uri (strftime file.last_modified)))
          ≡ false =
        ground arith in
      rw fits refl

  abbrev or_else : Option ℕ → Option Text → Option Text
  or_else none old = old
  or_else (some t) old = some (strftime t)

  or_else-last_synced :
      (file : RemoteFile) (files : List RemoteFile) (uri : Text) (old : Option Text)
      → or_else
          (last_synced files uri)
          (if file.uri == uri then some (strftime file.last_modified) else old)
        ≡ or_else (last_synced (file ∷ files) uri) old
  or_else-last_synced file files uri old = ground arith

  add_files_lem :
      (files : List RemoteFile) (c : Cursor)
      → length c.history + length files ≤ config.max_history_size
      → (history : History) × (add_files config files c ≡ ok (record c { history = history }))
        × (length history ≤ length c.history + length files)
        × ((uri : Text) → get history uri ≡ or_else (last_synced files uri) (get c.history uri))
  unfolding add_files
  add_files_lem [] c room = (c.history, refl, omega arith, λ uri. refl)
  add_files_lem (file ∷ files) c room =
      let next : Cursor = record c {
        history = set c.history file.uri (strftime file.last_modified);
      } in
      let bound = length-set c.history file.uri (strftime file.last_modified) in
      let (history, e, shorter, known) = add_files_lem files next (omega arith) in
      (
        history,
        rw (add_file-room file c (omega arith)) e,
        omega arith,
        λ uri.
            known uri
            ∙ ap (or_else (last_synced files uri))
                (get-set c.history file.uri uri (strftime file.last_modified))
            ∙ or_else-last_synced file files uri (get c.history uri),
      )

  module _ (synced : List RemoteFile) (c : Cursor)
      (known : (uri : Text) → get c.history uri ≡ or_else (last_synced synced uri) none)
      (room : length c.history < config.max_history_size) where
    should_sync_file-is_new :
        (file : RemoteFile) → should_sync_file config file c ≡ ok (is_new synced file)
    unfolding should_sync_file is_history_full
    should_sync_file-is_new file =
        let partial : leb config.max_history_size (length c.history) ≡ false = ground arith in
        elim (Option-cases (last_synced synced file.uri)) [
          | inl e ↦ ground (arith, known file.uri)
          | inr (t, e) ↦ ground (arith, known file.uri, strptime-strftime t)
        ]

    get_files_to_sync-is_new :
        (files : List RemoteFile)
        → get_files_to_sync config files c
          ≡ record { items = filter (is_new synced) files; outcome = returned }
    unfolding get_files_to_sync
    get_files_to_sync-is_new [] = refl
    get_files_to_sync-is_new (file ∷ files) = elim (Bool-cases (is_new synced file)) [
      | inl e ↦ rw (should_sync_file-is_new file, e, get_files_to_sync-is_new files) refl
      | inr e ↦ rw (should_sync_file-is_new file, e, get_files_to_sync-is_new files) refl
    ]

  -- Where times are read back as they were written, a cursor with an empty history that is told of fewer
  -- files than the history may hold: adding them does not raise, and of any files it then gives exactly those, in order, whose name was not among
  -- them or that were modified after the last file of that name.
  pub get_files_to_sync-add_files :
      (synced files : List RemoteFile) (c : Cursor)
      → c.history ≡ []
      → length synced < config.max_history_size
      → (c' : Cursor) × (add_files config synced c ≡ ok c')
        × (get_files_to_sync config files c'
            ≡ record { items = filter (is_new synced) files; outcome = returned })
  unfolding get
  get_files_to_sync-add_files synced files c empty room =
      let start = ap (λ (h : History). length h) empty in
      let (history, e, shorter, known) = add_files_lem synced c (omega arith) in
      (
        record c { history = history },
        e,
        get_files_to_sync-is_new synced (record c { history = history })
            (λ uri.
              known uri
              ∙ ap (λ (h : History). or_else (last_synced synced uri) (get h uri)) empty
              ∙ nothing_known uri)
            (omega arith) files,
      )
    where
      nothing_known :
          (uri : Text)
          → or_else (last_synced synced uri) (get [] uri) ≡ or_else (last_synced synced uri) none
      nothing_known uri = refl
