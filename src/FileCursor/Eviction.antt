-- ===== src/FileCursor/Eviction.antt =====
-- What adding a file does to a full history of FileCursor.
use airbyte_python_cdk.Prelude.{
  ℕ, ◌≤◌, ◌<◌, ◌≡◌, refl, ap, true, false, some, [], ◌∷◌, length, All-lookup, Any-map, ltb, Any,
  All, ◌⊎◌, inl, inr, arith, Bool-cases,
}
use airbyte_python_cdk.Python.Exceptions.{ok}
use airbyte_python_cdk.Python.Dict.{
  set, delete, length-set, length-delete_known, All-set, All-delete,
}
use airbyte_python_cdk.Python.Text.{
  Text, text_eq_iff, text_ltb_irrefl, text_ltb_asym, text_leb_trans, text_ltb_connected, code_key,
}
use airbyte_python_cdk.Python.Extremes.{least, least-Any, least-All}
use airbyte_python_cdk.FileCursor.{
  RemoteFile, Config, History, entry_ltb, compute_earliest_file_in_history, add_to_history,
}

pub entry_ltb_irrefl : (e : Text × Text) → entry_ltb e e ≡ false
unfolding entry_ltb
entry_ltb_irrefl (u, t) = ground (arith, text_ltb_irrefl u, text_ltb_irrefl t)

pub entry_ltb_asym : (e f : Text × Text) → entry_ltb e f ≡ true → entry_ltb f e ≡ false
unfolding entry_ltb
entry_ltb_asym (u, s) (v, t) h = ground (
  arith,
  text_ltb_asym s t,
  text_ltb_asym u v,
  text_eq_iff s t,
  text_eq_iff t s,
  text_ltb_irrefl s,
)

pub entry_leb_trans :
    (e f g : Text × Text) → entry_ltb f e ≡ false → entry_ltb g f ≡ false → entry_ltb g e ≡ false
unfolding entry_ltb
entry_leb_trans (a, r) (b, s) (c, t) h k = ground (
  arith,
  text_leb_trans r s t,
  text_leb_trans a b c,
  text_eq_iff s r,
  text_eq_iff t s,
  text_eq_iff t r,
  text_ltb_connected r s,
  text_ltb_connected s t,
  text_ltb_asym s r,
  text_ltb_asym t s,
  text_ltb_asym t r,
)

-- An entry of the history that no other entry precedes, by time and then by name.
abbrev pub IsOldest : Text × Text → History → Type 0
IsOldest oldest history =
    Any (λ entry. oldest ≡ entry) history × All (λ entry. entry_ltb entry oldest ≡ false) history

module _ (config : Config)
    (strptime-strftime : (t : ℕ)
      → config.date_time_format.strptime (config.date_time_format.strftime t) ≡ ok t) where
  open config.date_time_format use {strftime, strptime}

  -- The time of an entry can be read.
  abbrev pub Parses : Text × Text → Type 0
  Parses entry = (t : ℕ) × (strptime entry.1 ≡ ok t)

  pub record IsWithin (history : History) : Type 0 where
    pub bounded : length history ≤ config.max_history_size
    pub parses : All Parses history

  earliest_lem :
      (history : History)
      → 0 < length history
      → All Parses history
      → (oldest : Text × Text) × (t : ℕ) × (compute_earliest_file_in_history config history
          ≡ ok (some (record { uri = oldest.0; last_modified = t })))
        × IsOldest oldest history
  unfolding compute_earliest_file_in_history
  earliest_lem [] pos parses = absurd (omega arith)
  earliest_lem (entry ∷ history) pos parses =
      let oldest = least entry_ltb entry history in
      let found = least-Any entry_ltb entry history in
      let (t, parsed) = All-lookup Parses oldest (entry ∷ history) parses found in
      (
        oldest,
        t,
        rw parsed refl,
        (found, least-All entry_ltb entry_ltb_irrefl entry_ltb_asym entry_leb_trans entry history),
      )

  -- The history with the file, or without the oldest of its entries if there were too many.
  abbrev pub IsAdded : RemoteFile → History → History → Type 0
  IsAdded file history history' =
      let added = set history file.uri (strftime file.last_modified) in
      (history' ≡ added)
      ⊎ ((oldest : Text × Text) × (config.max_history_size < length added)
          × (history' ≡ delete added oldest.0)
          × IsOldest oldest added)

  pub add_to_history_lem :
      (file : RemoteFile) (history : History)
      → IsWithin history
      → (history' : History) × (add_to_history config file history ≡ ok history')
        × IsWithin history'
        × IsAdded file history history'
  unfolding add_to_history
  add_to_history_lem file history within =
      let added = set history file.uri (strftime file.last_modified) in
      let parses : All Parses added =
        All-set Parses history file.uri (strftime file.last_modified)
          (λ uri. (file.last_modified, strptime-strftime file.last_modified)) within.parses in
      let bound = length-set history file.uri (strftime file.last_modified) in
      elim (Bool-cases (ltb config.max_history_size (length added))) [
        | inl full ↦
            let above : config.max_history_size < length added = ground arith in
            let (oldest, t, e, old) = earliest_lem added (omega arith) parses in
            let shorter =
              length-delete_known added oldest.0
                (Any-map (λ entry p. ap (λ (f : Text × Text). f.0) p) added old.0) in
            rw (full, e)
              (
                delete added oldest.0,
                refl,
                record {
                  bounded = omega (arith, within.bounded, bound, shorter);
                  parses = All-delete Parses added oldest.0 parses;
                },
                inr (oldest, above, refl, old),
              )
        | inr room ↦
            let below : length added ≤ config.max_history_size = ground arith in
            rw room (added, refl, record { bounded = below; parses = parses }, inl refl)
      ]
