-- ===== src/StateConverter/Resume.antt =====
-- A state message that is read back: StateConverter parses the boundaries of a slice, and not its
-- most recent cursor value.
use airbyte_python_cdk.Prelude.{
  ℕ, ◌≤◌, ◌<◌, ◌≡◌, true, Option, some, [], ◌∷◌, ◌++◌, arith, String, leb,
}
use airbyte_python_cdk.Python.Exceptions.{ok, raise, attribute_error, type_error}
use airbyte_python_cdk.Python.Dict.{Dict}
use airbyte_python_cdk.Python.Sorting.{sorted}
use airbyte_python_cdk.StateConverter.{
  parsed, unparsed, Interval, MessageInterval, Converter, ConcurrentState, by_boundaries, or_empty,
  max_most_recent, absorb, merge_loop, merge_sorted, merge_intervals, deserialize, serialize,
}

module _ {V : Type 0} (converter : Converter V) where
  merge_two :
      (last current : Interval V)
      → last.start < current.start
      → current.start ≤ converter.increment last.end
      → max_most_recent converter current.most_recent last.most_recent ≡ raise type_error
      → merge_intervals converter (last ∷ current ∷ []) ≡ raise type_error
  unfolding merge_intervals merge_sorted merge_loop absorb sorted
  merge_two last current h near e =
      let order : by_boundaries last current ≡ true = ground arith in
      let touches : leb current.start (converter.increment last.end) ≡ true = ground arith in
      rw (order, touches, e)

  mixed :
      (t : ℕ) (v : V)
      → converter.is_truthy v ≡ true
      → max_most_recent converter (some (parsed t)) (some (unparsed v)) ≡ raise type_error
  unfolding max_most_recent
  mixed t v truthy = simp truthy

-- A message whose slice has a most recent value is read back with that value unparsed. The next
-- closed slice that touches it and has observed a record makes the merge raise, and serializing the
-- state raises too.
pub deserialize-unparsed :
    {V : Type 0} (converter : Converter V) (s : MessageInterval V) (legacy : Option (Dict String V))
    → (a b t : ℕ) (v : V) (current : Interval V) → converter.parse_timestamp s.start ≡ ok a
    → converter.parse_timestamp s.end ≡ ok b
    → s.most_recent ≡ some v
    → converter.is_truthy v ≡ true
    → a < current.start
    → current.start ≤ converter.increment b
    → current.most_recent ≡ some (parsed t)
    → (state : ConcurrentState V) × (deserialize converter (some (s ∷ [])) legacy ≡ ok state)
      × (merge_intervals converter (or_empty state.slices ++ current ∷ []) ≡ raise type_error)
      × (serialize converter state ≡ raise attribute_error)
unfolding deserialize serialize
deserialize-unparsed converter s legacy a b t v current ha hb hv truthy after near hc = (
  record {
    slices = some (record { start = a; end = b; most_recent = some (unparsed v) } ∷ []);
    legacy = legacy;
  },
  rw (ha, hb, hv),
  merge_two converter (record { start = a; end = b; most_recent = some (unparsed v) }) current after
      near (simp (hc, mixed converter t v truthy)),
  simp truthy,
)
