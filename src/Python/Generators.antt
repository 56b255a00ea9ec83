-- ===== src/Python/Generators.antt =====
-- A generator that is run to its end: the items that it yields, in order, and then how it ends.
use airbyte_python_cdk.Prelude.{List, [], ◌∷◌, ◌++◌}
use airbyte_python_cdk.Python.Exceptions.{Exception, Result, ok, raise}

-- `out_of_fuel` is no end of the program: a loop of the model ran out of its fuel.
pub data Outcome : Type 0 where
  returned : Outcome
  raised : Exception → Outcome
  out_of_fuel : Outcome

pub record Generator {ℓ} (A : Type ℓ) : Type ℓ where
  pub items : List A
  pub outcome : Outcome

module _ {ℓ} {A : Type ℓ} where
  -- `return` with nothing yielded, `yield a; return`, and `raise e`.
  abbrev pub nothing : Generator A
  nothing = record { items = []; outcome = returned }

  abbrev pub just : A → Generator A
  just a = record { items = a ∷ []; outcome = returned }

  abbrev pub fails : Exception → Generator A
  fails e = record { items = []; outcome = raised e }

  abbrev pub diverges : Generator A
  diverges = record { items = []; outcome = out_of_fuel }

  abbrev continue : List A → Outcome → Generator A → Generator A
  continue xs returned h = record { items = xs ++ h.items; outcome = h.outcome }
  continue xs (raised e) h = record { items = xs; outcome = raised e }
  continue xs out_of_fuel h = record { items = xs; outcome = out_of_fuel }

  -- `yield from g; h`
  infixr 6 ◌then_from◌
  abbrev pub ◌then_from◌ : Generator A → Generator A → Generator A
  g then_from h = continue g.items g.outcome h

  -- `yield a; g`
  abbrev pub yield_then : A → Generator A → Generator A
  yield_then a g = record { items = a ∷ g.items; outcome = g.outcome }

module _ {ℓ κ} {A : Type ℓ} {B : Type κ} where
  -- A computation that may raise before the generator goes on.
  abbrev pub run_then : Result A → (A → Generator B) → Generator B
  run_then (ok a) f = f a
  run_then (raise e) f = fails e
