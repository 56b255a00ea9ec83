-- ===== src/Python/Exceptions.antt =====
-- Exceptions as values. An exception is its class; the text of its message is not modelled.
use airbyte_python_cdk.Prelude.{◌≡◌, refl}

pub data Exception : Type 0 where
  value_error key_error runtime_error overflow_error type_error attribute_error : Exception
  call_rate_limit_hit exception schema_inference_error : Exception

pub data Result {ℓ} (A : Type ℓ) : Type ℓ where
  ok : A → Result A
  raise : Exception → Result A

-- A statement after one that may raise.
infixl 5 ◌>>=◌
abbrev pub ◌>>=◌ {ℓ κ} : {A : Type ℓ} {B : Type κ} → Result A → (A → Result B) → Result B
raise x >>= next = raise x
ok value >>= next = next value

-- Two statements that ran to an end: the first one returned.
pub ok_of_bind {ℓ κ} :
    {A : Type ℓ} {B : Type κ} (r : Result A) (next : A → Result B) {result : B}
    → (r >>= next) ≡ ok result
    → (value : A) × (r ≡ ok value) × (next value ≡ ok result)
ok_of_bind (raise x) next h = cc
ok_of_bind (ok value) next h = (value, refl, h)
