-- ===== src/Errors/Expected.antt =====
-- modules/core/include/chainforge/core/expected.hpp. The overloads for lvalues and rvalues compute
-- the same results.
pub mod Void
pub mod Laws
use chain_forge.Base.{Bool, true, false, Option, none, some}

-- `std::variant<T, E>` with its two alternatives
pub data Expected (T E : Type 0) : Type 0 where
  of_value : T → Expected T E
  of_error : E → Expected T E

module _ {T E : Type 0} where
  abbrev pub has_value : Expected T E → Bool
  has_value (of_value v) = true
  has_value (of_error e) = false

  -- `value()` and `error()`: `none` where `std::bad_variant_access` is thrown.
  unfoldable pub value : Expected T E → Option T
  value (of_value v) = some v
  value (of_error e) = none

  unfoldable pub error : Expected T E → Option E
  error (of_value v) = none
  error (of_error e) = some e

  unfoldable pub value_or : T → Expected T E → T
  value_or default (of_value v) = v
  value_or default (of_error e) = default

  unfoldable pub transform : {U : Type 0} → (T → U) → Expected T E → Expected U E
  transform f (of_value v) = of_value (f v)
  transform f (of_error e) = of_error e

  unfoldable pub transform_error : {F : Type 0} → (E → F) → Expected T E → Expected T F
  transform_error f (of_value v) = of_value v
  transform_error f (of_error e) = of_error (f e)

  unfoldable pub and_then : {U : Type 0} → (T → Expected U E) → Expected T E → Expected U E
  and_then f (of_value v) = f v
  and_then f (of_error e) = of_error e

  -- The result type is `expected<T, F>` with the result type `F` of the function as its error type,
  -- into which what the function returns is converted.
  unfoldable pub or_else : {F : Type 0} → (E → F) → Expected T E → Expected T F
  or_else f (of_value v) = of_value v
  or_else f (of_error e) = of_error (f e)

  -- `operator==`, over those of the value and of the error
  unfoldable pub expected_beq : (T → T → Bool) → (E → E → Bool) → Expected T E → Expected T E → Bool
  expected_beq t e (of_value a) (of_value b) = t a b
  expected_beq t e (of_value a) (of_error b) = false
  expected_beq t e (of_error a) (of_value b) = false
  expected_beq t e (of_error a) (of_error b) = e a b
