-- ===== src/Errors/Expected/Void.antt =====
-- The specialization `expected<void, E>`.
use chain_forge.Base.{Bool, true, false, Option, none, some, ◌≡◌, refl}
use chain_forge.Errors.Expected.{Expected, of_value, of_error, has_value, transform, and_then}

-- `std::variant<std::monostate, E>`
pub data VoidExpected (E : Type 0) : Type 0 where
  of_nothing : VoidExpected E
  of_failure : E → VoidExpected E

module _ {E : Type 0} where
  unfoldable pub void_has_value : VoidExpected E → Bool
  void_has_value of_nothing = true
  void_has_value (of_failure e) = false

  unfoldable pub void_error : VoidExpected E → Option E
  void_error of_nothing = none
  void_error (of_failure e) = some e

  unfoldable pub void_transform : {U : Type 0} → (Unit {0} → U) → VoidExpected E → Expected U E
  void_transform f of_nothing = of_value (f tt)
  void_transform f (of_failure e) = of_error e

  unfoldable pub void_transform_error : {F : Type 0} → (E → F) → VoidExpected E → VoidExpected F
  void_transform_error f of_nothing = of_nothing
  void_transform_error f (of_failure e) = of_failure (f e)

  unfoldable pub void_and_then :
      {U : Type 0} → (Unit {0} → Expected U E) → VoidExpected E → Expected U E
  void_and_then f of_nothing = f tt
  void_and_then f (of_failure e) = of_error e

  unfoldable pub void_or_else : {F : Type 0} → (E → F) → VoidExpected E → VoidExpected F
  void_or_else f of_nothing = of_nothing
  void_or_else f (of_failure e) = of_failure (f e)

  unfoldable pub void_beq : (E → E → Bool) → VoidExpected E → VoidExpected E → Bool
  void_beq e of_nothing of_nothing = true
  void_beq e of_nothing (of_failure b) = false
  void_beq e (of_failure a) of_nothing = false
  void_beq e (of_failure a) (of_failure b) = e a b

  -- The same thing as a result without information.
  abbrev pub to_expected : VoidExpected E → Expected (Unit {0}) E
  to_expected of_nothing = of_value tt
  to_expected (of_failure e) = of_error e

  -- The specialization agrees with the template at a value without information: its test, its
  -- `transform` and its `and_then`.
  pub void-to_expected :
      {U : Type 0} (f : Unit {0} → U) (g : Unit {0} → Expected U E) (r : VoidExpected E)
      → (void_has_value r ≡ has_value (to_expected r))
        × (void_transform f r ≡ transform f (to_expected r))
        × (void_and_then g r ≡ and_then g (to_expected r))
  unfolding void_has_value void_transform void_and_then transform and_then
  void-to_expected f g of_nothing = (refl, refl, refl)
  void-to_expected f g (of_failure e) = (refl, refl, refl)
