-- ===== src/Errors/Expected/Laws.antt =====
-- Laws of the combinators.
use chain_forge.Base.{Bool, true, ◌≡◌, ◌↔◌, refl, arith}
use chain_forge.Errors.Expected.{
  Expected, of_value, of_error, has_value, transform, transform_error, and_then, or_else,
  expected_beq,
}

module _ {T E : Type 0} where
  -- Chains of `and_then` can be regrouped: a value passes through both functions, and the first
  -- error is what comes out; `transform` is `and_then` of a function that always succeeds.
  pub and_then-and_then :
      {U V : Type 0} (f : T → Expected U E) (g : U → Expected V E) (r : Expected T E)
      → (and_then g (and_then f r) ≡ and_then (λ v. and_then g (f v)) r)
        × (and_then of_value r ≡ r)
        × ((h : T → U) → transform h r ≡ and_then (λ v. of_value (h v)) r)
  unfolding and_then transform
  and_then-and_then f g (of_value v) = (refl, refl, λ h. refl)
  and_then-and_then f g (of_error e) = (refl, refl, λ h. refl)

  -- `or_else` with a function that returns a result again does not recover: where there was an
  -- error there still is one, which holds what the function returned, even a value.
  pub or_else-nested :
      (f : E → Expected T E) (r : Expected T E)
      → (has_value (or_else f r) ≡ has_value r) × (or_else f r ≡ transform_error f r)
  unfolding or_else transform_error
  or_else-nested f (of_value v) = (refl, refl)
  or_else-nested f (of_error e) = (refl, refl)

  -- `==` decides equality where the values and the errors have such a test.
  pub expected_beq_iff :
      (t : T → T → Bool) (e : E → E → Bool)
      → ((a b : T) → (t a b ≡ true) ↔ (a ≡ b))
      → ((a b : E) → (e a b ≡ true) ↔ (a ≡ b))
      → (r s : Expected T E) → (expected_beq t e r s ≡ true) ↔ (r ≡ s)
  unfolding expected_beq
  expected_beq_iff t e p q (of_value a) (of_value b) = ground (arith, p a b)
  expected_beq_iff t e p q (of_value a) (of_error b) = (λ h. cc, λ h. cc)
  expected_beq_iff t e p q (of_error a) (of_value b) = (λ h. cc, λ h. cc)
  expected_beq_iff t e p q (of_error a) (of_error b) = ground (arith, q a b)
