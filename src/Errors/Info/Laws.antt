-- ===== src/Errors/Info/Laws.antt =====
-- What becomes of an error that is passed on.
use chain_forge.Errors.Info.{
  Text, ErrorCode, Details, ErrorInfo, root, caused_by, details_beq, error_info_beq, int_beq,
  chain_error, make_chained_error,
}
use chain_forge.Errors.Expected.{Expected, of_value, of_error}
use chain_forge.Base.{ℤ, pos, negsuc, true, List, [], ◌∷◌, ◌≡◌, ◌↔◌, refl, arith, bytes_beq_iff}

int_beq_iff : (a b : ℤ) → (int_beq a b ≡ true) ↔ (a ≡ b)
int_beq_iff (pos a) (pos b) = ground arith
int_beq_iff (pos a) (negsuc b) = (λ h. cc, λ h. cc)
int_beq_iff (negsuc a) (pos b) = (λ h. cc, λ h. cc)
int_beq_iff (negsuc a) (negsuc b) = ground arith

details_beq_iff : (a b : Details) → (details_beq a b ≡ true) ↔ (a ≡ b)
details_beq_iff a b = ground (
  arith,
  bytes_beq_iff a.message b.message,
  bytes_beq_iff a.context b.context,
  bytes_beq_iff a.file b.file,
  int_beq_iff a.line b.line,
)

-- Two errors are equal for `==` exactly when they agree in code, message, context, file and line,
-- and so do their causes, along the whole chain.
pub error_info_beq_iff : (a b : ErrorInfo) → (error_info_beq a b ≡ true) ↔ (a ≡ b)
unfolding error_info_beq
error_info_beq_iff (root a) (root b) = ground (arith, details_beq_iff a b)
error_info_beq_iff (root a) (caused_by b d) = (λ h. cc, λ h. cc)
error_info_beq_iff (caused_by a c) (root b) = (λ h. cc, λ h. cc)
error_info_beq_iff (caused_by a c) (caused_by b d) =
    ground (arith, details_beq_iff a b, error_info_beq_iff c d)

-- The causes of an error, the nearest first, down to the first error.
abbrev pub chain : ErrorInfo → List Details
chain (root d) = d ∷ []
chain (caused_by d cause) = d ∷ chain cause

abbrev pub chain_all :
    {T : Type 0} → List (ErrorCode × Text) → Expected T ErrorInfo → Expected T ErrorInfo
chain_all [] r = r
chain_all ((c, m) ∷ layers) r = chain_all layers (chain_error c m r)

abbrev pub layers_of : List (ErrorCode × Text) → List Details → List Details
layers_of [] ds = ds
layers_of ((c, m) ∷ layers) ds =
    layers_of layers (record { code = c; message = m; context = []; file = []; line = pos 0 } ∷ ds)

-- An error that passes through any number of layers, each of which chains an error of its own,
-- comes out with the errors of all layers, the last first, in front of its own causes; a value
-- passes unchanged.
pub chain_all-chain :
    {T : Type 0} (layers : List (ErrorCode × Text)) (e : ErrorInfo)
    → ((out : ErrorInfo) × (chain_all {T = T} layers (of_error e) ≡ of_error out)
        × (chain out ≡ layers_of layers (chain e)))
      × ((v : T) → chain_all layers (of_value v) ≡ of_value v)
unfolding chain_error make_chained_error
chain_all-chain [] e = ((e, refl, refl), λ v. refl)
chain_all-chain ((c, m) ∷ layers) e = chain_all-chain layers (make_chained_error c m [] e)
