-- ===== src/Errors/Info.antt =====
-- `ErrorInfo` of modules/core/include/chainforge/core/error.hpp with its text in
-- modules/core/src/error.cpp, and the propagation utilities of error_utils.hpp.
pub mod Laws
use chain_forge.Errors.Codes.{ErrorCode}
use chain_forge.Errors.Expected.{Expected, of_value, of_error}
use chain_forge.Base.Text.{Text, codes, to_string}
use chain_forge.Base.{
  ◌+◌, ℕ, ℤ, pos, negsuc, Bool, true, false, not, ◌&&◌, List, [], ◌∷◌, ◌++◌, ◌==◌, nat_eq, bytes_eq,
  if◌then◌else◌, ltb_ℤ,
}

pub record Details : Type 0 where
  pub code : ErrorCode
  pub message : Text
  pub context : Text
  pub file : Text
  pub line : ℤ

-- An error without a cause, or with one.
pub data ErrorInfo : Type 0 where
  root : Details → ErrorInfo
  caused_by : Details → ErrorInfo → ErrorInfo

abbrev pub details : ErrorInfo → Details
details (root d) = d
details (caused_by d cause) = d

-- `ErrorInfo(c, msg, ctx)`, with no location and no cause
abbrev pub error_info : ErrorCode → Text → Text → ErrorInfo
error_info c msg ctx =
    root (record { code = c; message = msg; context = ctx; file = []; line = pos 0 })

-- `make_chained_error`
unfoldable pub make_chained_error : ErrorCode → Text → Text → ErrorInfo → ErrorInfo
make_chained_error c msg ctx cause =
    caused_by (record { code = c; message = msg; context = ctx; file = []; line = pos 0 }) cause

abbrev pub int_beq : ℤ → ℤ → Bool
int_beq (pos a) (pos b) = a == b
int_beq (pos a) (negsuc b) = false
int_beq (negsuc a) (pos b) = false
int_beq (negsuc a) (negsuc b) = a == b

abbrev pub details_beq : Details → Details → Bool
details_beq a b =
    (a.code == b.code)
    && (a.message == b.message)
    && (a.context == b.context)
    && (a.file == b.file)
    && int_beq a.line b.line

-- `operator==`, which follows the causes
unfoldable pub error_info_beq : ErrorInfo → ErrorInfo → Bool
error_info_beq (root a) (root b) = details_beq a b
error_info_beq (root a) (caused_by b d) = false
error_info_beq (caused_by a c) (root b) = false
error_info_beq (caused_by a c) (caused_by b d) = details_beq a b && error_info_beq c d

-- `std::to_string` of an `int`
abbrev int_text : ℤ → Text
int_text (pos n) = to_string n
int_text (negsuc n) = b'-' ∷ to_string (n + 1)

unfoldable pub details_to_string : Details → Text
details_to_string d =
    codes "Error "
    ++ to_string d.code
    ++ codes ": "
    ++ d.message
    ++ (if d.context == [] then [] else codes " (Context: " ++ d.context ++ codes ")")
    ++ (if not (d.file == []) && ltb_ℤ (pos 0) d.line
        then codes " [at " ++ d.file ++ codes ":" ++ int_text d.line ++ codes "]"
        else [])

-- `ErrorInfo::to_string` leaves the cause out.
abbrev pub info_to_string : ErrorInfo → Text
info_to_string e = details_to_string (details e)

unfoldable pub chain_to_string : ErrorInfo → Text
chain_to_string (root d) = details_to_string d
chain_to_string (caused_by d cause) =
    details_to_string d ++ (codes "\nCaused by: " ++ chain_to_string cause)

-- What `std::error_code::value` is compared with, in the system category.
pub data SystemError : Type 0 where
  enoent eacces enospc econnrefused etimedout other_value other_category : SystemError

abbrev code_of : SystemError → ErrorCode
code_of enoent = 2001
code_of eacces = 2002
code_of enospc = 2003
code_of econnrefused = 2005
code_of etimedout = 2006
code_of other_value = 2000
code_of other_category = 1000

unfoldable pub from_std_error : SystemError → Text → Text → ErrorInfo
from_std_error e message context = error_info (code_of e) message context

module _ {T : Type 0} where
  unfoldable pub map_error_code : ErrorCode → Expected T ErrorInfo → Expected T ErrorInfo
  map_error_code code (of_value v) = of_value v
  map_error_code code (of_error e) =
      of_error (error_info code (details e).message (details e).context)

  unfoldable pub add_context : Text → Expected T ErrorInfo → Expected T ErrorInfo
  add_context context (of_value v) = of_value v
  add_context context (of_error e) =
      let d = details e in
      of_error (
        error_info d.code d.message
          (if context == [] then d.context else d.context ++ codes " -> " ++ context))

  unfoldable pub chain_error : ErrorCode → Text → Expected T ErrorInfo → Expected T ErrorInfo
  chain_error code message (of_value v) = of_value v
  chain_error code message (of_error e) = of_error (make_chained_error code message [] e)
