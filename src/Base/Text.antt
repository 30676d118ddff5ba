-- ===== src/Base/Text.antt =====
-- Text as lists of character codes: `std::string` literals, `std::getline`, `std::isspace`,
-- `std::to_string` and `std::stoul`, as the servers and the metrics use them.
pub mod Laws
use Prim.Native.Char.{code}
use Prim.Native.String.{String}
use mathlib.Core.Option
use chain_forge.Base.Tests.{ltb, leb, if◌then◌else◌}
use chain_forge.Base.Keys.{◌==◌, nat_eq}
use Prim.Native.Nat.{ℕ, zero, suc, ◌+◌, ◌-◌, ◌*◌, ◌/◌, ◌%◌, ◌^◌}
use mathlib.Core.Bool.{Bool, true, false, not, ◌&&◌, ◌||◌}
use mathlib.Core.Option.{Option, none, some}
use mathlib.Core.List.{List, [], ◌∷◌, ◌++◌}

abbrev pub Text : Type 0
Text = List ℕ

-- A string literal. `String` has its own `[]` and `∷`.
abbrev pub codes : String → Text
codes String.[] = []
codes (String.◌∷◌ c s) = code c ∷ codes s

-- What stands before and behind the first `d`: `find`, then the two calls of `substr`.
unfoldable pub cut : ℕ → Text → Option (Text × Text)
cut d [] = none
cut d (c ∷ cs) = if c == d then some ([], cs) else Option.map (λ r. (c ∷ r.0, r.1)) (cut d cs)

-- `std::isspace` in the C locale
unfoldable pub is_space : ℕ → Bool
is_space c = c == b' ' || leb 9 c && leb c 13

unfoldable pub drop_spaces : Text → Text
drop_spaces [] = []
drop_spaces (c ∷ cs) = if is_space c then drop_spaces cs else c ∷ cs

unfoldable pub drop_spaces_end : Text → Text
drop_spaces_end [] = []
drop_spaces_end (c ∷ cs) = elim (drop_spaces_end cs) [
  | [] ↦ if is_space c then [] else c ∷ []
  | y ∷ ys ↦ c ∷ y ∷ ys
]

-- The characters up to the first white space, and the others.
unfoldable pub word : Text → Text × Text
word [] = ([], [])
word (c ∷ cs) = let rest = word cs in if is_space c then ([], c ∷ cs) else (c ∷ rest.0, rest.1)

-- An input stream: what is not read yet, and whether it is still good.
pub record Stream : Type 0 where
  pub good : Bool
  pub rest : Text

-- `std::getline(stream, line, d)`, `none` where it fails. A line that the end cuts off is read, and
-- the stream is no longer good.
unfoldable pub getline : ℕ → Stream → Option (Text × Stream)
getline d s = if not s.good then none else elim (cut d s.rest) [
  | some (line, behind) ↦ some (line, record { good = true; rest = behind })
  | none ↦ elim s.rest [ [] ↦ none | c ∷ cs ↦ some (c ∷ cs, record { good = false; rest = [] }) ]
]

-- `std::to_string` of an unsigned number, in front of `rest`. 20 digits hold every 64-bit number.
unfoldable pub decimal : ℕ → ℕ → Text → Text
decimal zero n rest = rest
decimal (suc f) n rest =
    if ltb n 10 then (b'0' + n) ∷ rest else decimal f (n / 10) ((b'0' + n % 10) ∷ rest)

abbrev pub to_string : ℕ → Text
to_string n = decimal 20 n []

abbrev pub is_digit : ℕ → Bool
is_digit c = leb b'0' c && leb c b'9'

unfoldable pub read_digits : ℕ → Text → ℕ
read_digits v [] = v
read_digits v (c ∷ cs) = if is_digit c then read_digits (v * 10 + (c - b'0')) cs else v

-- Digits are asked for, and a number beyond 64 bits is out of range.
abbrev pub unsigned_of : Text → Option ℕ
unsigned_of [] = none
unsigned_of (c ∷ cs) =
    let v = read_digits 0 (c ∷ cs) in
    if is_digit c then if ltb v (2 ^ 64) then some v else none else none

abbrev pub signed_of : Text → Option ℕ
signed_of [] = none
signed_of (c ∷ cs) =
    if c == b'-'
    then Option.map (λ v. (2 ^ 64 - v) % 2 ^ 64) (unsigned_of cs)
    else if c == b'+'
    then unsigned_of cs
    else unsigned_of (c ∷ cs)

-- `std::stoul` with 64-bit `unsigned long`, `none` where it throws. A minus sign wraps around.
unfoldable pub stoul : Text → Option ℕ
unfolding drop_spaces
stoul t = signed_of (drop_spaces t)
