-- ===== src/Core/Bytes.antt =====
-- Fixed-size byte arrays, big-endian integers and hexadecimal text, as address.cpp, hash.cpp,
-- transaction.cpp and block.cpp of modules/core/src use them.
pub mod Laws
pub mod BigEndian
use chain_forge.Base.{
  ℕ, zero, suc, ◌+◌, ◌-◌, ◌*◌, ◌/◌, ◌%◌, ◌^◌, ◌<◌, ◌≡◌, Bool, true, false, ◌&&◌, ◌||◌, Option, none,
  some, List, [], ◌∷◌, ◌==◌, nat_eq, ltb, leb, if◌then◌else◌, length, take, drop, All, all,
}
use chain_forge.Core.Exceptions.{Result, ok, throw, ◌>>=◌, ◌>>◌, throw_if, Exception}

-- A vector of `uint8_t`, or a `std::array` of a fixed size.
abbrev pub Bytes : Type 0
Bytes = List ℕ

abbrev pub IsArray : ℕ → Bytes → Type 0
IsArray n bs = (length bs ≡ n) × All (λ b. b < 256) bs

-- A zeroed array of `n` bytes into which `min(size, n)` bytes are copied.
unfoldable pub fit : ℕ → Bytes → Bytes
fit zero xs = []
fit (suc n) [] = 0 ∷ fit n []
fit (suc n) (x ∷ xs) = x ∷ fit n xs

-- `for (int i = n - 1; i >= 0; --i) push_back((v >> (i * 8)) & 0xFF)`
unfoldable pub be_bytes : ℕ → ℕ → Bytes
be_bytes zero v = []
be_bytes (suc i) v = v / 2 ^ (i * 8) % 256 ∷ be_bytes i v

-- `value = (value << 8) | byte`, byte by byte.
unfoldable pub be_value : ℕ → Bytes → ℕ
be_value acc [] = acc
be_value acc (b ∷ bs) = be_value (acc * 256 + b) bs

unfoldable pub all_zero : Bytes → Bool
all_zero bs = all (λ b. b == 0) bs

-- `operator<` of `std::array`: lexicographic.
unfoldable pub bytes_less : Bytes → Bytes → Bool
bytes_less xs [] = false
bytes_less [] (y ∷ ys) = true
bytes_less (x ∷ xs) (y ∷ ys) =
    let rest = bytes_less xs ys in if ltb x y then true else if ltb y x then false else rest

-- One digit as `std::hex` prints it.
abbrev hex_digit : ℕ → ℕ
hex_digit d = if ltb d 10 then 48 + d else 87 + d

-- `std::setw(2)` with the fill `0`, for every byte.
unfoldable pub to_hex : Bytes → List ℕ
to_hex [] = []
to_hex (b ∷ bs) = hex_digit (b / 16) ∷ hex_digit (b % 16) ∷ to_hex bs

abbrev digit_value : ℕ → Option ℕ
digit_value c =
    if leb 48 c && leb c 57
    then some (c - 48)
    else if leb 97 c && leb c 102
    then some (c - 87)
    else if leb 65 c && leb c 70
    then some (c - 55)
    else none

-- The digits of `strtol` up to the first other character; `none` if there is none.
hex_digits : Option ℕ → List ℕ → Option ℕ
hex_digits acc [] = acc
hex_digits acc (c ∷ cs) = elim (digit_value c) [
  | none ↦ acc
  | some d ↦ hex_digits (some (elim acc [ none ↦ d | some v ↦ v * 16 + d ])) cs
]

abbrev is_space : ℕ → Bool
is_space c = c == 32 || (leb 9 c && leb c 13)

skip_spaces : List ℕ → List ℕ
skip_spaces [] = []
skip_spaces (c ∷ cs) = let rest = skip_spaces cs in if is_space c then rest else c ∷ cs

abbrev starts_with_digit : List ℕ → Bool
starts_with_digit [] = false
starts_with_digit (c ∷ cs) = elim (digit_value c) [ none ↦ false | some _ ↦ true ]

-- An optional `0x` counts only before a digit.
skip_prefix : List ℕ → List ℕ
skip_prefix (z ∷ x ∷ cs) =
    if z == 48 && (x == 120 || x == 88) && starts_with_digit cs then cs else z ∷ x ∷ cs
skip_prefix cs = cs

-- `static_cast<uint8_t>(std::stoi(s, nullptr, 16))`; a short text cannot leave the range of `int`.
signed_byte : List ℕ → Option ℕ
unfolding hex_digits skip_prefix
signed_byte [] = none
signed_byte (c ∷ cs) =
    if c == 45
    then elim (hex_digits none (skip_prefix cs)) [
      | none ↦ none
      | some v ↦ some ((256 - v % 256) % 256)
    ]
    else elim (hex_digits none (skip_prefix (if c == 43 then cs else c ∷ cs))) [
      | none ↦ none
      | some v ↦ some (v % 256)
    ]

hex_byte : List ℕ → Result ℕ
unfolding skip_spaces signed_byte
hex_byte s = elim (signed_byte (skip_spaces s)) [
  | none ↦ throw Exception.invalid_argument
  | some b ↦ ok b
]

-- Two characters to a byte, `substr(i * 2, 2)` for each `i` below `n`.
hex_bytes : ℕ → List ℕ → Result Bytes
unfolding hex_byte
hex_bytes zero s = ok []
hex_bytes (suc n) s = do b ← hex_byte (take 2 s); bs ← hex_bytes n (drop 2 s); ok (b ∷ bs)

-- The constructors of `Hash` and `Address` from text.
unfoldable pub from_hex : ℕ → List ℕ → Result Bytes
unfolding hex_bytes
from_hex n s = do
  throw_if (if length s == n * 2 then false else true) Exception.invalid_argument
  hex_bytes n s

-- The constructors of `Hash` and `Address` from a vector.
unfoldable pub from_vector : ℕ → Bytes → Result Bytes
from_vector n bs = do
  throw_if (if length bs == n then false else true) Exception.invalid_argument
  ok bs
