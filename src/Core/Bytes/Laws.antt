-- ===== src/Core/Bytes/Laws.antt =====
-- Laws of the byte arrays: sizes, the big-endian round trip and the hexadecimal round trip.
use chain_forge.Base.{
  all, ◌||◌, not, leb, ℕ, zero, suc, ◌*◌, ◌/◌, ◌%◌, ◌≤◌, ◌<◌, ◌≡◌, refl, ap, Bool, true, false,
  ◌&&◌, List, [], ◌∷◌, ◌++◌, ◌==◌, length, take, All, arith, nat_eq,
}
use chain_forge.Core.Exceptions.{Result, ok}
use chain_forge.Core.Bytes.{
  throw, Bytes, IsArray, fit, be_bytes, to_hex, hex_digit, hex_byte, hex_bytes, from_hex,
}

pub length-fit : (n : ℕ) (xs : Bytes) → length (fit n xs) ≡ n
unfolding fit
length-fit zero xs = refl
length-fit (suc n) [] = ap suc (length-fit n [])
length-fit (suc n) (x ∷ xs) = ap suc (length-fit n xs)

pub fit-eq-take : (n : ℕ) (xs : Bytes) → n ≤ length xs → fit n xs ≡ take n xs
unfolding fit
fit-eq-take zero xs h = refl
fit-eq-take (suc n) [] h = absurd (omega arith)
fit-eq-take (suc n) (x ∷ xs) h = ap (◌∷◌ x) (fit-eq-take n xs (omega arith))

pub fit-All : (n : ℕ) (xs : Bytes) → All (λ b. b < 256) xs → All (λ b. b < 256) (fit n xs)
unfolding fit
fit-All zero xs h = tt
fit-All (suc n) [] h = (omega arith, fit-All n [] tt)
fit-All (suc n) (x ∷ xs) h = (h.0, fit-All n xs h.1)

pub All-append {ℓ κ} :
    {A : Type ℓ} (P : A → Type κ) (xs ys : List A) → All P xs → All P ys → All P (xs ++ ys)
All-append P [] ys hx hy = hy
All-append P (x ∷ xs) ys hx hy = (hx.0, All-append P xs ys hx.1 hy)

pub All-take {ℓ κ} :
    {A : Type ℓ} (P : A → Type κ) (n : ℕ) (xs : List A) → All P xs → All P (take n xs)
All-take P zero xs h = tt
All-take P (suc n) [] h = tt
All-take P (suc n) (x ∷ xs) h = (h.0, All-take P n xs h.1)

pub length-be_bytes : (n v : ℕ) → length (be_bytes n v) ≡ n
unfolding be_bytes
length-be_bytes zero v = refl
length-be_bytes (suc n) v = ap suc (length-be_bytes n v)

pub be_bytes-All : (n v : ℕ) → All (λ b. b < 256) (be_bytes n v)
unfolding be_bytes
be_bytes-All zero v = tt
be_bytes-All (suc n) v = (omega arith, be_bytes-All n v)

-- Every value of a byte survives the two characters: a test of all the numbers below a bound.
below : (ℕ → Bool) → ℕ → Bool
below test zero = true
below test (suc bound) = below test bound && test bound

below_sound : (test : ℕ → Bool) (bound v : ℕ) → v < bound → below test bound ≡ true → test v ≡ true
unfolding below
below_sound test zero v small e = absurd (omega arith)
below_sound test (suc bound) v small e = ground (arith, below_sound test bound v)

abbrev reads_back : ℕ → Bool
reads_back b = elim (hex_byte (hex_digit (b / 16) ∷ hex_digit (b % 16) ∷ [])) [
  | ok c ↦ c == b
  | _ ↦ false
]

reads_back_table : below reads_back 256 ≡ true
unfolding below hex_byte
reads_back_table = refl

reads_back_lem : (r : Result ℕ) (b : ℕ) → elim r [ ok c ↦ c == b | _ ↦ false ] ≡ true → r ≡ ok b
reads_back_lem (ok c) b h = ap ok ((nat_eq.beq_iff c b).0 h)
reads_back_lem _ b h = cc

hex_byte-digits : (b : ℕ) → b < 256 → hex_byte (hex_digit (b / 16) ∷ hex_digit (b % 16) ∷ []) ≡ ok b
hex_byte-digits b h = reads_back_lem _ b (below_sound reads_back 256 b h reads_back_table)

pub length-to_hex : (bs : Bytes) → length (to_hex bs) ≡ length bs * 2
unfolding to_hex
length-to_hex [] = refl
length-to_hex (b ∷ bs) = omega (arith, length-to_hex bs)

hex_bytes-to_hex : (bs : Bytes) → All (λ b. b < 256) bs → hex_bytes (length bs) (to_hex bs) ≡ ok bs
unfolding hex_bytes to_hex
hex_bytes-to_hex [] h = refl
hex_bytes-to_hex (b ∷ bs) h = rw (hex_byte-digits b h.0, hex_bytes-to_hex bs h.1)

-- Printing an array of `n` bytes in hexadecimal and constructing an array of `n` bytes from the
-- text gives the array back.
pub from_hex-to_hex : (n : ℕ) (bs : Bytes) → IsArray n bs → from_hex n (to_hex bs) ≡ ok bs
unfolding from_hex
from_hex-to_hex n bs h = ground (arith, length-to_hex bs, read)
  where
    read : hex_bytes n (to_hex bs) ≡ ok bs
    read = rw (← h.0) (hex_bytes-to_hex bs h.1)

-- `std::isxdigit`
abbrev pub is_xdigit : ℕ → Bool
is_xdigit c = leb b'0' c && leb c b'9' || leb b'a' c && leb c b'f' || leb b'A' c && leb c b'F'

abbrev is_ok : Result ℕ → Bool
is_ok (ok b) = true
is_ok (throw e) = false

abbrev pair_reads : ℕ → ℕ → Bool
pair_reads c d = not (is_xdigit c && is_xdigit d) || is_ok (hex_byte (c ∷ d ∷ []))

pair_table : below (λ c. below (pair_reads c) 103) 103 ≡ true
unfolding below hex_byte
pair_table = refl

is_ok_lem : (r : Result ℕ) → is_ok r ≡ true → (b : ℕ) × (r ≡ ok b)
is_ok_lem (ok b) h = (b, refl)
is_ok_lem (throw e) h = ground arith

hex_byte-xdigits :
    (c d : ℕ) → is_xdigit c ≡ true → is_xdigit d ≡ true → (b : ℕ) × (hex_byte (c ∷ d ∷ []) ≡ ok b)
hex_byte-xdigits c d h k =
    let row = below_sound (λ x. below (pair_reads x) 103) 103 c (ground arith) pair_table in
    let here = below_sound (pair_reads c) 103 d (ground arith) row in
    is_ok_lem (hex_byte (c ∷ d ∷ [])) (ground arith)

both : (a b : Bool) → (a && b) ≡ true → (a ≡ true) × (b ≡ true)
both true b h = (refl, h)
both false b h = ground arith

hex_bytes-xdigits :
    (n : ℕ) (s : List ℕ)
    → length s ≡ n * 2
    → all is_xdigit s ≡ true
    → (bs : Bytes) × (hex_bytes n s ≡ ok bs)
unfolding hex_bytes
hex_bytes-xdigits zero s l h = ([], refl)
hex_bytes-xdigits (suc n) [] l h = absurd (omega arith)
hex_bytes-xdigits (suc n) (c ∷ []) l h = absurd (omega arith)
hex_bytes-xdigits (suc n) (c ∷ d ∷ s) l h =
    let (hc, rest) = both (is_xdigit c) (is_xdigit d && all is_xdigit s) h in
    let (hd, hs) = both (is_xdigit d) (all is_xdigit s) rest in
    let (b, e) = hex_byte-xdigits c d hc hd in
    let (bs, p) = hex_bytes-xdigits n s (omega arith) hs in (b ∷ bs, rw (e, p) refl)

-- Hexadecimal digits in the right number are read without an exception.
pub from_hex-xdigits :
    (n : ℕ) (s : List ℕ)
    → length s ≡ n * 2
    → all is_xdigit s ≡ true
    → (bs : Bytes) × (from_hex n s ≡ ok bs)
unfolding from_hex
from_hex-xdigits n s l h = let (bs, e) = hex_bytes-xdigits n s l h in (bs, rw (l, e) (ground arith))
