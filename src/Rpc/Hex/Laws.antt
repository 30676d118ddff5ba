-- ===== src/Rpc/Hex/Laws.antt =====
-- Hexadecimal text reads back, for numbers that are printed and for any text that passes the test.
use chain_forge.Base.{
  ◌≢◌, inr, inl, Bool-cases, arith, ℕ, zero, suc, ◌/◌, ◌%◌, ◌^◌, ◌≡◌, ◌<◌, refl, true, false, some,
  [], ◌∷◌, nat_eq, ltb, all,
}
use chain_forge.Base.Text.{is_space, Text, drop_spaces}
use chain_forge.Rpc.Hex.{
  hex_digit, hex_digits, number_to_hex, is_hex_digit, hex_value, read_hex, stoull_16, hex_to_number,
  is_valid_hex,
}

digit_lem : (d : ℕ) → d < 16 → (is_hex_digit (hex_digit d) ≡ true) × (hex_value (hex_digit d) ≡ d)
unfolding is_hex_digit hex_value
digit_lem d h = ground arith

read_hex-hex_digits :
    (f n : ℕ) (rest : Text) → n < 16 ^ f → read_hex 0 (hex_digits f n rest) ≡ read_hex n rest
unfolding hex_digits read_hex
read_hex-hex_digits zero n rest h = let e : n ≡ 0 = omega arith in rw e refl
read_hex-hex_digits (suc f) n rest h = elim (Bool-cases (ltb n 16)) [
  | inl e ↦ ground (arith, digit_lem n)
  | inr e ↦
      ground (arith, digit_lem (n % 16), read_hex-hex_digits f (n / 16) (hex_digit (n % 16) ∷ rest))
]

hex_digits-all :
    (f n : ℕ) (rest : Text)
    → all is_hex_digit rest ≡ true
    → all is_hex_digit (hex_digits f n rest) ≡ true
unfolding hex_digits
hex_digits-all zero n rest h = h
hex_digits-all (suc f) n rest h =
    ground (
      arith,
      digit_lem n,
      digit_lem (n % 16),
      hex_digits-all f (n / 16) (hex_digit (n % 16) ∷ rest),
    )

-- A digit is no white space, no sign and no `x`.
digit_class :
    (c : ℕ)
    → is_hex_digit c ≡ true
    → (is_space c ≡ false) × (c ≢ b'-') × (c ≢ b'+') × (c ≢ b'x') × (c ≢ b'X')
unfolding is_hex_digit is_space
digit_class c h = ground arith

-- Digits alone are read as a number, where it fits 64 bits.
stoull_16-digits :
    (c : ℕ) (cs : Text)
    → all is_hex_digit (c ∷ cs) ≡ true
    → read_hex 0 (c ∷ cs) < 2 ^ 64
    → stoull_16 (c ∷ cs) ≡ some (read_hex 0 (c ∷ cs))
unfolding stoull_16 drop_spaces
stoull_16-digits c [] a l = ground (arith, digit_class c)
stoull_16-digits c (d ∷ []) a l = ground (arith, digit_class c)
stoull_16-digits c (d ∷ e ∷ cs) a l = ground (arith, digit_class c, digit_class d)

-- `0x` and at least one digit
hex_to_number-digits :
    (c : ℕ) (cs : Text)
    → all is_hex_digit (c ∷ cs) ≡ true
    → read_hex 0 (c ∷ cs) < 2 ^ 64
    → (hex_to_number (b'0' ∷ b'x' ∷ c ∷ cs) ≡ read_hex 0 (c ∷ cs))
      × (is_valid_hex (b'0' ∷ b'x' ∷ c ∷ cs) 0 ≡ true)
unfolding hex_to_number is_valid_hex
hex_to_number-digits c cs a l = (rw (stoull_16-digits c cs a l) refl, a)

hex_to_number-text :
    (t : Text) (n : ℕ)
    → t ≢ []
    → all is_hex_digit t ≡ true
    → read_hex 0 t ≡ n
    → n < 2 ^ 64
    → (hex_to_number (b'0' ∷ b'x' ∷ t) ≡ n) × (is_valid_hex (b'0' ∷ b'x' ∷ t) 0 ≡ true)
hex_to_number-text [] n ne a e l = absurd (ne refl)
hex_to_number-text (c ∷ cs) n ne a e l = rw e at (hex_to_number-digits c cs a (rw e l))

hex_digits-nonempty : (f n c : ℕ) (cs : Text) → hex_digits f n (c ∷ cs) ≢ []
unfolding hex_digits
hex_digits-nonempty zero n c cs e = cc
hex_digits-nonempty (suc f) n c cs e = elim (Bool-cases (ltb n 16)) [
  | inl b ↦ ground arith
  | inr b ↦ ground (arith, hex_digits-nonempty f (n / 16) (hex_digit (n % 16)) (c ∷ cs))
]

hex_digits-printed : (n : ℕ) → hex_digits 16 n [] ≢ []
unfolding hex_digits
hex_digits-printed n e = elim (Bool-cases (ltb n 16)) [
  | inl b ↦ ground arith
  | inr b ↦ ground (arith, hex_digits-nonempty 15 (n / 16) (hex_digit (n % 16)) [])
]

-- A 64-bit number printed in hexadecimal is read back as itself, and the text passes the test for
-- hexadecimal text of any length.
pub hex_to_number-number_to_hex :
    (n : ℕ)
    → n < 2 ^ 64
    → (hex_to_number (number_to_hex n) ≡ n) × (is_valid_hex (number_to_hex n) 0 ≡ true)
unfolding number_to_hex read_hex
hex_to_number-number_to_hex n l =
    hex_to_number-text (hex_digits 16 n []) n (hex_digits-printed n) (hex_digits-all 16 n [] refl)
      (read_hex-hex_digits 16 n [] (omega arith)) l
