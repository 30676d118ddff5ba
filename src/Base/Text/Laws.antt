-- ===== src/Base/Text/Laws.antt =====
-- Laws of lines, words and numbers in text.

-- No `d` stands in the text.
use chain_forge.Base.Text.{
  not, Text, cut, is_space, drop_spaces, word, getline, decimal, to_string, read_digits, stoul,
  is_digit,
}
use chain_forge.Base.Tests.{ltb, Bool-cases}
use chain_forge.Base.Keys.{◌==◌, nat_eq}
use Prim.Native.Nat.{ℕ, zero, suc, ◌+◌, ◌/◌, ◌%◌, ◌^◌, ◌<◌}
use mathlib.Core.Path.{◌≡◌, refl, ◌∙◌}
use mathlib.Core.Logic.{inr, inl}
use mathlib.Core.Bool.{Bool, true, false, ◌&&◌}
use mathlib.Core.Option.{none, some}
use mathlib.Core.List.{[], ◌∷◌, ◌++◌}
use native.Mathlib.Omega.{arith}

abbrev pub lacks : ℕ → Text → Bool
lacks d [] = true
lacks d (c ∷ cs) = not (c == d) && lacks d cs

pub cut-append : (d : ℕ) (a b : Text) → lacks d a ≡ true → cut d (a ++ d ∷ b) ≡ some (a, b)
unfolding cut
cut-append d [] b h = ground arith
cut-append d (c ∷ cs) b h = ground (arith, cut-append d cs b)

pub cut-none : (d : ℕ) (a : Text) → lacks d a ≡ true → cut d a ≡ none
unfolding cut
cut-none d [] h = refl
cut-none d (c ∷ cs) h = ground (arith, cut-none d cs)

pub getline-append :
    (d : ℕ) (a b : Text)
    → lacks d a ≡ true
    → getline d (record { good = true; rest = a ++ d ∷ b })
      ≡ some (a, record { good = true; rest = b })
unfolding getline
getline-append d a b h = rw (cut-append d a b h) refl

-- A text without white space.
abbrev pub is_word : Text → Bool
is_word [] = true
is_word (c ∷ cs) = not (is_space c) && is_word cs

pub word-append :
    (a b : Text) (c : ℕ) → is_word a ≡ true → is_space c ≡ true → word (a ++ c ∷ b) ≡ (a, c ∷ b)
unfolding word
word-append [] b c h s = ground arith
word-append (x ∷ xs) b c h s = ground (arith, word-append xs b c)

pub read_digits-decimal :
    (f n : ℕ) (rest : Text) → n < 10 ^ f → read_digits 0 (decimal f n rest) ≡ read_digits n rest
unfolding decimal read_digits
read_digits-decimal zero n rest h = let e : n ≡ 0 = omega arith in rw e
read_digits-decimal (suc f) n rest h = elim (Bool-cases (ltb n 10)) [
  | inl e ↦ ground arith
  | inr e ↦ ground (arith, read_digits-decimal f (n / 10) ((b'0' + n % 10) ∷ rest))
]

-- The first character of a printed number is a digit.
abbrev starts_with_digit : Text → Bool
starts_with_digit [] = false
starts_with_digit (c ∷ cs) = is_digit c

decimal-digit : (f n : ℕ) (rest : Text) → starts_with_digit (decimal (suc f) n rest) ≡ true
unfolding decimal
decimal-digit zero n rest = ground arith
decimal-digit (suc f) n rest = ground (arith, decimal-digit f (n / 10) ((b'0' + n % 10) ∷ rest))

stoul_digits :
    (t : Text)
    → starts_with_digit t ≡ true
    → read_digits 0 t < 2 ^ 64
    → stoul t ≡ some (read_digits 0 t)
unfolding stoul drop_spaces is_space
stoul_digits [] d h = cc
stoul_digits (c ∷ cs) d h = ground arith

-- A 64-bit number is read back from its decimal text.
pub stoul-to_string : (n : ℕ) → n < 2 ^ 64 → stoul (to_string n) ≡ some n
unfolding read_digits
stoul-to_string n h =
    let e = read_digits-decimal 20 n [] (omega arith) in
    let small : read_digits 0 (to_string n) < 2 ^ 64 = rw e h in
    stoul_digits (to_string n) (decimal-digit 19 n []) small ∙ rw e
