-- ===== src/Rpc/Http/Lines.antt =====
-- How the loops over lines consume their stream.
use chain_forge.Base.{
  inr, inl, ℕ, zero, suc, ◌<◌, ◌≡◌, refl, some, [], ◌∷◌, length, arith, Option-cases,
}
use chain_forge.Base.Text.{Text, cut, Stream, getline}
use chain_forge.Rpc.Http.{header_lines}

cut_shorter : (d : ℕ) (t a b : Text) → cut d t ≡ some (a, b) → length b < length t
unfolding cut
cut_shorter d [] a b h = cc
cut_shorter d (c ∷ cs) a b h = elim (Option-cases (cut d cs)) [
  | inl e ↦ ground (arith)
  | inr (r, e) ↦ ground (arith, cut_shorter d cs r.0 r.1 e)
]

-- A call that succeeds leaves less to read.
pub getline_shorter :
    (d : ℕ) (s s' : Stream) (line : Text)
    → getline d s ≡ some (line, s')
    → length s'.rest < length s.rest
unfolding getline
getline_shorter d s s' line h = elim (Option-cases (cut d s.rest)) [
  | inl e ↦ ground arith
  | inr (r, e) ↦ ground (arith, cut_shorter d s.rest r.0 r.1 e)
]

-- Any fuel above the length of the rest gives the same lines.
pub header_lines_fuel :
    (f g : ℕ) (s : Stream)
    → length s.rest < f
    → length s.rest < g
    → header_lines f s ≡ header_lines g s
unfolding header_lines
header_lines_fuel zero g s hf hg = absurd (omega arith)
header_lines_fuel (suc f) zero s hf hg = absurd (omega arith)
header_lines_fuel (suc f) (suc g) s hf hg = elim (Option-cases (getline b'\n' s)) [
  | inl e ↦ rw (e, header_lines) refl
  | inr (([], s'), e) ↦ rw (e, header_lines) refl
  | inr ((c ∷ cs, s'), e) ↦
      let shorter = getline_shorter b'\n' s s' (c ∷ cs) e in
      let same = header_lines_fuel f g s' (omega (arith, shorter)) (omega (arith, shorter)) in
      rw (e, header_lines) (rw same refl)
]
