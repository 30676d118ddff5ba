-- ===== src/Storage/Iterator/Order.antt =====
-- The order of keys, and the lists that keep it.
use chain_forge.Core.Bytes.{Bytes, bytes_less}
use chain_forge.Storage.Types.{Key}
use chain_forge.Storage.Iterator.{insert_sorted, sort}
use chain_forge.Base.{not, inr, inl, all, ◌≡◌, refl, true, false, List, [], ◌∷◌, arith, Bool-cases}

pub bytes_less_asym : (x y : Bytes) → bytes_less x y ≡ true → bytes_less y x ≡ false
unfolding bytes_less
bytes_less_asym [] [] l = refl
bytes_less_asym [] (b ∷ y) l = refl
bytes_less_asym (a ∷ x) [] l = ground arith
bytes_less_asym (a ∷ x) (b ∷ y) l = let rest = bytes_less_asym x y in ground (arith, rest)

not_less_trans :
    (x y z : Bytes) → bytes_less y x ≡ false → bytes_less z y ≡ false → bytes_less z x ≡ false
unfolding bytes_less
not_less_trans [] y z l m = refl
not_less_trans (a ∷ x) [] z l m = ground arith
not_less_trans (a ∷ x) (b ∷ y) [] l m = ground arith
not_less_trans (a ∷ x) (b ∷ y) (c ∷ z) l m = let rest = not_less_trans x y z in ground (arith, rest)

pub not_less_eq : (x y : Bytes) → bytes_less x y ≡ false → bytes_less y x ≡ false → x ≡ y
unfolding bytes_less
not_less_eq [] [] l m = refl
not_less_eq [] (b ∷ y) l m = ground arith
not_less_eq (a ∷ x) [] l m = ground arith
not_less_eq (a ∷ x) (b ∷ y) l m = let rest = not_less_eq x y in ground (arith, rest)

-- No key is less than one before it.
abbrev pub IsSorted : List Key → Type 0
IsSorted [] = Unit
IsSorted (k ∷ ks) = (all (λ z. not (bytes_less z k)) ks ≡ true) × IsSorted ks

all-insert_sorted :
    (k x : Key) (ks : List Key)
    → bytes_less x k ≡ false
    → all (λ z. not (bytes_less z k)) ks ≡ true
    → all (λ z. not (bytes_less z k)) (insert_sorted x ks) ≡ true
unfolding insert_sorted
all-insert_sorted k x [] l m = ground arith
all-insert_sorted k x (y ∷ ys) l m =
    let rest = all-insert_sorted k x ys l in
    elim (Bool-cases (bytes_less y x)) [
      | inl e ↦ rw e (ground (arith, rest))
      | inr e ↦ rw e (ground (arith, rest))
    ]

all-weaken :
    (k x : Key) (ks : List Key)
    → bytes_less k x ≡ false
    → all (λ z. not (bytes_less z k)) ks ≡ true
    → all (λ z. not (bytes_less z x)) ks ≡ true
all-weaken k x [] l m = refl
all-weaken k x (y ∷ ys) l m =
    let rest = all-weaken k x ys l in
    let step = not_less_trans x k y l in ground (arith, rest, step)

insert_sorted-IsSorted : (x : Key) (ks : List Key) → IsSorted ks → IsSorted (insert_sorted x ks)
unfolding insert_sorted
insert_sorted-IsSorted x [] s = (refl, tt)
insert_sorted-IsSorted x (y ∷ ys) (h, s) = elim (Bool-cases (bytes_less y x)) [
  | inl e ↦ rw e (all-insert_sorted y x ys (bytes_less_asym y x e) h, insert_sorted-IsSorted x ys s)
  | inr e ↦ rw e (ground (arith, all-weaken y x ys e h), (h, s))
]

pub sort-IsSorted : (ks : List Key) → IsSorted (sort ks)
unfolding sort
sort-IsSorted [] = tt
sort-IsSorted (k ∷ ks) = insert_sorted-IsSorted k (sort ks) (sort-IsSorted ks)
