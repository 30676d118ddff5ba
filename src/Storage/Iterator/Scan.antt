-- ===== src/Storage/Iterator/Scan.antt =====
-- A scan from the first key to the end.
use chain_forge.Storage.Types.{Key}
use chain_forge.Storage.Iterator.{MemoryIterator, to_i32, get_elem?, is_none, valid, next, key}
use chain_forge.Base.{
  ℕ, zero, suc, ◌+◌, ◌-◌, ◌%◌, ◌^◌, ◌<◌, ◌≡◌, refl, pos, negsuc, true, false, some, List, [], ◌∷◌,
  ◌++◌, ltb, if◌then◌else◌, length, bytes_eq, arith, length-append,
}
use mathlib.Core.List.{append-nil, append_assoc}

-- `for (it->seek_to_first(); it->valid(); it->next())`
abbrev pub collect : ℕ → MemoryIterator → List Key
collect zero it = []
collect (suc fuel) it = let rest = collect fuel (next it) in if valid it then key it ∷ rest else []

get_elem?-append : (a b : List Key) (k : Key) → get_elem? (length a) (a ++ k ∷ b) ≡ some k
get_elem?-append [] b k = refl
get_elem?-append (x ∷ a) b k = get_elem?-append a b k

-- The position of the first of the keys that are left.
abbrev pub at : List Key → List Key → MemoryIterator
at before left = record {
  keys = before ++ left;
  current_index = if is_none left then negsuc 0 else pos (length before);
}

at-valid : (before left : List Key) (k : Key) → valid (at before (k ∷ left)) ≡ true
unfolding valid
at-valid before left k = let bound = length-append before (k ∷ left) in ground (arith, bound)

at-key : (before left : List Key) (k : Key) → key (at before (k ∷ left)) ≡ k
unfolding key
at-key before left k = rw (get_elem?-append before left k) refl

wrapped_pred : (n : ℕ) → 0 < n → n < 2 ^ 31 → (n + (2 ^ 64 - 1)) % 2 ^ 64 ≡ n - 1
wrapped_pred n h l = omega arith

pub to_i32_small : (n : ℕ) → n < 2 ^ 31 → to_i32 n ≡ pos n
to_i32_small n l = ground arith

at-next :
    (before left : List Key) (k : Key)
    → length before + length (k ∷ left) < 2 ^ 31
    → next (at before (k ∷ left)) ≡ at (before ++ k ∷ []) left
unfolding next
at-next before [] k l =
    let bound = length-append before (k ∷ []) in
    let here = wrapped_pred (length (before ++ k ∷ [])) (omega arith) (omega arith) in
    let past : ltb (length before) (length (before ++ k ∷ []) - 1) ≡ false =
      ground (arith, bound) in
    rw (here, past, append-nil (before ++ k ∷ [])) refl
at-next before (m ∷ left) k l =
    let bound = length-append before (k ∷ m ∷ left) in
    let size = length-append before (k ∷ []) in
    let here = wrapped_pred (length (before ++ k ∷ m ∷ left)) (omega arith) (omega arith) in
    let same = append_assoc before (k ∷ []) (m ∷ left) in
    let index = to_i32_small (length before + 1) (omega arith) in
    let inside : ltb (length before) (length (before ++ k ∷ m ∷ left) - 1) ≡ true =
      ground (arith, bound) in
    rw (here, inside, index, same, size) refl

pub collect-at :
    (f : ℕ) (before left : List Key)
    → length left < f
    → length before + length left < 2 ^ 31
    → collect f (at before left) ≡ left
unfolding valid
collect-at zero before left h l = absurd (omega arith)
collect-at (suc f) before [] h l = refl
collect-at (suc f) before (k ∷ left) h l =
    let size = length-append before (k ∷ []) in
    let rest = collect-at f (before ++ k ∷ []) left (omega arith) (omega arith) in
    rw (at-valid before left k, at-key before left k, at-next before left k l, rest) refl
