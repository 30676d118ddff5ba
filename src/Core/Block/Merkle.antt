-- ===== src/Core/Block/Merkle.antt =====
-- The Merkle tree: the loop ends, the root has the size of a hash, and what the tree forgets.
use chain_forge.Base.{
  length-append, ℕ, zero, suc, ◌+◌, ◌*◌, ◌/◌, ◌≤◌, ◌≡◌, refl, ap, sym, ◌∙◌, some, List, [], ◌∷◌,
  ◌++◌, length, map, arith,
}
use mathlib.Core.List.{map-append}
use chain_forge.Core.Hash.{Hash, combine_hashes}
use chain_forge.Core.Transaction.{Transaction}
use chain_forge.Core.Block.{
  zero_hash, merkle_level, merkle_loop, transaction_hash, calculate_merkle_root,
}

length-merkle_level : (hs : List Hash) → length (merkle_level hs) ≡ (length hs + 1) / 2
unfolding merkle_level
length-merkle_level [] = refl
length-merkle_level (h ∷ []) = refl
length-merkle_level (h ∷ k ∷ hs) = omega (arith, length-merkle_level hs)

-- The loop ends within as many rounds as there are hashes, and returns a hash.
merkle_loop_total :
    (fuel : ℕ) (hs : List Hash)
    → 1 ≤ length hs
    → length hs ≤ fuel
    → (r : Hash) × (merkle_loop fuel hs ≡ some r)
unfolding merkle_loop
merkle_loop_total fuel [] h k = absurd (omega arith)
merkle_loop_total fuel (a ∷ []) h k = (a, refl)
merkle_loop_total zero (a ∷ b ∷ hs) h k = absurd (omega arith)
merkle_loop_total (suc fuel) (a ∷ b ∷ hs) h k =
    merkle_loop_total fuel (merkle_level (a ∷ b ∷ hs))
      (omega (arith, length-merkle_level (a ∷ b ∷ hs)))
      (omega (arith, length-merkle_level (a ∷ b ∷ hs)))

-- More fuel changes nothing.
merkle_loop_fuel :
    (f g : ℕ) (hs : List Hash) → length hs ≤ f → length hs ≤ g → merkle_loop f hs ≡ merkle_loop g hs
unfolding merkle_loop
merkle_loop_fuel zero zero hs p q = refl
merkle_loop_fuel f g [] p q = refl
merkle_loop_fuel f g (a ∷ []) p q = refl
merkle_loop_fuel zero g (a ∷ b ∷ hs) p q = absurd (omega arith)
merkle_loop_fuel (suc f) zero (a ∷ b ∷ hs) p q = absurd (omega arith)
merkle_loop_fuel (suc f) (suc g) (a ∷ b ∷ hs) p q =
    merkle_loop_fuel f g (merkle_level (a ∷ b ∷ hs))
      (omega (arith, length-merkle_level (a ∷ b ∷ hs)))
      (omega (arith, length-merkle_level (a ∷ b ∷ hs)))

-- Every list of transactions has a Merkle root: the loop ends within as many rounds as there are
-- hashes.
pub calculate_merkle_root_total :
    (ts : List Transaction) → (r : Hash) × (calculate_merkle_root ts ≡ some r)
unfolding calculate_merkle_root
calculate_merkle_root_total [] = (zero_hash, refl)
calculate_merkle_root_total (t ∷ []) = (transaction_hash t, refl)
calculate_merkle_root_total (t ∷ u ∷ ts) = merkle_loop_total _ _ (omega arith) (omega arith)

level_duplicate :
    (k : ℕ) (hs : List Hash) (h : Hash)
    → length hs ≡ 2 * k
    → merkle_level (hs ++ h ∷ []) ≡ merkle_level (hs ++ h ∷ h ∷ [])
unfolding merkle_level
level_duplicate k [] h e = refl
level_duplicate k (a ∷ []) h e = absurd (omega arith)
level_duplicate zero (a ∷ b ∷ hs) h e = absurd (omega arith)
level_duplicate (suc k) (a ∷ b ∷ hs) h e =
    ap (◌∷◌ (combine_hashes a b)) (level_duplicate k hs h (omega arith))

-- One round of the loop, with as much fuel as there are hashes before and after.
loop_round :
    (hs : List Hash)
    → 2 ≤ length hs
    → merkle_loop (length hs) hs ≡ merkle_loop (length (merkle_level hs)) (merkle_level hs)
unfolding merkle_loop
loop_round [] h = absurd (omega arith)
loop_round (a ∷ []) h = absurd (omega arith)
loop_round (a ∷ b ∷ hs) h =
    merkle_loop_fuel (suc (length hs)) (length (merkle_level (a ∷ b ∷ hs)))
      (merkle_level (a ∷ b ∷ hs)) (omega (arith, length-merkle_level (a ∷ b ∷ hs))) (omega arith)

loop_duplicate :
    (k : ℕ) (hs : List Hash) (h : Hash)
    → length hs ≡ 2 * k
    → 1 ≤ k
    → merkle_loop (length (hs ++ h ∷ [])) (hs ++ h ∷ [])
      ≡ merkle_loop (length (hs ++ h ∷ h ∷ [])) (hs ++ h ∷ h ∷ [])
loop_duplicate k hs h e pos =
    loop_round (hs ++ h ∷ []) (omega (arith, length-append hs (h ∷ [])))
    ∙ ap (λ (l : List Hash). merkle_loop (length l) l) (level_duplicate k hs h e)
    ∙ sym (loop_round (hs ++ h ∷ h ∷ []) (omega (arith, length-append hs (h ∷ h ∷ []))))

length-map : (ts : List Transaction) → length (map transaction_hash ts) ≡ length ts
length-map [] = refl
length-map (t ∷ ts) = ap suc (length-map ts)

root_of_many :
    (ts : List Transaction)
    → 2 ≤ length ts
    → calculate_merkle_root ts
      ≡ merkle_loop (length (map transaction_hash ts)) (map transaction_hash ts)
unfolding calculate_merkle_root
root_of_many [] h = absurd (omega arith)
root_of_many (t ∷ []) h = absurd (omega arith)
root_of_many (t ∷ u ∷ ts) h = refl

-- The tree does not tell a block with an odd number of transactions, three or more, from the block
-- in which its last transaction is listed once more.
pub calculate_merkle_root-duplicate :
    (k : ℕ) (ts : List Transaction) (t : Transaction)
    → length ts ≡ 2 * k
    → 1 ≤ k
    → calculate_merkle_root (ts ++ t ∷ []) ≡ calculate_merkle_root (ts ++ t ∷ t ∷ [])
calculate_merkle_root-duplicate k ts t e pos =
    rw
      (
        root_of_many (ts ++ t ∷ []) (omega (arith, length-append ts (t ∷ []))),
        root_of_many (ts ++ t ∷ t ∷ []) (omega (arith, length-append ts (t ∷ t ∷ []))),
        map-append transaction_hash ts (t ∷ []),
        map-append transaction_hash ts (t ∷ t ∷ []),
      )
      (loop_duplicate k (map transaction_hash ts) (transaction_hash t)
        (omega (arith, length-map ts)) pos)
