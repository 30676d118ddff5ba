-- ===== src/Core/Block/Root.antt =====
-- When the Merkle root of the header is that of the transactions.
use chain_forge.Base.{
  sym, ap, ◌∙◌, false, ◌&&◌, ◌==◌, ◌||◌, bytes_eq, true, Bool, inr, ◌++◌, inl, length, ltb,
  Bool-cases, ℕ, ◌≡◌, refl, List, [], ◌∷◌, some, arith,
}
use chain_forge.Core.Hash.{Hash}
use chain_forge.Core.Transaction.{Transaction}
use chain_forge.Core.Block.{
  write_header, write_transactions, BlockHeader, erase_at, Block, calculate_merkle_root,
  update_merkle_root, make, set_height, set_parent_hash, set_timestamp, set_nonce, set_gas_limit,
  set_gas_price, set_chain_id, add_transaction, remove_transaction, clear_transactions,
  calculate_hash,
}
use chain_forge.Core.Block.Merkle.{calculate_merkle_root_total}

abbrev pub HasRoot : Block → Type 0
HasRoot b = calculate_merkle_root b.transactions ≡ some b.merkle_root

-- The calls that write to a block: `hash` is the one that fills the cache, and `replace_header` and
-- `replace_transactions` go through the references that `header()` and `transactions()` return.
pub data Call : Type 0 where
  height timestamp nonce gas_limit gas_price chain_id : ℕ → Call
  parent_hash : Hash → Call
  add : Transaction → Call
  remove : ℕ → Call
  clear hash : Call
  replace_header : BlockHeader → Call
  replace_transactions : List Transaction → Call

unfoldable pub step : Block → Call → Block
step b (Call.height n) = set_height n b
step b (Call.timestamp n) = set_timestamp n b
step b (Call.nonce n) = set_nonce n b
step b (Call.gas_limit n) = set_gas_limit n b
step b (Call.gas_price n) = set_gas_price n b
step b (Call.chain_id n) = set_chain_id n b
step b (Call.parent_hash h) = set_parent_hash h b
step b (Call.add t) = add_transaction t b
step b (Call.remove i) = remove_transaction i b
step b Call.clear = clear_transactions b
step b Call.hash = (calculate_hash b).1
step b (Call.replace_header h) = write_header h b
step b (Call.replace_transactions ts) = write_transactions ts b

unfoldable pub run : Block → List Call → Block
run b [] = b
run b (c ∷ cs) = run (step b c) cs

-- Whether the root is computed anew, or stays good, at a call.
abbrev settled_by : Block → Bool → Call → Bool
settled_by b settled (Call.add t) = true
settled_by b settled (Call.remove i) = ltb i (length b.transactions) || settled
settled_by b settled Call.clear = true
settled_by b settled (Call.replace_header h) = (h.merkle_root == b.merkle_root) && settled
settled_by b settled (Call.replace_transactions ts) = false
settled_by b settled _ = settled

-- Neither the transactions nor the Merkle root were written through a reference since the root was
-- last computed.
abbrev pub is_settled : Block → Bool → List Call → Bool
is_settled b settled [] = settled
is_settled b settled (c ∷ cs) = is_settled (step b c) (settled_by b settled c) cs

update_merkle_root-HasRoot : (b : Block) → HasRoot (update_merkle_root b)
unfolding update_merkle_root
update_merkle_root-HasRoot b = ground (arith, calculate_merkle_root_total b.transactions)

remove-HasRoot :
    (i : ℕ) (b : Block) (settled : Bool)
    → (settled ≡ true → HasRoot b)
    → ltb i (length b.transactions) || settled ≡ true
    → HasRoot (remove_transaction i b)
unfolding remove_transaction
remove-HasRoot i b settled v y = elim (Bool-cases (ltb i (length b.transactions))) [
  | inl e ↦
      rw e (update_merkle_root-HasRoot (record b { transactions = erase_at i b.transactions }))
  | inr e ↦ rw e (v (ground arith))
]

write_header-HasRoot :
    (h : BlockHeader) (b : Block)
    → h.merkle_root ≡ b.merkle_root
    → HasRoot b
    → HasRoot (write_header h b)
unfolding write_header
write_header-HasRoot h b same v = v ∙ ap some (sym same)

calculate_hash-HasRoot : (b : Block) → HasRoot b → HasRoot (calculate_hash b).1
unfolding calculate_hash
calculate_hash-HasRoot b v = ground arith

step-HasRoot :
    (b : Block) (settled : Bool) (c : Call)
    → (settled ≡ true → HasRoot b)
    → settled_by b settled c ≡ true
    → HasRoot (step b c)
unfolding step set_height set_timestamp set_nonce set_gas_limit set_gas_price set_chain_id
    set_parent_hash add_transaction clear_transactions calculate_merkle_root
step-HasRoot b settled (Call.height n) v y = v y
step-HasRoot b settled (Call.timestamp n) v y = v y
step-HasRoot b settled (Call.nonce n) v y = v y
step-HasRoot b settled (Call.gas_limit n) v y = v y
step-HasRoot b settled (Call.gas_price n) v y = v y
step-HasRoot b settled (Call.chain_id n) v y = v y
step-HasRoot b settled (Call.parent_hash h) v y = v y
step-HasRoot b settled (Call.add t) v y =
    update_merkle_root-HasRoot (record b { transactions = b.transactions ++ t ∷ [] })
step-HasRoot b settled (Call.remove i) v y = remove-HasRoot i b settled v y
step-HasRoot b settled Call.clear v y = refl
step-HasRoot b settled Call.hash v y = calculate_hash-HasRoot b (v y)
step-HasRoot b settled (Call.replace_header h) v y =
    write_header-HasRoot h b ((bytes_eq.beq_iff h.merkle_root b.merkle_root).0 (ground arith))
      (v (ground arith))
step-HasRoot b settled (Call.replace_transactions ts) v y = absurd cc

run-HasRoot :
    (b : Block) (settled : Bool) (cs : List Call)
    → (settled ≡ true → HasRoot b)
    → is_settled b settled cs ≡ true
    → HasRoot (run b cs)
unfolding run
run-HasRoot b settled [] v y = v y
run-HasRoot b settled (c ∷ cs) v y =
    run-HasRoot (step b c) (settled_by b settled c) cs (λ z. step-HasRoot b settled c v z) y

-- After any sequence of calls and writes on a new block, the Merkle root in its header is the one
-- that `calculate_merkle_root` computes from the transactions that the block then holds, if neither
-- the root nor the transactions were written through `header()` or `transactions()` since the root
-- was last computed. Other transactions that are written then leave that root in the header.
pub merkle_root-run :
    (n : ℕ) (parent : Hash) (time : ℕ) (cs : List Call) (ts : List Transaction)
    → is_settled (make n parent time) true cs ≡ true
    → let b = run (make n parent time) cs in
      (calculate_merkle_root b.transactions ≡ some b.merkle_root)
      × (calculate_merkle_root b.transactions ≡ some (write_transactions ts b).merkle_root)
unfolding make calculate_merkle_root write_transactions
merkle_root-run n parent time cs ts y =
    let v = run-HasRoot (make n parent time) true cs (λ z. refl) y in (v, v)
