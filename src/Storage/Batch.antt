-- ===== src/Storage/Batch.antt =====
-- `MemoryWriteBatch`: the operations in the order of the calls, and what `write` does with them.
use chain_forge.Base.{ℕ, List, [], ◌∷◌, ◌++◌, length, bytes_eq}
use chain_forge.Base.Map
use chain_forge.Base.Map.{Map}
use chain_forge.Storage.Types.{Key, Value}

pub data Operation : Type 0 where
  put : Key → Value → Operation
  remove : Key → Operation

abbrev pub WriteBatch : Type 0
WriteBatch = List Operation

unfoldable pub put_later : Key → Value → WriteBatch → WriteBatch
put_later key value batch = batch ++ Operation.put key value ∷ []

unfoldable pub remove_later : Key → WriteBatch → WriteBatch
remove_later key batch = batch ++ Operation.remove key ∷ []

unfoldable pub clear : WriteBatch → WriteBatch
clear batch = []

unfoldable pub size : WriteBatch → ℕ
size batch = length batch

unfoldable pub apply : Operation → Map Key Value → Map Key Value
apply (Operation.put key value) m = Map.insert key value m
apply (Operation.remove key) m = Map.erase key m

-- The loop of `write` over the operations.
unfoldable pub apply_all : WriteBatch → Map Key Value → Map Key Value
unfolding apply
apply_all [] m = m
apply_all (op ∷ ops) m = apply_all ops (apply op m)
