-- ===== src/Storage/Store.antt =====
-- What a database promises: closed, or open on a partial function from keys to values.
use chain_forge.Base.{Option, none, some, List, [], ◌∷◌, if◌then◌else◌, ◌==◌, bytes_eq}
use chain_forge.Storage.Types.{Key, Value, StorageError, DatabaseConfig}
use chain_forge.Storage.Batch.{WriteBatch, Operation}

-- The calls of a client.
pub data Call : Type 0 where
  opening : DatabaseConfig → Call
  closing flushing compacting : Call
  getting removing : Key → Call
  putting : Key → Value → Call
  writing : WriteBatch → Call

-- The value, empty where there is none, and the code.
abbrev pub Response : Type 0
Response = Value × StorageError

pub data Store : Type 0 where
  closed : Store
  opened : (Key → Option Value) → Store

abbrev pub update : Key → Option Value → (Key → Option Value) → Key → Option Value
update key o f k = if k == key then o else f k

abbrev pub write : WriteBatch → (Key → Option Value) → Key → Option Value
write [] f = f
write (Operation.put key value ∷ ops) f = write ops (update key (some value) f)
write (Operation.remove key ∷ ops) f = write ops (update key none f)

abbrev found : Option Value → Response
found none = ([], StorageError.not_found)
found (some v) = (v, StorageError.success)

abbrev removed : Option Value → Response
removed none = ([], StorageError.not_found)
removed (some v) = ([], StorageError.success)

abbrev done : Response
done = ([], StorageError.success)

-- A new database opens empty; while closed, only `open` and `close` succeed.
abbrev pub step : Call → Store → Response × Store
step (opening c) closed = (done, opened (λ k. none))
step (opening c) (opened f) = (([], StorageError.already_exists), opened f)
step closing s = (done, closed)
step flushing (opened f) = (done, opened f)
step compacting (opened f) = (done, opened f)
step (getting key) (opened f) = (found (f key), opened f)
step (removing key) (opened f) = (removed (f key), opened (update key none f))
step (putting key value) (opened f) = (done, opened (update key (some value) f))
step (writing ops) (opened f) = (done, opened (write ops f))
step flushing closed = (([], StorageError.io_error), closed)
step compacting closed = (([], StorageError.io_error), closed)
step (getting key) closed = (([], StorageError.io_error), closed)
step (removing key) closed = (([], StorageError.io_error), closed)
step (putting key value) closed = (([], StorageError.io_error), closed)
step (writing ops) closed = (([], StorageError.io_error), closed)

unfoldable pub responses : List Call → Store → List Response
responses [] s = []
responses (c ∷ cs) s = let (r, s') = step c s in r ∷ responses cs s'
