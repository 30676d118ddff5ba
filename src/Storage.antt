-- ===== src/Storage.antt =====
-- modules/storage/src/rocksdb_database.cpp: the in-memory database behind both backends
-- and its write batches.
pub mod Types
pub mod Batch
pub mod Store
pub mod Refinement
pub mod Iterator
pub mod Tests
use chain_forge.Base.{
  ℕ, suc, ◌+◌, Bool, true, false, ◌&&◌, ◌||◌, not, Option, none, some, List, [], ◌∷◌, ◌++◌,
  if◌then◌else◌, length, bytes_eq,
}
use chain_forge.Base.Map.{Map, lookup, insert, erase, IsMap}
use chain_forge.Core.Bytes.{Bytes, bytes_less}
use chain_forge.Storage.Types.{StorageError, Key, Value, DatabaseConfig}
use chain_forge.Storage.Batch.{WriteBatch, apply_all}

pub record MemoryDatabase : Type 0 where
  pub entries : Map Key Value
  pub config : DatabaseConfig
  pub is_open : Bool

abbrev pub is_empty : Map Key Value → Bool
is_empty [] = true
is_empty (e ∷ m) = false

-- `open`
unfoldable pub open_with : DatabaseConfig → MemoryDatabase → StorageError × MemoryDatabase
open_with c db =
    if db.is_open
    then (StorageError.already_exists, db)
    else if c.error_if_exists && not (is_empty db.entries)
    then (StorageError.already_exists, db)
    else (StorageError.success, record { entries = db.entries; config = c; is_open = true })

unfoldable pub close : MemoryDatabase → StorageError × MemoryDatabase
close db =
    if db.is_open
    then (StorageError.success, record db { entries = []; is_open = false })
    else (StorageError.success, db)

unfoldable pub get : Key → MemoryDatabase → Value × StorageError
get key db =
    if db.is_open
    then elim (lookup key db.entries) [
      | none ↦ ([], StorageError.not_found)
      | some v ↦ (v, StorageError.success)
    ]
    else ([], StorageError.io_error)

unfoldable pub put : Key → Value → MemoryDatabase → StorageError × MemoryDatabase
put key value db =
    if db.is_open
    then (StorageError.success, record db { entries = insert key value db.entries })
    else (StorageError.io_error, db)

unfoldable pub remove : Key → MemoryDatabase → StorageError × MemoryDatabase
remove key db =
    if db.is_open
    then elim (lookup key db.entries) [
      | none ↦ (StorageError.not_found, db)
      | some v ↦ (StorageError.success, record db { entries = erase key db.entries })
    ]
    else (StorageError.io_error, db)

-- `write`. `none` stands for a batch of another class, which the cast refuses.
unfoldable pub write : Option WriteBatch → MemoryDatabase → StorageError × MemoryDatabase
unfolding apply_all
write batch db =
    if db.is_open
    then elim batch [
      | none ↦ (StorageError.invalid_argument, db)
      | some ops ↦ (StorageError.success, record db { entries = apply_all ops db.entries })
    ]
    else (StorageError.io_error, db)

-- `flush` and `compact_range` only test that the database is open.
unfoldable pub flush : MemoryDatabase → StorageError
flush db = if db.is_open then StorageError.success else StorageError.io_error

unfoldable pub compact_range : MemoryDatabase → StorageError
compact_range db = if db.is_open then StorageError.success else StorageError.io_error

-- The sizes of the entries whose keys lie between the two, both included.
unfoldable pub sizes_between : Key → Key → Map Key Value → ℕ
sizes_between start limit [] = 0
sizes_between start limit ((k, v) ∷ m) =
    (if not (bytes_less k start) && not (bytes_less limit k) then length k + length v else 0)
    + sizes_between start limit m

unfoldable pub get_approximate_size : Key → Key → MemoryDatabase → ℕ × StorageError
unfolding sizes_between
get_approximate_size start limit db =
    if db.is_open
    then (sizes_between start limit db.entries, StorageError.success)
    else (0, StorageError.io_error)
