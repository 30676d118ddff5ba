-- ===== src/Storage/Types.antt =====
-- modules/storage/include/chainforge/storage/database.hpp: keys, values, error codes and settings.
use chain_forge.Base.{Bool}
use chain_forge.Core.Bytes.{Bytes}

pub data StorageError : Type 0 where
  success not_found already_exists invalid_argument io_error corruption : StorageError
  not_supported timeout lock_conflict : StorageError

abbrev pub Key : Type 0
Key = Bytes

abbrev pub Value : Type 0
Value = Bytes

-- The fields of the configuration that the in-memory database could tell apart.
pub record DatabaseConfig : Type 0 where
  pub path : Bytes
  pub create_if_missing : Bool
  pub error_if_exists : Bool
