-- ===== src/Errors/Codes.antt =====
-- The names and the messages of the error codes: modules/core/src/error.cpp, with the numbers of the
-- enumeration in modules/core/include/chainforge/core/error.hpp.
use chain_forge.Base.Map.{Map, lookup}
use chain_forge.Base.Text.{Text, codes}
use chain_forge.Base.{ℕ, Option, none, some, [], ◌∷◌, nat_eq, bytes_eq}

-- `enum class ErrorCode : int`
abbrev pub ErrorCode : Type 0
ErrorCode = ℕ

-- The `switch` of `error_code_to_string`
abbrev error_names : Map ErrorCode Text
error_names =
    (0, codes "SUCCESS")
    ∷ (1000, codes "UNKNOWN_ERROR")
    ∷ (1001, codes "INVALID_ARGUMENT")
    ∷ (1002, codes "INVALID_STATE")
    ∷ (1003, codes "NOT_IMPLEMENTED")
    ∷ (1004, codes "TIMEOUT")
    ∷ (1005, codes "CANCELLED")
    ∷ (2000, codes "IO_ERROR")
    ∷ (2001, codes "FILE_NOT_FOUND")
    ∷ (2002, codes "PERMISSION_DENIED")
    ∷ (2003, codes "DISK_FULL")
    ∷ (2004, codes "NETWORK_ERROR")
    ∷ (2005, codes "CONNECTION_REFUSED")
    ∷ (2006, codes "CONNECTION_TIMEOUT")
    ∷ (3000, codes "CRYPTO_ERROR")
    ∷ (3001, codes "INVALID_KEY")
    ∷ (3002, codes "INVALID_SIGNATURE")
    ∷ (3003, codes "INVALID_HASH")
    ∷ (3004, codes "INVALID_CURVE")
    ∷ (3005, codes "INSUFFICIENT_ENTROPY")
    ∷ (4000, codes "STORAGE_ERROR")
    ∷ (4001, codes "DATABASE_ERROR")
    ∷ (4002, codes "KEY_NOT_FOUND")
    ∷ (4003, codes "CORRUPTED_DATA")
    ∷ (4004, codes "TRANSACTION_FAILED")
    ∷ (4005, codes "CONCURRENT_MODIFICATION")
    ∷ (5000, codes "P2P_ERROR")
    ∷ (5001, codes "PEER_NOT_FOUND")
    ∷ (5002, codes "PROTOCOL_ERROR")
    ∷ (5003, codes "MESSAGE_TOO_LARGE")
    ∷ (5004, codes "INVALID_MESSAGE")
    ∷ (5005, codes "PEER_BANNED")
    ∷ (6000, codes "CONSENSUS_ERROR")
    ∷ (6001, codes "INVALID_BLOCK")
    ∷ (6002, codes "INVALID_TRANSACTION")
    ∷ (6003, codes "FORK_DETECTED")
    ∷ (6004, codes "STALE_BLOCK")
    ∷ (6005, codes "INSUFFICIENT_STAKE")
    ∷ (7000, codes "EXECUTION_ERROR")
    ∷ (7001, codes "OUT_OF_GAS")
    ∷ (7002, codes "INVALID_OPCODE")
    ∷ (7003, codes "STACK_OVERFLOW")
    ∷ (7004, codes "STACK_UNDERFLOW")
    ∷ (7005, codes "INVALID_JUMP")
    ∷ (8000, codes "MEMPOOL_ERROR")
    ∷ (8001, codes "TRANSACTION_EXISTS")
    ∷ (8002, codes "INSUFFICIENT_FEE")
    ∷ (8003, codes "NONCE_TOO_LOW")
    ∷ (8004, codes "NONCE_TOO_HIGH")
    ∷ (8005, codes "GAS_LIMIT_EXCEEDED")
    ∷ (9000, codes "RPC_ERROR")
    ∷ (9001, codes "INVALID_REQUEST")
    ∷ (9002, codes "METHOD_NOT_FOUND")
    ∷ (9003, codes "INVALID_PARAMS")
    ∷ (9004, codes "INTERNAL_ERROR")
    ∷ (9005, codes "RATE_LIMITED")
    ∷ (10000, codes "NODE_ERROR")
    ∷ (10001, codes "NODE_NOT_RUNNING")
    ∷ (10002, codes "CONFIG_ERROR")
    ∷ (10003, codes "RESOURCE_EXHAUSTED")
    ∷ (10004, codes "SERVICE_UNAVAILABLE")
    ∷ []

-- The `switch` of `get_user_friendly_message`
abbrev error_messages : Map ErrorCode Text
error_messages =
    (0, codes "Operation completed successfully")
    ∷ (1000, codes "An unexpected error occurred")
    ∷ (1001, codes "Invalid argument provided")
    ∷ (1002, codes "System is in an invalid state")
    ∷ (1003, codes "This feature is not yet implemented")
    ∷ (1004, codes "Operation timed out")
    ∷ (1005, codes "Operation was cancelled")
    ∷ (2000, codes "Input/output error occurred")
    ∷ (2001, codes "File not found")
    ∷ (2002, codes "Permission denied")
    ∷ (2003, codes "Disk is full")
    ∷ (2004, codes "Network error occurred")
    ∷ (2005, codes "Connection was refused")
    ∷ (2006, codes "Connection timed out")
    ∷ (3000, codes "Cryptographic operation failed")
    ∷ (3001, codes "Invalid cryptographic key")
    ∷ (3002, codes "Invalid signature")
    ∷ (3003, codes "Invalid hash")
    ∷ (3004, codes "Invalid elliptic curve")
    ∷ (3005, codes "Insufficient entropy for secure operation")
    ∷ (4000, codes "Storage operation failed")
    ∷ (4001, codes "Database operation failed")
    ∷ (4002, codes "Key not found in storage")
    ∷ (4003, codes "Data corruption detected")
    ∷ (4004, codes "Database transaction failed")
    ∷ (4005, codes "Concurrent modification detected")
    ∷ (5000, codes "Peer-to-peer communication error")
    ∷ (5001, codes "Peer not found")
    ∷ (5002, codes "Protocol error")
    ∷ (5003, codes "Message too large")
    ∷ (5004, codes "Invalid message format")
    ∷ (5005, codes "Peer is banned")
    ∷ (6000, codes "Consensus mechanism error")
    ∷ (6001, codes "Invalid block")
    ∷ (6002, codes "Invalid transaction")
    ∷ (6003, codes "Blockchain fork detected")
    ∷ (6004, codes "Block is stale")
    ∷ (6005, codes "Insufficient stake for operation")
    ∷ (7000, codes "Transaction execution error")
    ∷ (7001, codes "Out of gas during execution")
    ∷ (7002, codes "Invalid opcode")
    ∷ (7003, codes "Stack overflow")
    ∷ (7004, codes "Stack underflow")
    ∷ (7005, codes "Invalid jump destination")
    ∷ (8000, codes "Mempool operation failed")
    ∷ (8001, codes "Transaction already exists")
    ∷ (8002, codes "Insufficient transaction fee")
    ∷ (8003, codes "Transaction nonce too low")
    ∷ (8004, codes "Transaction nonce too high")
    ∷ (8005, codes "Gas limit exceeded")
    ∷ (9000, codes "RPC operation failed")
    ∷ (9001, codes "Invalid RPC request")
    ∷ (9002, codes "RPC method not found")
    ∷ (9003, codes "Invalid RPC parameters")
    ∷ (9004, codes "Internal server error")
    ∷ (9005, codes "Rate limit exceeded")
    ∷ (10000, codes "Node operation failed")
    ∷ (10001, codes "Node is not running")
    ∷ (10002, codes "Configuration error")
    ∷ (10003, codes "System resources exhausted")
    ∷ (10004, codes "Service unavailable")
    ∷ []

abbrev or_default : Text → Option Text → Text
or_default default none = default
or_default default (some t) = t

unfoldable pub error_code_to_string : ErrorCode → Text
error_code_to_string code = or_default (codes "UNKNOWN_ERROR_CODE") (lookup code error_names)

unfoldable pub get_user_friendly_message : ErrorCode → Text
get_user_friendly_message code =
    or_default (codes "Unknown error occurred") (lookup code error_messages)
