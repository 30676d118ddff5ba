-- ===== src/P2p/Tcp.antt =====
-- `TcpConnection` of modules/p2p/src/tcp_connection.cpp. What Boost.Asio answers is an argument of
-- each operation; the callbacks are recorded in the order in which they are called.
pub mod Receiving
mod Tests
use chain_forge.Core.Bytes.{Bytes}
use chain_forge.Errors.Expected.{Expected, of_value, of_error}
use chain_forge.Base.{
  ℕ, zero, suc, ◌+◌, ◌-◌, Bool, true, false, not, ◌&&◌, ◌||◌, Option, none, some, List, [], ◌∷◌,
  ◌++◌, if◌then◌else◌, length,
}

-- The codes of `TcpError` that the connection returns.
pub data TcpError : Type 0 where
  connection_failed connection_closed write_failed read_failed : TcpError
  already_connected not_connected : TcpError

-- How a call of the socket ends: with a result, at the end of the stream, with the connection reset,
-- with another error code, or with an exception.
pub data Completion (A : Type 0) : Type 0 where
  completed : A → Completion A
  eof connection_reset other_error exception : Completion A

-- A call of the connection callback, or of the receive callback.
pub data Callback : Type 0 where
  connection : Bool → Callback
  received : Bytes → Callback

-- `pending_reads` counts the reads handed to the socket that have not completed.
pub record TcpConnection : Type 0 where
  pub connected : Bool
  pub receiving : Bool
  pub has_receive_callback : Bool
  pub has_connection_callback : Bool
  pub pending_reads : ℕ
  pub callbacks : List Callback

abbrev pub TcpResult : Type 0 → Type 0
TcpResult A = Expected A TcpError

-- A connection with a socket that is not connected, or with an accepted one.
unfoldable pub create : Bool → TcpConnection
create accepted = record {
  connected = accepted;
  receiving = false;
  has_receive_callback = false;
  has_connection_callback = false;
  pending_reads = 0;
  callbacks = [];
}

abbrev pub notify : Bool → TcpConnection → TcpConnection
notify up c =
    if c.has_connection_callback
    then record c { callbacks = c.callbacks ++ connection up ∷ [] }
    else c

unfoldable pub connect :
    Completion (Unit {0}) → TcpConnection → TcpResult (Unit {0}) × TcpConnection
connect outcome c = if c.connected then (of_error already_connected, c) else elim outcome [
  | completed u ↦ (of_value u, notify true (record c { connected = true }))
  | _ ↦ (of_error connection_failed, c)
]

-- The completion handler of `async_connect`, which does not look at the state before.
unfoldable pub async_connect : Completion (Unit {0}) → TcpConnection → TcpConnection
async_connect (completed u) c = notify true (record c { connected = true })
async_connect _ c = c

unfoldable pub send : Completion ℕ → TcpConnection → TcpResult ℕ × TcpConnection
send outcome c = if not c.connected then (of_error not_connected, c) else elim outcome [
  | completed bytes_written ↦ (of_value bytes_written, c)
  | _ ↦ (of_error write_failed, c)
]

-- The end of the stream ends the connection, without a call of the connection callback.
unfoldable pub receive : Completion Bytes → TcpConnection → TcpResult Bytes × TcpConnection
receive outcome c = if not c.connected then (of_error not_connected, c) else elim outcome [
  | completed buffer ↦ (of_value buffer, c)
  | eof ↦ (of_error connection_closed, record c { connected = false })
  | _ ↦ (of_error read_failed, c)
]

unfoldable pub do_receive : TcpConnection → TcpConnection
do_receive c =
    if not c.receiving || not c.connected
    then c
    else record c { pending_reads = c.pending_reads + 1 }

unfoldable pub start_receive : TcpConnection → TcpConnection
unfolding do_receive
start_receive c = do_receive (record c { has_receive_callback = true; receiving = true })

unfoldable pub stop_receive : TcpConnection → TcpConnection
stop_receive c = record c { receiving = false }

abbrev pub deliver : Bytes → TcpConnection → TcpConnection
deliver [] c = c
deliver (b ∷ bs) c =
    if c.has_receive_callback
    then record c { callbacks = c.callbacks ++ received (b ∷ bs) ∷ [] }
    else c

unfoldable pub handle_receive : Completion Bytes → TcpConnection → TcpConnection
unfolding do_receive
handle_receive (completed bytes) c = do_receive (deliver bytes c)
handle_receive eof c = notify false (record c { connected = false })
handle_receive connection_reset c = notify false (record c { connected = false })
handle_receive _ c = c

-- The socket completes a pending read; it has none to complete where nothing is pending.
unfoldable pub complete_read : Completion Bytes → TcpConnection → TcpConnection
complete_read outcome c = elim c.pending_reads [
  | zero ↦ c
  | suc n ↦ handle_receive outcome (record c { pending_reads = n })
]

unfoldable pub close : TcpConnection → TcpConnection
close c =
    if not c.connected then c else notify false (record c { connected = false; receiving = false })

unfoldable pub set_connection_callback : Bool → TcpConnection → TcpConnection
set_connection_callback given c = record c { has_connection_callback = given }
