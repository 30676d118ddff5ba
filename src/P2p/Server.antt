-- ===== src/P2p/Server.antt =====
-- `TcpServer` of modules/p2p/src/tcp_server.cpp. What Boost.Asio answers and the number of a new
-- connection are arguments of the operations.
pub mod Locking
use chain_forge.Errors.Expected.{Expected, of_value, of_error}
use chain_forge.Base.Map.{Map, lookup, insert, erase}
use chain_forge.P2p.Tcp.{
  TcpConnection, Completion, TcpResult, create, set_connection_callback, eof, connection_reset,
  completed, already_connected, connection_failed,
}
use chain_forge.P2p.Tcp as Tcp
use chain_forge.Core.Bytes.{Bytes}
use chain_forge.Base.{
  ◌+◌, ◌-◌, ℕ, Bool, true, false, not, ◌&&◌, Option, none, some, List, [], ◌∷◌, if◌then◌else◌,
  length, ltb, nat_eq,
}

-- A thread that asks for `connections_mutex_` while it holds it never goes on.
pub data Outcome (A : Type 0) : Type 0 where
  done : A → Outcome A
  self_lock : Outcome A

-- A connection of the table. `removes_itself` says that its connection callback is still the one
-- that the server gave it, which calls `remove_connection`.
pub record Tracked : Type 0 where
  pub connection : TcpConnection
  pub removes_itself : Bool

-- `accept_callback` is what the client does to a new connection.
pub record TcpServer : Type 0 where
  pub running : Bool
  pub port : ℕ
  pub connections : Map ℕ Tracked
  pub accept_callback : Option (Tracked → Tracked)
  pub pending_accepts : ℕ

unfoldable pub new_server : TcpServer
new_server = record {
  running = false;
  port = 0;
  connections = [];
  accept_callback = none;
  pending_accepts = 0;
}

unfoldable pub do_accept : TcpServer → TcpServer
do_accept s = if not s.running then s else record s { pending_accepts = s.pending_accepts + 1 }

unfoldable pub start : Completion (Unit {0}) → ℕ → TcpServer → TcpResult (Unit {0}) × TcpServer
unfolding do_accept
start outcome port s = if s.running then (of_error already_connected, s) else elim outcome [
  | completed u ↦ (of_value u, do_accept (record s { running = true; port = port }))
  | _ ↦ (of_error connection_failed, s)
]

-- The connection callback of a live connection calls the server when the connection is closed.
abbrev pub is_live : Tracked → Bool
is_live e = e.connection.connected && (e.connection.has_connection_callback && e.removes_itself)

-- `close` of a connection while the thread holds the mutex.
unfoldable pub close_held : Tracked → Outcome Tracked
close_held e =
    if is_live e then self_lock else done (record e { connection = Tcp.close e.connection })

abbrev pub kept : ℕ → Outcome Tracked → Outcome (Map ℕ Tracked) → Outcome (Map ℕ Tracked)
kept id self_lock m = self_lock
kept id (done e) self_lock = self_lock
kept id (done e) (done m) = done ((id, e) ∷ m)

unfoldable pub close_all : Map ℕ Tracked → Outcome (Map ℕ Tracked)
close_all [] = done []
close_all ((id, e) ∷ m) = kept id (close_held e) (close_all m)

unfoldable pub stop : TcpServer → Outcome TcpServer
stop s = if not s.running then done s else elim (close_all s.connections) [
  | self_lock ↦ self_lock
  | done m ↦ done (record s { running = false; connections = [] })
]

unfoldable pub connection_count : TcpServer → ℕ
connection_count s = length s.connections

unfoldable pub get_connection : ℕ → TcpServer → Option Tracked
get_connection id s = lookup id s.connections

abbrev pub erase_closed : ℕ → Outcome Tracked → TcpServer → Outcome TcpServer
erase_closed id self_lock s = self_lock
erase_closed id (done e) s = done (record s { connections = erase id s.connections })

abbrev pub remove_found : ℕ → Option Tracked → TcpServer → Outcome TcpServer
remove_found id none s = done s
remove_found id (some e) s = erase_closed id (close_held e) s

unfoldable pub remove_connection : ℕ → TcpServer → Outcome TcpServer
remove_connection id s = remove_found id (lookup id s.connections) s

unfoldable pub set_accept_callback : Option (Tracked → Tracked) → TcpServer → TcpServer
set_accept_callback given s = record s { accept_callback = given }

-- The connections to which `async_send` is called.
abbrev pub connected_ids : Map ℕ Tracked → List ℕ
connected_ids [] = []
connected_ids ((id, e) ∷ m) =
    if e.connection.connected then id ∷ connected_ids m else connected_ids m

unfoldable pub broadcast : TcpServer → List ℕ
broadcast s = connected_ids s.connections

-- The connection that is made of an accepted socket.
unfoldable pub accept_connection : Tracked
accept_connection = record {
  connection = set_connection_callback true (create true);
  removes_itself = true;
}

abbrev pub apply_callback : Option (Tracked → Tracked) → Tracked → Tracked
apply_callback none e = e
apply_callback (some f) e = f e

-- `accepted` is false where the completion handler is given an error.
unfoldable pub handle_accept : Bool → ℕ → TcpServer → TcpServer
unfolding do_accept
handle_accept accepted id s =
    let t : TcpServer = record s { pending_accepts = s.pending_accepts - 1 } in
    if not accepted
    then do_accept t
    else do_accept (record t {
      connections = insert id (apply_callback t.accept_callback accept_connection) t.connections;
    })

-- A tracked connection has changed; `told` says that its connection callback was called.
unfoldable pub changed : ℕ → Bool → Tracked → TcpServer → Outcome TcpServer
changed id told e s =
    let t : TcpServer = record s { connections = insert id e s.connections } in
    if told && e.removes_itself then remove_connection id t else done t

abbrev pub is_end : Completion Bytes → Bool
is_end eof = true
is_end connection_reset = true
is_end _ = false

abbrev pub read_found : Completion Bytes → ℕ → Option Tracked → TcpServer → Outcome TcpServer
read_found outcome id none s = done s
read_found outcome id (some e) s =
    let c = Tcp.complete_read outcome e.connection in
    changed id (is_end outcome && ltb (length e.connection.callbacks) (length c.callbacks))
      (record e { connection = c }) s

-- The socket of a connection completes a read.
unfoldable pub complete_read : Completion Bytes → ℕ → TcpServer → Outcome TcpServer
complete_read outcome id s = read_found outcome id (lookup id s.connections) s

abbrev pub close_found : ℕ → Option Tracked → TcpServer → Outcome TcpServer
close_found id none s = done s
close_found id (some e) s =
    changed id (is_live e) (record e { connection = Tcp.close e.connection }) s

-- Someone who holds the connection closes it.
unfoldable pub close_connection : ℕ → TcpServer → Outcome TcpServer
close_connection id s = close_found id (lookup id s.connections) s
