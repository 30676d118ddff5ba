-- ===== src/P2p/Client.antt =====
-- `TcpClient` of modules/p2p/src/tcp_client.cpp. The connections that it made keep a number each, since
-- one that the client dropped lives on while a call of its socket is pending.
pub mod Reports
pub mod Disconnecting
mod Tests
use chain_forge.Base.Map.{erase, Map, lookup, insert}
use chain_forge.Errors.Expected.{Expected, of_value, of_error}
use chain_forge.P2p.Tcp as Tcp
use chain_forge.P2p.Tcp.{Callback, connection, received, completed, TcpConnection, Completion}
use chain_forge.Base.Text.{Text}
use chain_forge.Base.{
  ◌&&◌, length, ◌∷◌, drop, ◌+◌, ◌++◌, not, nat_eq, List, false, true, if◌then◌else◌, Option, map,
  none, some, [], Bool, ℕ,
}

-- `attempts` are the calls of `async_connect` that have not completed, true for one of `do_reconnect`.
-- `waiting` says that the timer has a wait, and `notified` has the calls of the client's callback.
pub record TcpClient : Type 0 where
  pub connections : Map ℕ TcpConnection
  pub current : Option ℕ
  pub next_id : ℕ
  pub attempts : Map ℕ Bool
  pub host : Text
  pub port : ℕ
  pub auto_reconnect : Bool
  pub waiting : Bool
  pub has_callback : Bool
  pub notified : List Bool

unfoldable pub new_client : TcpClient
new_client = record {
  connections = [];
  current = none;
  next_id = 0;
  attempts = [];
  host = [];
  port = 0;
  auto_reconnect = false;
  waiting = false;
  has_callback = false;
  notified = [];
}

-- A new wait ends the one before it.
unfoldable pub schedule_reconnect : TcpClient → TcpClient
schedule_reconnect c = if not c.auto_reconnect then c else record c { waiting = true }

-- The callback that each connection is given
unfoldable pub on_connection : Bool → TcpClient → TcpClient
unfolding schedule_reconnect
on_connection up c =
    let told = if c.has_callback then record c { notified = c.notified ++ up ∷ [] } else c in
    if not up && told.auto_reconnect then schedule_reconnect told else told

abbrev pub on_callbacks : List Callback → TcpClient → TcpClient
on_callbacks [] c = c
on_callbacks (connection up ∷ cs) c = on_callbacks cs (on_connection up c)
on_callbacks (received bytes ∷ cs) c = on_callbacks cs c

abbrev pub updated :
    ℕ → (TcpConnection → TcpConnection) → Option TcpConnection → TcpClient → TcpClient
updated id f none c = c
updated id f (some t) c =
    on_callbacks (drop (length t.callbacks) (f t).callbacks)
      (record c { connections = insert id (f t) c.connections })

-- A call on a connection, with the callbacks that it makes
abbrev pub on : ℕ → (TcpConnection → TcpConnection) → TcpClient → TcpClient
on id f c = updated id f (lookup id c.connections) c

abbrev pub on_current : (TcpConnection → TcpConnection) → Option ℕ → TcpClient → TcpClient
on_current f none c = c
on_current f (some id) c = on id f c

abbrev pub found : Map ℕ TcpConnection → Option ℕ → Option TcpConnection
found m none = none
found m (some id) = lookup id m

unfoldable pub connection_of : TcpClient → Option TcpConnection
connection_of c = found c.connections c.current

abbrev connected_of : Option TcpConnection → Bool
connected_of none = false
connected_of (some t) = t.connected

unfoldable pub is_connected : TcpClient → Bool
unfolding connection_of
is_connected c = connected_of (connection_of c)

-- A connection that is not connected, with its callback
abbrev pub renewed : TcpClient → TcpClient
renewed c = record c {
  connections =
      insert c.next_id (Tcp.set_connection_callback true (Tcp.create false)) c.connections;
  current = some c.next_id;
  next_id = c.next_id + 1;
}

abbrev connect_ended : Bool → TcpClient → Tcp.TcpResult (Unit {0}) × TcpClient
connect_ended true c = (of_value tt, c)
connect_ended false c = (of_error Tcp.connection_failed, record c { current = none })

abbrev pub is_completed : {A : Type 0} → Completion A → Bool
is_completed (completed a) = true
is_completed _ = false

unfoldable pub connect :
    Completion (Unit {0}) → Text → ℕ → TcpClient → Tcp.TcpResult (Unit {0}) × TcpClient
connect outcome host port c =
    if is_connected c
    then (of_error Tcp.already_connected, c)
    else connect_ended (is_completed outcome) (
        on c.next_id (λ t. (Tcp.connect outcome t).1)
          (renewed (record c { host = host; port = port })))

-- Whether the handler is called at once, with `already_connected`
unfoldable pub async_connect : Text → ℕ → TcpClient → Bool × TcpClient
async_connect host port c = if is_connected c then (true, c) else (
  false,
  record (renewed (record c { host = host; port = port })) {
    attempts = insert c.next_id false c.attempts;
  },
)

unfoldable pub do_reconnect : TcpClient → TcpClient
do_reconnect c = record (renewed c) { attempts = insert c.next_id true c.attempts }

-- The timer completes its wait.
unfoldable pub timer_expires : TcpClient → TcpClient
unfolding do_reconnect
timer_expires c =
    if not c.waiting
    then c
    else if c.auto_reconnect
    then do_reconnect (record c { waiting = false })
    else record c { waiting = false }

-- The handler of `do_reconnect`
abbrev pub reconnected : Bool → TcpClient → TcpClient
reconnected true c = c
reconnected false c = schedule_reconnect (record c { current = none })

abbrev pub attempt_ended : ℕ → Completion (Unit {0}) → Option Bool → TcpClient → TcpClient
attempt_ended id outcome none c = c
attempt_ended id outcome (some by_timer) c =
    let ended = on id (Tcp.async_connect outcome) (record c { attempts = erase id c.attempts }) in
    if by_timer then reconnected (is_completed outcome) ended else ended

-- The socket completes an attempt to connect.
unfoldable pub complete_connect : ℕ → Completion (Unit {0}) → TcpClient → TcpClient
complete_connect id outcome c = attempt_ended id outcome (lookup id c.attempts) c

unfoldable pub disconnect : TcpClient → TcpClient
disconnect c =
    record (on_current Tcp.close c.current (record c { auto_reconnect = false; waiting = false })) {
      current = none;
    }

unfoldable pub enable_auto_reconnect : TcpClient → TcpClient
enable_auto_reconnect c = record c { auto_reconnect = true }

unfoldable pub disable_auto_reconnect : TcpClient → TcpClient
disable_auto_reconnect c = record c { auto_reconnect = false; waiting = false }

abbrev sent : Completion ℕ → Option TcpConnection → Tcp.TcpResult ℕ
sent outcome none = of_error Tcp.not_connected
sent outcome (some t) = (Tcp.send outcome t).0

unfoldable pub send : Completion ℕ → TcpClient → Tcp.TcpResult ℕ
send outcome c = sent outcome (connection_of c)

unfoldable pub start_receive : TcpClient → TcpClient
start_receive c = if is_connected c then on_current Tcp.start_receive c.current c else c

unfoldable pub stop_receive : TcpClient → TcpClient
stop_receive c = on_current Tcp.stop_receive c.current c

unfoldable pub set_connection_callback : Bool → TcpClient → TcpClient
set_connection_callback given c = record c { has_callback = given }
