-- ===== src/P2p/Server/Locking.antt =====
-- The mutex of the table of connections.
use chain_forge.Base.Map.Laws.{erase_absent, lookup-insert_self}
use chain_forge.P2p.Server.{
  completed, is_end, Bytes, Completion, complete_read, TcpConnection, TcpServer, Tracked, done,
  self_lock, is_live, close_held, close_all, stop, handle_accept, remove_connection,
  close_connection, changed, accept_connection, do_accept,
}
use chain_forge.P2p.Tcp as Tcp
use chain_forge.Base.{
  length-append, length, ltb, ltb, suc, ◌&&◌, ◌∙◌, some, none, inr, nat_eq, ◌||◌, beq_self, inl,
  if◌then◌else◌, ℕ, ◌≡◌, refl, Bool, true, false, [], ◌∷◌, arith, Bool-cases,
}
use chain_forge.Base.Map.{Map, lookup, insert, erase}

abbrev pub any_live : Map ℕ Tracked → Bool
any_live [] = false
any_live ((id, e) ∷ m) = is_live e || any_live m

close_held-live : (e : Tracked) → is_live e ≡ true → close_held e ≡ self_lock
unfolding close_held
close_held-live e l = ground (arith, l)

close_held-dead :
    (e : Tracked)
    → is_live e ≡ false
    → close_held e ≡ done (record e { connection = Tcp.close e.connection })
unfolding close_held
close_held-dead e l = ground (arith, l)

close_all-self_lock : (m : Map ℕ Tracked) → any_live m ≡ true → close_all m ≡ self_lock
unfolding close_all
close_all-self_lock [] l = ground arith
close_all-self_lock ((id, e) ∷ m) l = elim (Bool-cases (is_live e)) [
  | inl live ↦ rw (close_held-live e live) refl
  | inr dead ↦
      let rest = close_all-self_lock m (ground arith) in rw (close_held-dead e dead, rest) refl
]

abbrev close_tracked : Map ℕ Tracked → Map ℕ Tracked
close_tracked [] = []
close_tracked ((id, e) ∷ m) =
    (id, record e { connection = Tcp.close e.connection }) ∷ close_tracked m

close_all-done : (m : Map ℕ Tracked) → any_live m ≡ false → close_all m ≡ done (close_tracked m)
unfolding close_all
close_all-done [] l = refl
close_all-done ((id, e) ∷ m) l = elim (Bool-cases (is_live e)) [
  | inl live ↦ ground arith
  | inr dead ↦ let rest = close_all-done m (ground arith) in rw (close_held-dead e dead, rest) refl
]

pub stop_lem :
    (s : TcpServer)
    → s.running ≡ true
    → stop s ≡ (
        if any_live s.connections
        then self_lock
        else done (record s { running = false; connections = [] }))
unfolding stop
stop_lem s r = elim (Bool-cases (any_live s.connections)) [
  | inl live ↦ rw (r, close_all-self_lock s.connections live, live) refl
  | inr dead ↦ rw (r, close_all-done s.connections dead, dead) refl
]

any_live-insert :
    (id : ℕ) (e : Tracked) (m : Map ℕ Tracked) → is_live e ≡ true → any_live (insert id e m) ≡ true
any_live-insert id e [] l = ground arith
any_live-insert id e ((j, f) ∷ m) l = let rest = any_live-insert id e m l in ground (arith, rest)

erase-insert : (id : ℕ) (e : Tracked) (m : Map ℕ Tracked) → erase id (insert id e m) ≡ erase id m
erase-insert id e [] = ground (arith, beq_self id)
erase-insert id e ((j, f) ∷ m) = let rest = erase-insert id e m in ground (arith, rest, beq_self id)

handle_accept-accepted :
    (s : TcpServer) (id : ℕ)
    → s.running ≡ true
    → s.accept_callback ≡ none
    → handle_accept true id s ≡ record (handle_accept false id s) {
      connections = insert id accept_connection s.connections;
    }
unfolding handle_accept do_accept
handle_accept-accepted s id r a = rw (r, a) refl

remove_connection-live :
    (s : TcpServer) (id : ℕ) (e : Tracked)
    → lookup id s.connections ≡ some e
    → is_live e ≡ true
    → remove_connection id s ≡ self_lock
unfolding remove_connection
remove_connection-live s id e h l = rw (h, close_held-live e l) refl

remove_connection-dead :
    (s : TcpServer) (id : ℕ) (e : Tracked)
    → lookup id s.connections ≡ some e
    → is_live e ≡ false
    → remove_connection id s ≡ done (record s { connections = erase id s.connections })
unfolding remove_connection
remove_connection-dead s id e h l = rw (h, close_held-dead e l) refl

accept_connection-is_live : is_live accept_connection ≡ true
unfolding accept_connection Tcp.create Tcp.set_connection_callback
accept_connection-is_live = refl

close-connected : (c : TcpConnection) → (Tcp.close c).connected ≡ false
unfolding Tcp.close
close-connected c = ground arith

changed-told :
    (s : TcpServer) (id : ℕ) (told : Bool) (e : Tracked)
    → e.connection.connected ≡ false
    → (told && e.removes_itself) ≡ true
    → changed id told e s ≡ done (record s { connections = erase id s.connections })
unfolding changed
changed-told s id told e down own =
    let t : TcpServer = record s { connections = insert id e s.connections } in
    let gone =
      remove_connection-dead t id e (lookup-insert_self id e s.connections) (rw down refl) in
    let erased = erase-insert id e s.connections in rw (own, gone, erased) refl

-- A live connection that is closed takes itself out of the table.
pub close_connection-live :
    (s : TcpServer) (id : ℕ) (e : Tracked)
    → lookup id s.connections ≡ some e
    → is_live e ≡ true
    → close_connection id s ≡ done (record s { connections = erase id s.connections })
unfolding close_connection
close_connection-live s id e h l =
    let c : Tracked = record e { connection = Tcp.close e.connection } in
    rw (h, changed-told s id (is_live e) c (close-connected e.connection) (ground arith)) refl

ended-connected :
    (outcome : Completion Bytes) (c : TcpConnection) (n : ℕ)
    → is_end outcome ≡ true
    → c.pending_reads ≡ suc n
    → c.has_connection_callback ≡ true
    → ((Tcp.complete_read outcome c).connected ≡ false)
      × (ltb (length c.callbacks) (length (Tcp.complete_read outcome c).callbacks) ≡ true)
unfolding Tcp.complete_read Tcp.handle_receive
ended-connected (Tcp.completed bytes) c n h p k = ground arith
ended-connected Tcp.eof c n h p k =
    rw (p, k) (refl, ground (arith, length-append c.callbacks (Tcp.connection false ∷ [])))
ended-connected Tcp.connection_reset c n h p k =
    rw (p, k) (refl, ground (arith, length-append c.callbacks (Tcp.connection false ∷ [])))
ended-connected Tcp.other_error c n h p k = ground arith
ended-connected Tcp.exception c n h p k = ground arith

-- A live connection whose peer ends it while a read is pending is taken out of the table, and
-- nothing blocks.
pub complete_read-ended :
    (outcome : Completion Bytes) (s : TcpServer) (id : ℕ) (e : Tracked) (n : ℕ)
    → is_end outcome ≡ true
    → lookup id s.connections ≡ some e
    → is_live e ≡ true
    → e.connection.pending_reads ≡ suc n
    → complete_read outcome id s ≡ done (record s { connections = erase id s.connections })
unfolding complete_read
complete_read-ended outcome s id e n h found l p =
    let c = Tcp.complete_read outcome e.connection in
    let (down, told) = ended-connected outcome e.connection n h p (ground arith) in
    let t : Tracked = record e { connection = c } in
    rw
      (
        found,
        changed-told s id
            (is_end outcome && ltb (length e.connection.callbacks) (length c.callbacks)) t down
            (ground (arith, told)),
      )
      refl

-- On a server that runs without an accept callback, closing a connection that it has just accepted
-- takes the connection out of the table again, as if the accept had failed; but a thread that stops
-- the server, or that removes the connection by its number, blocks itself on the mutex.
pub handle_accept-self_lock :
    (s : TcpServer) (id : ℕ)
    → s.running ≡ true
    → s.accept_callback ≡ none
    → lookup id s.connections ≡ none
    → (close_connection id (handle_accept true id s) ≡ done (handle_accept false id s))
      × (stop (handle_accept true id s) ≡ self_lock)
      × (remove_connection id (handle_accept true id s) ≡ self_lock)
unfolding handle_accept do_accept
handle_accept-self_lock s id r a fresh =
    let live = accept_connection-is_live in
    let t : TcpServer = record (handle_accept false id s) {
      connections = insert id accept_connection s.connections;
    } in
    let there = lookup-insert_self id accept_connection s.connections in
    let erased =
      erase-insert id accept_connection s.connections ∙ erase_absent id s.connections fresh in
    rw (handle_accept-accepted s id r a) (
      close_connection-live t id accept_connection there live ∙ rw (r, do_accept, erased) refl,
      stop_lem t (rw (r, do_accept) refl)
          ∙ rw (any_live-insert id accept_connection s.connections live) refl,
      remove_connection-live t id accept_connection there live,
    )
