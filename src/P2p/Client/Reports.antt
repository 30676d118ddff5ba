-- ===== src/P2p/Client/Reports.antt =====
-- How many connections the client's callback is told of.
use chain_forge.Core.Bytes.{Bytes}
use mathlib.Core.List.{append-nil}
use chain_forge.P2p.Client.{
  insert, lookup, on_current, updated, on_callbacks, schedule_reconnect, TcpClient, on_connection,
}
use chain_forge.P2p.Tcp as Tcp
use chain_forge.P2p.Tcp.{
  Callback, connection, received, TcpConnection, Completion, completed, eof, connection_reset,
  other_error, exception,
}
use chain_forge.Base.{
  nat_eq, drop-append, inr, ap, inl, Option, Bool-cases, refl, length, sym, ◌∷◌, arith, drop, ◌≤◌,
  ◌+◌, ◌∙◌, ◌++◌, List, if◌then◌else◌, ◌≡◌, none, some, [], true, false, zero, suc, Bool, ℕ,
}

-- The calls of the callback with a connection that is up.
abbrev pub count_ups : List Bool → ℕ
count_ups [] = 0
count_ups (true ∷ bs) = suc (count_ups bs)
count_ups (false ∷ bs) = count_ups bs

abbrev ups : List Callback → ℕ
ups [] = 0
ups (connection true ∷ cs) = suc (ups cs)
ups (connection false ∷ cs) = ups cs
ups (received bytes ∷ cs) = ups cs

-- The attempts that were reported, and those that may be.
abbrev pub budget : TcpClient → ℕ
budget c = count_ups c.notified + length c.attempts

count_ups-snoc_true : (bs : List Bool) → count_ups (bs ++ true ∷ []) ≡ count_ups bs + 1
count_ups-snoc_true [] = refl
count_ups-snoc_true (true ∷ bs) = omega (arith, count_ups-snoc_true bs)
count_ups-snoc_true (false ∷ bs) = count_ups-snoc_true bs

count_ups-snoc_false : (bs : List Bool) → count_ups (bs ++ false ∷ []) ≡ count_ups bs
count_ups-snoc_false [] = refl
count_ups-snoc_false (true ∷ bs) = omega (arith, count_ups-snoc_false bs)
count_ups-snoc_false (false ∷ bs) = count_ups-snoc_false bs

pub schedule-budget : (c : TcpClient) → budget (schedule_reconnect c) ≡ budget c
unfolding schedule_reconnect
schedule-budget c = ground arith

on_connection-budget :
    (up : Bool) (c : TcpClient) → budget (on_connection up c) ≤ budget c + (if up then 1 else 0)
unfolding on_connection schedule_reconnect
on_connection-budget true c = ground (arith, count_ups-snoc_true c.notified)
on_connection-budget false c = ground (arith, count_ups-snoc_false c.notified)

on_callbacks-budget :
    (cs : List Callback) (c : TcpClient) → budget (on_callbacks cs c) ≤ budget c + ups cs
on_callbacks-budget [] c = omega arith
on_callbacks-budget (connection true ∷ cs) c =
    omega (arith, on_callbacks-budget cs (on_connection true c), on_connection-budget true c)
on_callbacks-budget (connection false ∷ cs) c =
    omega (arith, on_callbacks-budget cs (on_connection false c), on_connection-budget false c)
on_callbacks-budget (received bytes ∷ cs) c = on_callbacks-budget cs c

-- The operation appends callbacks, with at most `k` connections that are up.
pub record Adds (k : ℕ) (f : TcpConnection → TcpConnection) (t : TcpConnection) : Type 0 where
  pub calls : List Callback
  pub appended : (f t).callbacks ≡ t.callbacks ++ calls
  pub few : ups calls ≤ k

silent :
    (k : ℕ) (f : TcpConnection → TcpConnection) (t : TcpConnection)
    → (f t).callbacks ≡ t.callbacks
    → Adds k f t
silent k f t e = record {
  calls = [];
  appended = e ∙ sym (append-nil t.callbacks);
  few = omega arith;
}

-- One callback, or none
abbrev one : Bool → Callback → List Callback
one true x = x ∷ []
one false x = []

ups-one : (b up : Bool) → ups (one b (connection up)) ≤ (if up then 1 else 0)
ups-one true true = omega arith
ups-one true false = omega arith
ups-one false true = omega arith
ups-one false false = omega arith

notify-callbacks :
    (up : Bool) (t : TcpConnection)
    → (Tcp.notify up t).callbacks ≡ t.callbacks ++ one t.has_connection_callback (connection up)
notify-callbacks up t = elim (Bool-cases t.has_connection_callback) [
  | inl e ↦ rw e refl
  | inr e ↦ rw e (sym (append-nil t.callbacks))
]

pub async_connect-Adds :
    (outcome : Completion (Unit {0})) (t : TcpConnection) → Adds 1 (Tcp.async_connect outcome) t
unfolding Tcp.async_connect
async_connect-Adds (completed u) t = record {
  calls = one t.has_connection_callback (connection true);
  appended = notify-callbacks true (record t { connected = true });
  few = ups-one t.has_connection_callback true;
}
async_connect-Adds eof t = silent 1 (Tcp.async_connect eof) t refl
async_connect-Adds connection_reset t = silent 1 (Tcp.async_connect connection_reset) t refl
async_connect-Adds other_error t = silent 1 (Tcp.async_connect other_error) t refl
async_connect-Adds exception t = silent 1 (Tcp.async_connect exception) t refl

lost-Adds : (t : TcpConnection) → Adds 0 (λ t. Tcp.notify false (record t { connected = false })) t
lost-Adds t = record {
  calls = one t.has_connection_callback (connection false);
  appended = notify-callbacks false (record t { connected = false });
  few = ups-one t.has_connection_callback false;
}

pub close-Adds : (t : TcpConnection) → Adds 0 Tcp.close t
unfolding Tcp.close
close-Adds t = elim (Bool-cases t.connected) [
  | inl e ↦ record {
    calls = one t.has_connection_callback (connection false);
    appended = rw e (notify-callbacks false (record t { connected = false; receiving = false }));
    few = ups-one t.has_connection_callback false;
  }
  | inr e ↦ silent 0 Tcp.close t (rw e refl)
]

do_receive-callbacks : (t : TcpConnection) → (Tcp.do_receive t).callbacks ≡ t.callbacks
unfolding Tcp.do_receive
do_receive-callbacks t = ground arith

delivered-Adds :
    (bytes : Bytes) (t : TcpConnection) → Adds 0 (λ t. Tcp.do_receive (Tcp.deliver bytes t)) t
delivered-Adds [] t = silent 0 (λ t. Tcp.do_receive (Tcp.deliver [] t)) t (do_receive-callbacks t)
delivered-Adds (b ∷ bs) t = elim (Bool-cases t.has_receive_callback) [
  | inl e ↦ record {
    calls = received (b ∷ bs) ∷ [];
    appended = do_receive-callbacks (Tcp.deliver (b ∷ bs) t) ∙ rw e refl;
    few = omega arith;
  }
  | inr e ↦
      silent 0 (λ t. Tcp.do_receive (Tcp.deliver (b ∷ bs) t)) t
        (do_receive-callbacks (Tcp.deliver (b ∷ bs) t) ∙ rw e refl)
]

handle_receive-Adds :
    (outcome : Completion Bytes) (t : TcpConnection) → Adds 0 (Tcp.handle_receive outcome) t
unfolding Tcp.handle_receive
handle_receive-Adds (completed bytes) t = delivered-Adds bytes t
handle_receive-Adds eof t = lost-Adds t
handle_receive-Adds connection_reset t = lost-Adds t
handle_receive-Adds other_error t = silent 0 (Tcp.handle_receive other_error) t refl
handle_receive-Adds exception t = silent 0 (Tcp.handle_receive exception) t refl

pub complete_read-Adds :
    (outcome : Completion Bytes) (n : ℕ) (t : TcpConnection)
    → t.pending_reads ≡ n
    → Adds 0 (Tcp.complete_read outcome) t
unfolding Tcp.complete_read
complete_read-Adds outcome zero t e = silent 0 (Tcp.complete_read outcome) t (rw e refl)
complete_read-Adds outcome (suc n) t e =
    let handled = handle_receive-Adds outcome (record t { pending_reads = n }) in
    record { calls = handled.calls; appended = rw e handled.appended; few = handled.few }

-- A call on one of the connections
pub updated-budget :
    (k id : ℕ) (f : TcpConnection → TcpConnection) (t : Option TcpConnection) (c : TcpClient)
    → ((u : TcpConnection) → Adds k f u)
    → budget (updated id f t c) ≤ budget c + k
updated-budget k id f none c adds = omega arith
updated-budget k id f (some t) c adds =
    let added = adds t in
    let here : drop (length t.callbacks) (f t).callbacks ≡ added.calls =
      ap (drop (length t.callbacks)) added.appended
      ∙ drop-append (length t.callbacks) t.callbacks added.calls refl in
    let moved = record c { connections = insert id (f t) c.connections } in
    rw here (omega (arith, on_callbacks-budget added.calls moved, added.few))

pub on_current-budget :
    (f : TcpConnection → TcpConnection) (id : Option ℕ) (c : TcpClient)
    → ((u : TcpConnection) → Adds 0 f u)
    → budget (on_current f id c) ≤ budget c
on_current-budget f none c adds = omega arith
on_current-budget f (some id) c adds =
    omega (arith, updated-budget 0 id f (lookup id c.connections) c adds)
