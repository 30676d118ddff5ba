-- ===== src/P2p/Discovery/Messages.antt =====
-- What reaches `PeerDiscovery` from other nodes, and how it starts.
use chain_forge.Base.{
  ℕ, ◌+◌, ◌-◌, ◌*◌, ◌%◌, ◌^◌, Bool, true, not, ◌&&◌, ◌||◌, Option, none, some, List, [], ◌∷◌, ◌==◌,
  nat_eq, bytes_eq, ltb, leb, if◌then◌else◌, length, take, drop,
}
use chain_forge.Core.Bytes.{Bytes}
use chain_forge.P2p.Address.{PeerAddress, TimePoint, Addresses}
use chain_forge.P2p.Exchange.{deserialize_peers}
use chain_forge.P2p.Discovery.{
  PeerDiscovery, BootstrapConfig, DiscoveryError, DiscoveryResult, success, failure, add_peer,
  add_peers, load_bootstrap_nodes, resolve_dns_seeds,
}

-- `std::stoi` in base ten: spaces, a sign, and digits up to another character.
abbrev is_space : ℕ → Bool
is_space c = (c == 32) || (leb 9 c && leb c 13)

skip_spaces : Bytes → Bytes
skip_spaces [] = []
skip_spaces (c ∷ cs) = let rest = skip_spaces cs in if is_space c then rest else c ∷ cs

digits : Option ℕ → Bytes → Option ℕ
digits acc [] = acc
digits acc (c ∷ cs) =
    let rest = digits (some (elim acc [ none ↦ c - 48 | some v ↦ v * 10 + (c - 48) ])) cs in
    if leb 48 c && leb c 57 then rest else acc

-- The number as a port: what is past `int` throws, the rest is cut to 16 bits.
abbrev positive : Option ℕ → Option ℕ
positive none = none
positive (some v) = if ltb v (2 ^ 31) then some (v % 2 ^ 16) else none

abbrev negative : Option ℕ → Option ℕ
negative none = none
negative (some v) = if leb v (2 ^ 31) then some ((2 ^ 32 - v) % 2 ^ 16) else none

abbrev signed : Bytes → Option ℕ
unfolding digits
signed [] = none
signed (c ∷ cs) =
    if c == b'-'
    then negative (digits none cs)
    else positive (digits none (if c == b'+' then cs else c ∷ cs))

unfoldable pub read_port : Bytes → Option ℕ
unfolding skip_spaces digits
read_port s = signed (skip_spaces s)

abbrev pub discover : Bytes
discover = b'D' ∷ b'I' ∷ b'S' ∷ b'C' ∷ b'O' ∷ b'V' ∷ b'E' ∷ b'R' ∷ b':' ∷ []

abbrev pub peerlist : Bytes
peerlist = b'P' ∷ b'E' ∷ b'E' ∷ b'R' ∷ b'L' ∷ b'I' ∷ b'S' ∷ b'T' ∷ b':' ∷ []

-- `select_peers_to_share`, from the sort by time, the most recent first.
unfoldable pub select_peers_to_share :
    (List PeerAddress → List PeerAddress) → List PeerAddress → ℕ → List PeerAddress
select_peers_to_share sort all_peers max_count =
    if leb (length all_peers) max_count then all_peers else take max_count (sort all_peers)

module _ {A : Type 0} (net : Addresses A) where
  unfoldable pub handle_discovery_message :
      TimePoint → Bytes → Bytes → PeerDiscovery → PeerDiscovery
  unfolding read_port
  handle_discovery_message now message sender d =
      if take 9 message == discover
      then elim (read_port (drop 9 message)) [
        | none ↦ d
        | some port ↦
            (add_peer net (record { ip = sender; port = port; last_seen = now; services = 0 }) d).1
      ]
      else if take 9 message == peerlist
      then add_peers net (deserialize_peers now (drop 9 message)) d
      else d

  unfoldable pub exchange_peers :
      (List PeerAddress → List PeerAddress)
      → List PeerAddress
      → PeerDiscovery
      → List PeerAddress × PeerDiscovery
  unfolding select_peers_to_share
  exchange_peers sort their_peers d =
      let d' : PeerDiscovery = add_peers net their_peers d in
      (select_peers_to_share sort d'.peers 10, d')

  -- `bound` tells whether the socket can be bound. The answer of the seeds is only logged.
  unfoldable pub start :
      (Bytes → List Bytes) → Bool → TimePoint → PeerDiscovery → DiscoveryResult Unit × PeerDiscovery
  start resolver bound now d =
      if d.running
      then (failure DiscoveryError.already_running, d)
      else let d' : PeerDiscovery = load_bootstrap_nodes net d in
        let c : BootstrapConfig = d.config in
        if c.enable_mdns && not bound
        then (failure DiscoveryError.broadcast_failed, d')
        else (success tt, record ((resolve_dns_seeds net resolver now d').1) { running = true })
