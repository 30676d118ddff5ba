-- ===== src/P2p/Exchange.antt =====
-- `PeerExchange` of modules/p2p/src/peer_discovery.cpp: the list of peers as bytes.
pub mod RoundTrip
use chain_forge.Base.{
  ℕ, zero, suc, ◌+◌, ◌%◌, ◌^◌, Bool, Option, none, some, List, [], ◌∷◌, ◌++◌, ltb, leb,
  if◌then◌else◌, length, take, drop,
}
use chain_forge.Core.Bytes.{Bytes, be_bytes, be_value}
use chain_forge.P2p.Address.{PeerAddress, TimePoint}

-- The length of the address is cut to eight bits.
unfoldable pub serialize_peer : PeerAddress → Bytes
serialize_peer p = length p.ip % 256 ∷ (p.ip ++ (be_bytes 2 p.port ++ be_bytes 4 p.services))

unfoldable pub serialize_all : List PeerAddress → Bytes
unfolding serialize_peer
serialize_all [] = []
serialize_all (p ∷ ps) = serialize_peer p ++ serialize_all ps

unfoldable pub serialize_peers : List PeerAddress → Bytes
unfolding serialize_all
serialize_peers ps = be_bytes 4 (length ps % 2 ^ 32) ++ serialize_all ps

-- Port and services, after the address.
abbrev read_tail : TimePoint → Bytes → Bytes → Option (PeerAddress × Bytes)
read_tail now ip rest =
    if ltb (length rest) 2
    then none
    else if ltb (length (drop 2 rest)) 4
    then none
    else some (
      record {
        ip = ip;
        port = be_value 0 (take 2 rest);
        last_seen = now;
        services = be_value 0 (take 4 (drop 2 rest));
      },
      drop 4 (drop 2 rest),
    )

-- One round of the loop, from the bytes that are left; nothing where it breaks.
unfoldable pub read_peer : TimePoint → Bytes → Option (PeerAddress × Bytes)
read_peer now [] = none
read_peer now (ip_len ∷ rest) =
    if ltb (length rest) ip_len then none else read_tail now (take ip_len rest) (drop ip_len rest)

unfoldable pub read_peers : TimePoint → ℕ → Bytes → List PeerAddress
read_peers now zero rest = []
read_peers now (suc n) rest = elim (read_peer now rest) [
  | none ↦ []
  | some (p, rest') ↦ p ∷ read_peers now n rest'
]

-- The time is the one at which each address is made.
unfoldable pub deserialize_peers : TimePoint → Bytes → List PeerAddress
deserialize_peers now bytes =
    if ltb (length bytes) 4 then [] else read_peers now (be_value 0 (take 4 bytes)) (drop 4 bytes)
