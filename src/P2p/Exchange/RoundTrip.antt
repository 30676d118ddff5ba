-- ===== src/P2p/Exchange/RoundTrip.antt =====
-- Reading back the bytes of a list of peers, and reading bytes of any kind.
use chain_forge.Base.{
  ◌-◌, ℕ, zero, suc, ◌+◌, ◌*◌, ◌%◌, ◌^◌, ◌≤◌, ◌<◌, ◌≡◌, refl, ap, false, some, List, [], ◌∷◌, ◌++◌,
  ltb, length, take, drop, All, map, arith, length-append, take-append, drop-append, Option-cases,
  Bool-cases, inl, inr, ◌⊎◌,
}
use mathlib.Core.List.{append_assoc}
use chain_forge.Core.Bytes.{Bytes, be_bytes, be_value}
use chain_forge.Core.Bytes.Laws.{length-be_bytes}
use chain_forge.Core.Bytes.BigEndian.{be_value-be_bytes_alone}
use chain_forge.P2p.Address.{PeerAddress, TimePoint}
use chain_forge.P2p.Exchange.{
  serialize_peer, serialize_all, serialize_peers, read_tail, read_peer, read_peers,
  deserialize_peers,
}

-- The fields fit the bytes that they are written to.
pub record IsWritable (p : PeerAddress) : Type 0 where
  pub ip_fits : length p.ip < 256
  pub port_fits : p.port < 2 ^ 16
  pub services_fit : p.services < 2 ^ 32

abbrev pub seen_at : TimePoint → PeerAddress → PeerAddress
seen_at now p = record p { last_seen = now }

read_tail-bytes :
    (now : TimePoint) (ip : Bytes) (port services : ℕ) (rest : Bytes)
    → port < 2 ^ 16
    → services < 2 ^ 32
    → read_tail now ip (be_bytes 2 port ++ (be_bytes 4 services ++ rest))
      ≡ some (record { ip = ip; port = port; last_seen = now; services = services }, rest)
read_tail-bytes now ip port services rest hp hs =
    let after : drop 2 (be_bytes 2 port ++ (be_bytes 4 services ++ rest))
        ≡ be_bytes 4 services ++ rest =
      drop-append 2 _ _ (length-be_bytes 2 port) in
    let enough : ltb (length (be_bytes 2 port ++ (be_bytes 4 services ++ rest))) 2 ≡ false =
      ground (
        arith,
        length-append (be_bytes 2 port) (be_bytes 4 services ++ rest),
        length-be_bytes 2 port,
      ) in
    let enough' : ltb (length (be_bytes 4 services ++ rest)) 4 ≡ false =
      ground (arith, length-append (be_bytes 4 services) rest, length-be_bytes 4 services) in
    rw
      (
        enough,
        after,
        enough',
        take-append 2 (be_bytes 2 port) (be_bytes 4 services ++ rest) (length-be_bytes 2 port),
        take-append 4 (be_bytes 4 services) rest (length-be_bytes 4 services),
        drop-append 4 (be_bytes 4 services) rest (length-be_bytes 4 services),
        be_value-be_bytes_alone 2 port hp,
        be_value-be_bytes_alone 4 services hs,
      )
      refl

read_peer-serialize_peer :
    (now : TimePoint) (p : PeerAddress) (rest : Bytes)
    → IsWritable p
    → read_peer now (serialize_peer p ++ rest) ≡ some (seen_at now p, rest)
unfolding read_peer serialize_peer
read_peer-serialize_peer now p rest v =
    let n : length p.ip % 256 ≡ length p.ip = omega (arith, v.ip_fits) in
    let tail : Bytes = be_bytes 2 p.port ++ (be_bytes 4 p.services ++ rest) in
    let enough : ltb (length (p.ip ++ tail)) (length p.ip) ≡ false =
      ground (arith, length-append p.ip tail) in
    rw
      (
        n,
        append_assoc p.ip (be_bytes 2 p.port ++ be_bytes 4 p.services) rest,
        append_assoc (be_bytes 2 p.port) (be_bytes 4 p.services) rest,
        enough,
        take-append (length p.ip) p.ip tail refl,
        drop-append (length p.ip) p.ip tail refl,
      )
      (read_tail-bytes now p.ip p.port p.services rest v.port_fits v.services_fit)

read_peers-serialize_all :
    (now : TimePoint) (ps : List PeerAddress) (rest : Bytes)
    → All IsWritable ps
    → read_peers now (length ps) (serialize_all ps ++ rest) ≡ map (seen_at now) ps
unfolding read_peers serialize_all
read_peers-serialize_all now [] rest v = refl
read_peers-serialize_all now (p ∷ ps) rest v =
    rw
      (
        append_assoc (serialize_peer p) (serialize_all ps) rest,
        read_peer-serialize_peer now p (serialize_all ps ++ rest) v.0,
        read_peers,
      )
      (ap (◌∷◌ (seen_at now p)) (read_peers-serialize_all now ps rest v.1))

-- Fewer than 2^32 peers, each with an address of fewer than 256 bytes, a port of 16 bits and services
-- of 32 bits, are read back from their bytes with whatever follows them, with the same endpoints and
-- services; each is seen at the time of reading.
pub deserialize_peers-serialize_peers :
    (now : TimePoint) (ps : List PeerAddress) (rest : Bytes)
    → length ps < 2 ^ 32
    → All IsWritable ps
    → deserialize_peers now (serialize_peers ps ++ rest) ≡ map (seen_at now) ps
unfolding deserialize_peers serialize_peers
deserialize_peers-serialize_peers now ps rest few v =
    let n : length ps % 2 ^ 32 ≡ length ps = omega arith in
    let tail : Bytes = serialize_all ps ++ rest in
    let four = length-be_bytes 4 (length ps) in
    let enough : ltb (length (be_bytes 4 (length ps) ++ tail)) 4 ≡ false =
      ground (arith, length-append (be_bytes 4 (length ps)) tail) in
    rw
      (
        n,
        append_assoc (be_bytes 4 (length ps)) (serialize_all ps) rest,
        enough,
        take-append 4 (be_bytes 4 (length ps)) tail four,
        drop-append 4 (be_bytes 4 (length ps)) tail four,
        be_value-be_bytes_alone 4 (length ps) few,
      )
      (read_peers-serialize_all now ps rest v)

length-drop : (n : ℕ) (xs : Bytes) → length (drop n xs) ≡ length xs - n
length-drop zero xs = omega arith
length-drop (suc n) [] = omega arith
length-drop (suc n) (x ∷ xs) = omega (arith, length-drop n xs)

read_peer-shorter :
    (now : TimePoint) (bytes : Bytes) (p : PeerAddress) (rest : Bytes)
    → read_peer now bytes ≡ some (p, rest)
    → length rest + 7 ≤ length bytes
unfolding read_peer
read_peer-shorter now [] p rest e = cc
read_peer-shorter now (n ∷ bytes) p rest e = ground (
  arith,
  length-drop n bytes,
  length-drop 2 (drop n bytes),
  length-drop 4 (drop 2 (drop n bytes)),
)

read_peers-length :
    (now : TimePoint) (n : ℕ) (bytes : Bytes)
    → (length (read_peers now n bytes) * 7 ≤ length bytes) × (length (read_peers now n bytes) ≤ n)
unfolding read_peers
read_peers-length now zero bytes = (omega arith, omega arith)
read_peers-length now (suc n) bytes = elim (Option-cases (read_peer now bytes)) [
  | inl e ↦ rw (e, read_peers) (omega arith, omega arith)
  | inr ((p, rest), e) ↦
      rw (e, read_peers)
        (let ih = read_peers-length now n rest in
          let shorter = read_peer-shorter now bytes p rest e in (omega arith, omega arith))
]

-- Bytes of any kind give at most the peers that they announce, and at least seven bytes were there
-- for each, besides the four of the count.
pub deserialize_peers-length :
    (now : TimePoint) (bytes : Bytes)
    → (deserialize_peers now bytes ≡ [])
      ⊎ ((length (deserialize_peers now bytes) * 7 + 4 ≤ length bytes)
          × (length (deserialize_peers now bytes) ≤ be_value 0 (take 4 bytes)))
unfolding deserialize_peers
deserialize_peers-length now bytes = elim (Bool-cases (ltb (length bytes) 4)) [
  | inl y ↦ rw y (inl refl)
  | inr n ↦ rw n (
      let read = read_peers-length now (be_value 0 (take 4 bytes)) (drop 4 bytes) in
      inr (ground (arith, length-drop 4 bytes), read.1))
]
