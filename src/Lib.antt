-- ===== src/Lib.antt =====
-- Verification of ChainForge, a blockchain node in C++.
--
-- The program's modules and what stands for them here:
--   modules/core       Core: addresses, hashes, amounts, timestamps, transactions and blocks. A class
--                      that wraps one value is modelled by that value; Transaction and Block are records
--                      with the cached hash, and a method that fills the cache returns the new record.
--                      Exceptions are the values of Core.Exceptions.Result.
--   modules/storage    Storage: the in-memory database and its write batches, and Storage.Store, the
--                      partial function that it stands for. Storage.Iterator is the class
--                      MemoryIterator; Storage.Iterator.Listing is the loop of a client over it.
--   modules/mempool    Mempool: the class MempoolImpl. A method is a function from the pool to an outcome
--                      (Mempool.Monad): done, or self_lock when a thread asks for the mutex it holds.
--   modules/consensus  Consensus: the class ProofOfWork and the namespace `pow`; Consensus.Interleaving
--                      is the relation of the steps of threads that share one instance.
--   modules/p2p        P2p: peer_address.cpp and peer_discovery.cpp, that is the addresses, the wire
--                      format of a list of peers, and the set of peers of a node; P2p.Tcp is
--                      tcp_connection.cpp, and P2p.Server tcp_server.cpp with the mutex of its table, with
--                      what the sockets answer as arguments; P2p.Client is tcp_client.cpp, and P2p.Udp
--                      udp_transport.cpp over a socket as an interface.
--   modules/rpc        Rpc: Http is http_server.cpp (parsing and printing, and Http.Connection for one
--                      connection), Server and Responses are rpc_server_impl.cpp over the JSON library as
--                      an interface, Hex the numbers of blockchain_rpc_methods.cpp.
--   modules/core       Errors: expected.hpp, error.hpp, error.cpp and error_utils.hpp. A callable is a
--                      function on a state, and a retry also returns how long it slept.
--   modules/serialization  Serialization: validator.cpp, and serializer.cpp over the messages of proto/
--                      and an interface to the code that protobuf generates for them. Wire is a concrete
--                      format with which the tests run the serializer.
--   modules/crypto     Crypto: a module per file, over OpenSSL, libsecp256k1 and libsodium as arguments
--                      (Hash.Digests, Keys.Libraries, Signature.Signing). A read beyond an array, which
--                      has no defined result, gives `none`.
--   modules/logging    Logging: logger.cpp and log_manager.cpp over spdlog's registry as an interface.
--   modules/metrics    Metrics: the histogram and the registry of simple_metrics.cpp, and the keys of
--                      metrics_registry.cpp.
-- The pool stores transactions of Core and asks them for their validity, size and hash; the proof of
-- work hashes and validates blocks of Core; the discovery reads what Exchange writes; the validator
-- checks blocks of Core and returns results of Errors, as the connection and the serializer do; the RPC
-- server answers what its HTTP front end parsed; the TCP client drives connections of P2p.Tcp. Base has
-- the lists, maps, integers and texts that all of them use.
--
-- Numbers are natural numbers, and 64-bit wrap-around is written out. A time is an argument, one for
-- each reading of the clock. A `double` is any type with the operations of Base.Double, of which exact
-- fractions are one; no property of rounding is assumed. An unordered map is a list of entries with
-- distinct keys, in no particular order of iteration. The address library, the resolver of names, the
-- binding of a socket, the sort by time and `rand()` are arguments.
--
-- Text is a list of character codes. The streams, `std::getline`, `std::stoul`, `std::stoull`,
-- `std::sort` and `std::to_string` are written out in Base.Text and where they are used.
--
-- Loops are recursions on the data, but these. The loops over lines and over the pairs of a query
-- have one more fuel than there are characters, and each call of `getline` that succeeds takes one. The
-- loops of `calculate_merkle_root` and `hash_many` have as much fuel as there are hashes, and each round
-- halves them. The loop of `perform_mining` has fuel for 43 rounds, and leaves at nonce 42 at the latest.
-- A scan of the database has one more fuel than there are entries, and each step passes one.
--
-- Not modelled: of modules/logging the reading of configuration files, the performance logger and the
-- printed record; the threads and sockets of the RPC server and the methods that return fixed data;
-- with_timeout; the gauges, the export and the server of the metrics; the printed forms of amounts and
-- the text of timestamps, JSON of the core, random values, and the choice of random peers. The callbacks
-- of a connection are recorded; of what they do, only the callbacks that the server and the client set
-- are modelled. Two threads that use the table of methods, or the server's table of connections, at once
-- are not considered.
pub mod Base
pub mod Core
pub mod Crypto
pub mod Logging
pub mod Storage
pub mod Mempool
pub mod Consensus
pub mod P2p
pub mod Rpc
pub mod Errors
pub mod Serialization
pub mod Metrics
