-- ===== src/Lib.antt =====
-- A model of Scatter Web's message ratchet, its anonymous router, its DHT records, its messages
-- between processes, its inbox and its outbox, with the theorems that make them correct.
--
-- The parts and how they interact. Two clients encrypt to one another with the ratchet
-- (common/src/ratchet/ratchet.cpp). What they send travels in cells of one size between routers
-- (anonrouter/src): `Router::on_datagram` sends a cell on if its token is in the guard table, and
-- otherwise gives it to the channel manager, which opens the cell and the garlic in it and pushes the
-- payload to the client. A direct channel is set up by a CHAN_OPEN and a CHAN_ACCEPT cell. The ledger
-- credits the peers for what is relayed for them. Where a client can be reached stands in guard
-- records, which it signs, seals and publishes in a DHT (common/src/dht/record.cpp). The programs of
-- one machine exchange CBOR messages in frames over local sockets (common/src/ipc). While the client
-- is away its inbox (inbox/src) takes the messages that the router pushes, stores them, acknowledges
-- them and copies them to sibling inboxes; the client fetches and acknowledges them later. The
-- outbox (outbox/src) keeps the messages of a client and tries to deliver them to the inboxes of
-- their recipients until one acknowledges them.
--
-- The files.
--   Common, Fallible: lists of bytes, Boolean tests, association lists, calls that may throw. An
--     `Exec S A` keeps what was written before a throw.
--   Crypto: common/src/crypto/aes_gcm.cpp, kdf.cpp, mlkem.cpp and mldsa.cpp. libsodium, OpenSSL and liboqs are the
--     parameter `Provider`; `IsSound` and `CanSeal` are what their documentation promises. Toy is a
--     provider, and a CBOR library, that can be computed.
--   Cbor: libcbor, as the parameter `Libcbor`; `IsDefinite` and `Loads` are its promises.
--   Int, Hex: int64_t and the texts that tables are keyed by.
--   Ratchet: common/src/ratchet/ratchet.cpp. `State` is `ratchet::State`, and `encrypt`, `decrypt`,
--     `init_as_sender`, `init_as_receiver` are the functions of those names; Ratchet/Storage has
--     `serialize` and `deserialize`. The other files of the directory hold proofs.
--   AnonRouter/Cell, Guard, Tft, Garlic, Tunnel, Channel: the files of anonrouter/src of those names, one
--     function for each operation. AnonRouter/Handshake and AnonRouter/Router: router.cpp,
--     with `on_chan_open` and `on_chan_accept` of channel.cpp in the former.
--     AnonRouter/Node: the state that the managers share; datagrams and pushes are appended to it.
--   Dht: common/src/dht/record.cpp. Dht/Plaintext, Delegation, Guards and Prekeys have the functions
--     that build and parse each kind of record; the files of Dht/Guards hold proofs.
--   Ipc: common/src/ipc/codec.cpp. Ipc/Value is `CborValue` with `item_to_value` and `value_to_item`,
--     Ipc/Codec has `encode_*`, `detect` and `decode_*`, Ipc/Framing `frame`, `read_exact`,
--     `read_frame` and `write_frame`.
--   Inbox: inbox/src. Inbox/Store has the tables and statements of store.cpp, Inbox/Frame
--     `parse_frame_header`, Inbox/Node the state of `Inbox` and its calls of the router,
--     Inbox/Delivery and Inbox/Rounds the handlers of inbox.cpp, Inbox/Requests those of ipc_handler.cpp, and
--     Inbox/Events the sequence of events. The other files of the directory hold proofs.
--   Outbox: outbox/src. Outbox/Store has the queue of store.cpp, Outbox/Node the calls of the router,
--     Outbox/Delivery the handlers of frames and Outbox/Retries the attempts of outbox.cpp,
--     Outbox/Requests the requests of ipc_handler.cpp that read the queue and `cancel`.
--   Client: client/src/ratchet_manager.cpp with its table of client/src/keystore.cpp;
--     Client/RatchetManager/Specification has what it promises, the files beside it the proof.
--   Examples: the theorems at concrete inputs.
--
-- Representation. A byte is a natural number, a fixed array a list of bytes with its length as a
-- hypothesis where it matters; uint32_t counters wrap by `% 2 ^ 32`. Random bytes are arguments. A map is
-- an association list in iteration order. Each stretch that the source runs under a mutex is one step;
-- between the two stretches of `ChannelManager::send` the model lets no other call in. Bytes and credits
-- counted in int64_t are integers without bound.
--
-- SQLite is not in the repository: a table is its rows in the order of insertion, and a statement does
-- what SQL says of it, constraint errors included. The inbox calls the router, another process: its
-- answers are the parameter `reply`, a function of all the calls made so far. A socket is the list of
-- the pieces that its next reads find, and what each `write` accepts is an argument.
--
-- Fuel. `skip_until`, the loop of `advance_recv_chain`, has the distance to the target as fuel, which
-- each round lowers by one, so the loop never stops early. `receive`, the reading loop of a
-- connection, has a number of rounds: one more than there are messages is enough. `to_string` writes
-- at most the ten digits of a uint32_t.
--
-- Not modelled: sockets, threads, configuration and IPC of the router; pending calls and threads of
-- the IPC client and server; the threads of the inbox and the outbox; SQLite and the wrapper around it
-- (common/src/store/db.cpp); enqueueing, siblings and credentials of
-- the outbox; the program cli, and the client but for its ratchet manager.
pub mod Common
pub mod Crypto
pub mod Toy
pub mod Fallible
pub mod Cbor
pub mod Int
pub mod Hex
pub mod Ratchet
pub mod AnonRouter
pub mod Dht
pub mod Ipc
pub mod Inbox
pub mod Outbox
pub mod Client
pub mod Examples
