-- ===== src/Lib.antt =====
-- Verification of the collector flowd of the network monitoring framework: the matching of
-- addresses, the flow filter, the checksum, the format in which flows are stored, the peers and their
-- templates, the handlers of packets, and the queues between them.
--
-- flowd receives NetFlow packets, makes a flow record of each flow, lets the filter accept, discard
-- or tag it, and appends the accepted ones to a file in the store format. The filter compares
-- addresses through the address functions; the store format protects each record by the checksum.
--
-- - Addr (flowd/addr.c, flowd/addr.h): `struct xaddr` is `Xaddr`, and each function of masks,
--   comparison and matching has its name. A word that the code keeps in network byte order is the
--   number that `ntohl` reads from it; its bytes are the digits of that number. Addr/Value reads an
--   address as one number of 32 or 128 bits, the view in which the theorems are stated. Addr/Words,
--   Addr/Masks and Addr/Network say what the masks do to words and to addresses, Addr/Match and
--   Addr/HostPart what follows for the functions, Addr/Compare what the order is.
--   Addr/Socket has the conversions to and from socket addresses, whose sizes are parameters.
-- - Filter (flowd/filter.c, flowd/filter.h): `flow_match` runs the blocks of a rule in the order of
--   the code, `scan` is the loop of `filter_flow` with its counters and its break, `deliver` the
--   code after the loop. `localtime` is a parameter, of which nothing is assumed. Filter/Criteria,
--   Filter/Winner and Filter/Counters hold the proofs.
-- - Store (flowd/store.h): the flow record and its parts. Store/Field lists the flags with their
--   bits and sizes, Store/Bytes the bytes of each packed struct.
-- - Store/Crc32 (flowd/crc32.c): the table (Store/Crc32/Table) and the update, with the division
--   bit by bit as the reference (Store/Crc32/Reference).
-- - Store/Codec (flowd/store.c): `store_calc_flow_len`, `store_flow_serialise`,
--   `store_flow_serialise_masked` and `store_flow_deserialise`. RFIELD and WFIELD are `rfield` and
--   `wfield`, run over the list of the fields in the order on disk. The locals that the serialiser
--   leaves unassigned hold what the stack held, which is a parameter; a copy from behind the bytes
--   supplied is the result `over_read`. Codec/Layout, Codec/Known and Codec/Writing say which bytes
--   are written, Codec/Addrs and Codec/Switches which flags and locals the four switches on the
--   addresses leave, Codec/Chunks, Codec/Copy, Codec/Steps and Codec/ReadBack what is read from
--   them, Codec/Stored what a record keeps, Codec/RoundTrip and Codec/Masked the two together.
-- - Store/Swab (flowd/store.c): `store_swab_flow`, with `ntohs`, `ntohl`, `htons` and `htonl` as
--   parameters; Store/Endian has `store_ntohll` and `store_htonll` for a little-endian machine,
--   without HAVE_BETOH64.
-- - Peer (flowd/peer.c, flowd/peer.h): the templates of a peer, in queues in the order of their use,
--   with `new_template`, `template_update` and the lookups under the names of the code less
--   `peer_nf9_`. A TAILQ is a list, and a pointer into it the lookup that gave it; `none` is a null
--   pointer that is followed. Peer/Counts and Peer/Lookup hold the proofs. Peer/Table has the table
--   of peers, with the splay tree of Peer/Tree as an interface: its laws are those of the generated
--   functions. Peer/Agree says when the tree and the queue agree, Peer/Insert, Peer/Scrub and
--   Peer/Update what the operations leave. flowd starts with the limits of 128 peers, 64 sources, 8 templates and
--   1024 bytes a template.
-- - Collector (flowd/flowd.c, flowd/netflow.h): a packet is the list of its bytes. Collector/Template
--   has `process_netflow_v9_template`, Collector/Record the copy of a record into a flow,
--   Collector/Nf9 `process_netflow_v9_data` and the loop of `process_netflow_v9`, Collector/Fixed
--   the handlers of v.1, v.5 and v.7 and `process_packet`. They share the tests on the header
--   (`process_fixed`), which the code repeats. Faults are results of their own: a read behind the
--   packet, a write beside a member, a division by zero, a loop that does not end.
--   Collector/Checked, Collector/Flowset, Collector/Safe, Collector/Step, Collector/Packet,
--   Collector/Stored, Collector/Ordered and Collector/Dispatch hold the proofs; Collector/Arrives
--   says which flowsets the loop over a packet comes to. Collector/Output has the queue of output, with `realloc` as
--   a parameter, and Collector/Enqueue its proofs. Collector/Logsock counts the errors of the log
--   socket, with the results of `send` and the clock as inputs; Collector/Input has the queue of
--   packets and the loop that empties it, Collector/Receive `receive_packet`, with what the calls of
--   the system give as inputs; Collector/Monitor and Collector/Received hold its proofs.
-- - Common: the lists, tail queues, options, tests, bits and flags that the parts share. Tests, Tests/Store,
--   Tests/Peers, Tests/Collector and Tests/Input apply the theorems to concrete data.
--
-- Numbers: a field of w bits is a natural number with the bound `< 2 ^ w` as a hypothesis where a
-- theorem needs it; counters wrap at 2 ^ 32 or 2 ^ 64, the length in words at 256. The loop over
-- the words of an IPv6 mask has four rounds as in the code. The loop over the templates of a flowset
-- takes as many rounds as the flowset has bytes, and the growth of the queue six: enough, as is
-- proved. The loop over the flowsets of a packet takes more rounds than the packet has bytes, which
-- is enough unless a flowset stalls it. The loop over the queue of packets has one round for each
-- packet and one more.
--
-- Not modelled: the conversions between addresses and text, the printers of rules, flows
-- and times, the reading and writing of descriptors, the messages that go
-- with an error code, the part of `process_flow` before the queue of
-- output, the event loop, the estimation of traffic, and the exporter softflowd; the simulator NSP
-- is another program.
mod Common
mod Tests
pub mod Addr
pub mod Store
pub mod Filter
pub mod Peer
pub mod Collector
