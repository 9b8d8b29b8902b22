-- ===== src/Lib.antt =====
-- Verification library of an L4/L7 load balancer written in C++.
--
-- The program. include/core/ring_buffer.h has the queues between threads. include/lb has the parts
-- that choose a server for a flow: a consistent hash ring over MurmurHash3, the table of servers
-- around it, and the table of sessions that keeps a flow with its server. include/common/types.h has
-- the records that they share. src/main.cpp is the TCP proxy: it takes a client, asks the table of
-- servers for a backend, connects to it and passes bytes both ways from an event loop.
--
-- The files.
--   Base: Boolean tests, casts to fixed widths, lists over the native numbers, association lists for
--     std::unordered_map (Base/Assoc) and bit operations (Base/Bits).
--   Ring: include/core/ring_buffer.h. Ring/Spsc has SPSCRingBuffer (push, pop, peek, size as `count`,
--     empty, full, capacity), Ring/Spsc/Threads its two threads as a step relation, Ring/Queue the
--     bounded queue that both classes implement, Ring/Batch the loops of BatchRingBuffer. Ring/Mpmc has
--     MPMCRingBuffer with one call after another, and Ring/Mpmc/Threads any number of its threads, where
--     each access to shared memory is a step; Ring/Mpmc/Delivered is about all calls of a run.
--   Types, Address, Text: include/common/types.h, and the forms of printf and scanf that it uses.
--   Logger: include/common/logger.h (set_level, is_enabled, log and LOG_EVERY_N).
--   Murmur, HashRing: include/lb/consistent_hash.h (hash, hash_tuple, rotl32, fmix32; add_node,
--     remove_node, get_server, node_count, clear).
--   Servers: RealServerManager of include/lb/real_server.h, one function for each method.
--   Sessions: SessionManager of include/lb/session.h, one function for each method.
--   Proxy: src/main.cpp (create_socket, connect_to_backend, handle_accept, close_connection,
--     forward_data, handle_event, and the loop of ff_loop as `handle_events`). Proxy/Arguments has the
--     command line, Proxy/Main the rest of `main` up to the loop, create_listen_socket, and ff_loop.
--     Proxy/Heap and Proxy/Safety have the invariant of the connections (Proxy/Safety/Run and
--     Proxy/Safety/Served follow it from the start on), Proxy/Forward what a transfer sends.
--   Packet: PacketMeta and ProtocolParser::parse of include/protocol/ip.h; Packet/Headers the methods of
--     the headers there and in include/protocol/ethernet.h, Packet/Checksum IpChecksum.
--   Config: include/common/config.h (load, get and the other getters, parse_real_servers). Config/Lines
--     is about its lines, Config/Entries and Config/RoundTrip about the entries of real servers.
--   Balancer: handle_loadbalance of include/core/loadbalancer.h, over Servers and Sessions; a session or
--     a server is looked up and written back under its key. Balancer/Dispatch has process_packet and
--     the other handlers, Balancer/Start has init. The forwarder and the ARP and ICMP code are
--     parameters.
--
-- Conventions. Numbers are natural; an unsigned type of w bits wraps at 2 ^ w where the code computes
-- in it. Memory is little-endian, as on the machines that the project builds for. A mutex makes each
-- public call one step. The clock, the padding bytes of a FiveTuple and the socket API of F-Stack are
-- arguments; what is assumed of the socket API is in Proxy/Forward (`Writes`) and in Proxy/Safety
-- (`Descriptors`); Proxy/Main has the calls that only `main` makes (`Boot`). An association list
-- stands for an unordered map, in any order.
--
-- Fuel. `to_string` recurses on a number at least the digits of its argument. The write loop of
-- `forward_data` has as fuel the bytes left: each call that takes at least one byte leaves fewer. The loops
-- of MPMCRingBuffer have as fuel their rounds, and one is enough where no other thread is in a call;
-- the fold of the checksum has four, and three are enough. What is said of the threads of
-- MPMCRingBuffer holds until the indices wrap, that is for 2 ^ 64 - Size items.
--
-- Not modelled: the printing of statistics and of the help in src/main.cpp; the
-- calls of the logger and Config::dump, which return nothing to the program; the F-Stack wrapper,
-- whose methods only call the library; the forwarders and the ARP and ICMP code, which are not in the
-- repository.
pub mod Base
pub mod Ring
pub mod Types
pub mod Text
pub mod Address
pub mod Logger
pub mod Murmur
pub mod HashRing
pub mod Servers
pub mod Sessions
pub mod Proxy
pub mod Packet
pub mod Balancer
pub mod Config
