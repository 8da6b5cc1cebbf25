-- ===== src/Lib.antt =====
-- The verification library of libMeridian, an overlay in which each node keeps other nodes in rings
-- by their latency and routes queries for near nodes over them.
--
-- The parts of the program and how they interact. Marshal.h and Marshal.cpp hold the packets: a
-- RealPacket is the buffer that a packet class writes itself into (createRealPacket), a
-- BufferWrapper the cursor that it is read back from (parse). RingSet.h and RingSet.cpp hold the
-- rings, which the gossip and the queries fill (insertNode) and read (fillVector, getRandomNodes,
-- membersDump). A node behind a firewall is reached through a rendezvous node: it gets a PushPacket
-- and sends a PullPacket on over TCP. LatencyCache keeps measured latencies for a while. The queries
-- are state machines: they answer the packets and results that come for them with packets of their
-- own. QueryTable keeps the queries in progress: it hands each the packets and latencies that come
-- for it, and runs its handler when its time is over.
--
-- The files. Prelude shares names and lemmas. Node, Host, RealPacket, BufferWrapper and Packet are
-- the parts of Marshal.h below the packet classes, and Packets holds a module for each packet class,
-- named after it; Packets.Control is PingPacket, PongPacket, CreateRendv and RetRendv. Functions
-- keep their source names in lower case (create_real_packet is createRealPacket). A packet class
-- that is a template over its subclasses has their type byte as a field. RingSet is the class
-- RingSet; RingSet.Replacement is eligibleForReplacement, RingSet.Queries membersDump, fillVector
-- and getRandomNodes, RingSet.SetMembers setRingMembers. eraseNode(inNode, ring) takes its node by
-- reference: erase_node_at is the call with a node outside of the rings, erase_front the one of
-- insertNode with the front of a secondary ring, an element that eraseNode itself removes. Timeval is the times of QueryTable.h,
-- QueryTable.cpp and LatencyCache.cpp, Timeouts the map from times to vectors that both classes
-- keep, LatencyCache and QueryTable the two classes. Queries has a module for each class of queries
-- of Query.h and Query.cpp: HandleClosest is HandleClosestGeneric, with its handlers in Steps and
-- Handlers, HandleReq is HandleReqGeneric, and so on. A handler takes what it reads of the process
-- and answers with the new state, its calls in their order (Action), and its result; the calls
-- themselves are those of the other parts. OrdMap is std::map and std::set, Vector the idioms on
-- vectors and deques. Examples runs the theorems at concrete inputs.
--
-- How it is modelled. A byte is a number below 256, a buffer a list of bytes; an integer is a
-- natural number in the range of its type, and the layout of a packet is given independently of the
-- functions that write and read it. The host has either byte order. State is passed explicitly; -1
-- and NULL are results, a failing assert and a use of an element that is not there are `none`. The
-- arrays over the rings are functions of the ring number. Loops are recursions on the list or on the
-- count of rounds, so no fuel is needed: the count of a packet's entries bounds its loop, which ends
-- at the first error.
--
-- Parameters are MD5, the ceiling of the logarithm in getRingNumber and the bounds of fillVector,
-- which are computed in floating point, the answers of rand(), timeradd, and the averages and
-- thresholds of the queries (Numbers), which are floating point too; a sum of latencies as a double
-- is exact below 2^53, and stands as a natural number. Results about the rings hold for any of them.
--
-- Not modelled: InfoPacket, sockets, threads and timers, logging, allocation failure, the query
-- language with its interpreter and its two packets, the queries that manage rings, check several
-- constraints or run the query language, MeridianProcess and the programs around the library.
pub mod Prelude
pub mod Node
pub mod Host
pub mod RealPacket
pub mod BufferWrapper
pub mod Packet
pub mod Vector
pub mod OrdMap
pub mod RingSet
pub mod Packets
pub mod Timeval
pub mod Timeouts
pub mod QueryTable
pub mod Queries
pub mod LatencyCache
mod Examples
