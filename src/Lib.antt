-- ===== src/Lib.antt =====
-- scot replicates key-value requests over RDMA. A proposal (src/scot-core.cc, `propose`) goes, by the rule
-- that names the owner of its hash value, to the replicator of this node or to its checker. Both take a
-- slot for the request, write a message to a log in registered memory, and write that message to the same
-- offset of every peer's region; there a worker polls for it. The replicator also keeps the newest
-- request for each hash value in a hash table of linked lists with marked references.
--
-- The files and the code they model:
--   Entry       struct ScotSlotEntry, by address (src/includes/scot-slot.hh), and `scot_hash_cmp`
--   Mark        the marking macros of src/includes/lfmap.hh
--   Lfmap       class LockfreeMap (src/lfmap.cc), one function for each; Chain, Search, Upsert, Rewire,
--               Update, Bucket and Find treat a list as a sorted map; Hash is the hash function;
--               Threads is the loop of `__ht_try_insert` with the functions that it calls, under any
--               interleaving of the accesses of its callers
--   Replicator  `__ht_try_insert` and `__ht_get_latest_entry` (src/scot-rpli.cc); Table is the invariant of
--               the whole table, Add, Reset and Frame keep it
--   Memory      bytes by address, memcpy and memset
--   Log         class ScotLog (src/scot-log.cc); Write is the writer's side, Deliver the reader's
--   Slot        class ScotSlot (src/scot-slot.cc): the atomic counters as a step relation of any number of
--               threads, with the store to `ready` that follows the count; in Entries the functions as one
--               thread runs them; Lost and Late are about marks and stores that meet a reset
--   Writer      ScotReplicator::write_request (src/scot-rpli.cc) and ScotChecker (src/scot-chkr.cc);
--               Sequence is one request after another, through the resets of the slots, and Threads is
--               write_request under any interleaving of its callers, with the writer lock
--   Reader      the workers of src/scot-rcvr.cc and src/scot-rply.cc: one round, and in Worker the
--               objects, their signal and the loops; Stream is a sequence of messages, and Succession one
--               in which each comes to what the round before it left
--   Core        ScotJudge (src/includes/scot-rule.hh), the balancing rules, the peers of src/scot-conn.cc,
--               and `propose`; Node is the constructor and the destructor of ScotCore, which give every
--               writer and every worker its memory region, and Linked joins two nodes; Propose follows a
--               proposal to the replayer of a peer, Node/First the first one of a linked node, Ask that
--               of a node that is not the owner to the owner's receiver, and Answer from there back;
--               Serving and Node/Serves are about one proposal after another, Own and Node/Replicates
--               about the posts of those that the node owns, up to the replayer of a peer
--   Heartbeat   class ScotHeartbeat (src/scot-hb.cc)
--   Eval        class ScotTimestamp (src/scot-eval.cc): pairs of clock readings and their statistics
--   Conn        class ScotConnection (src/scot-conn.cc): the key names (Strings, Key), and the calls of the
--               hartebeest library as a trace (Calls); Rendezvous, Pairing and MadeFirst are about
--               the trace of a node, Barrier about the interleavings of the nodes of a cluster
-- The modules whose names end in Examples hold runs at concrete inputs. Base has the shared names.
--
-- State and operations: a function that changes memory takes the heap of entries or the bytes and
-- returns them; a loop takes fuel and gives `none` when that runs out, and each theorem about such a
-- function says which fuel is enough: one round for `__ht_try_insert`, and as many rounds as entries are
-- registered for the searches, so that 513 is enough for any sequence of requests. A wait on another thread is a list of the memories that its rounds
-- see (Log, Reader), a move that is possible only once the wait is over (Slot), or `none` (Slot/Entries).
-- Numbers are natural numbers; where a C type wraps, the wrap is written out as `% 2 ^ w`.
--
-- The hartebeest library is not part of the repository. Its calls in src/scot-conn.cc are the elements of
-- a trace, and what they return is a parameter, a record of functions; what is relied on of them is
-- stated where it is used: pushes succeed, a fetched region is the one that was pushed under its
-- key (Core/Node/Linked), and a wait returns only once its key was pushed, where a fetch may wait
-- or not (Conn/Barrier).
--
-- Not modelled: RDMA itself. A call of hartebeest_rdma_post_single_fast is a value of Post, and what a peer
-- sees of a write is any sequence of prefixes of its bytes, in rising order of addresses. The slots, the
-- insertions into one list of the hash table, what the callers of the replicator do under its lock, and
-- the set-up of the connections are interleaved; the other functions of the hash table and the checker
-- run one thread at a time. Accesses are taken to be in one order that all threads agree on. Products of
-- doubles, in src/scot-eval.cc, are a parameter. The signal of a worker is read as one value at a time,
-- though it is not atomic. Output (src/scot-mout.cc, the formatting of the files that Eval writes) is left out, and so are the debug
-- branches, an environment variable that is not set, and files that cannot be opened.
pub mod Base
pub mod Entry
pub mod Memory
pub mod Log
pub mod Slot
pub mod Mark
pub mod Lfmap
pub mod Replicator
pub mod Writer
pub mod Reader
pub mod Core
pub mod Heartbeat
pub mod Eval
pub mod Conn
