-- ===== src/Lib.antt =====
-- Design-With-TsGo, in Go: forty programs on data structures, concurrency and distributed systems,
-- each a directory of its own with a library part and a main function that shows it. The programs
-- share nothing but a logger (pkg/logger). This development models the library parts of the programs
-- named below, each as state passed from call to call, and proves what makes each correct.
--
-- Files and code. Each file holds the state and the operations of one program, with the names of
-- the source in this language's spelling; the proofs and the tests stand in its child modules.
-- - BucketHashTable: 03-Hash-Table/bucket-hash-table.go. Chains are lists of entries.
-- - OpenAddressing: 03-Hash-Table/open-addressing-hash-table.go. Slots are a list; `none` is nil.
--   A capacity is below 2^32, as `uint32` of a multiple of that is a division by zero.
-- - BinaryHeap: 06-Min-Heap-Max-Heap/main.go. The comparator is an argument; theorems ask that it is
--   a strict weak order.
-- - Trie: 07-Trie/main.go. A word is a list of runes; the tree of nodes owns its children.
-- - BloomFilter: 04-Bloom-Filter/main.go. A byte is the list of its bits; the two sizes, which the
--   constructor computes in floating point, are arguments.
-- - ConsistentHashing: 08-Consistent-Hashing/main.go. The ring is the sorted list of its points, of
--   which no two have one hash where a node joins: `sort.Slice` may order such points in any way.
-- - CircuitBreaker: 10-Circuit-Breaker/main.go.
-- - Snowflake: 12-ID-Generator/main.go. The readings of the clock are an argument of each call.
-- - BoundedQueue: 15-Semaphore/main.go and 19-Producer-Consumer/main.go, over a model of a
--   buffered channel; the goroutines' interleavings are a relation on its states.
-- - ConnectionPool: 20-Connection-Pool/main.go. The callbacks' answers are arguments of each call.
-- - BTree: 21-B-Tree/main.go. A node owns its children. An insertion runs on fuel, one more than the
--   depth of the tree.
-- - Lsm: 22-LSM-Tree/main.go.
-- - WriteAheadLog: 23-Write-Ahead-Log/main.go.
-- - InvertedIndex: 24-Inverted-Index/main.go, on ASCII text.
-- - TimeSeries: 25-Time-Series-Store/main.go, without Average.
-- - KeyValueStore: 26-Key-Value-Store/main.go.
-- - DocumentStore: 27-Document-Store/main.go. How a field's value is printed is a parameter.
-- - GraphDatabase: 28-Graph-Database/main.go. The search runs on fuel, one more than the targets of all
--   edges, which Termination shows to be enough.
-- - ColumnStore: 30-Column-Store/main.go.
-- - LeaderElection: 31-Leader-Election/main.go.
-- - DistributedLock: 32-Distributed-Lock/main.go.
-- - Gossip: 33-Gossip-Protocol/main.go.
-- - VectorClock: 34-Vector-Clocks/main.go.
-- - Crdt: 35-CRDT/main.go.
-- - Saga: 36-Distributed-Transaction/main.go. Steps are any functions on a world.
-- - TwoPhaseCommit: 37-Two-Phase-Commit/main.go. Participants are an interface, as in the source.
-- - Replication: 38-Replication/main.go.
-- - Sharding: 39-Sharding/main.go.
-- - Consensus: 40-Consensus/main.go.
-- Base holds what they share: maps as lists of entries with different keys, counters, byte strings
-- with the FNV-1a hash, signed integers, sorting, and the lemmas on them.
--
-- How it is modelled. A map is the list of its entries, and a loop over a map goes along that list;
-- Go leaves the order open. A clock's reading is an argument of the call, in nanoseconds. A panic
-- or an exit is `none`. Hashes wrap at 32 or 64 bits; counters, versions and times are numbers
-- without a bound, as none of them reaches 2^63 in use. The methods that hold a mutex for their
-- whole length are single steps. A loop is a structural recursion, on a list or on a number of
-- rounds, or runs on fuel. Fuel is enough: the search of a graph has one round for each target of
-- an edge and one more; sifting down has one for each element, sifting up one for each index below;
-- an insertion into a B-tree one for each level; and a number is printed on one more than the
-- number, which is more than its digits.
--
-- Not modelled: the logger and its calls, and the main functions, which only print; floating point,
-- so the sizes of the Bloom filter, the average of a time series, the tokens of the rate limiter
-- (09), the delays of the retries (11) and the distances of the geospatial index (29); the caches
-- and the skip list (01, 02, 05), whose nodes are linked by pointers that are rewritten in place;
-- and the worker pool, promise, read-write lock, channel pool and fan-out (13, 14, 16, 17, 18),
-- which are goroutines over the language's channels and locks.
pub mod BTree
pub mod Base
pub mod BinaryHeap
pub mod BloomFilter
pub mod BoundedQueue
pub mod BucketHashTable
pub mod CircuitBreaker
pub mod ColumnStore
pub mod ConnectionPool
pub mod Consensus
pub mod ConsistentHashing
pub mod Crdt
pub mod DistributedLock
pub mod DocumentStore
pub mod Gossip
pub mod GraphDatabase
pub mod InvertedIndex
pub mod KeyValueStore
pub mod LeaderElection
pub mod Lsm
pub mod OpenAddressing
pub mod Replication
pub mod Saga
pub mod Sharding
pub mod Snowflake
pub mod TimeSeries
pub mod Trie
pub mod TwoPhaseCommit
pub mod VectorClock
pub mod WriteAheadLog
