-- ===== src/Lib.antt =====
-- Verification of the core of tvm-wasm: regions of memory that are named by generation-checked
-- handles, hold allocations, and move between tiers.
--
-- The program. A guest names bytes by a handle (crates/tvm-core/src/handle.rs): a region id, a
-- generation and an offset. A `RegionDirectory` (directory.rs) keeps for each region its metadata
-- (region.rs, residency.rs, policy.rs), its counters (metrics.rs), an allocator (allocator.rs) and,
-- while the region is resident, its bytes behind the trait `MemoryRegion` (memory_region.rs). A
-- region goes to a `BackingStore` (backing.rs) and back, by demand or by eviction of warm regions,
-- and a compaction moves its live blocks together and hands out a remapping of handles. A small
-- cache (cache.rs) remembers resolved regions for the hot path. A `ConcurrentDirectory`
-- (concurrent.rs) offers the same to several threads, with a lock for each region and an eviction
-- down to a target (eviction.rs), and a `SharedDirectory` (shared.rs) puts one lock around a whole
-- directory. Inside a guest, a `GuestDirectory` (crates/tvm-guest-mm/src/directory.rs) places regions
-- in the pools of the guest's memories, behind a facade that caches one resolved region.
--
-- The files, with paths below crates/tvm-core/src/:
--   Base, Bits: shared names, lists over native numbers, results (error.rs), words, bit operations.
--   Handle: handle.rs; pack and unpack.
--   Allocator: allocator.rs; Align (align_up), Bump, Freelist, Slab, each with its proofs below it,
--     and Freelist/Calls runs of calls; Blocks is the ordered map of offsets to sizes; Sound is what every kind promises.
--   Region: region.rs, residency.rs, policy.rs, metrics.rs.
--   Memory: memory_region.rs and backing.rs; the laws that the directory relies on, and
--     VecBackedRegion in Memory/Vec.
--   Cache: cache.rs; Cache/Coherence has its proofs.
--   Directory: the table and the warm list of directory.rs; Directory/Access has what goes through a
--     handle, Directory/Tiers the moves between tiers, Directory/Compact the compaction. Proofs:
--     Directory/Invariant (each method), Step (any sequence of calls), Bytes, Spill, Evict,
--     Compact/Loop and Compact/Migrate. Directory/Slices is directory_slices.rs.
--     Directory/Async has the asynchronous methods and async_backing.rs; Async/Adapter and Async/Cancel
--     their proofs.
--   Concurrent: concurrent.rs and eviction.rs. Concurrent has the table and the methods on one entry,
--     Concurrent/Tiers spill, load and compact, Concurrent/Demote the bulk eviction, Concurrent/Locks
--     the lock actions of each method. Proofs: Table, Spill, Order, Candidates and Report for the eviction,
--     Locks/Ordered, Waiting and Progress for the locks, Concurrent/Agrees for the comparison with the
--     region directory.
--   Shared: shared.rs.
--   Guest, with paths below crates/tvm-guest-mm/src/: directory.rs; Guest/Facade is facade.rs. Proofs:
--     Guest/Pools, Numbering, Placement, Packing, Exclusive, Isolation, Facade/Mirrors and Facade/Coherence.
--   Tests: the theorems at concrete values.
--
-- How the state corresponds. A struct is a record and an enum a data type with the same names. A
-- method of the directory returns its result beside the directory that it leaves, also on failure; a
-- method of an allocator that fails changes nothing, so only a success returns a new allocator.
-- u16, u32 and u64 are natural numbers with the wrap-around of the release profile written out, and
-- checked additions return an option. A BTreeMap, and the HashMap of a remapping, is a list in order
-- of keys; a vector is a list, and the vector of a slab's free slots has its back first. A loop is a
-- recursion on the list that it walks, so no function needs fuel. `none` from a compaction is its
-- panic.
--
-- Parameters. The memory behind a region is a record of operations with the laws `IsMemory`,
-- which VecBackedRegion instantiates; a store is a record of operations, with the law `IsStore` where a
-- theorem needs it; the loader of an external region and the contents of a file are arguments.
--
-- Threads. A method of the concurrent directory is its lookup in the table and a section on the entry
-- that it found, under that entry's lock; an entry has an address, which stands for its `Arc`. The
-- methods are run one at a time, and the order of their locks is a model of its own, with threads as
-- lists of acquisitions and releases and a schedule as a list of thread numbers.
--
-- Futures. An asynchronous method is a value that is ready, or that waits for the store's answer with
-- the directory as it is by then; it can be awaited to its end or dropped.
--
-- Not modelled: executors, the locked sections of several threads interleaved, the
-- poisoning of the concurrent directory's locks (so what a compaction's panic would leave behind it),
-- `GuestTvm::directory_mut`, which hands out the guest's directory past the facade's cache, the mutable
-- slices, the file stores, the error
-- context of a thread, the text of the guest's copying helpers (which are parameters) and the other
-- files of the guest memory manager, the guest runtime, the linker and the wasmtime host.
pub mod Base
pub mod Bits
pub mod Cache
pub mod Guest
pub mod Handle
pub mod Allocator
pub mod Region
pub mod Memory
pub mod Concurrent
pub mod Directory
pub mod Shared
pub mod Tests
