-- ===== src/Lib.antt =====
-- turbokit: a C++ library of containers and synchronization primitives, each in a header of its
-- own under include/.
--
-- HashMap models include/hash_map.h, a hash table with one entry per bucket in a main table and a
-- collision table of the same size. The two tables are functions from an index to an optional
-- entry, where no entry stands for the invalid marker. HashMap.Types has the state and the
-- iterators, HashMap.Find `find` and `find_in_collision_chain` with its unrolled loop,
-- HashMap.Insert `try_insert`, `reserve` and `resize_table`, HashMap.Iterate `begin`,
-- `operator++`, `remove` and `clear`. `try_insert` calls `reserve`, which calls `resize_table`,
-- which calls `try_insert` for every element: the model is one function on fuel, and each nested
-- call or `goto` takes one unit. Twice the logarithm of a sufficient bucket count is enough,
-- since every such call at least doubles the table. A table stands for a function from keys to
-- optional values (HashMap.Invariant.Represents); the modules HashMap.Slots to HashMap.Clear
-- prove the operations against it. HashMap.Visit is the loop over a map, which `serialize_map`
-- and the copy assignment run, HashMap.Entries what it meets, HashMap.Copy the copy assignment
-- from another object, and HashMap.Index `operator[]` and the other members that call
-- `try_insert`.
--
-- Vector models include/vector.h. The memory of an array is a function from a slot to what stands
-- there: no object, a value, or a moved-from object (Vector.Memory, with the loops over it); a
-- pointer is its distance from memory_start. Vector.Array has the operations, with the branches
-- for trivially copyable elements, and every access that the source may not make as a fault. An
-- array stands for the first so many values of a function (Vector.Contents.Holds). An argument is
-- a value: a reference to an element of the array itself, which the source would read behind a
-- reallocation, is not modelled.
--
-- Sync models the two mutexes of include/sync.h. A thread stands at one of its next atomic
-- accesses, a step is a call begun by an idle thread or one access of any thread, and a state is
-- reachable by any sequence of such steps (Sync.SpinMutex, Sync.SharedSpinMutex). All accesses
-- come in one order; what weaker memory orders would allow is not modelled. The count of readers
-- is a natural number, since there are fewer threads than an int counts.
--
-- Serialization models include/serialization.h. The C++ types that have an overload are the data
-- type Serialization.Schema.Schema, and their values a function of it; a trivial value is the
-- number that its bytes spell, the lowest byte first, as on the little-endian machines the
-- library is built for. Serialization.Writer has `DataWriter` and `SerializeContext`, with the
-- operation that counts and the one that copies, and Serialization.Reader `DataReader` and
-- `DeserializeContext`; sizes wrap at 2 ^ 64, `DataFormatError` is a result, the exception of a
-- container that cannot be so long another, and a read past the end of the memory a fault. A map
-- that is read has its entries in the order of the bytes; the order in which a standard map
-- visits them is not modelled. Serialization.Calls has the functions for callers, `serialize_to`
-- to `deserialize_buffer`, which count, allocate and then copy. Serialization.Maps is
-- `serialize_map` on a `HashMap`: it composes the loop of HashMap.Visit with the writer; the
-- overload that reads a `HashMap` asks it for member types that it has not, so the bytes are read
-- as those of the standard maps. Serialization.Format is the format as a function from values to
-- bytes, which the writer and the reader are proved against (Emits, Refine, Parses, Views,
-- RoundTrip, Inside, Bounds, Deliver).
--
-- Freelist models include/freelist.h: the `next` links of all elements, one pool for each thread
-- and the shared pool, and the null pointer as 0. The state stands for stacks of elements
-- (Freelist.Pools), which the operations are proved against; the number of places in which an
-- element is counts what is lost or doubled.
--
-- SimpleVector models include/simple_vector.h, with the memory slots of Vector.Memory; `elements`
-- is the null pointer, a memory, or a pointer to one that is gone, and a memory may be given up
-- with its own size only. Whether the new memory lies before the old one, and which constructor
-- throws, are arguments.
--
-- Clock models include/clock.h, called by one thread at a time; the readings of the two clocks
-- are arguments, from 0 on and below 2 ^ 63. Logging models include/logging.h: what is printed
-- and flushed.
--
-- Buffer models the reference counts of include/buffer.h: a store of blocks, where a block that
-- has been freed is not there, and the handles that point to them. The counts are kept modulo 2 ^
-- 32, and the theorems on copies ask for fewer handles than that. Buffer.Unique adds the handles
-- of UniqueMemoryBlock, the pointers that `relinquish` returns, and the calls that may be made of
-- both as data; Buffer.Owned has what they keep.
--
-- IntrusiveList models include/intrusive_list.h: the links of all elements live in one heap, a
-- list is the address of its sentinel, and the operations are commands that fault on the null
-- pointer. A list stands for the addresses of its elements in order (IntrusiveList.Ring.IsRing).
--
-- Base has the helpers that the modules share, and Tests the concrete inputs; Tests.Stale runs
-- `remove` of HashMap twice, with the iterator that the first call returns.
--
-- Not modelled: the semaphore and futex wrappers of include/sync.h, which only call the system;
-- `relinquish` and `take_ownership` of SharedMemoryBlock; the move assignment and the destructor
-- of DynamicArray; the constructor of SimpleVector from a list; members `serialize` of types
-- outside the library; several threads in include/clock.h; `criticalError`, and the example and
-- the tests.
--
-- `operator*` of an iterator reads the key so many bytes in front of the value as a key has;
-- where the compiler puts padding between the two, that is not the key, and the model reads an
-- arbitrary one (HashMap.Types.Layout). The hash function, the equality and the entry size of a
-- HashMap are parameters (HashMap.Types.Traits); the equality is the one of the key type, as
-- `std::equal_to` gives. Allocation never fails in the model, except in Buffer.Unique, and where
-- a container of trivial elements would be too long (`copy_items`). Indices and counts are
-- natural numbers: `reserve` refuses what would overflow, and its doubling loop is modelled
-- modulo 2 ^ 64.
pub mod Base
pub mod Serialization
pub mod Freelist
pub mod SimpleVector
pub mod Clock
pub mod Logging
pub mod IntrusiveList
pub mod HashMap
pub mod Vector
pub mod Sync
pub mod Buffer
pub mod Tests
