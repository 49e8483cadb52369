-- ===== src/Lib.antt =====
-- JustLibrary is a set of C containers, allocators and services. This library models its containers,
-- its allocators, its thread pool and its file functions, and relates each to what it promises.
--
-- The parts, and the modules that model them:
-- - Memory: what the containers ask of the memory modules (include/justUtils/memory/tracker.h and
--   justLinearAllocAllocate): a record of allocation functions on a store, with the documented laws of
--   malloc and realloc. Every container is generic in it, so every outcome of an allocation counts.
-- - PowerOfTwo: justRingNextPowerOfTwo, justQueueRoundToPowerOfTwo and justMapNextPowerOfTwo.
-- - RingBuffer: include/justUtils/dataStructures/ringBuffer.h and src/dataStructures/ringBuffer.c.
-- - Queue: queue.h and queue.c, with growth and shrinking.
-- - DynamicArray, Stack: dynamicArray.h, dynamicArray.c and stack.h; the stack calls the array.
-- - OrderedSet: orderedSet.h and orderedSet.c, an AVL tree against a sorted list.
-- - HashMap: hashMap.h and hashMap.c, open addressing with tombstones.
-- - Bitset: bitset.h and bitset.c, words of 64 bits.
-- - LinearAlloc: memory/linearAlloc.h and memory/linearAlloc.c.
-- - ObjectPool: memory/objectPool.h and memory/objectPool.c, the free list in the slots it links;
--   Slots, Valid, Create and Steps.
-- - ThreadPool: system/threadPool.h and system/threadPool.c on the Queue above. Each locked section of
--   the code is a function; System is the step relation of the workers and the clients, Invariant what
--   holds throughout, Preserve and Wake one lemma for each section.
-- - Tracker: memory/tracker.h and memory/tracker.c, the bookkeeping of a DEBUG build; Names, Accounts,
--   Steps, Relink and Runs. The containers are generic in their memory and do not depend on it.
-- - Filesystem: system/filesystem.h and system/filesystem.c. Path has the path functions, with their
--   loops in Split, Walk, Replay and Print; Os is what the code asks of the operating system, Files
--   the open and whole files, Folders the checks and the directories.
-- - TestManager: testing/testManager.h and testing/testManager.c: registration, the child process of a
--   test as two functions on the world, and the run of all groups; Count, Register and Run.
-- - Circular, Base: elements round the end of a block; numbers, lists, words and their lemmas.
-- - Tests: runs on concrete inputs.
--
-- How the code is read: a C struct is a record that a function takes and returns; a function that may
-- allocate also takes and returns the store. A block of memory is the list of its element slots and a
-- pointer into it is an index; memcpy of whole elements copies slots. size_t is a number below 2 ^ 64
-- and its operations wrap where the code's do. bool results are Bool, NULL is none. Loops over an array
-- are structural recursion; the probe loops of the hash map run for the capacity, as in the code, and
-- the search for a free slot in hashmapResize has the capacity as its fuel. The loops that read and
-- write a whole file have one more than the bytes asked for as fuel, which is enough since each round
-- moves at least one byte, and justPathNormalize has the length of the path.
-- But for the tracker and the assertions of the test manager, which a release build keeps, the model is
-- of a release build: debug assertions on NULL arguments and bounds are not represented.
-- What the operating system does is a parameter: the calls of the file functions with the laws of
-- POSIX, as long as no other process changes the files, and the child process of a test.
--
-- Not modelled: the logger and the assertion macros (output), the parts of the object pool that only a
-- DEBUG build has, the reports of the tracker, the debug prints, what an output buffer holds after a
-- path function has failed, and justLibrary.h, a generated copy of the sources.
pub mod Base
pub mod Bitset
pub mod Circular
pub mod DynamicArray
pub mod Filesystem
pub mod HashMap
pub mod LinearAlloc
pub mod Memory
pub mod ObjectPool
pub mod OrderedSet
pub mod PowerOfTwo
pub mod Queue
pub mod RingBuffer
pub mod Stack
pub mod TestManager
pub mod Tests
pub mod ThreadPool
pub mod Tracker
