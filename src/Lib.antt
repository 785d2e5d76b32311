-- ===== src/Lib.antt =====
-- A model of parts of Skyline, an emulator of the Nintendo Switch on Android, with theorems about
-- them. Paths are below app/src/main/cpp/skyline.
--
-- AddressSpace models FlatAddressSpaceMap of common/address_space.h and address_space.inc, the sorted
-- vector of blocks that the GPU's and the SMMU's address spaces are: MapLocked is `map_locked`,
-- UnmapLocked is `unmap_locked`. View says what a vector means, an address to host pointer function.
-- Syncpoint models the host1x counters of soc/host1x/syncpoint.h and syncpoint.cpp, whose waiters the
-- display and the GPU register; Interleaving runs its members from many threads. SyncpointManager
-- models services/nvdrv/core/syncpoint_manager.h and syncpoint_manager.cpp, which hands those counters
-- out to the guest and decides which fences have passed. Macro models the interpreter of
-- soc/gm20b/macro/macro_interpreter.h and macro_interpreter.cpp, which runs the guest's macros and
-- sends methods to an engine. BufferQueue models GraphicBufferProducer of services/hosbinder, which
-- hands out the slots of a swapchain, keeps nvmap handles alive for the textures, and presents frames.
-- Nvmap models those handles, services/nvdrv/core/nvmap.h and nvmap.cpp: their references, their pins
-- onto the SMMU, and the queue of the handles that may be unmapped to make space.
-- MemoryManager models the chunks of kernel/memory.h and memory.cpp, the guest's memory map, and the
-- regions that it is divided in.
-- Gpfifo models the command processor of soc/gm20b/gpfifo.h and gpfifo.cpp, which splits pushbuffers
-- into method calls of the engines; Word is a processor that takes one word at a time.
-- Scheduler models kernel/scheduler.h and scheduler.cpp, which put the guest's threads on four cores:
-- a queue by priority for each core, whose front runs, and one of parked threads; Operations has the
-- members that change a priority, a core or whether a thread can run, and Reach runs them in any order;
-- Balance chooses a core by its load. PriorityQueue is the order of these queues and of the waiters.
-- Mutex models MutexLock and MutexUnlock of kernel/types/KProcess.cpp and the inheritance of priorities
-- in kernel/types/KThread.cpp, over Scheduler; Reach runs them, and writes of the guest, in any order.
-- Arbiter models the other waiters of kernel/types/KProcess.h and KProcess.cpp, on condition variables and
-- on addresses; Reach runs waits, time outs and signals in any order.
-- CommandFifo models the command processor of a Host1x channel, soc/host1x/command_fifo.cpp; Commands
-- writes commands as the words that it reads.
-- A member is named in snake case after its C++ name; its state goes in and comes out as a value.
--
-- Integers are natural numbers with the wrap-around written out. A call that throws, or that leaves
-- what C++ defines (`fault`), is an error of Base/Results; signed overflow in the interpreter, which C++
-- leaves undefined, is taken to wrap around. Loops are recursion on the list that they
-- walk; the interpreter's loop, which a macro may keep from ending, and the loop of PinHandle run on
-- fuel, and a run without enough of it ends in `none`. The loops of the two command processors run on
-- as much fuel as there are words, since each turn takes one at least.
--
-- Not modelled: the rest of the kernel, among it the SVCs; of the scheduler, the waits and the
-- timers; the other services; the engines behind the command processors; the file systems, the GPU's Vulkan code, the
-- audio output and the platform code; of the address space, the reads, writes and allocators; of the
-- memory map, the calls of mmap; of the buffer queue, the parcels of OnTransact. What these parts give
-- to the modelled ones is an argument: the engine of a macro, the SMMU allocator of nvmap, the
-- priorities of threads, the threads behind handles, and for QueueBuffer the nvmap handles and the
-- texture cache.
pub mod Base
pub mod AddressSpace
pub mod Syncpoint
pub mod SyncpointManager
pub mod Macro
pub mod BufferQueue
pub mod Nvmap
pub mod MemoryManager
pub mod Gpfifo
pub mod PriorityQueue
pub mod Scheduler
pub mod Mutex
pub mod Arbiter
pub mod CommandFifo
