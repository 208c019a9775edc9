-- ===== src/Lib.antt =====
-- A model of MyUtils, a C++17 library for game servers, with the theorems that make it correct.
--
-- Parts. include/MyUtils/Assert.h and src/Assert.cpp end the process on a violated contract:
-- Assert.antt. include/MyUtils/SendBuffer.h and src/SendBuffer.cpp give out send buffers from
-- reference-counted chunks: SendBuffer.antt and its children. src/Actors.cpp runs actors on the
-- worker pool of src/Runtime.cpp: Actors.antt and its children. Counters.antt is the registry of
-- per-thread counters that src/SendBuffer.cpp and src/Runtime.cpp both hold.
--
-- Assert.antt: a function that asserts returns a Checked value, `ok` or `abort`.
-- Queue.antt: moodycamel::ConcurrentQueue is fetched by the build and is a parameter, a record of
-- its calls with what its documentation says of them. Queue/Fifo.antt is an instance.
-- SendBuffer/Constants.antt, Stats.antt, Chunk.antt: the policy constants, SendBufferStats and
-- SendBufferChunk. SendBuffer/Memory.antt: the heap of chunks, each with the count of its
-- shared_ptr and its deleter, GLiveChunkCount and GLiveChunkBytes, and ChunkPool.
-- SendBuffer/Buffer.antt: SendBuffer and SendView, a method a function on what its thread sees.
-- SendBuffer/Manager.antt: SendBufferManager::Reserve, a function for each of its returns.
-- SendBuffer/World.antt: the managers, buffers and views of a program, and its calls in any order.
-- SendBuffer/Invariant: the invariant and the memory operations that keep it; SendBuffer/Calls:
-- each call of the API in a world that satisfies it; SendBuffer/Steps.antt: every reachable world.
-- SendBuffer/Safety.antt and SendBuffer/Contracts.antt: what follows for the program.
-- SendBuffer/Ledger: what becomes of every chunk, and the counters of live chunks.
-- SendBuffer/Exit: the life of ChunkPool, from the first use of GlobalPoolRef to the end of the process;
-- after the static root is gone, the calls that do not use GlobalPool() go on, the Reserves among them
-- that take no chunk of the pool.
-- SendBuffer/Bytes.antt: the bytes in the chunks, written through buffers and read through views.
-- Actors/Block.antt: the state of an ActorControlBlock and a step of one call of Send, Stop, Execute
-- or Finalize, an access to shared state at a time; of the pool, what such a call meets: Submit, the
-- copies of the task in the queues, StopAndJoin, DiscardPending and FinalizeAll.
-- Actors/System.antt: one actor and any number of calls in progress, interleaved.
-- Actors/Invariant: what every step keeps; Actors/Steps.antt, Safety.antt and Progress.antt:
-- what follows. Actors/Alone: Execute and Finalize as functions, for a call that runs undisturbed,
-- by its own Handle too,
-- and how they and the steps of Actors/Block.antt agree.
-- Actors/Together.antt: many actors on one worker pool. Together/Projection: each of them as an
-- Actors/System.antt; Together/Queues: what the queues of the pool hold; Together/Quiet: a pool at rest.
-- Actors/Registry.antt: ActorRegistry and RuntimeBody::Shutdown, from the join on one call after
-- the other, with no other thread inside a Stop; what threads do until the join is a parameter.
-- Actors/Shutdown.antt: what it leaves.
-- Actors/Refs.antt: Spawn, and Send and Stop of ActorRef. Actors/Counting.antt: what the calls on an
-- actor add to Runtime::Stats; Together/Counting: many actors and their pool, where a call counts a step
-- at any time between it and its next one. Actors/Census.antt: LiveActorCount, and what Spawn and
-- Finalize count.
-- Runtime/Pool.antt: the deques and the injection queue of WorkerPool, a function a method.
-- Runtime/Conservation.antt and Runtime/Search.antt: what a search through them does.
-- Runtime/Discard.antt: DiscardPending. Runtime/Flags.antt: what the calls on the queues leave as it is.
-- Runtime/Sleep: WorkerLoop, the notify of Submit and StopAndJoin, interleaved an access to shared
-- state at a time; its tasks are numbers of tasks. Sleep/Weights, Guards, Moves, Notify and Steps: the
-- invariant; Sleep/Safety, Shutdown and Joining: what follows.
-- Runtime/Config.antt: the number of workers. Runtime/Lifecycle.antt: the start and the end of the
-- process-wide runtime, call by call. Runtime/Stats.antt: Runtime::Stats as an instance of
-- Counters.antt. Runtime/Statics.antt: the local statics of the sources, in the order in which the process
-- constructs and destroys them.
--
-- Numbers. std::size_t and std::uint64_t are native numbers whose sums and differences are taken
-- modulo 2 ^ 64; shared_ptr counts and the names of chunks do not wrap. A chunk's name is never
-- used again, where an address may be.
--
-- A call of the send buffer API is one step. A chunk's cursor is touched by its owner alone, the
-- queue of the pool is concurrent, and the counts of a shared_ptr are atomic, so that calls of two
-- threads can be put one after the other. A search of a worker under the sleep lock that finds
-- nothing saw each queue empty when it looked; fewer than 2 ^ 63 workers sleep. The rounds of a worker
-- over one task take a number of rounds, with a theorem that one for each budget of messages is
-- enough, and so do DiscardPending and ~ChunkPool, where one for each element of the queue is. No other
-- loop needs fuel.
--
-- shared_ptr: an object goes with the last of its owners. The owners of ChunkPool are the static root and
-- the deleters of the chunks that are referred to; its use count is their number.
--
-- Not modelled: what new storage holds before a byte is written, the text that a failed assertion
-- prints, and of Runtime::Stats the time that tasks wait and the sleeps of the workers.
pub mod Base
pub mod Assert
pub mod Queue
pub mod Counters
pub mod SendBuffer
pub mod Actors
pub mod Runtime
