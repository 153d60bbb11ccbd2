-- ===== src/Lib.antt =====
-- A verification library for cplease (include/plz), a header-only library of futures, a thread pool
-- and circular-buffer channels.
--
-- The circular buffer (include/plz/circbuff): a writer and any number of readers share an array
-- whose capacity is a power of two, each with an index that counts values and is masked to find its
-- slot. writer.hpp is Circbuff.antt (the state and the loop over two parts that it shares with the
-- reader) and Circbuff/Writer.antt; reader.hpp is Circbuff/Reader.antt. The array is an explicit
-- argument and result, since writer and readers alias it. Memory.antt has what memcpy and a
-- function on a part of an array do; an access outside an array, which is undefined behaviour, is
-- `none`. A function that a caller passes in is an argument, with what it has captured as a state.
-- Circbuff/Window.antt describes the buffer value by value, and the modules Copy, Faults and Fifo
-- prove the operations against that.
--
-- The channel (include/plz/circbuff/channel.hpp) is Channel.antt: sources write to the buffer and
-- run their notify functions inside each write; sinks read. Sinks are named by their place in a
-- list, so that a connection can reach its sink. Tasks that a connection gives to a thread pool are
-- kept in order. Channel/Broadcast.antt is the abstract channel, Channel/Refine.antt relates the
-- two, Channel/Connect.antt is about connections, and Channel/Moves.antt has the assignments of sources.
--
-- The numbers (include/plz/help/math.hpp) are Math.antt. A size_t is a natural number with the
-- wrap modulo 2^64 written out (Word.antt), on a platform where sizeof(size_t) is 8; Bits.antt has
-- the laws of the bitwise operations.
--
-- The futures (include/plz/future.hpp) are Future.antt: shared states in a list, promises and futures
-- as places in it, and continuations as data, so that a continuation can fulfil another promise.
-- Future/Monad.antt has the state and the ways in which a step can end: a value, an exception, a wait
-- for a mutex that the thread holds itself, or a use of a state that is not there. A user function is
-- a number whose behaviour is a parameter (Callbacks), and each call of one is logged. Future/Void.antt
-- is the specialization for void. Future/Preserves.antt is the interface between a property of the
-- shared states and the continuations that run, which Ends, Kept, Stable and Ready fill;
-- Fuel, Once, Handlers, Then, Chain and Get are about fulfilling, then, get and take.
--
-- The packaged task (include/plz/packaged_task.hpp) is Task.antt, and packaged_task_st, at functions that
-- return void, is Task/Stoppable.antt, with a stop token of which nothing is assumed.
--
-- The aggregate of futures (include/plz/futures.hpp) is Futures.antt; the lambdas by which its futures
-- report to it are calls of handle_future_ready in an order that is given, and its promise is among
-- the shared states of its own type. Futures/Lookup.antt has the
-- lookups with the calls that go through to a future.
--
-- The thread pool (include/plz/thread_pool.hpp) is Pool.antt: thread_work cut into the steps between
-- its accesses to shared state, and a relation of the steps that threads and callers may take, in any
-- order. A worker whose predicate is false sleeps until it is notified or wakes spuriously; the calls
-- of notify_one that run and map have still to make are counted, and each is a step. Its tasks are
-- values of any type. Pool/Functions.antt makes them packaged tasks: run and map of functions, with
-- the promises among the shared states of the futures; the call of a task, with the continuations
-- that it runs, is one step there. map puts on each future the two lambdas that report to the
-- aggregate, as functions with numbers of their own; what a move leaves of a functor or a value is a
-- parameter (Values), since map forwards its function in each round of its loop; and
-- Pool/Functions/Reports.antt reads from the calls that were made what the aggregate was told.
-- Pool/Wait.antt has one caller of wait or wait_for beside the workers, and Pool/Global.antt the
-- global instance. Pool/Moves.antt says what each step of a worker does, and Steps, Alive, Tasks and
-- Progress prove the pool against that.
--
-- The type-erased function (include/plz/help/callable.hpp) is Callable.antt, the members and the store
-- that copies share, and Callable/Program.antt, the operations on any number of callables. The content
-- of a store has a type, and its use as another one is undefined. Stores are numbered and not reused.
--
-- Two functions run on fuel. That of gcd, the algorithm of Euclid, is enough above its second
-- number, which gets smaller in each round. That of settle is for the fulfilment of promises by
-- continuations: above the number of the states that are not ready it is enough, since each
-- fulfilment makes one of them ready before its continuations run. Every other loop runs over a list
-- or has two rounds.
--
-- Not modelled: the overloads of thread_pool.hpp for functions of a stop_token; then with a pool of
-- future.hpp and of futures.hpp; the assignment of a method pointer in help/callable.hpp; the type
-- traits; several threads on a shared state of future.hpp, so that get on a state that is not ready is
-- a wait without end; the memory order of atomics and calls on a buffer that overlap in time (each
-- call is one step); the spans as views of memory; the destruction of channels and futures;
-- source::write_using, sink::reset, packaged_task_st at functions that return a value and the comparisons
-- of callable.hpp, which do not compile when used.
pub mod Base
pub mod Bits
pub mod Callable
pub mod Channel
pub mod Circbuff
pub mod Future
pub mod Futures
pub mod Math
pub mod Memory
pub mod Pool
pub mod Task
pub mod Word
