-- ===== src/Lib.antt =====
-- The thread system of Nachos: lists, threads, the scheduler, semaphores, locks, condition variables,
-- synchronized lists, start-up and the test programs.
--
-- How the parts interact. A thread calls into the kernel: thread.cc and synch.cc change the queues of
-- scheduler.cc and of the synchronization objects, which are lists of list.cc, and hand the processor
-- over by `Scheduler::Run` and SWITCH. The kernel is a machine: the record `Kernel` holds the global
-- variables of system.cc, the control blocks, the objects, and the frames that the current thread has
-- still to run. A frame is a place where control comes back: behind SWITCH, in the `while` loop of
-- `P` or `Acquire`, before the interrupt level is restored. One step runs the top frame to the next
-- such place; the timer and devices may interrupt between steps while interrupts are on.
--
-- The files:
--   Base         shared names, Boolean tests, lists over native numbers, integers
--   LinkedList   list.h, list.cc over an explicit memory (Heap, Cells: what a list stands for; Ends,
--                Walk, Inserted, Sorted: the operations)
--   Queue        the first in, first out view that the kernel has of a List; Queue.Refine relates the
--                two
--   Program      the statements of a thread's procedure, and the frames
--   Utility      the macros of utility.h that compute
--   Switch       switch.s and switch.h for HOST_i386, instruction by instruction; Switch.Hosts for
--                HOST_MIPS and HOST_SNAKE, by tables, with StackAllocate and CheckOverflow there
--   Thread       thread.h; the constructor and StackAllocate of thread.cc
--   Kernel       the global state, commands and their outcomes, the interface of the hardware
--                simulation; Kernel.Outcomes says how commands may end, Kernel.Places where a
--                thread is, Kernel.Frames what shape its stack has
--   Scheduler    scheduler.cc, with ~Thread, CheckOverflow and what SWITCH does to frames; Print in
--                Scheduler.Printing
--   Wake         Semaphore::V of synch.cc
--   ThreadOps    Fork, Yield, Sleep, Finish of thread.cc
--   Synch        Semaphore::P, Lock and Condition of synch.cc
--   Synchlist    synchlist.cc
--   Machine      the step, ThreadRoot (switch.s), interrupts, reachable states
--   System       Initialize of system.cc, the thread part
--   Threadtest   threadtest.cc, with runs of its tests
--   Debugging    utility.cc
--   Cmdline      the argument loops of `Initialize` and, under THREADS, of `main`, in every build
--   Main         main.cc: `main` in every build, as the calls that it makes
--   Globals      the objects that `Initialize` creates and `Cleanup` deletes, in every build
--   Objects      the constructors and destructors of synch.cc, synchlist.cc and scheduler.cc over an
--                explicit memory
--   UserState    what Scheduler::Run does under USER_PROGRAM, with SaveUserState and RestoreUserState
-- A child module holds proofs about its parent, Tests, LockTests and IdlingTests runs and the
-- theorems at concrete inputs. The proofs about every reachable state go by what each piece of
-- kernel code keeps:
--   Places, Keeps, Unique                     where a thread is
--   Frames, Calls, Fresh, Safe, Plain         the shape of a stack, assertions
--   Brackets, Stacks, Sections, Exclusion     who is between Acquire and Release
--   Alive, Survival, Leaving                  what is dereferenced is there
--   Going, Progress                           nothing halts while a thread is ready
--   Supply, Woken, Served, LockServed, Units  who tests a semaphore or a lock again
--   Running                                   a thread that is ready again can run
--   Statuses                                  status and place
-- Dispatch, Leave, Overflow, Blocking, Synch.Wakeup and Synchlist.Rest say what one call does,
-- Idling what the loop of Sleep round `Idle` does, Finish what becomes of a finished thread, Resume
-- and Rounds what SWITCH does (LoadStore: its loads and stores; Layout: how its slots fit
-- together). Parse, Testnum, Words, Commands and Fuel are about the argument loops, Once and Leaves
-- about `Cleanup`, Destroy about the destructors.
--
-- Bounds and fuel. The loops of LinkedList take fuel, and each theorem on one states how much is
-- enough: one round for each element. `Thread::Sleep` may call `Interrupt::Idle` for ever on a
-- machine that never wakes a thread, so its rounds are bounded by `patience`, and to run out is an
-- outcome of its own; the theorems on its loop say how much patience is enough. The second loop of
-- `main` has a round for each argument. Semaphore values are 32-bit patterns that wrap round.
-- Addresses of threads are given out upwards and not again.
--
-- Assumptions. The class Interrupt of ../machine is an interface: SetLevel sets the mask that getLevel
-- returns, Enable unmasks, Idle keeps the mask and wakes threads through Semaphore::V alone. The
-- theorems on what is dereferenced take it that handlers signal semaphores that exist. Functions that
-- ThreadRoot calls obey the calling convention of C. `new` returns unused memory that is not NULL.
-- `atoi` and `vfprintf` are parameters. Procedures of threads are sequences of calls and output,
-- without branches on shared data. Registers of the simulated machine keep what is written to them,
-- and loading an address space leaves them alone. Whether a call that `main` makes returns is a
-- parameter.
--
-- Not modelled: the context switch of HOST_SPARC, whose register windows the hardware and the operating
-- system keep, and the older copies of switch.s. The classes of ../machine, ../userprog, ../filesys and
-- ../network, whose objects `Initialize` creates, and the headers for variable arguments are not part
-- of these sources or are copies of a compiler's.
pub mod Base
pub mod Utility
pub mod LinkedList
pub mod Queue
pub mod Program
pub mod Thread
pub mod Switch
pub mod Kernel
pub mod Scheduler
pub mod Wake
pub mod ThreadOps
pub mod Synch
pub mod Synchlist
pub mod Machine
pub mod System
pub mod Threadtest
pub mod Debugging
pub mod Cmdline
pub mod Main
pub mod Globals
pub mod Objects
pub mod UserState
