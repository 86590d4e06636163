-- ===== src/Program.antt =====
-- What a thread executes. The body of a forked procedure is a sequence of statements, each a call
-- into the kernel or a line of output. What a thread has still to do is a stack of frames, and each
-- frame a place of the source where control comes back: it stands for the activation records and
-- registers that SWITCH saves.
use Prim.Native.String.{String}
use ooplatingsistm.Base.{ℕ, List}
use ooplatingsistm.LinkedList.Heap.{Ptr}

-- The state of the interrupt mask, `IntOff` and `IntOn`.
pub data IntStatus : Type 0 where
  int_off int_on : IntStatus

-- Semaphores, locks and synchronized lists are named by their position in the kernel's tables, a
-- procedure (`VoidFunctionPtr`) by its address.
pub data Stmt : Type 0 where
  -- the format and its arguments
  printf : String → List ℕ → Stmt
  call_yield : Stmt
  -- `t = new Thread(name); t->Fork(func, arg);`
  call_fork : String → ℕ → ℕ → Stmt
  call_p : ℕ → Stmt
  call_v : ℕ → Stmt
  call_acquire : ℕ → Stmt
  call_release : ℕ → Stmt
  call_wait : ℕ → Stmt
  call_signal : ℕ → Stmt
  call_broadcast : ℕ → Stmt
  -- `SynchList::Append` and `SynchList::Remove`
  call_put : ℕ → Ptr → Stmt
  call_take : ℕ → Stmt
  -- `SynchList::Mapcar` with a function that prints its argument in a format
  call_mapcar : ℕ → String → Stmt

pub data Frame : Type 0 where
  -- `ThreadRoot`, entered when a forked thread first runs
  thread_root : Frame
  -- the rest of a procedure's body
  body : List Stmt → Frame
  -- `ThreadFinish`
  thread_finish : Frame
  -- `Scheduler::Run` behind `SWITCH`
  after_switch : Frame
  -- `(void) interrupt->SetLevel(oldLevel)`
  restore_level : IntStatus → Frame
  -- the `while` loops of `Semaphore::P` and `Lock::Acquire`
  p_loop : ℕ → Frame
  acquire_loop : ℕ → Frame
  -- `SynchList::Append` and `SynchList::Remove` behind `lock->Acquire()`
  put_locked : ℕ → Ptr → Frame
  take_locked : ℕ → Frame
  -- `SynchList::Mapcar` behind it
  map_locked : ℕ → String → Frame

-- The program's text: the body of the procedure at an address, for its argument.
abbrev pub Text : Type 0
Text = ℕ → ℕ → List Stmt
