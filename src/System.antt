-- ===== src/System.antt =====
-- system.cc: `Initialize` as far as it sets up the thread system, with the objects that a test
-- program then makes, and `main`'s last call, `currentThread->Finish()`.
pub mod Unique
pub mod Safe
pub mod Exclusion
pub mod Alive
pub mod Progress
pub mod Wakeup
pub mod Printing
pub mod Statuses
mod Tests
mod LockTests
use Prim.Native.String.{String}
use mathlib.Core.List.{map}
use ooplatingsistm.Base.{ℕ, Option, none, some, List, [], ◌∷◌, ◌==◌, if◌then◌else◌}
use ooplatingsistm.LinkedList.Heap.{Ptr, null}
use ooplatingsistm.Program.{Stmt, Frame, body, thread_finish}
use ooplatingsistm.Thread.{Thread, running, new_thread, set_status}
use ooplatingsistm.Kernel.{Kernel, Semaphore, Lock, SynchList, Interrupt}
use ooplatingsistm.Scheduler.{update}
use ooplatingsistm.ThreadOps.{Garbage}
use ooplatingsistm.Synch.{new_semaphore, new_lock}

-- The address of the thread "main", the first that `new` returns.
abbrev pub main_addr : Ptr
main_addr = 1

-- What the program makes before it starts: semaphores by name and initial value, locks by name,
-- synchronized lists by the position of their lock; and what `main` calls.
pub record Setup : Type 0 where
  pub semaphores : List (String × ℕ)
  pub locks : List String
  pub synch_lists : List ℕ
  pub main : List Stmt

pub make_semaphores : List (String × ℕ) → List Semaphore
make_semaphores [] = []
make_semaphores ((name, value) ∷ rest) = new_semaphore name value ∷ make_semaphores rest

pub make_locks : List String → List Lock
make_locks [] = []
make_locks (name ∷ rest) = new_lock name ∷ make_locks rest

pub make_lists : List ℕ → List SynchList
make_lists [] = []
make_lists (lock ∷ rest) = record { list = []; lock = lock } ∷ make_lists rest

unfoldable pub initialize : {D : Type 0} ⦃irq : Interrupt D⦄ → D → Garbage → Setup → Kernel D
unfolding make_semaphores make_locks make_lists
initialize ⦃irq⦄ d g s = record {
  current = main_addr;
  to_be_destroyed = null;
  ready_list = [];
  thread =
      update (λ _. none) main_addr
        (some (set_status running (new_thread "main" (g.registers main_addr))));
  semaphores = make_semaphores s.semaphores;
  locks = make_locks s.locks;
  synch_lists = make_lists s.synch_lists;
  device = irq.enable d;
  cpu = body s.main ∷ thread_finish ∷ [];
  next_addr = 2;
  taken = [];
  output = [];
}
