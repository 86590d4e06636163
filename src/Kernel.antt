-- ===== src/Kernel.antt =====
-- The kernel's global state (system.h, system.cc) with the objects that the modules share, and the
-- commands over it. `Interrupt` is the hardware simulation of ../machine, which is not part of
-- these sources: its state is a parameter `D`, and its operations are an interface.
pub mod Outcomes
pub mod Places
pub mod Frames
pub mod Stacks
pub mod Alive
pub mod Supply
pub mod Served
pub mod Statuses
use Prim.Native.String.{String}
use ooplatingsistm.Base.{
  ℕ, ◌≡◌, ◌≢◌, refl, subst, Bool, true, false, Option, none, some, List, [], ◌∷◌, ◌++◌, ◌==◌,
  if◌then◌else◌, get_elem?, set,
}
use ooplatingsistm.LinkedList.Heap.{Ptr}
use ooplatingsistm.Queue.{Queue}
use ooplatingsistm.Program.{IntStatus, int_off, int_on, Frame}
use ooplatingsistm.Thread.{Thread}

-- `value` is the bit pattern of the `int`.
pub record Semaphore : Type 0 where
  pub name : String
  pub value : ℕ
  pub queue : Queue

pub record Lock : Type 0 where
  pub name : String
  pub held : ℕ
  pub queue : Queue

-- `lock` is the position of its lock. Its condition variable has no state.
pub record SynchList : Type 0 where
  pub list : Queue
  pub lock : ℕ

-- `class Interrupt`: the mask is what was last set. `idle` serves the next pending interrupts, and
-- yields the semaphores that their handlers signal; `none` means that none is pending, whereupon
-- the machine halts.
pub record Interrupt (D : Type 0) : Type 0 where
  pub get_level : D → IntStatus
  pub set_level : IntStatus → D → D
  pub enable : D → D
  pub idle : D → Option (D × List ℕ)
  -- how often `Thread::Sleep` may call `Idle` in vain before the model gives up
  pub patience : ℕ
  pub get_level-set_level : (l : IntStatus) (d : D) → get_level (set_level l d) ≡ l
  pub get_level-enable : (d : D) → get_level (enable d) ≡ int_on
  pub get_level-idle :
      (d : D) {e : D} {vs : List ℕ} → idle d ≡ some (e, vs) → get_level e ≡ get_level d

-- `cpu` is what the running thread has to do, `next_addr` the next address that `new Thread`
-- returns, `taken` the results of `SynchList::Remove`, `output` what `printf` wrote.
pub record Kernel (D : Type 0) : Type 0 where
  pub current : Ptr
  pub to_be_destroyed : Ptr
  pub ready_list : Queue
  pub thread : Ptr → Option Thread
  pub semaphores : List Semaphore
  pub locks : List Lock
  pub synch_lists : List SynchList
  pub device : D
  pub cpu : List Frame
  pub next_addr : ℕ
  pub taken : List (Ptr × Ptr)
  pub output : List (String × List ℕ)

-- `abort` is a failed ASSERT, `crash` a dereference of NULL or of a deleted object, `halt` the end
-- of the simulation.
pub data Outcome (D : Type 0) (A : Type 0) : Type 0 where
  ok : A → Kernel D → Outcome D A
  abort crash halt out_of_patience : Outcome D A

abbrev pub Cmd : Type 0 → Type 0 → Type 0
Cmd D A = Kernel D → Outcome D A

module _ {D : Type 0} {A : Type 0} where
  abbrev pub pure : A → Cmd D A
  pure a k = ok a k

  module _ {B : Type 0} where
    abbrev pub and_then : Outcome D A → (A → Cmd D B) → Outcome D B
    and_then (ok a k) f = f a k
    and_then abort f = abort
    and_then crash f = crash
    and_then halt f = halt
    and_then out_of_patience f = out_of_patience

    infixl 5 ◌>>=◌ ◌>>◌
    abbrev pub ◌>>=◌ : Cmd D A → (A → Cmd D B) → Cmd D B
    m >>= f = λ k. and_then (m k) f

    abbrev pub ◌>>◌ : Cmd D A → Cmd D B → Cmd D B
    m >> n = m >>= λ _. n

abbrev pub Command : Type 0 → Type 0
Command D = Cmd D (Unit {0})

module _ {D : Type 0} where
  -- An object that a pointer or a position names.
  abbrev pub deref : {A : Type 0} → Option A → Cmd D A
  deref none k = crash
  deref (some a) k = ok a k

  abbrev pub modify : (Kernel D → Kernel D) → Command D
  modify f k = ok tt (f k)

  abbrev pub assert : Bool → Command D
  assert true k = ok tt k
  assert false k = abort
