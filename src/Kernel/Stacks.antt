-- ===== src/Kernel/Stacks.antt =====
-- What a thread has still to do, wherever it is kept: on the processor or in its control block.
use ooplatingsistm.Base.{◌≡◌, Option, none, some, List, [], ◌∷◌, ◌==◌, if◌then◌else◌}
use ooplatingsistm.LinkedList.Heap.{Ptr}
use ooplatingsistm.Program.{Frame, after_switch}
use ooplatingsistm.Thread.{Thread}
use ooplatingsistm.Kernel.{Kernel}

-- The stack without the rest of `Scheduler::Run`, which a thread runs when it is switched to.
abbrev pub strip : List Frame → List Frame
strip [] = []
strip (after_switch ∷ fs) = strip fs
strip (f ∷ fs) = f ∷ fs

abbrev pub context_of : Option Thread → List Frame
context_of none = []
context_of (some c) = c.context

module _ {D : Type 0} where
  abbrev pub stack_of : Kernel D → Ptr → List Frame
  stack_of k t = strip (if t == k.current then k.cpu else context_of (k.thread t))

  -- No thread has more or less to do.
  abbrev pub SameStacks : Kernel D → Kernel D → Type 0
  SameStacks k j = (t : Ptr) → stack_of j t ≡ stack_of k t
