-- ===== src/Scheduler/Printing.antt =====
-- `Scheduler::Print` and `Thread::Print`: the calls of `printf` that they make, each with its format
-- and the strings that it prints.
use Prim.Native.String.{String}
use mathlib.Core.List.{map}
use ooplatingsistm.Base.{◌≡◌, ◌≢◌, refl, Option, none, some, List, [], ◌∷◌, arith, count, ==_refl}
use ooplatingsistm.LinkedList.Heap.{Ptr}
use ooplatingsistm.Queue.{Queue}
use ooplatingsistm.Thread.{Thread}
use ooplatingsistm.Kernel.{Kernel, Cmd, ok, pure, ◌>>=◌}
use ooplatingsistm.Scheduler.{load_thread}

abbrev pub Printed : Type 0
Printed = List (String × List String)

module _ {D : Type 0} where
  -- `ThreadPrint`.
  unfoldable pub thread_print : Ptr → Cmd D (String × List String)
  unfolding load_thread
  thread_print t = do c ← load_thread t; pure ("%s, ", c.name ∷ [])

  -- `readyList->Mapcar((VoidFunctionPtr) ThreadPrint)`.
  unfoldable pub print_each : Queue → Cmd D Printed
  unfolding thread_print
  print_each [] = pure []
  print_each (t ∷ q) = do line ← thread_print t; rest ← print_each q; pure (line ∷ rest)

  -- `Scheduler::Print`.
  unfoldable pub print : Cmd D Printed
  print k = (do rest ← print_each k.ready_list; pure (("Ready list contents:\n", []) ∷ rest)) k

count_head : (t : Ptr) (q : Queue) → count t (t ∷ q) ≢ 0
count_head t q = ground (arith, ==_refl t)

count_tail : (u t : Ptr) (q : Queue) → count u q ≢ 0 → count u (t ∷ q) ≢ 0
count_tail u t q some_there = ground (arith, some_there)

-- The name of a thread.
abbrev pub name_of : Option Thread → String
name_of none = ""
name_of (some c) = c.name

module _ {D : Type 0} where
  pub print_each-ok :
      (q : Queue) (k : Kernel D)
      → ((t : Ptr) → count t q ≢ 0 → k.thread t ≢ none)
      → print_each q k ≡ ok (map (λ t. ("%s, ", name_of (k.thread t) ∷ [])) q) k
  unfolding print_each thread_print load_thread
  print_each-ok [] k alive = refl
  print_each-ok (t ∷ q) k alive =
      ground
        (arith, alive t (count_head t q), print_each-ok q k λ u p. alive u (count_tail u t q p))
