-- ===== src/System/Printing.antt =====
-- `Scheduler::Print` in every state that the machine reaches.
use mathlib.Core.List.{map}
use ooplatingsistm.Base.{ℕ, ◌≡◌, ◌≢◌, true, none, [], ◌∷◌, arith, length, count}
use ooplatingsistm.LinkedList.Heap.{Ptr}
use ooplatingsistm.Kernel.{Kernel, Interrupt, ok}
use ooplatingsistm.Kernel.Alive.{Sizes, Alive, body_fits}
use ooplatingsistm.Scheduler.Printing.{name_of, print, print_each-ok}
use ooplatingsistm.ThreadOps.{Garbage}
use ooplatingsistm.ThreadOps.Survival.{HandlersFit}
use ooplatingsistm.Machine.{Image, Reach}
use ooplatingsistm.System.{Setup, initialize}
use ooplatingsistm.System.Alive.{sizes, lists_fit, Reach-Lives}

ready_exists :
    {D : Type 0} (z : Sizes) (k : Kernel D)
    → Alive z k
    → (t : Ptr) → count t k.ready_list ≢ 0
    → k.thread t ≢ none
ready_exists z k h t p e = ground (arith, e, p, (h.dozing.queued_run t (ground (arith, p))).live)

module _ {D : Type 0} ⦃irq : Interrupt D⦄ (image : Image) (d : D) (g : Garbage) (s : Setup)
    (handlers : HandlersFit irq (sizes s))
    (text_fits : (func arg : ℕ) → body_fits (sizes s) (image.text func arg) ≡ true)
    (main_fits : body_fits (sizes s) s.main ≡ true)
    (own_locks : lists_fit (length s.locks) s.synch_lists ≡ true) where
  -- In every state that a program reaches whose statements name semaphores, locks and lists that
  -- exist, `Scheduler::Print` prints its headline and the names of the threads of the ready list,
  -- in their order, and changes nothing.
  pub Reach-print :
      {k : Kernel D}
      → Reach image (initialize d g s) k
      → print k
        ≡ ok
            (("Ready list contents:\n", [])
              ∷ map (λ t. ("%s, ", name_of (k.thread t) ∷ [])) k.ready_list)
            k
  unfolding print
  Reach-print {k} r =
      let h = Reach-Lives image d g s handlers text_fits main_fits own_locks r in
      rw (print_each-ok k.ready_list k (ready_exists (sizes s) k h.alive))
