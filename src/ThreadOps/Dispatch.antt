-- ===== src/ThreadOps/Dispatch.antt =====
-- What `Yield` and `Finish` do to the two threads of a context switch.
use ooplatingsistm.Base.{◌≡◌, ◌≢◌, true, some, List, [], ◌∷◌, ◌++◌, arith, ==_refl}
use ooplatingsistm.LinkedList.Heap.{Ptr, null}
use ooplatingsistm.Queue.{Queue}
use ooplatingsistm.Program.{int_off, Frame, after_switch, restore_level}
use ooplatingsistm.Thread.{Thread, ThreadStatus, running, ready, stack_intact, set_status}
use ooplatingsistm.Kernel.{Kernel, Interrupt, ok}
use ooplatingsistm.Kernel.Outcomes.{Succeeds}
use ooplatingsistm.ThreadOps.{yield_cpu}

module _ {D : Type 0} ⦃irq : Interrupt D⦄ where
  -- Thread `n` has been switched to, and the thread that ran before has been saved with status
  -- `st` and, on top of its stack, the rest of `Scheduler::Run` and the frames `fs`.
  pub record Switched (k : Kernel D) (n : Ptr) (c d : Thread) (st : ThreadStatus) (fs : List Frame)
      (j : Kernel D) : Type 0 where
    pub current : j.current ≡ n
    pub loaded : j.cpu ≡ d.context
    pub next_thread : j.thread n ≡ some (set_status running d)
    pub old_thread :
        j.thread k.current ≡ some (record c { status = st; context = after_switch ∷ fs ++ k.cpu })
    pub others : (t : Ptr) → t ≢ n → t ≢ k.current → j.thread t ≡ k.thread t

  -- If nobody else is ready, `Yield` goes on with the current thread; only the mask is changed, to
  -- be restored at once.
  pub yield_cpu-alone :
      (k : Kernel D)
      → k.ready_list ≡ []
      → yield_cpu k.current k
        ≡ ok tt (record k {
          device = irq.set_level int_off k.device;
          cpu = restore_level (irq.get_level k.device) ∷ k.cpu;
        })
  unfolding yield_cpu
  yield_cpu-alone k alone = ground (arith, ==_refl k.current)

  -- Otherwise the first ready thread runs, and the current one goes to the end of the ready list;
  -- when it runs again it first finishes `Run` and then restores the interrupt level.
  pub yield_cpu-Switched :
      (k : Kernel D) (n : Ptr) (q : Queue) (c d : Thread)
      → k.ready_list ≡ n ∷ q
      → n ≢ null
      → n ≢ k.current
      → k.thread k.current ≡ some c
      → stack_intact c.stack ≡ true
      → k.thread n ≡ some d
      → Succeeds
          (λ _ j.
            (j.ready_list ≡ q ++ k.current ∷ [])
            × (irq.get_level j.device ≡ int_off)
            × Switched k n c d ready (restore_level (irq.get_level k.device) ∷ []) j)
          (yield_cpu k.current k)
  unfolding yield_cpu
  yield_cpu-Switched k n q c d first ne apart here intact there =
      ground (arith, ==_refl k.current, irq.get_level-set_level int_off k.device)
