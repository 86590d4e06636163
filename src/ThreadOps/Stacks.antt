-- ===== src/ThreadOps/Stacks.antt =====
-- Dispatching changes no thread's stack, no lock and no synchronized list.
use ooplatingsistm.Base.{ℕ, ◌≡◌, refl, ◌∙◌, ◌⊎◌, List, [], ◌∷◌, ◌++◌, ==_refl, arith}
use ooplatingsistm.LinkedList.Heap.{Ptr, null}
use ooplatingsistm.Program.{int_off, Frame, restore_level}
use ooplatingsistm.Thread.{ThreadStatus}
use ooplatingsistm.Kernel.{Kernel, Outcome, Interrupt}
use ooplatingsistm.Kernel.Outcomes.{Ensures, Ensures-mono, Ensures-all}
use ooplatingsistm.Kernel.Stacks.{stack_of, SameStacks}
use ooplatingsistm.Scheduler.{run, ready_to_run, change_status, finish_run}
use ooplatingsistm.Wake.{v, ready_unless_null}
use ooplatingsistm.ThreadOps.{yield_cpu, sleep, finish}
use ooplatingsistm.ThreadOps.Keeps.{Dispatchable, sleep-keeps}

module _ {D : Type 0} where
  pub record Quiet (k j : Kernel D) : Type 0 where
    pub stacks : SameStacks k j
    pub locks : j.locks ≡ k.locks
    pub synch_lists : j.synch_lists ≡ k.synch_lists

  Quiet-trans : {k i j : Kernel D} → Quiet k i → Quiet i j → Quiet k j
  Quiet-trans q r = record {
    stacks = λ t. r.stacks t ∙ q.stacks t;
    locks = r.locks ∙ q.locks;
    synch_lists = r.synch_lists ∙ q.synch_lists;
  }

  -- What holds of every thread's stack, and of the locks, holds of the state.
  pub Quiet-all :
      (k : Kernel D) (m : Outcome D (Unit {0}))
      → ((t : Ptr)
          → Ensures
              (λ _ j.
                (stack_of j t ≡ stack_of k t)
                × (j.locks ≡ k.locks)
                × (j.synch_lists ≡ k.synch_lists))
              m)
      → Ensures (λ _ j. Quiet k j) m
  Quiet-all k m p =
      Ensures-mono _ _ m (Ensures-all _ m p)
        λ _ j q. record { stacks = λ t. (q t).0; locks = (q null).1; synch_lists = (q null).2 }

  module _ (k : Kernel D) where
    change_status-Quiet :
        (r : Ptr) (st : ThreadStatus) → Ensures (λ _ j. Quiet k j) (change_status r st k)
    unfolding change_status
    change_status-Quiet r st = Quiet-all k (change_status r st k) λ t. ground arith

    pub ready_to_run-Quiet : (r : Ptr) → Ensures (λ _ j. Quiet k j) (ready_to_run r k)
    unfolding ready_to_run
    ready_to_run-Quiet r = Quiet-all k (ready_to_run r k) λ t. ground arith

    pub run-Quiet : (n : Ptr) → Ensures (λ _ j. Quiet k j) (run n k)
    unfolding run
    run-Quiet n = Quiet-all k (run n k) λ t. ground arith

  pub v-Quiet : ⦃irq : Interrupt D⦄ (k : Kernel D) (s : ℕ) → Ensures (λ _ j. Quiet k j) (v s k)
  unfolding v ready_unless_null ready_to_run
  v-Quiet k s = Quiet-all k (v s k) λ t. ground arith

  pub sleep-Quiet :
      ⦃irq : Interrupt D⦄ (k : Kernel D) (this : Ptr) → Ensures (λ _ j. Quiet k j) (sleep this k)
  sleep-Quiet k this =
      sleep-keeps dispatch this k (record { stacks = λ t. refl; locks = refl; synch_lists = refl })
    where
      dispatch : Dispatchable (λ j. Quiet k j)
      dispatch = record {
        by_v = λ s i q. Ensures-mono _ _ (v s i) (v-Quiet i s) λ _ j. Quiet-trans q;
        by_device =
            λ d i q. record { stacks = q.stacks; locks = q.locks; synch_lists = q.synch_lists };
        by_find = λ i q. record { stacks = q.stacks; locks = q.locks; synch_lists = q.synch_lists };
        by_status = λ r st i q.
            Ensures-mono _ _ (change_status r st i) (change_status-Quiet i r st)
              λ _ j. Quiet-trans q;
        by_run = λ r i q. Ensures-mono _ _ (run r i) (run-Quiet i r) λ _ j. Quiet-trans q;
      }

  -- The state with `fs` left to do on top of the current thread's stack.
  abbrev pub pushed : Kernel D → List Frame → Kernel D
  pushed k fs = record k { cpu = fs ++ k.cpu }

  module _ ⦃irq : Interrupt D⦄ (k : Kernel D) where
    pub yield_cpu-Quiet :
        Ensures
          (λ _ j. Quiet (pushed k (restore_level (irq.get_level k.device) ∷ [])) j)
          (yield_cpu k.current k)
    unfolding yield_cpu
    yield_cpu-Quiet =
        Quiet-all (pushed k (restore_level (irq.get_level k.device) ∷ [])) (yield_cpu k.current k)
          λ t. ground arith

    pub finish-Quiet : Ensures (λ _ j. Quiet k j) (finish k.current k)
    unfolding finish
    finish-Quiet = rw (==_refl k.current) (
        Ensures-mono _ _ (sleep k.current k') (sleep-Quiet k' k.current)
          λ _ j q. record { stacks = q.stacks; locks = q.locks; synch_lists = q.synch_lists })
      where
        k' : Kernel D
        k' = record k { device = irq.set_level int_off k.device; to_be_destroyed = k.current }

    -- A thread that is deleted has nothing left to do.
    pub finish_run-stacks :
        (t : Ptr)
        → Ensures
            (λ _ j.
              ((stack_of j t ≡ stack_of k t) ⊎ (stack_of j t ≡ []))
              × (j.locks ≡ k.locks)
              × (j.synch_lists ≡ k.synch_lists))
            (finish_run k)
    unfolding finish_run
    finish_run-stacks t = ground arith
