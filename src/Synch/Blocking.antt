-- ===== src/Synch/Blocking.antt =====
-- `Semaphore::P` and `Lock::Acquire` where they have to wait.
use ooplatingsistm.Base.{
  ℕ, ◌≡◌, ◌≢◌, some, List, [], ◌∷◌, ◌++◌, true, false, ◌==◌, arith, get_elem?, set,
}
use ooplatingsistm.LinkedList.Heap.{Ptr}
use ooplatingsistm.Queue.{Queue, append}
use ooplatingsistm.Program.{int_off, Frame, p_loop, acquire_loop, restore_level}
use ooplatingsistm.Thread.{Thread, blocked}
use ooplatingsistm.Kernel.{Kernel, Semaphore, Lock, Interrupt}
use ooplatingsistm.Kernel.Outcomes.{Succeeds, Succeeds-mono}
use ooplatingsistm.ThreadOps.{sleep}
use ooplatingsistm.ThreadOps.Dispatch.{Switched}
use ooplatingsistm.ThreadOps.Leave.{CanLeave, sleep-Switched}
use ooplatingsistm.Synch.{p, p_wait, acquire, acquire_wait}

module _ {D : Type 0} ⦃irq : Interrupt D⦄ where
  -- The current thread waits, with `fs` left to do on top of its stack, and `n` runs instead.
  pub record Waiting (k : Kernel D) (n : Ptr) (q : Queue) (c d : Thread) (fs : List Frame)
      (semaphores : List Semaphore) (locks : List Lock) (j : Kernel D) : Type 0 where
    pub semaphores_are : j.semaphores ≡ semaphores
    pub locks_are : j.locks ≡ locks
    pub ready_list : j.ready_list ≡ q
    pub level : irq.get_level j.device ≡ int_off
    pub switched : Switched k n c d blocked fs j

  module _ (k : Kernel D) (n : Ptr) (q : Queue) (c d : Thread) (h : CanLeave k n q c d) where
    -- `k` when the current thread goes to sleep.
    abbrev asleep : List Frame → List Semaphore → List Lock → Kernel D
    asleep fs sems lcks = record k {
      device = irq.set_level int_off k.device;
      cpu = fs ++ k.cpu;
      semaphores = sems;
      locks = lcks;
    }

    sleep-Waiting :
        (fs : List Frame) (sems : List Semaphore) (lcks : List Lock)
        → Succeeds (λ _ j. Waiting k n q c d fs sems lcks j) (sleep k.current (asleep fs sems lcks))
    sleep-Waiting fs sems lcks =
        Succeeds-mono _ _ (sleep k.current k') (sleep-Switched k' n q c d h' off) λ _ j a. ground (
          arith, a.semaphores, a.locks, a.ready_list, a.device, off, a.switched.current,
          a.switched.loaded, a.switched.next_thread, a.switched.old_thread, a.switched.others,
        )
      where
        k' : Kernel D
        k' = asleep fs sems lcks

        h' : CanLeave k' n q c d
        h' = record {
          patient = h.patient;
          first = h.first;
          exists = h.exists;
          apart = h.apart;
          here = h.here;
          intact = h.intact;
          there = h.there;
        }

        off : irq.get_level k'.device ≡ int_off
        off = irq.get_level-set_level int_off k.device

    -- `P` on a value of 0 puts the current thread at the end of the queue and runs the first ready
    -- thread; the thread that waits tests the value again when it runs again.
    pub p-Waiting :
        (s : ℕ) (e : Semaphore)
        → get_elem? k.semaphores s ≡ some e
        → e.value ≡ 0
        → Succeeds
            (λ _ j.
              Waiting k n q c d
                (p_loop s ∷ restore_level (irq.get_level k.device) ∷ [])
                (set k.semaphores s (record e { queue = append e.queue k.current }))
                k.locks
                j)
            (p s k)
    unfolding p p_wait
    p-Waiting s e there none_free =
        let empty : (e.value == 0) ≡ true = ground arith in
        rw (there, empty)
          (sleep-Waiting (p_loop s ∷ restore_level (irq.get_level k.device) ∷ []) _ k.locks)

    -- `Acquire` of a lock that is held, by whichever thread, puts the current thread at the end of
    -- the queue and runs the first ready thread; the lock stays held.
    pub acquire-Waiting :
        (l : ℕ) (e : Lock)
        → get_elem? k.locks l ≡ some e
        → e.held ≢ 0
        → Succeeds
            (λ _ j.
              Waiting k n q c d
                (acquire_loop l ∷ restore_level (irq.get_level k.device) ∷ [])
                k.semaphores
                (set k.locks l (record e { queue = append e.queue k.current }))
                j)
            (acquire l k)
    unfolding acquire acquire_wait
    acquire-Waiting l e there held =
        let busy : (e.held == 0) ≡ false = ground arith in
        rw (there, busy)
          (sleep-Waiting (acquire_loop l ∷ restore_level (irq.get_level k.device) ∷ []) k.semaphores
            _)
