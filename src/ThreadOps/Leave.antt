-- ===== src/ThreadOps/Leave.antt =====
-- What `Sleep` and `Finish` do when another thread is ready.
use ooplatingsistm.Base.{ℕ, zero, suc, ◌≡◌, refl, ◌≢◌, true, some, [], ◌∷◌, arith, ==_refl}
use ooplatingsistm.LinkedList.Heap.{Ptr, null}
use ooplatingsistm.Queue.{Queue}
use ooplatingsistm.Program.{int_off}
use ooplatingsistm.Thread.{Thread, set_status, blocked, stack_intact}
use ooplatingsistm.Kernel.{Kernel, Interrupt, ok}
use ooplatingsistm.Kernel.Outcomes.{Succeeds}
use ooplatingsistm.Scheduler.{run, find_next_to_run, update}
use ooplatingsistm.ThreadOps.{sleep, finish, next_or_idle}
use ooplatingsistm.ThreadOps.Dispatch.{Switched}

module _ {D : Type 0} ⦃irq : Interrupt D⦄ where
  -- What stands between a thread and the switch to the first ready thread `n`: both threads
  -- exist, they are different, and the stack of the one that leaves is intact.
  pub record CanLeave (k : Kernel D) (n : Ptr) (q : Queue) (c d : Thread) : Type 0 where
    pub patient : irq.patience ≢ 0
    pub first : k.ready_list ≡ n ∷ q
    pub exists : n ≢ null
    pub apart : n ≢ k.current
    pub here : k.thread k.current ≡ some c
    pub intact : stack_intact c.stack ≡ true
    pub there : k.thread n ≡ some d

  pub next_or_idle-first :
      (k : Kernel D) {n : Ptr} {q : Queue}
      → k.ready_list ≡ n ∷ q
      → n ≢ null
      → (m : ℕ) → m ≢ 0
      → next_or_idle m k ≡ ok n (record k { ready_list = q })
  unfolding next_or_idle find_next_to_run
  next_or_idle-first k first exists zero some_fuel = absurd (some_fuel refl)
  next_or_idle-first k first exists (suc m) some_fuel = ground arith

  -- Thread `n` runs in place of the one that went to sleep; semaphores, locks and interrupts are
  -- as before.
  pub record Asleep (k : Kernel D) (n : Ptr) (q : Queue) (c d : Thread) (j : Kernel D)
      : Type 0 where
    pub ready_list : j.ready_list ≡ q
    pub semaphores : j.semaphores ≡ k.semaphores
    pub locks : j.locks ≡ k.locks
    pub device : j.device ≡ k.device
    pub to_be_destroyed : j.to_be_destroyed ≡ k.to_be_destroyed
    pub switched : Switched k n c d blocked [] j

  -- `Sleep` with interrupts off blocks the current thread and runs the first ready thread; it
  -- leaves semaphores, locks and the interrupt level alone.
  pub sleep-Switched :
      (k : Kernel D) (n : Ptr) (q : Queue) (c d : Thread)
      → CanLeave k n q c d
      → irq.get_level k.device ≡ int_off
      → Succeeds (λ _ j. Asleep k n q c d j) (sleep k.current k)
  unfolding sleep run
  sleep-Switched k n q c d h off = ground (
    arith,
    ==_refl k.current,
    h,
    next_or_idle-first
        (record k { thread = update k.thread k.current (some (set_status blocked c)) }) h.first
        h.exists irq.patience h.patient,
  )

  -- `Finish` marks the current thread to be destroyed, and runs the first ready thread.
  pub finish-Asleep :
      (k : Kernel D) (n : Ptr) (q : Queue) (c d : Thread)
      → CanLeave k n q c d
      → Succeeds
          (λ _ j.
            Asleep
              (record k { device = irq.set_level int_off k.device; to_be_destroyed = k.current })
              n
              q
              c
              d
              j)
          (finish k.current k)
  unfolding finish
  finish-Asleep k n q c d h =
      rw (==_refl k.current)
        (sleep-Switched k' n q c d h' (irq.get_level-set_level int_off k.device))
    where
      k' : Kernel D
      k' = record k { device = irq.set_level int_off k.device; to_be_destroyed = k.current }

      h' : CanLeave k' n q c d
      h' = record {
        patient = h.patient;
        first = h.first;
        exists = h.exists;
        apart = h.apart;
        here = h.here;
        intact = h.intact;
        there = h.there;
      }
