-- ===== src/ThreadOps/Leaving.antt =====
-- `Yield`, `Finish`, `Fork` and the rest of `Run` dereference only threads that exist.
use Prim.Native.String.{String}
use ooplatingsistm.Base.{
  ℕ, ◌+◌, ◌≡◌, ◌≢◌, refl, sym, subst, inl, inr, false, none, some, [], ◌∷◌, ◌==◌, ==_refl, arith,
  Option-cases, Bool-cases, same,
}
use ooplatingsistm.LinkedList.Heap.{Ptr, null}
use ooplatingsistm.Queue.{remove}
use ooplatingsistm.Program.{int_off, restore_level}
use ooplatingsistm.Thread.{Thread}
use ooplatingsistm.Kernel.{Kernel, Interrupt}
use ooplatingsistm.Kernel.Outcomes.{Survives, Survives-bind}
use ooplatingsistm.Kernel.Alive.{Sizes, queued, CanRun, Dozing, Alive}
use ooplatingsistm.Scheduler.{update, destroy, run, ready_to_run, finish_run}
use ooplatingsistm.ThreadOps.{yield_cpu, finish}
use ooplatingsistm.ThreadOps.Alive.{count-remove_le, count-remove_ne}
use ooplatingsistm.Program.{thread_finish, restore_level}
use ooplatingsistm.Thread.{Entries, new_thread, stack_allocate}
use ooplatingsistm.Kernel.{◌>>=◌}
use ooplatingsistm.ThreadOps.{Garbage, create, fork}
use ooplatingsistm.ThreadOps.Stacks.{pushed}
use ooplatingsistm.ThreadOps.Survival.{HandlersFit, run-Alive, sleep-Alive}
use ooplatingsistm.ThreadOps.Running.{
  fits-strip, cpu-fits, moved-Alive, cpu-Alive, ready_to_run-Dozing,
}

module _ {D : Type 0} ⦃irq : Interrupt D⦄ (z : Sizes) where
  pub yield_cpu-Alive :
      (k : Kernel D) → Alive z k → Survives (λ _ j. Alive z j) (yield_cpu k.current k)
  unfolding yield_cpu
  yield_cpu-Alive k h =
      rw (==_refl k.current) (elim (Bool-cases ((remove k.ready_list).0 == null)) [
        | inl alone ↦ rw alone found-Alive
        | inr another ↦ rw another (
            Survives-bind _ _ (ready_to_run k.current found) (λ _. run (remove k.ready_list).0)
              (ready_to_run-Dozing z found k.current found-Alive.dozing found-Alive.current_runs)
              λ _ j (d, runs, same).
                run-Alive z (remove k.ready_list).0 j d
                  (runs (remove k.ready_list).0 (next_runs another)))
      ])
    where
      found : Kernel D
      found = record k {
        device = irq.set_level int_off k.device;
        cpu = restore_level (irq.get_level k.device) ∷ k.cpu;
        ready_list = (remove k.ready_list).1;
      }

      found-Alive : Alive z found
      found-Alive =
          moved-Alive z k found h (λ t. ground (arith, count-remove_le t k.ready_list)) refl refl
            refl (refl, refl, refl) h.dozing.list_locks (cpu-fits z k h)

      next_runs : ((remove k.ready_list).0 == null) ≡ false → CanRun z found (remove k.ready_list).0
      next_runs another =
          let n = (remove k.ready_list).0 in
          let ran =
            h.dozing.queued_run n (ground (arith, another, count-remove_ne n k.ready_list)) in
          record {
            exists = ran.exists;
            live = ran.live;
            stack_fits = ground (arith, ran.stack_fits, cpu-fits z k h, fits-strip z k.cpu);
          }

  -- A thread that finishes is in no queue.
  pub finish-Alive :
      HandlersFit irq z
      → (k : Kernel D) → Alive z (pushed k (thread_finish ∷ []))
      → queued k.current k ≡ 0
      → Survives (λ _ j. Alive z j) (finish k.current k)
  unfolding finish
  finish-Alive handlers k h alone = rw (==_refl k.current) (
      sleep-Alive z handlers k' (record {
        queued_run = λ t p. runs t (h.dozing.queued_run t p) (λ e. ground (arith, alone, p, e));
        current_live = h.dozing.current_live;
        finished_live = λ ne. h.dozing.current_live;
        semaphores = h.dozing.semaphores;
        locks = h.dozing.locks;
        lists = h.dozing.lists;
        list_locks = h.dozing.list_locks;
      }))
    where
      k' : Kernel D
      k' = record k { device = irq.set_level int_off k.device; to_be_destroyed = k.current }

      runs : (t : Ptr) → CanRun z (pushed k (thread_finish ∷ [])) t → t ≢ k.current → CanRun z k' t
      runs t c apart = record {
        exists = c.exists;
        live = c.live;
        stack_fits = ground (arith, apart, c.stack_fits);
      }

  -- A thread that is deleted is in no queue, and not the current one.
  pub finish_run-Alive :
      (k : Kernel D)
      → Alive z k
      → (k.to_be_destroyed ≢ null
          → (k.to_be_destroyed ≢ k.current) × (queued k.to_be_destroyed k ≡ 0))
      → Survives (λ _ j. Alive z j) (finish_run k)
  unfolding finish_run destroy
  finish_run-Alive k h apart = elim (Bool-cases (k.to_be_destroyed == null)) [
    | inl nobody ↦ rw nobody h
    | inr somebody ↦
        let (ne, alone) = apart (ground (arith, somebody)) in
        let other : (k.to_be_destroyed == k.current) ≡ false = ground (arith, ne) in
        rw somebody (elim (Option-cases (k.thread k.to_be_destroyed)) [
          | inl gone ↦ ground (arith, gone, somebody, h.dozing.finished_live)
          | inr (c, there) ↦
              rw (there, other)
                (record {
                  dozing = record {
                    queued_run =
                        λ t p. runs t (h.dozing.queued_run t p) (λ e. ground (arith, alone, p, e));
                    current_live = ground (arith, ne, h.dozing.current_live);
                    finished_live = λ absent. absurd (absent refl);
                    semaphores = h.dozing.semaphores;
                    locks = h.dozing.locks;
                    lists = h.dozing.lists;
                    list_locks = h.dozing.list_locks;
                  };
                  current_runs = runs k.current h.current_runs (λ e. ne (sym e));
                })
        ])
  ]
    where
      runs :
          (t : Ptr)
          → CanRun z k t
          → t ≢ k.to_be_destroyed
          → CanRun z
              (record k { thread = update k.thread k.to_be_destroyed none; to_be_destroyed = null })
              t
      runs t c apart = record {
        exists = c.exists;
        live = ground (arith, apart, c.live);
        stack_fits = ground (arith, apart, c.stack_fits);
      }

  fork-Alive :
      (g : Garbage) (e : Entries) (t : Ptr) (func arg : ℕ) (k : Kernel D) (c : Thread)
      → Alive z k
      → k.thread t ≡ some c
      → t ≢ null
      → t ≢ k.current
      → Survives (λ _ j. Alive z j) (fork g e t func arg k)
  unfolding fork stack_allocate
  fork-Alive g e t func arg k c h there ne apart =
      let k' : Kernel D = record k {
        thread = update k.thread t (some (stack_allocate e (g.stack t) func arg c));
        device = irq.set_level int_off k.device;
      } in
      let runs : (r : Ptr) → CanRun z k r → CanRun z k' r = λ r ran. record {
        exists = ran.exists;
        live = ground (arith, ran.live);
        stack_fits = ground (arith, ran.stack_fits);
      } in
      let h' : Dozing z k' = record {
        queued_run = λ r p. runs r (h.dozing.queued_run r p);
        current_live = (runs k.current h.current_runs).live;
        finished_live = λ ne. ground (arith, h.dozing.finished_live ne);
        semaphores = h.dozing.semaphores;
        locks = h.dozing.locks;
        lists = h.dozing.lists;
        list_locks = h.dozing.list_locks;
      } in
      rw there (
        Survives-bind _ _ (ready_to_run t k') _
          (ready_to_run-Dozing z k' t h'
            (record { exists = ne; live = ground arith; stack_fits = ground arith }))
          λ _ j (d, ran, same).
            cpu-Alive z j (irq.set_level (irq.get_level k.device) j.device) j.cpu
              (again j d
                (subst (CanRun z j) (sym same) (ran k.current (runs k.current h.current_runs))))
              (cpu-fits z j (
                again j d
                  (subst (CanRun z j) (sym same) (ran k.current (runs k.current h.current_runs))))))
    where
      again : (j : Kernel D) → Dozing z j → CanRun z j j.current → Alive z j
      again j d c = record { dozing = d; current_runs = c }

  pub create-fork-Alive :
      (g : Garbage) (e : Entries) (name : String) (func arg : ℕ) (k : Kernel D)
      → Alive z k
      → (k.next_addr ≢ null) × (k.next_addr ≢ k.current) × (queued k.next_addr k ≡ 0)
      → Survives (λ _ j. Alive z j) ((create g name >>= λ t. fork g e t func arg) k)
  unfolding create
  create-fork-Alive g e name func arg k h (ne, apart, alone) =
      fork-Alive g e k.next_addr func arg k' c h' (ground arith) ne apart
    where
      c : Thread
      c = new_thread name (g.registers k.next_addr)

      k' : Kernel D
      k' = record k { next_addr = k.next_addr + 1; thread = update k.thread k.next_addr (some c) }

      runs : (t : Ptr) → CanRun z k t → t ≢ k.next_addr → CanRun z k' t
      runs t ran other = record {
        exists = ran.exists;
        live = ground (arith, other, ran.live);
        stack_fits = ground (arith, other, ran.stack_fits);
      }

      h' : Alive z k'
      h' = record {
        dozing = record {
          queued_run = λ t p. runs t (h.dozing.queued_run t p) (λ e. ground (arith, alone, p, e));
          current_live = ground (arith, h.dozing.current_live);
          finished_live = λ some_thread. ground (arith, h.dozing.finished_live some_thread);
          semaphores = h.dozing.semaphores;
          locks = h.dozing.locks;
          lists = h.dozing.lists;
          list_locks = h.dozing.list_locks;
        };
        current_runs = runs k.current h.current_runs (λ e. apart (sym e));
      }
