-- ===== src/ThreadOps/Survival.antt =====
-- `Run` and `Sleep` dereference only threads that exist.
use ooplatingsistm.Base.{
  ℕ, zero, suc, ◌<◌, ◌≡◌, ◌≢◌, sym, subst, inl, inr, true, some, List, [], ◌∷◌, ◌==◌, ==_refl,
  arith, Option-cases, Bool-cases, All,
}
use ooplatingsistm.LinkedList.Heap.{Ptr, null}
use ooplatingsistm.Queue.{remove}
use ooplatingsistm.Thread.{blocked}
use ooplatingsistm.Kernel.{Kernel, Interrupt, crash}
use ooplatingsistm.Kernel.Outcomes.{
  Ensures, Ensures-all, Ensures-both, Survives, Survives-bind, Survives-Ensures,
}
use ooplatingsistm.Kernel.Alive.{Sizes, is_live, queued, CanRun, Dozing, Alive}
use ooplatingsistm.Scheduler.{run, find_next_to_run, change_status}
use ooplatingsistm.Wake.{v}
use ooplatingsistm.ThreadOps.{sleep, signal_all, idle, next_or_idle, is_off}
use ooplatingsistm.ThreadOps.Stacks.{Quiet}
use ooplatingsistm.ThreadOps.Alive.{
  count-remove_le, count-remove_ne, change_status-Dozing, v-Dozing,
}
use ooplatingsistm.ThreadOps.Stacks.{run-Quiet}

-- What the handlers that `Idle` serves signal.
abbrev pub HandlersFit : {D : Type 0} → Interrupt D → Sizes → Type 0
HandlersFit {D} irq z =
    (d e : D) (vs : List ℕ) → irq.idle d ≡ some (e, vs) → All (λ s. s < z.semaphores) vs

module _ {D : Type 0} (z : Sizes) where
  -- Nothing else has changed, but `n` runs.
  run-same :
      (k : Kernel D) (n t : Ptr)
      → Ensures
          (λ _ j.
            (is_live (k.thread t) ≡ true → is_live (j.thread t) ≡ true)
            × (queued t j ≡ queued t k)
            × (j.current ≡ n)
            × (is_live (j.thread n) ≡ true)
            × (j.to_be_destroyed ≡ k.to_be_destroyed)
            × (j.semaphores ≡ k.semaphores))
          (run n k)
  unfolding run
  run-same k n t = ground arith

  pub run-Alive :
      (n : Ptr) (k : Kernel D) → Dozing z k → CanRun z k n → Survives (λ _ j. Alive z j) (run n k)
  unfolding run
  run-Alive n k h c = Survives-Ensures _ (run n k) present (
      Ensures-both _ _ _ (run n k) (run-Quiet k n) (Ensures-all _ (run n k) (run-same k n))
        λ _ j q r. run_alive j q r)
    where
      present : run n k ≢ crash
      present e = ground (arith, h.current_live, c.live)

      run_alive :
          (j : Kernel D)
          → Quiet k j
          → ((t : Ptr)
              → (is_live (k.thread t) ≡ true → is_live (j.thread t) ≡ true)
                × (queued t j ≡ queued t k)
                × (j.current ≡ n)
                × (is_live (j.thread n) ≡ true)
                × (j.to_be_destroyed ≡ k.to_be_destroyed)
                × (j.semaphores ≡ k.semaphores))
          → Alive z j
      run_alive j q r = record {
        dozing = record {
          queued_run = λ t p.
              let ran = h.queued_run t (rw (← (r t).1) p) in
              record {
                exists = ran.exists;
                live = (r t).0 ran.live;
                stack_fits = rw (q.stacks t) ran.stack_fits;
              };
          current_live = rw (r n).2 (r n).3;
          finished_live = rw (r n).4 (λ ne. (r k.to_be_destroyed).0 (h.finished_live ne));
          semaphores = rw (r n).5 h.semaphores;
          locks = rw q.locks h.locks;
          lists = rw q.synch_lists h.lists;
          list_locks = rw q.synch_lists h.list_locks;
        };
        current_runs = subst (CanRun z j) (sym (r n).2) (record {
          exists = c.exists;
          live = (r n).3;
          stack_fits = rw (q.stacks n) c.stack_fits;
        });
      }

  module _ ⦃irq : Interrupt D⦄ (handlers : HandlersFit irq z) where
    signal_all-Dozing :
        (ss : List ℕ) (k : Kernel D)
        → All (λ s. s < z.semaphores) ss
        → Dozing z k
        → Survives (λ _ j. Dozing z j) (signal_all ss k)
    unfolding signal_all
    signal_all-Dozing [] k small h = h
    signal_all-Dozing (s ∷ ss) k (small, more) h =
        Survives-bind (λ _ j. Dozing z j) _ (v s k) (λ _. signal_all ss) (v-Dozing z k s h small)
          λ _ i. signal_all-Dozing ss i more

    idle-Dozing : (k : Kernel D) → Dozing z k → Survives (λ _ j. Dozing z j) (idle k)
    unfolding idle
    idle-Dozing k h = elim (Option-cases (irq.idle k.device)) [
      | inl stop ↦ rw (stop, idle) tt
      | inr ((d, ss), more) ↦
          rw (more, idle)
            (signal_all-Dozing ss (record k { device = d }) (handlers k.device d ss more)
              (record {
                queued_run = λ t p.
                    let c = h.queued_run t p in
                    record { exists = c.exists; live = c.live; stack_fits = c.stack_fits };
                current_live = h.current_live;
                finished_live = h.finished_live;
                semaphores = h.semaphores;
                locks = h.locks;
                lists = h.lists;
                list_locks = h.list_locks;
              }))
    ]

    next_or_idle-Dozing :
        (n : ℕ) (k : Kernel D)
        → Dozing z k
        → Survives (λ r j. Dozing z j × CanRun z j r) (next_or_idle n k)
    unfolding next_or_idle find_next_to_run
    next_or_idle-Dozing zero k h = tt
    next_or_idle-Dozing (suc n) k h = elim (Bool-cases ((remove k.ready_list).0 == null)) [
      | inl nobody ↦ rw nobody (
          Survives-bind (λ _ j. Dozing z j) _ (idle k') (λ _. next_or_idle n) (idle-Dozing k' h')
            λ _ i. next_or_idle-Dozing n i)
      | inr somebody ↦ rw somebody (
        h',
        found (
            h.queued_run (remove k.ready_list).0
              (ground (arith, somebody, count-remove_ne (remove k.ready_list).0 k.ready_list))),
      )
    ]
      where
        k' : Kernel D
        k' = record k { ready_list = (remove k.ready_list).1 }

        found : {t : Ptr} → CanRun z k t → CanRun z k' t
        found c = record { exists = c.exists; live = c.live; stack_fits = c.stack_fits }

        h' : Dozing z k'
        h' = record {
          queued_run =
              λ t p. found (h.queued_run t (ground (arith, p, count-remove_le t k.ready_list)));
          current_live = h.current_live;
          finished_live = h.finished_live;
          semaphores = h.semaphores;
          locks = h.locks;
          lists = h.lists;
          list_locks = h.list_locks;
        }

    pub sleep-Alive : (k : Kernel D) → Dozing z k → Survives (λ _ j. Alive z j) (sleep k.current k)
    unfolding sleep
    sleep-Alive k h = elim (Bool-cases (is_off (irq.get_level k.device))) [
      | inr on ↦ rw (==_refl k.current, on) tt
      | inl off ↦
          rw (==_refl k.current, off)
            (Survives-bind (λ _ j. Dozing z j) _ (change_status k.current blocked k) _
              (change_status-Dozing z k k.current blocked h h.current_live)
              λ _ i h'.
                Survives-bind _ _ (next_or_idle irq.patience i) run
                  (next_or_idle-Dozing irq.patience i h') λ n j (d, c). run-Alive n j d c)
    ]
