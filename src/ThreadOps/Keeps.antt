-- ===== src/ThreadOps/Keeps.antt =====
-- A property of the kernel that dispatching leaves alone survives `Sleep`, whatever the interrupt
-- handlers do while nobody is ready.
use ooplatingsistm.Base.{ℕ, zero, suc, inl, inr, List, [], ◌∷◌, ◌==◌, Option-cases, Bool-cases}
use ooplatingsistm.LinkedList.Heap.{Ptr, null}
use ooplatingsistm.Queue.{remove}
use ooplatingsistm.Thread.{ThreadStatus, blocked}
use ooplatingsistm.Kernel.{Kernel, Interrupt}
use ooplatingsistm.Kernel.Outcomes.{Ensures, Ensures-bind}
use ooplatingsistm.Scheduler.{find_next_to_run, run, change_status}
use ooplatingsistm.Wake.{v}
use ooplatingsistm.ThreadOps.{signal_all, idle, next_or_idle, sleep, is_off}

module _ {D : Type 0} ⦃irq : Interrupt D⦄ where
  -- What `P` has to survive.
  pub record Dispatchable (P : Kernel D → Type 0) : Type 0 where
    pub by_v : (s : ℕ) (k : Kernel D) → P k → Ensures (λ _ j. P j) (v s k)
    pub by_device : (d : D) (k : Kernel D) → P k → P (record k { device = d })
    pub by_find : (k : Kernel D) → P k → P (record k { ready_list = (remove k.ready_list).1 })
    pub by_status :
        (r : Ptr) (st : ThreadStatus) (k : Kernel D)
        → P k
        → Ensures (λ _ j. P j) (change_status r st k)
    pub by_run : (r : Ptr) (k : Kernel D) → P k → Ensures (λ _ j. P j) (run r k)

  module _ {P : Kernel D → Type 0} (keep : Dispatchable P) where
    signal_all-keeps : (ss : List ℕ) (k : Kernel D) → P k → Ensures (λ _ j. P j) (signal_all ss k)
    unfolding signal_all
    signal_all-keeps [] k h = h
    signal_all-keeps (s ∷ ss) k h =
        Ensures-bind (λ _ j. P j) _ (v s k) (λ _. signal_all ss) (keep.by_v s k h)
          λ _ i. signal_all-keeps ss i

    idle-keeps : (k : Kernel D) → P k → Ensures (λ _ j. P j) (idle k)
    unfolding idle
    idle-keeps k h = elim (Option-cases (irq.idle k.device)) [
      | inl stop ↦ rw (stop, idle) tt
      | inr ((d, ss), more) ↦
          rw (more, idle) (signal_all-keeps ss (record k { device = d }) (keep.by_device d k h))
    ]

    next_or_idle-keeps : (n : ℕ) (k : Kernel D) → P k → Ensures (λ _ j. P j) (next_or_idle n k)
    unfolding next_or_idle find_next_to_run
    next_or_idle-keeps zero k h = tt
    next_or_idle-keeps (suc n) k h = elim (Bool-cases ((remove k.ready_list).0 == null)) [
      | inl nobody ↦ rw nobody (
          Ensures-bind (λ _ j. P j) _ (idle (record k { ready_list = (remove k.ready_list).1 }))
            (λ _. next_or_idle n) (idle-keeps _ (keep.by_find k h)) λ _ i. next_or_idle-keeps n i)
      | inr somebody ↦ rw somebody (keep.by_find k h)
    ]

    pub sleep-keeps : (this : Ptr) (k : Kernel D) → P k → Ensures (λ _ j. P j) (sleep this k)
    unfolding sleep
    sleep-keeps this k h = elim (Bool-cases (this == k.current)) [
      | inl mine ↦ rw mine (elim (Bool-cases (is_off (irq.get_level k.device))) [
        | inl off ↦ rw off (
            Ensures-bind (λ _ j. P j) _ (change_status this blocked k) _
              (keep.by_status this blocked k h)
              λ _ i h'.
                Ensures-bind (λ _ j. P j) _ (next_or_idle irq.patience i) run
                  (next_or_idle-keeps irq.patience i h') λ r j. keep.by_run r j)
        | inr on ↦ rw on tt
      ])
      | inr wrong ↦ rw wrong tt
    ]
