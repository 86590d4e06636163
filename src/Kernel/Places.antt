-- ===== src/Kernel/Places.antt =====
-- Where a thread is: on the processor, finished and not yet deleted, on the ready list, or in the
-- queue of a semaphore or a lock.
use ooplatingsistm.Base.{ℕ, ◌+◌, ◌≡◌, same, count, total}
use ooplatingsistm.LinkedList.Heap.{Ptr}
use ooplatingsistm.Kernel.{Kernel, Semaphore, Lock}

module _ {D : Type 0} where
  abbrev pub waiting : Ptr → Kernel D → ℕ
  waiting t k =
      total (λ (s : Semaphore). count t s.queue) k.semaphores
      + total (λ (l : Lock). count t l.queue) k.locks

  -- How often a thread is in one of these places.
  abbrev pub places : Ptr → Kernel D → ℕ
  places t k = same k.current t + same k.to_be_destroyed t + count t k.ready_list + waiting t k

  -- Two states in which every thread is where it was.
  pub record SamePlaces (k j : Kernel D) : Type 0 where
    pub current : j.current ≡ k.current
    pub to_be_destroyed : j.to_be_destroyed ≡ k.to_be_destroyed
    pub ready_list : j.ready_list ≡ k.ready_list
    pub semaphores : j.semaphores ≡ k.semaphores
    pub locks : j.locks ≡ k.locks
