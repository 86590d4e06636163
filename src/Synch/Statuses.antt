-- ===== src/Synch/Statuses.antt =====
-- What waiting for a semaphore or a lock, and freeing a lock, do to statuses.
use ooplatingsistm.Base.{
  ℕ, ◌≢◌, inl, inr, [], ◌∷◌, ◌==◌, arith, Option-cases, Bool-cases, count-append, total-set,
  get_elem?, set, get_elem?-set_self,
}
use ooplatingsistm.LinkedList.Heap.{Ptr, null}
use ooplatingsistm.Queue.{append, remove}
use ooplatingsistm.Program.{int_off, restore_level, p_loop, acquire_loop}
use ooplatingsistm.Kernel.{Kernel, Semaphore, Lock, Interrupt}
use ooplatingsistm.Kernel.Outcomes.{Ensures}
use ooplatingsistm.Kernel.Statuses.{Agrees}
use ooplatingsistm.Scheduler.{ready_to_run}
use ooplatingsistm.Wake.{ready_unless_null, decrement}
use ooplatingsistm.Wake.Places.{sem_count, count-remove}
use ooplatingsistm.ThreadOps.Statuses.{sleep-Agrees}
use ooplatingsistm.Synch.{p, p_wait, acquire, acquire_wait, release}
use ooplatingsistm.Synch.Places.{lock_count}

module _ {D : Type 0} ⦃irq : Interrupt D⦄ (t : Ptr) (ne : t ≢ null) where
  pub p_wait-Agrees : (s : ℕ) (k : Kernel D) → Agrees t k → Ensures (λ _ j. Agrees t j) (p_wait s k)
  unfolding p_wait
  p_wait-Agrees s k h = elim (Option-cases (get_elem? k.semaphores s)) [
    | inl missing ↦ rw missing tt
    | inr (c, there) ↦
        let c' : Semaphore = record c { queue = append c.queue k.current } in
        let c'' : Semaphore = record c { value = decrement c.value } in
        rw there (elim (Bool-cases (c.value == 0)) [
          | inl none_free ↦
              let queued = total-set (sem_count t) k.semaphores s c c' there in
              let longer = count-append t c.queue (k.current ∷ []) in
              rw none_free (
                sleep-Agrees t ne
                  (record k { cpu = p_loop s ∷ k.cpu; semaphores = set k.semaphores s c' })
                  (λ other. ground (arith, h, other, queued, longer))
                  (λ mine. ground (arith, h, mine, queued, longer)))
          | inr some_free ↦
              rw some_free (ground (arith, h, total-set (sem_count t) k.semaphores s c c'' there))
        ])
  ]

  pub acquire_wait-Agrees :
      (l : ℕ) (k : Kernel D) → Agrees t k → Ensures (λ _ j. Agrees t j) (acquire_wait l k)
  unfolding acquire_wait
  acquire_wait-Agrees l k h = elim (Option-cases (get_elem? k.locks l)) [
    | inl missing ↦ rw missing tt
    | inr (c, there) ↦
        let c' : Lock = record c { queue = append c.queue k.current } in
        let c'' : Lock = record c { held = 1 } in
        rw there (elim (Bool-cases (c.held == 0)) [
          | inl free ↦ rw free (ground (arith, h, total-set (lock_count t) k.locks l c c'' there))
          | inr busy ↦
              let queued = total-set (lock_count t) k.locks l c c' there in
              let longer = count-append t c.queue (k.current ∷ []) in
              rw busy (
                sleep-Agrees t ne
                  (record k { cpu = acquire_loop l ∷ k.cpu; locks = set k.locks l c' })
                  (λ other. ground (arith, h, other, queued, longer))
                  (λ mine. ground (arith, h, mine, queued, longer)))
        ])
  ]

  pub p-Agrees : (s : ℕ) (k : Kernel D) → Agrees t k → Ensures (λ _ j. Agrees t j) (p s k)
  unfolding p
  p-Agrees s k h =
      p_wait-Agrees s
        (record k {
          device = irq.set_level int_off k.device;
          cpu = restore_level (irq.get_level k.device) ∷ k.cpu;
        })
        h

  pub acquire-Agrees :
      (l : ℕ) (k : Kernel D) → Agrees t k → Ensures (λ _ j. Agrees t j) (acquire l k)
  unfolding acquire
  acquire-Agrees l k h =
      acquire_wait-Agrees l
        (record k {
          device = irq.set_level int_off k.device;
          cpu = restore_level (irq.get_level k.device) ∷ k.cpu;
        })
        h

  pub release-Agrees :
      (l : ℕ) (k : Kernel D) → Agrees t k → Ensures (λ _ j. Agrees t j) (release l k)
  unfolding release ready_unless_null ready_to_run
  release-Agrees l k h = elim (Option-cases (get_elem? k.locks l)) [
    | inl missing ↦ rw missing tt
    | inr (c, there) ↦
        let c' : Lock = record c { queue = (remove c.queue).1 } in
        let c'' : Lock = record c' { held = 0 } in
        let there' = get_elem?-set_self k.locks l c' there in
        rw there (
          ground (
            arith,
            h,
            there',
            total-set (lock_count t) k.locks l c c' there,
            total-set (lock_count t) (set k.locks l c') l c' c'' there',
            count-remove c.queue ne,
            count-append t k.ready_list ((remove c.queue).0 ∷ []),
          ))
  ]
