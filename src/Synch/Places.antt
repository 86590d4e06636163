-- ===== src/Synch/Places.antt =====
-- `P`, `Acquire` and `Release` move threads between the processor, the queues and the ready list,
-- and lose none.
use ooplatingsistm.Base.{
  ℕ, ◌≡◌, ◌≢◌, inl, inr, [], ◌∷◌, arith, ◌==◌, count, count-append, total-set, get_elem?, set,
  get_elem?-set_self, Option-cases, Bool-cases,
}
use ooplatingsistm.LinkedList.Heap.{Ptr, null}
use ooplatingsistm.Queue.{append, remove}
use ooplatingsistm.Program.{int_off, p_loop, acquire_loop, restore_level}
use ooplatingsistm.Kernel.{Kernel, Semaphore, Lock, Interrupt}
use ooplatingsistm.Kernel.Outcomes.{Ensures, Ensures-mono}
use ooplatingsistm.Kernel.Places.{places}
use ooplatingsistm.Scheduler.{ready_to_run}
use ooplatingsistm.Wake.{ready_unless_null, decrement}
use ooplatingsistm.Wake.Places.{sem_count, count-remove}
use ooplatingsistm.ThreadOps.{sleep}
use ooplatingsistm.ThreadOps.Places.{sleep-places}
use ooplatingsistm.Synch.{p_wait, p, acquire_wait, acquire, release}

abbrev pub lock_count : Ptr → Lock → ℕ
lock_count t l = count t l.queue

module _ {D : Type 0} ⦃irq : Interrupt D⦄ (t : Ptr) (ne : t ≢ null) (k : Kernel D) where
  pub p_wait-places : (s : ℕ) → Ensures (λ _ j. places t j ≡ places t k) (p_wait s k)
  unfolding p_wait
  p_wait-places s = elim (Option-cases (get_elem? k.semaphores s)) [
    | inl missing ↦ rw missing tt
    | inr (c, there) ↦
        let c' : Semaphore = record c { queue = append c.queue k.current } in
        let c'' : Semaphore = record c { value = decrement c.value } in
        let k' : Kernel D = record k {
          semaphores = set k.semaphores s c';
          cpu = p_loop s ∷ k.cpu;
        } in
        rw there (elim (Bool-cases (c.value == 0)) [
          | inl zero_value ↦ rw zero_value (
              Ensures-mono _ _ (sleep k.current k') (sleep-places t ne k.current k') λ _ j (e, d).
                ground (
                  arith,
                  e,
                  total-set (sem_count t) k.semaphores s c c' there,
                  count-append t c.queue (k.current ∷ []),
                ))
          | inr some_value ↦
              rw some_value (ground (arith, total-set (sem_count t) k.semaphores s c c'' there))
        ])
  ]

  pub acquire_wait-places : (l : ℕ) → Ensures (λ _ j. places t j ≡ places t k) (acquire_wait l k)
  unfolding acquire_wait
  acquire_wait-places l = elim (Option-cases (get_elem? k.locks l)) [
    | inl missing ↦ rw missing tt
    | inr (c, there) ↦
        let c' : Lock = record c { queue = append c.queue k.current } in
        let c'' : Lock = record c { held = 1 } in
        let k' : Kernel D = record k { locks = set k.locks l c'; cpu = acquire_loop l ∷ k.cpu } in
        rw there (elim (Bool-cases (c.held == 0)) [
          | inl free ↦ rw free (ground (arith, total-set (lock_count t) k.locks l c c'' there))
          | inr busy ↦ rw busy (
              Ensures-mono _ _ (sleep k.current k') (sleep-places t ne k.current k') λ _ j (e, d).
                ground (
                  arith,
                  e,
                  total-set (lock_count t) k.locks l c c' there,
                  count-append t c.queue (k.current ∷ []),
                ))
        ])
  ]

  pub release-places : (l : ℕ) → Ensures (λ _ j. places t j ≡ places t k) (release l k)
  unfolding release ready_unless_null ready_to_run
  release-places l = elim (Option-cases (get_elem? k.locks l)) [
    | inl missing ↦ rw missing tt
    | inr (c, there) ↦
        let c' : Lock = record c { queue = (remove c.queue).1 } in
        let c'' : Lock = record c' { held = 0 } in
        let there' = get_elem?-set_self k.locks l c' there in
        rw there (
          ground (
            arith,
            there',
            total-set (lock_count t) k.locks l c c' there,
            total-set (lock_count t) (set k.locks l c') l c' c'' there',
            count-remove c.queue ne,
            count-append t k.ready_list ((remove c.queue).0 ∷ []),
          ))
  ]

module _ {D : Type 0} ⦃irq : Interrupt D⦄ (t : Ptr) (ne : t ≢ null) (k : Kernel D) where
  pub p-places : (s : ℕ) → Ensures (λ _ j. places t j ≡ places t k) (p s k)
  unfolding p
  p-places s = Ensures-mono _ _ (p_wait s k') (p_wait-places t ne k' s) λ _ j e. e
    where
      k' : Kernel D
      k' = record k {
        device = irq.set_level int_off k.device;
        cpu = restore_level (irq.get_level k.device) ∷ k.cpu;
      }

  pub acquire-places : (l : ℕ) → Ensures (λ _ j. places t j ≡ places t k) (acquire l k)
  unfolding acquire
  acquire-places l = Ensures-mono _ _ (acquire_wait l k') (acquire_wait-places t ne k' l) λ _ j e. e
    where
      k' : Kernel D
      k' = record k {
        device = irq.set_level int_off k.device;
        cpu = restore_level (irq.get_level k.device) ∷ k.cpu;
      }
