-- ===== src/Wake/Places.antt =====
-- `Semaphore::V` moves a thread from the queue to the ready list, and loses none.
use ooplatingsistm.Base.{
  ℕ, ◌+◌, ◌≡◌, ◌≢◌, inl, inr, [], ◌∷◌, arith, same, count, count-append, total-set, get_elem?, set,
  get_elem?-set_self, Option-cases,
}
use ooplatingsistm.LinkedList.Heap.{Ptr, null}
use ooplatingsistm.Queue.{Queue, remove}
use ooplatingsistm.Kernel.{Kernel, Semaphore, Interrupt}
use ooplatingsistm.Kernel.Outcomes.{Ensures}
use ooplatingsistm.Kernel.Places.{places}
use ooplatingsistm.Scheduler.{ready_to_run}
use ooplatingsistm.Wake.{ready_unless_null, increment, v}

-- The weight of a semaphore: how often a thread waits in it.
abbrev pub sem_count : Ptr → Semaphore → ℕ
sem_count t s = count t s.queue

pub count-remove :
    {t : Ptr} (q : Queue) → t ≢ null → count t (remove q).1 + same (remove q).0 t ≡ count t q
count-remove [] ne = ground arith
count-remove (r ∷ q) ne = ground arith

module _ {D : Type 0} ⦃irq : Interrupt D⦄ (t : Ptr) (k : Kernel D) (ne : t ≢ null) where
  pub v-places : (s : ℕ) → Ensures (λ _ j. places t j ≡ places t k) (v s k)
  unfolding v ready_unless_null ready_to_run
  v-places s = elim (Option-cases (get_elem? k.semaphores s)) [
    | inl missing ↦ rw missing tt
    | inr (c, there) ↦
        let c' : Semaphore = record c { queue = (remove c.queue).1 } in
        let c'' : Semaphore = record c' { value = increment c'.value } in
        let there' = get_elem?-set_self k.semaphores s c' there in
        rw there (
          ground (
            arith,
            there',
            total-set (sem_count t) k.semaphores s c c' there,
            total-set (sem_count t) (set k.semaphores s c') s c' c'' there',
            count-remove c.queue ne,
            count-append t k.ready_list ((remove c.queue).0 ∷ []),
          ))
  ]

  pub v-current :
      (s : ℕ)
      → Ensures (λ _ j. (j.current ≡ k.current) × (j.to_be_destroyed ≡ k.to_be_destroyed)) (v s k)
  unfolding v ready_unless_null ready_to_run
  v-current s = ground arith
