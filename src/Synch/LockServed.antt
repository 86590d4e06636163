-- ===== src/Synch/LockServed.antt =====
-- The loop of `Lock::Acquire` loses no unit of a semaphore, and no free lock.
use ooplatingsistm.Base.{
  ℕ, ◌≡◌, ◌≢◌, refl, sym, subst, true, false, [], set, inl, inr, some, ◌∷◌, ◌==◌, ==_refl, arith,
  Option-cases, Bool-cases, get_elem?,
}
use ooplatingsistm.LinkedList.Heap.{null}
use ooplatingsistm.Queue.{append}
use ooplatingsistm.Kernel.{Kernel, Interrupt}
use ooplatingsistm.Kernel.Outcomes.{Ensures}
use ooplatingsistm.Kernel.Supply.{
  Awaited, supply, in_loop_of, lock_supply, own_lock, lock-supply, set_lock-supply,
  other_lock-supply,
}
use ooplatingsistm.Kernel.Served.{retries, Served}
use ooplatingsistm.Program.{acquire_loop}
use ooplatingsistm.Kernel.{Lock}
use ooplatingsistm.Kernel.Alive.{queued}
use ooplatingsistm.ThreadOps.Served.{same-Served, AllServed, sleep-Served}
use ooplatingsistm.Synch.{acquire_wait}
use ooplatingsistm.Synch.Served.{cpu-Served, queue-Served, taken-Served}

module _ {D : Type 0} (s : Awaited) where
  acquire_queue-Served :
      (l : ℕ) (k : Kernel D) (c : Lock)
      → Served s (retries s (acquire_loop l ∷ [])) k
      → k.current ≢ null
      → queued k.current k ≡ 0
      → get_elem? k.locks l ≡ some c
      → (c.held == 0) ≡ false
      → Served s 0 (record k {
        cpu = acquire_loop l ∷ k.cpu;
        locks = set k.locks l (record c { queue = append c.queue k.current });
      })
  acquire_queue-Served l k c h ne alone there busy =
      let n = retries s (acquire_loop l ∷ []) in
      let pushed = cpu-Served s n n k k.device (acquire_loop l ∷ k.cpu) h ne alone (omega arith) in
      let j = record k {
        cpu = acquire_loop l ∷ k.cpu;
        locks = set k.locks l (record c { queue = append c.queue k.current });
      } in
      elim (Bool-cases (in_loop_of s (acquire_loop l ∷ []))) [
        | inl mine ↦
            let e = own_lock s l mine in
            queue-Served s k j (acquire_loop l) (lock_supply c)
              (same-Served s n 1 _ _ pushed (λ t. refl) refl refl (ground (arith, mine))) ne
              (subst (λ s'. supply s' k ≡ some (lock_supply c)) (sym e) (lock-supply k l c there))
              (ground (arith, busy))
              (subst (λ s'. in_loop_of s' (acquire_loop l ∷ k.cpu) ≡ true) (sym e) (==_refl l))
              (λ t. refl) refl
              (subst
                (λ s'.
                  supply s' j ≡ some (record (lock_supply c) { queue = append c.queue k.current }))
                (sym e) (set_lock-supply k j l c _ there refl))
        | inr other ↦
            same-Served s n 0 (record k { cpu = acquire_loop l ∷ k.cpu }) j pushed (λ t. refl)
              (other_lock-supply k j l s _ refl refl other) refl (ground (arith, other))
      ]

  acquire_taken-Served :
      (l : ℕ) (k : Kernel D) (c : Lock)
      → Served s (retries s (acquire_loop l ∷ [])) k
      → get_elem? k.locks l ≡ some c
      → (c.held == 0) ≡ true
      → AllServed s (record k { locks = set k.locks l (record c { held = 1 }) })
  acquire_taken-Served l k c h there free =
      let n = retries s (acquire_loop l ∷ []) in
      let j = record k { locks = set k.locks l (record c { held = 1 }) } in
      elim (Bool-cases (in_loop_of s (acquire_loop l ∷ []))) [
        | inl mine ↦
            let e = own_lock s l mine in
            taken-Served s k j (lock_supply c) 0
              (same-Served s n 1 k k h (λ t. refl) refl refl (ground (arith, mine)))
              (subst (λ s'. supply s' k ≡ some (lock_supply c)) (sym e) (lock-supply k l c there))
              (ground (arith, free)) (λ t. refl) refl
              (subst (λ s'. supply s' j ≡ some (record (lock_supply c) { units = 0 })) (sym e)
                (set_lock-supply k j l c _ there refl))
        | inr other ↦
            same-Served s n _ k j h (λ t. refl) (other_lock-supply k j l s _ refl refl other) refl
              (ground (arith, other))
      ]

  pub acquire_wait-Served :
      ⦃irq : Interrupt D⦄ (l : ℕ) (k : Kernel D)
      → Served s (retries s (acquire_loop l ∷ [])) k
      → k.current ≢ null
      → queued k.current k ≡ 0
      → Ensures (λ _ j. AllServed s j) (acquire_wait l k)
  unfolding acquire_wait
  acquire_wait-Served l k h ne alone = elim (Option-cases (get_elem? k.locks l)) [
    | inl missing ↦ rw missing tt
    | inr (c, there) ↦ rw there (elim (Bool-cases (c.held == 0)) [
      | inl free ↦ rw free (acquire_taken-Served l k c h there free)
      | inr busy ↦
          rw busy (sleep-Served s k.current _ (acquire_queue-Served l k c h ne alone there busy))
    ])
  ]
