-- ===== src/Synch/Units.antt =====
-- The other operations of thread.cc and synch.cc lose no unit of a semaphore, called where the current
-- thread is in no queue and is not about to test the semaphore.
use Prim.Native.String.{String}
use ooplatingsistm.Base.{
  ℕ, ◌≤◌, ◌≡◌, ◌≢◌, refl, sym, subst, [], set, set-set, ◌⊎◌, inl, inr, some, ◌∷◌, ◌==◌, ==_refl,
  arith, Option-cases, Bool-cases, get_elem?, get_elem?-set_self,
}
use ooplatingsistm.LinkedList.Heap.{Ptr, null}
use ooplatingsistm.Queue.{append, remove}
use ooplatingsistm.Program.{int_off}
use ooplatingsistm.Kernel.{Kernel, Interrupt}
use ooplatingsistm.Kernel.Outcomes.{Ensures, Ensures-bind, Ensures-mono, Ensures-all}
use ooplatingsistm.Kernel.Stacks.{stack_of, SameStacks}
use ooplatingsistm.Kernel.Supply.{
  Awaited, supply, in_loop_of, lock_supply, own_lock, lock-supply, set_lock-supply,
  other_lock-supply,
}
use ooplatingsistm.Kernel.Served.{retries, Served}
use ooplatingsistm.Scheduler.{run, ready_to_run}
use ooplatingsistm.Wake.{v, ready_unless_null}
use ooplatingsistm.ThreadOps.{yield_cpu, finish}
use ooplatingsistm.Program.{restore_level, acquire_loop, p_loop}
use ooplatingsistm.Thread.{Entries, new_thread, stack_allocate}
use ooplatingsistm.Kernel.{Lock, ◌>>=◌}
use ooplatingsistm.Kernel.Alive.{queued}
use ooplatingsistm.Scheduler.{finish_run}
use ooplatingsistm.ThreadOps.{Garbage, create, fork}
use ooplatingsistm.ThreadOps.Woken.{woken, v-Served, given-Served, woken-Served}
use ooplatingsistm.ThreadOps.Served.{
  null_first, found-Served, readied-Served, same-Served, AllServed, run-Served, sleep-Served,
}
use ooplatingsistm.Synch.{p, acquire, release}
use ooplatingsistm.ThreadOps.Frames.{entered}
use ooplatingsistm.Synch.LockServed.{acquire_wait-Served}
use ooplatingsistm.Synch.Served.{cpu-Served, p_wait-Served}

module _ {D : Type 0} where
  release-writes :
      ⦃irq : Interrupt D⦄ (k : Kernel D) (l : ℕ) (c : Lock)
      → get_elem? k.locks l ≡ some c
      → (t : Ptr)
      → Ensures
          (λ _ j.
            (stack_of j t ≡ stack_of k t)
            × (j.semaphores ≡ k.semaphores)
            × (j.locks ≡ set k.locks l (record c { held = 0; queue = (remove c.queue).1 }))
            × (j.ready_list ≡ woken (remove c.queue).0 k.ready_list))
          (release l k)
  unfolding release ready_unless_null ready_to_run
  release-writes k l c there t =
      let c' : Lock = record c { queue = (remove c.queue).1 } in
      let c'' : Lock = record c' { held = 0 } in
      ground (arith, there, get_elem?-set_self k.locks l c' there, set-set k.locks l c' c'')

  ready_to_run-writes :
      (i : Kernel D) (r t : Ptr)
      → Ensures
          (λ _ j.
            (stack_of j t ≡ stack_of i t)
            × (j.semaphores ≡ i.semaphores)
            × (j.locks ≡ i.locks)
            × (j.ready_list ≡ append i.ready_list r))
          (ready_to_run r i)
  unfolding ready_to_run
  ready_to_run-writes i r t = ground arith

module _ {D : Type 0} (s : Awaited) where
  -- Nothing that counts has changed.
  pub kept-Served :
      (k j : Kernel D)
      → Served s 0 k
      → SameStacks k j
      → supply s j ≡ supply s k
      → j.ready_list ≡ k.ready_list
      → AllServed s j
  kept-Served k j h stacks sems list = same-Served s 0 _ k j h stacks sems list (omega arith)

  more-Served : (e f : ℕ) (k : Kernel D) → Served s e k → e ≤ f → Served s f k
  more-Served e f k h le = same-Served s e f k k h (λ t. refl) refl refl le

  pub v-AllServed :
      ⦃irq : Interrupt D⦄ (m : ℕ) (k : Kernel D)
      → Served s 0 k
      → Ensures (λ _ j. AllServed s j) (v m k)
  v-AllServed m k h =
      Ensures-mono _ _ (v m k) (v-Served s 0 m k h) λ _ j h'. more-Served 0 _ j h' (omega arith)

  pub release-Served :
      ⦃irq : Interrupt D⦄ (l : ℕ) (k : Kernel D)
      → Served s 0 k
      → Ensures (λ _ j. AllServed s j) (release l k)
  unfolding release
  release-Served l k h = elim (Option-cases (get_elem? k.locks l)) [
    | inl missing ↦ rw missing tt
    | inr (c, there) ↦
        Ensures-mono _ _ (release l k) (Ensures-all _ (release l k) (release-writes k l c there))
          λ _ j w. elim (Bool-cases (in_loop_of s (acquire_loop l ∷ []))) [
            | inl mine ↦
                let e = own_lock s l mine in
                more-Served 0 _ j
                  (given-Served s 0 k j (lock_supply c) 1 h
                    (subst (λ s'. supply s' k ≡ some (lock_supply c)) (sym e)
                      (lock-supply k l c there))
                    (λ t. (w t).0)
                    (subst
                      (λ s'. supply s' j ≡ some (record { units = 1; queue = (remove c.queue).1 }))
                      (sym e) (set_lock-supply k j l c _ there (w null).2))
                    (omega arith) (w null).3)
                  (omega arith)
            | inr other ↦
                more-Served 0 _ j
                  (woken-Served s 0 k j (remove c.queue).0 h (λ t. (w t).0)
                    (other_lock-supply k j l s _ (w null).2 (w null).1 other) (w null).3)
                  (omega arith)
          ]
  ]

  module _ ⦃irq : Interrupt D⦄ (k : Kernel D) (h : Served s 0 k) (ne : k.current ≢ null)
      (alone : queued k.current k ≡ 0) where
    entered-Served : (e : ℕ) → Served s e (entered k)
    entered-Served e =
        cpu-Served s 0 e k (irq.set_level int_off k.device)
          (restore_level (irq.get_level k.device) ∷ k.cpu) h ne alone (omega arith)

    pub p-Served : (m : ℕ) → Ensures (λ _ j. AllServed s j) (p m k)
    unfolding p
    p-Served m = p_wait-Served s m (entered k) (entered-Served (retries s (p_loop m ∷ []))) ne alone

    pub finish-Served : Ensures (λ _ j. AllServed s j) (finish k.current k)
    unfolding finish
    finish-Served =
        rw (==_refl k.current)
          (sleep-Served s k.current _ (same-Served s 0 0 k _ h (λ t. refl) refl refl (omega arith)))

    pub yield_cpu-Served : Ensures (λ _ j. AllServed s j) (yield_cpu k.current k)
    unfolding yield_cpu
    yield_cpu-Served = rw (==_refl k.current) (elim (Bool-cases ((remove k.ready_list).0 == null)) [
      | inl nobody ↦ rw nobody (
          more-Served 0 _ _
            (found-Served s (entered k) 0 0 (entered-Served 0)
              (omega (arith, null_first s (entered k) 0 (entered-Served 0) nobody)))
            (omega arith))
      | inr another ↦ rw another (
          Ensures-bind _ _ (ready_to_run k.current found) (λ _. run n)
            (Ensures-mono _ _ (ready_to_run k.current found)
              (Ensures-all _ (ready_to_run k.current found) (ready_to_run-writes found k.current))
              λ _ j w. readied j w)
            λ _ j. run-Served s n j)
    ])
      where
        n : Ptr
        n = (remove k.ready_list).0

        found : Kernel D
        found = record (entered k) { ready_list = (remove k.ready_list).1 }

        readied :
            (j : Kernel D)
            → ((t : Ptr)
                → (stack_of j t ≡ stack_of found t)
                  × (j.semaphores ≡ found.semaphores)
                  × (j.locks ≡ found.locks)
                  × (j.ready_list ≡ append found.ready_list k.current))
            → Served s (retries s (stack_of j n)) j
        readied j w = rw (w n).0 (
            readied-Served s (retries s (stack_of found n)) found j k.current
              (found-Served s (entered k) 0 (retries s (stack_of found n)) (entered-Served 0)
                (omega arith))
              (λ t. (w t).0) (rw ((w null).1, (w null).2) refl) (w null).3)

  pub acquire-Served :
      ⦃irq : Interrupt D⦄ (k : Kernel D)
      → Served s 0 k
      → k.current ≢ null
      → queued k.current k ≡ 0
      → (l : ℕ) → Ensures (λ _ j. AllServed s j) (acquire l k)
  unfolding acquire
  acquire-Served k h ne alone l =
      acquire_wait-Served s l (entered k)
        (entered-Served k h ne alone (retries s (acquire_loop l ∷ []))) ne alone

module _ {D : Type 0} where
  -- `Fork` of a new thread, at an address that no thread has.
  pub create-fork-writes :
      ⦃irq : Interrupt D⦄ (g : Garbage) (e : Entries) (name : String) (func arg : ℕ) (k : Kernel D)
      (t : Ptr)
      → Ensures
          (λ _ j.
            (t ≢ k.next_addr → stack_of j t ≡ stack_of k t)
            × (j.semaphores ≡ k.semaphores)
            × (j.locks ≡ k.locks)
            × (j.ready_list ≡ append k.ready_list k.next_addr)
            × (j.current ≡ k.current))
          ((create g name >>= λ t. fork g e t func arg) k)
  unfolding create fork ready_to_run new_thread stack_allocate
  create-fork-writes g e name func arg k t = ground (arith, ==_refl k.next_addr)

  pub finish_run-writes :
      (k : Kernel D) (t : Ptr)
      → Ensures
          (λ _ j.
            ((t ≢ k.to_be_destroyed) ⊎ (t ≡ null) → stack_of j t ≡ stack_of k t)
            × (j.semaphores ≡ k.semaphores)
            × (j.locks ≡ k.locks)
            × (j.ready_list ≡ k.ready_list)
            × (j.current ≡ k.current))
          (finish_run k)
  unfolding finish_run
  finish_run-writes k t = ground arith
