-- ===== src/Synch/Sections.antt =====
-- `Acquire` and `Release` keep mutual exclusion.
use ooplatingsistm.Base.{
  ℕ, refl, inl, inr, [], ◌∷◌, ◌==◌, arith, Option-cases, Bool-cases, get_elem?, set, set-set,
  get_elem?-set_self,
}
use ooplatingsistm.Queue.{append, remove}
use ooplatingsistm.Program.{
  int_off, body, call_release, call_acquire, acquire_loop, restore_level, p_loop,
}
use ooplatingsistm.Kernel.{Kernel, Lock, Interrupt}
use ooplatingsistm.Kernel.Outcomes.{Ensures, Ensures-mono}
use ooplatingsistm.Scheduler.{ready_to_run}
use ooplatingsistm.Wake.{ready_unless_null}
use ooplatingsistm.ThreadOps.{sleep}
use ooplatingsistm.ThreadOps.Stacks.{Quiet, Quiet-all, sleep-Quiet, pushed}
use ooplatingsistm.Synch.{p_wait, acquire, acquire_wait, release}
use ooplatingsistm.Synch.Exclusion.{
  Exclusive, Exclusive-mono, Exclusive-cpu, Exclusive-take, Exclusive-drop, Exclusive-queue,
  cpu-brackets,
}

module _ (lock_of : ℕ → ℕ) (l : ℕ) {D : Type 0} ⦃irq : Interrupt D⦄ where
  pub Quiet-Exclusive : (k j : Kernel D) → Exclusive lock_of l k → Quiet k j → Exclusive lock_of l j
  Quiet-Exclusive k j h q =
      Exclusive-mono lock_of l k j h (λ t. inl (q.stacks t)) q.locks q.synch_lists

  -- The thread is about to test the lock.
  pub acquire_wait-Exclusive :
      (m : ℕ) (k : Kernel D)
      → Exclusive lock_of l (pushed k (acquire_loop m ∷ []))
      → Ensures (λ _ j. Exclusive lock_of l j) (acquire_wait m k)
  unfolding acquire_wait
  acquire_wait-Exclusive m k h = elim (Option-cases (get_elem? k.locks m)) [
    | inl missing ↦ rw missing tt
    | inr (c, there) ↦ rw there (elim (Bool-cases (c.held == 0)) [
      | inl free ↦ rw free (
          Exclusive-take lock_of l k0 k.cpu m c h there (ground arith) (λ other. ground arith)
            (ground (arith, cpu-brackets lock_of l k0 h)))
      | inr taken ↦ rw taken (
          let c' : Lock = record c { queue = append c.queue k.current } in
          let k' : Kernel D = record k0 { locks = set k.locks m c' } in
          Ensures-mono _ _ (sleep k.current k') (sleep-Quiet k' k.current)
            λ _ j. Quiet-Exclusive k' j (Exclusive-queue lock_of l k0 m c c' h there refl))
    ])
  ]
    where
      k0 : Kernel D
      k0 = pushed k (acquire_loop m ∷ [])

  -- The thread is about to release the lock.
  pub release-Exclusive :
      (m : ℕ) (k : Kernel D)
      → Exclusive lock_of l (pushed k (body (call_release m ∷ []) ∷ []))
      → Ensures (λ _ j. Exclusive lock_of l j) (release m k)
  unfolding release ready_unless_null ready_to_run
  release-Exclusive m k h = elim (Option-cases (get_elem? k.locks m)) [
    | inl missing ↦ rw missing tt
    | inr (c, there) ↦
        let c' : Lock = record c { queue = (remove c.queue).1 } in
        let c'' : Lock = record c' { held = 0 } in
        let k'' : Kernel D = record k { locks = set k.locks m c'' } in
        let dropped : Exclusive lock_of l k'' =
          Exclusive-drop lock_of l k0 k.cpu m c c'' h there (λ e. ground (arith, e))
            (ground (arith, cpu-brackets lock_of l k0 h))
            (ground (arith, cpu-brackets lock_of l k0 h)) in
        Ensures-mono _ _ (release m k)
          (Quiet-all k'' (release m k) λ t.
            rw there
              (ground (arith, get_elem?-set_self k.locks m c' there, set-set k.locks m c' c'')))
          λ _ j. Quiet-Exclusive k'' j dropped
  ]
    where
      k0 : Kernel D
      k0 = pushed k (body (call_release m ∷ []) ∷ [])

  pub acquire-Exclusive :
      (m : ℕ) (k : Kernel D)
      → Exclusive lock_of l (pushed k (body (call_acquire m ∷ []) ∷ []))
      → Ensures (λ _ j. Exclusive lock_of l j) (acquire m k)
  unfolding acquire
  acquire-Exclusive m k h = acquire_wait-Exclusive m k' (
      Exclusive-cpu lock_of l k0 (irq.set_level int_off k.device) (acquire_loop m ∷ k'.cpu) h
        (ground arith) (ground (arith, cpu-brackets lock_of l k0 h)))
    where
      k0 : Kernel D
      k0 = pushed k (body (call_acquire m ∷ []) ∷ [])

      k' : Kernel D
      k' = record k {
        device = irq.set_level int_off k.device;
        cpu = restore_level (irq.get_level k.device) ∷ k.cpu;
      }

  pub p_wait-Exclusive :
      (s : ℕ) (k : Kernel D)
      → Exclusive lock_of l k
      → Ensures (λ _ j. Exclusive lock_of l j) (p_wait s k)
  unfolding p_wait
  p_wait-Exclusive s k h = elim (Option-cases (get_elem? k.semaphores s)) [
    | inl missing ↦ rw missing tt
    | inr (c, there) ↦ rw there (elim (Bool-cases (c.value == 0)) [
      | inl zero_value ↦ rw zero_value (
          let waits : Kernel D = pushed k (p_loop s ∷ []) in
          let k' : Kernel D = record waits {
            semaphores = set k.semaphores s (record c { queue = append c.queue k.current });
          } in
          Ensures-mono _ _ (sleep k.current k') (sleep-Quiet k' k.current) λ _ j.
            Quiet-Exclusive k' j (
              Exclusive-mono lock_of l waits k'
                (Exclusive-cpu lock_of l k k.device (p_loop s ∷ k.cpu) h refl
                  (cpu-brackets lock_of l k h))
                (λ t. inl refl) refl refl))
      | inr some_value ↦ rw some_value (Exclusive-mono lock_of l k _ h (λ t. inl refl) refl refl)
    ])
  ]
