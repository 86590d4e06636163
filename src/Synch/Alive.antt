-- ===== src/Synch/Alive.antt =====
-- `P`, `Acquire` and `Release` dereference only what exists.
use ooplatingsistm.Base.{
  ℕ, ◌<◌, ◌≤◌, ◌≡◌, ◌≢◌, refl, sym, ◌∙◌, subst, inl, inr, true, some, List, [], ◌∷◌, ◌==◌, arith,
  Option-cases, Bool-cases, length, count-append, get_elem?, set, get_elem?-none, length-set,
  total-at, total-set, get_elem?-set_self,
}
use ooplatingsistm.LinkedList.Heap.{Ptr, null}
use ooplatingsistm.Queue.{append, remove}
use ooplatingsistm.Program.{int_off, Frame, restore_level}
use ooplatingsistm.Kernel.{Kernel, Lock, Semaphore, Interrupt, crash}
use ooplatingsistm.Kernel.Outcomes.{Ensures, Survives, Survives-Ensures}
use ooplatingsistm.Kernel.Alive.{Sizes, fits, queued, CanRun, Dozing, Alive}
use ooplatingsistm.Scheduler.{ready_to_run}
use ooplatingsistm.Wake.{ready_unless_null}
use ooplatingsistm.Wake.Places.{sem_count}
use ooplatingsistm.ThreadOps.Alive.{count-remove_le, count-remove_ne, Roused}
use ooplatingsistm.Program.{restore_level, p_loop, acquire_loop}
use ooplatingsistm.ThreadOps.Survival.{HandlersFit, sleep-Alive}
use ooplatingsistm.Wake.{decrement}
use ooplatingsistm.ThreadOps.Alive.{Roused-all}
use ooplatingsistm.ThreadOps.Running.{fits-strip, cpu-fits, moved-Alive, cpu-Alive}
use ooplatingsistm.Synch.{p, p_wait, acquire, acquire_wait, release}
use ooplatingsistm.Synch.Places.{lock_count}

module _ {D : Type 0} (z : Sizes) where
  -- The current thread may be in a queue as well, with the frame `f` on top of its stack.
  queue-Dozing :
      (k : Kernel D) (f : Frame) (sems : List Semaphore) (lcks : List Lock)
      → Alive z k
      → fits z (f ∷ k.cpu) ≡ true
      → ((t : Ptr)
          → t ≢ k.current
          → queued t (record k { semaphores = sems; locks = lcks }) ≤ queued t k)
      → length sems ≡ length k.semaphores
      → length lcks ≡ length k.locks
      → Dozing z (record k { cpu = f ∷ k.cpu; semaphores = sems; locks = lcks })
  queue-Dozing k f sems lcks h fit le same_sems same_locks = record {
    queued_run = λ t p. elim (Bool-cases (t == k.current)) [
      | inl mine ↦ subst (CanRun z k') (sym (ground (arith, mine))) (runs k.current h.current_runs)
      | inr other ↦
          let ne : t ≢ k.current = ground (arith, other) in
          runs t (h.dozing.queued_run t (ground (arith, p, le t ne)))
    ];
    current_live = h.dozing.current_live;
    finished_live = h.dozing.finished_live;
    semaphores = same_sems ∙ h.dozing.semaphores;
    locks = same_locks ∙ h.dozing.locks;
    lists = h.dozing.lists;
    list_locks = h.dozing.list_locks;
  }
    where
      k' : Kernel D
      k' = record k { cpu = f ∷ k.cpu; semaphores = sems; locks = lcks }

      runs : (t : Ptr) → CanRun z k t → CanRun z k' t
      runs t c = record {
        exists = c.exists;
        live = c.live;
        stack_fits = ground (arith, c.stack_fits, fit, fits-strip z (f ∷ k.cpu));
      }

  module _ ⦃irq : Interrupt D⦄ (handlers : HandlersFit irq z) where
    pub p_wait-Alive :
        (s : ℕ) (k : Kernel D)
        → Alive z k
        → s < z.semaphores
        → Survives (λ _ j. Alive z j) (p_wait s k)
    unfolding p_wait
    p_wait-Alive s k h small = elim (Option-cases (get_elem? k.semaphores s)) [
      | inl missing ↦
          absurd (omega (arith, get_elem?-none k.semaphores s missing, h.dozing.semaphores))
      | inr (c, there) ↦
          let c' : Semaphore = record c { queue = append c.queue k.current } in
          let c'' : Semaphore = record c { value = decrement c.value } in
          rw there (elim (Bool-cases (c.value == 0)) [
            | inl zero_value ↦ rw zero_value (
                sleep-Alive z handlers
                  (record k { cpu = p_loop s ∷ k.cpu; semaphores = set k.semaphores s c' })
                  (queue-Dozing k (p_loop s) (set k.semaphores s c') k.locks h
                    (ground (arith, small, cpu-fits z k h))
                    (λ t ne. ground (
                      arith,
                      ne,
                      total-set (sem_count t) k.semaphores s c c' there,
                      count-append t c.queue (k.current ∷ []),
                    ))
                    (length-set k.semaphores s c') refl))
            | inr some_value ↦ rw some_value (
                moved-Alive z k _ h
                  (λ t. ground (arith, total-set (sem_count t) k.semaphores s c c'' there)) refl
                  refl refl (length-set k.semaphores s c'', refl, refl) h.dozing.list_locks
                  (cpu-fits z k h))
          ])
    ]

    pub acquire_wait-Alive :
        (l : ℕ) (k : Kernel D)
        → Alive z k
        → l < z.locks
        → Survives (λ _ j. Alive z j) (acquire_wait l k)
    unfolding acquire_wait
    acquire_wait-Alive l k h small = elim (Option-cases (get_elem? k.locks l)) [
      | inl missing ↦ absurd (omega (arith, get_elem?-none k.locks l missing, h.dozing.locks))
      | inr (c, there) ↦
          let c' : Lock = record c { queue = append c.queue k.current } in
          let c'' : Lock = record c { held = 1 } in
          rw there (elim (Bool-cases (c.held == 0)) [
            | inl free ↦ rw free (
                moved-Alive z k _ h
                  (λ t. ground (arith, total-set (lock_count t) k.locks l c c'' there)) refl refl
                  refl (refl, length-set k.locks l c'', refl) h.dozing.list_locks (cpu-fits z k h))
            | inr busy ↦ rw busy (
                sleep-Alive z handlers
                  (record k { cpu = acquire_loop l ∷ k.cpu; locks = set k.locks l c' })
                  (queue-Dozing k (acquire_loop l) k.semaphores (set k.locks l c') h
                    (ground (arith, small, cpu-fits z k h))
                    (λ t ne. ground (
                      arith,
                      ne,
                      total-set (lock_count t) k.locks l c c' there,
                      count-append t c.queue (k.current ∷ []),
                    ))
                    refl (length-set k.locks l c')))
          ])
    ]

    pub p-Alive :
        (s : ℕ) (k : Kernel D) → Alive z k → s < z.semaphores → Survives (λ _ j. Alive z j) (p s k)
    unfolding p
    p-Alive s k h = p_wait-Alive s _ (
        cpu-Alive z k (irq.set_level int_off k.device)
          (restore_level (irq.get_level k.device) ∷ k.cpu) h (cpu-fits z k h))

    pub acquire-Alive :
        (l : ℕ) (k : Kernel D) → Alive z k → l < z.locks → Survives (λ _ j. Alive z j) (acquire l k)
    unfolding acquire
    acquire-Alive l k h = acquire_wait-Alive l _ (
        cpu-Alive z k (irq.set_level int_off k.device)
          (restore_level (irq.get_level k.device) ∷ k.cpu) h (cpu-fits z k h))

release-Roused :
    {D : Type 0} ⦃irq : Interrupt D⦄ (k : Kernel D) (l : ℕ)
    → Ensures (λ _ j. Roused k j) (release l k)
unfolding release ready_unless_null ready_to_run
release-Roused k l = elim (Option-cases (get_elem? k.locks l)) [
  | inl missing ↦ rw missing tt
  | inr (c, there) ↦
      let c' : Lock = record c { queue = (remove c.queue).1 } in
      let c'' : Lock = record c' { held = 0 } in
      let there' = get_elem?-set_self k.locks l c' there in
      Roused-all k (release l k) λ t. rw there (
        ground (
          arith,
          there',
          length-set k.locks l c',
          length-set (set k.locks l c') l c'',
          total-set (lock_count t) k.locks l c c' there,
          total-set (lock_count t) (set k.locks l c') l c' c'' there',
          count-remove_le t c.queue,
          count-remove_ne t c.queue,
          count-append t k.ready_list ((remove c.queue).0 ∷ []),
        ))
]

module _ {D : Type 0} (z : Sizes) ⦃irq : Interrupt D⦄ where
  pub release-Survives :
      (k : Kernel D) (l : ℕ) → Dozing z k → l < z.locks → Survives (λ _ j. Roused k j) (release l k)
  unfolding release ready_unless_null ready_to_run
  release-Survives k l h small = Survives-Ensures _ (release l k) there_all (release-Roused k l)
    where
      first_runs :
          (c : Lock)
          → get_elem? k.locks l ≡ some c
          → (remove c.queue).0 ≢ null
          → CanRun z k (remove c.queue).0
      first_runs c there ne = h.queued_run (remove c.queue).0 (
          ground (
            arith,
            total-at (lock_count (remove c.queue).0) k.locks l c there,
            count-remove_ne (remove c.queue).0 c.queue,
          ))

      there_all : release l k ≢ crash
      there_all = elim (Option-cases (get_elem? k.locks l)) [
        | inl missing ↦ ground (arith, get_elem?-none k.locks l missing, h.locks)
        | inr (c, there) ↦ rw there (λ e. ground (
          arith,
          e,
          get_elem?-set_self k.locks l (record c { queue = (remove c.queue).1 }) there,
          first_runs c there,
        ))
      ]
