-- ===== src/ThreadOps/Alive.antt =====
-- Waking and dispatching dereference only threads that exist.
use ooplatingsistm.Base.{
  ℕ, ◌+◌, ◌<◌, ◌≤◌, ◌≡◌, ◌≢◌, refl, sym, ap, ◌∙◌, subst, inl, inr, true, some, [], ◌∷◌, arith,
  Option-cases, length, count, count-append, same, get_elem?, set, get_elem?-none, length-set,
  total-at, total-set, get_elem?-set_self,
}
use ooplatingsistm.LinkedList.Heap.{Ptr, null}
use ooplatingsistm.Queue.{Queue, remove}
use ooplatingsistm.Thread.{ThreadStatus}
use ooplatingsistm.Kernel.{Kernel, Outcome, Semaphore, Interrupt, crash}
use ooplatingsistm.Kernel.Outcomes.{
  Ensures, Ensures-mono, Ensures-all, Survives, Survives-mono, Survives-Ensures,
}
use ooplatingsistm.Kernel.Stacks.{stack_of, SameStacks}
use ooplatingsistm.Kernel.Alive.{Sizes, is_live, queued, CanRun, Dozing, Alive}
use ooplatingsistm.Scheduler.{ready_to_run, change_status}
use ooplatingsistm.Wake.{v, ready_unless_null, increment}
use ooplatingsistm.Wake.Places.{sem_count}

pub count-remove_le : (t : Ptr) (q : Queue) → count t (remove q).1 ≤ count t q
count-remove_le t [] = omega arith
count-remove_le t (r ∷ q) = omega arith

pub count-remove_ne :
    (t : Ptr) (q : Queue)
    → (remove q).0 ≢ null
    → count t (remove q).1 + same (remove q).0 t ≡ count t q
count-remove_ne t [] ne = absurd (ne refl)
count-remove_ne t (r ∷ q) ne = omega arith

module _ {D : Type 0} where
  -- What a wakeup does to the threads and to the tables.
  pub record Roused (k j : Kernel D) : Type 0 where
    pub stacks : SameStacks k j
    pub live : (t : Ptr) → is_live (k.thread t) ≡ true → is_live (j.thread t) ≡ true
    pub queued_le : (t : Ptr) → queued t j ≤ queued t k
    pub current : j.current ≡ k.current
    pub to_be_destroyed : j.to_be_destroyed ≡ k.to_be_destroyed
    pub semaphores : length j.semaphores ≡ length k.semaphores
    pub locks : length j.locks ≡ length k.locks
    pub synch_lists : j.synch_lists ≡ k.synch_lists

  pub Roused-all :
      (k : Kernel D) (m : Outcome D (Unit {0}))
      → ((t : Ptr)
          → Ensures
              (λ _ j.
                (stack_of j t ≡ stack_of k t)
                × (is_live (k.thread t) ≡ true → is_live (j.thread t) ≡ true)
                × (queued t j ≤ queued t k)
                × (j.current ≡ k.current)
                × (j.to_be_destroyed ≡ k.to_be_destroyed)
                × (length j.semaphores ≡ length k.semaphores)
                × (length j.locks ≡ length k.locks)
                × (j.synch_lists ≡ k.synch_lists))
              m)
      → Ensures (λ _ j. Roused k j) m
  Roused-all k m p = Ensures-mono _ _ m (Ensures-all _ m p) λ _ j q. record {
    stacks = λ t. (q t).0;
    live = λ t. (q t).1;
    queued_le = λ t. (q t).2;
    current = (q null).3;
    to_be_destroyed = (q null).4;
    semaphores = (q null).5;
    locks = (q null).6;
    synch_lists = (q null).7;
  }

  pub change_status-Roused :
      (k : Kernel D) (r : Ptr) (st : ThreadStatus)
      → Ensures (λ _ j. Roused k j) (change_status r st k)
  unfolding change_status
  change_status-Roused k r st = Roused-all k (change_status r st k) λ t. ground arith

  pub v-Roused : ⦃irq : Interrupt D⦄ (k : Kernel D) (s : ℕ) → Ensures (λ _ j. Roused k j) (v s k)
  unfolding v ready_unless_null ready_to_run
  v-Roused k s = elim (Option-cases (get_elem? k.semaphores s)) [
    | inl missing ↦ rw missing tt
    | inr (c, there) ↦
        let c' : Semaphore = record c { queue = (remove c.queue).1 } in
        let c'' : Semaphore = record c' { value = increment c'.value } in
        let there' = get_elem?-set_self k.semaphores s c' there in
        Roused-all k (v s k) λ t. rw there (
          ground (
            arith,
            there',
            length-set k.semaphores s c',
            length-set (set k.semaphores s c') s c'',
            total-set (sem_count t) k.semaphores s c c' there,
            total-set (sem_count t) (set k.semaphores s c') s c' c'' there',
            count-remove_le t c.queue,
            count-remove_ne t c.queue,
            count-append t k.ready_list ((remove c.queue).0 ∷ []),
          ))
  ]

module _ {D : Type 0} (z : Sizes) where
  pub Roused-CanRun : (k j : Kernel D) (t : Ptr) → Roused k j → CanRun z k t → CanRun z j t
  Roused-CanRun k j t r h = record {
    exists = h.exists;
    live = r.live t h.live;
    stack_fits = rw (r.stacks t) h.stack_fits;
  }

  pub Roused-Dozing : (k j : Kernel D) → Roused k j → Dozing z k → Dozing z j
  Roused-Dozing k j r h = record {
    queued_run =
        λ t some_place. Roused-CanRun k j t r (h.queued_run t (ground (arith, r.queued_le t)));
    current_live = rw r.current (r.live k.current h.current_live);
    finished_live = rw r.to_be_destroyed (λ ne. r.live k.to_be_destroyed (h.finished_live ne));
    semaphores = r.semaphores ∙ h.semaphores;
    locks = r.locks ∙ h.locks;
    lists = ap length r.synch_lists ∙ h.lists;
    list_locks = λ i c e. h.list_locks i c (ap (λ ls. get_elem? ls i) (sym r.synch_lists) ∙ e);
  }

  pub change_status-Dozing :
      (k : Kernel D) (r : Ptr) (st : ThreadStatus)
      → Dozing z k
      → is_live (k.thread r) ≡ true
      → Survives (λ _ j. Dozing z j) (change_status r st k)
  unfolding change_status
  change_status-Dozing k r st h live =
      Survives-Ensures _ (change_status r st k) (λ e. ground arith)
        (Ensures-mono _ _ (change_status r st k) (change_status-Roused k r st)
          λ _ j q. Roused-Dozing k j q h)

  -- The first thread of a semaphore's queue can run.
  first-CanRun :
      (k : Kernel D) (s : ℕ) (c : Semaphore)
      → Dozing z k
      → get_elem? k.semaphores s ≡ some c
      → (remove c.queue).0 ≢ null
      → CanRun z k (remove c.queue).0
  first-CanRun k s c h there ne = h.queued_run (remove c.queue).0 (
      ground (
        arith,
        total-at (sem_count (remove c.queue).0) k.semaphores s c there,
        count-remove_ne (remove c.queue).0 c.queue,
      ))

  module _ ⦃irq : Interrupt D⦄ where
    pub v-Survives :
        (k : Kernel D) (s : ℕ)
        → Dozing z k
        → s < z.semaphores
        → Survives (λ _ j. Roused k j) (v s k)
    unfolding v ready_unless_null ready_to_run
    v-Survives k s h small = Survives-Ensures _ (v s k) there_all (v-Roused k s)
      where
        there_all : v s k ≢ crash
        there_all = elim (Option-cases (get_elem? k.semaphores s)) [
          | inl missing ↦ ground (arith, get_elem?-none k.semaphores s missing, h.semaphores)
          | inr (c, there) ↦ rw there (λ e. ground (
            arith,
            e,
            get_elem?-set_self k.semaphores s (record c { queue = (remove c.queue).1 }) there,
            first-CanRun k s c h there,
          ))
        ]

    pub v-Dozing :
        (k : Kernel D) (s : ℕ)
        → Dozing z k
        → s < z.semaphores
        → Survives (λ _ j. Dozing z j) (v s k)
    v-Dozing k s h small =
        Survives-mono _ _ (v s k) (v-Survives k s h small) λ _ j q. Roused-Dozing k j q h

  pub Roused-Alive : (k j : Kernel D) → Roused k j → Alive z k → Alive z j
  Roused-Alive k j q h = record {
    dozing = Roused-Dozing k j q h.dozing;
    current_runs =
        subst (CanRun z j) (sym q.current) (Roused-CanRun k j k.current q h.current_runs);
  }
