-- ===== src/ThreadOps/Frames.antt =====
-- `Run`, `Sleep` and `V` find what they assert, and keep the shape of the stacks.
use ooplatingsistm.Base.{
  ℕ, zero, suc, ◌≡◌, refl, sym, ◌∙◌, subst, inl, inr, List, [], ◌∷◌, ◌==◌, ==_refl, arith,
  Option-cases, Bool-cases, get_elem?, set,
}
use ooplatingsistm.LinkedList.Heap.{Ptr, null}
use ooplatingsistm.Queue.{remove}
use ooplatingsistm.Program.{int_off, restore_level}
use ooplatingsistm.Thread.{ThreadStatus, ready, blocked}
use ooplatingsistm.Kernel.{Kernel, Semaphore, Interrupt}
use ooplatingsistm.Kernel.Outcomes.{Avoids, Avoids-bind, Avoids-mono}
use ooplatingsistm.Kernel.Frames.{User, Framed, AllKept, Suspended, Inside}
use ooplatingsistm.Scheduler.{find_next_to_run, ready_to_run, run, change_status}
use ooplatingsistm.Wake.{v, ready_unless_null}
use ooplatingsistm.ThreadOps.{signal_all, idle, next_or_idle, sleep}

module _ {D : Type 0} ⦃irq : Interrupt D⦄ where
  -- What a wakeup leaves alone.
  pub record Kept (k j : Kernel D) : Type 0 where
    pub kept : AllKept j
    pub cpu : j.cpu ≡ k.cpu
    pub level : irq.get_level j.device ≡ irq.get_level k.device

  pub change_status-Kept :
      (r : Ptr) (st : ThreadStatus) (k : Kernel D)
      → AllKept k
      → Avoids (λ _ j. Kept k j) (change_status r st k)
  unfolding change_status
  change_status-Kept r st k h = elim (Option-cases (k.thread r)) [
    | inl gone ↦ rw gone tt
    | inr (c, there) ↦
        rw there (record { kept = λ t. ground (arith, h t, h r); cpu = refl; level = refl })
  ]

  pub ready_to_run-Kept :
      (r : Ptr) (k : Kernel D) → AllKept k → Avoids (λ _ j. Kept k j) (ready_to_run r k)
  unfolding ready_to_run
  ready_to_run-Kept r k h =
      Avoids-bind (λ _ j. Kept k j) _ (change_status r ready k) _ (change_status-Kept r ready k h)
        λ _ j a. record { kept = a.kept; cpu = a.cpu; level = a.level }

  pub ready_unless_null-Kept :
      (r : Ptr) (k : Kernel D) → AllKept k → Avoids (λ _ j. Kept k j) (ready_unless_null r k)
  unfolding ready_unless_null
  ready_unless_null-Kept r k h = elim (Bool-cases (r == null)) [
    | inl none_waits ↦ rw none_waits (record { kept = h; cpu = refl; level = refl })
    | inr waits ↦ rw waits (ready_to_run-Kept r k h)
  ]

  pub v-Kept : (s : ℕ) (k : Kernel D) → AllKept k → Avoids (λ _ j. Kept k j) (v s k)
  unfolding v
  v-Kept s k h = elim (Option-cases (get_elem? k.semaphores s)) [
    | inl missing ↦ rw missing tt
    | inr (c, there) ↦ rw there (
        Avoids-bind _ _ (ready_unless_null (remove c.queue).0 (wake c)) _
          (ready_unless_null-Kept (remove c.queue).0 (wake c) h)
          λ _ j a. elim (Option-cases (get_elem? j.semaphores s)) [
            | inl lost ↦ rw lost tt
            | inr (d, there') ↦ rw there' (record {
              kept = a.kept;
              cpu = a.cpu;
              level = irq.get_level-set_level (irq.get_level k.device) j.device;
            })
          ])
  ]
    where
      wake : Semaphore → Kernel D
      wake c = record k {
        device = irq.set_level int_off k.device;
        semaphores = set k.semaphores s (record c { queue = (remove c.queue).1 });
      }

  pub run-Inside : (n : Ptr) (k : Kernel D) → Inside k → Avoids (λ _ j. Inside j) (run n k)
  unfolding run
  run-Inside n k h = elim (Option-cases (k.thread k.current)) [
    | inl gone ↦ rw gone tt
    | inr (c, here) ↦ rw here (elim (Option-cases (k.thread n)) [
      | inl gone ↦ ground (arith, h.kept k.current)
      | inr (d, there) ↦ ground (arith, h.kept k.current, h.kept n, h.kept)
    ])
  ]

  v-Inside : (s : ℕ) (k : Kernel D) → Inside k → Avoids (λ _ j. Inside j) (v s k)
  v-Inside s k h = Avoids-mono _ _ (v s k) (v-Kept s k h.kept) λ _ j a. record {
    kept = a.kept;
    suspended = subst Suspended (sym a.cpu) h.suspended;
    off = a.level ∙ h.off;
  }

  signal_all-Inside :
      (ss : List ℕ) (k : Kernel D) → Inside k → Avoids (λ _ j. Inside j) (signal_all ss k)
  unfolding signal_all
  signal_all-Inside [] k h = h
  signal_all-Inside (s ∷ ss) k h =
      Avoids-bind (λ _ j. Inside j) _ (v s k) (λ _. signal_all ss) (v-Inside s k h)
        λ _ i. signal_all-Inside ss i

  idle-Inside : (k : Kernel D) → Inside k → Avoids (λ _ j. Inside j) (idle k)
  unfolding idle
  idle-Inside k h = elim (Option-cases (irq.idle k.device)) [
    | inl stop ↦ rw (stop, idle) tt
    | inr ((d, ss), more) ↦
        rw (more, idle)
          (signal_all-Inside ss (record k { device = d })
            (record {
              kept = h.kept;
              suspended = h.suspended;
              off = irq.get_level-idle k.device more ∙ h.off;
            }))
  ]

  next_or_idle-Inside :
      (n : ℕ) (k : Kernel D) → Inside k → Avoids (λ _ j. Inside j) (next_or_idle n k)
  unfolding next_or_idle find_next_to_run
  next_or_idle-Inside zero k h = tt
  next_or_idle-Inside (suc n) k h = elim (Bool-cases ((remove k.ready_list).0 == null)) [
    | inl nobody ↦ rw nobody (
        Avoids-bind (λ _ j. Inside j) _ (idle k') (λ _. next_or_idle n) (idle-Inside k' h')
          λ _ i. next_or_idle-Inside n i)
    | inr somebody ↦ rw somebody h'
  ]
    where
      k' : Kernel D
      k' = record k { ready_list = (remove k.ready_list).1 }

      h' : Inside k'
      h' = record { kept = h.kept; suspended = h.suspended; off = h.off }

  -- The current thread may sleep wherever interrupts are off.
  pub sleep-Inside : (k : Kernel D) → Inside k → Avoids (λ _ j. Inside j) (sleep k.current k)
  unfolding sleep
  sleep-Inside k h =
      rw (==_refl k.current, h.off)
        (Avoids-bind _ _ (change_status k.current blocked k) _
          (change_status-Kept k.current blocked k h.kept)
          λ _ i a.
            Avoids-bind (λ _ j. Inside j) _ (next_or_idle irq.patience i) run
              (next_or_idle-Inside irq.patience i (record {
                kept = a.kept;
                suspended = subst Suspended (sym a.cpu) h.suspended;
                off = a.level ∙ h.off;
              }))
              run-Inside)

  pub Inside-Framed : (k : Kernel D) → Inside k → Framed k
  Inside-Framed k h = record { kept = h.kept; suspended = h.suspended; masked = inr h.off }

  -- The kernel behind `IntStatus oldLevel = interrupt->SetLevel(IntOff);`, called by user code.
  abbrev pub entered : Kernel D → Kernel D
  entered k = record k {
    device = irq.set_level int_off k.device;
    cpu = restore_level (irq.get_level k.device) ∷ k.cpu;
  }

  pub entered-Inside : (k : Kernel D) → AllKept k → User k.cpu → Inside (entered k)
  entered-Inside k h u = record {
    kept = h;
    suspended = u;
    off = irq.get_level-set_level int_off k.device;
  }
