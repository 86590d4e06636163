-- ===== src/ThreadOps/Statuses.antt =====
-- What waking, dispatching and leaving do to statuses.
use ooplatingsistm.Base.{
  ℕ, zero, suc, ◌+◌, ◌≤◌, ◌≡◌, ◌≢◌, inl, inr, List, [], ◌∷◌, ◌==◌, ==_refl, arith, Option-cases,
  Bool-cases, same, count, count-append, total-set, get_elem?, set, get_elem?-set_self,
}
use ooplatingsistm.LinkedList.Heap.{Ptr, null}
use ooplatingsistm.Queue.{remove}
use ooplatingsistm.Program.{int_off, restore_level}
use ooplatingsistm.Thread.{blocked}
use ooplatingsistm.Kernel.{Kernel, Semaphore, Interrupt}
use ooplatingsistm.Kernel.Outcomes.{Ensures, Ensures-bind}
use ooplatingsistm.Kernel.Statuses.{filed, Placed, Filed, Agrees}
use ooplatingsistm.Scheduler.{
  ready_to_run, run, change_status, find_next_to_run, finish_run, destroy,
}
use ooplatingsistm.Wake.{v, ready_unless_null, increment}
use ooplatingsistm.Wake.Places.{sem_count, count-remove}
use ooplatingsistm.ThreadOps.{sleep, signal_all, idle, next_or_idle, is_off, yield_cpu, finish}

module _ {D : Type 0} (t : Ptr) (ne : t ≢ null) where
  pub run-Agrees :
      (n : Ptr) (k : Kernel D)
      → (n ≢ t → Filed t k)
      → (n ≡ t → filed t k ≡ 0)
      → Ensures (λ _ j. Agrees t j) (run n k)
  unfolding run
  run-Agrees n k h gone = elim (Bool-cases (n == t)) [
    | inl mine ↦ ground (arith, mine, gone)
    | inr other ↦ ground (arith, other, h)
  ]

  ready_to_run-filed :
      (k : Kernel D)
      → Ensures (λ _ j. filed t j ≡ filed t k + same k.current t) (ready_to_run k.current k)
  unfolding ready_to_run
  ready_to_run-filed k = ground (arith, count-append t k.ready_list (k.current ∷ []))

  ready_to_run-Filed :
      (k : Kernel D) → Agrees t k → Ensures (λ _ j. Filed t j) (ready_to_run k.current k)
  unfolding ready_to_run
  ready_to_run-Filed k h = ground (arith, h, count-append t k.ready_list (k.current ∷ []))

  module _ ⦃irq : Interrupt D⦄ where
    pub v-Agrees :
        (s : ℕ) (k : Kernel D)
        → Placed t k
        → Ensures (λ _ j. (Filed t k → Filed t j) × (Agrees t k → Agrees t j)) (v s k)
    unfolding v ready_unless_null ready_to_run
    v-Agrees s k h = elim (Option-cases (get_elem? k.semaphores s)) [
      | inl missing ↦ rw missing tt
      | inr (c, there) ↦
          let c' : Semaphore = record c { queue = (remove c.queue).1 } in
          let c'' : Semaphore = record c' { value = increment c'.value } in
          let there' = get_elem?-set_self k.semaphores s c' there in
          rw there (
            ground (
              arith,
              h,
              there',
              total-set (sem_count t) k.semaphores s c c' there,
              total-set (sem_count t) (set k.semaphores s c') s c' c'' there',
              count-remove c.queue ne,
              count-append t k.ready_list ((remove c.queue).0 ∷ []),
            ))
    ]

    signal_all-Filed :
        (ss : List ℕ) (k : Kernel D) → Filed t k → Ensures (λ _ j. Filed t j) (signal_all ss k)
    unfolding signal_all
    signal_all-Filed [] k h = h
    signal_all-Filed (s ∷ ss) k h =
        Ensures-bind _ _ (v s k) (λ _. signal_all ss) (v-Agrees s k h.0)
          λ _ i (q, _). signal_all-Filed ss i (q h)

    idle-Filed : (k : Kernel D) → Filed t k → Ensures (λ _ j. Filed t j) (idle k)
    unfolding idle
    idle-Filed k h = elim (Option-cases (irq.idle k.device)) [
      | inl stop ↦ rw (stop, idle) tt
      | inr ((d, ss), more) ↦ rw (more, idle) (signal_all-Filed ss (record k { device = d }) h)
    ]

    next_or_idle-Filed :
        (n : ℕ) (k : Kernel D)
        → Filed t k
        → Ensures (λ r j. (r ≢ t → Filed t j) × (r ≡ t → filed t j ≡ 0)) (next_or_idle n k)
    unfolding next_or_idle find_next_to_run
    next_or_idle-Filed zero k h = tt
    next_or_idle-Filed (suc n) k h =
        let found : Kernel D = record k { ready_list = (remove k.ready_list).1 } in
        let h' : ((remove k.ready_list).0 ≢ t → Filed t found)
            × ((remove k.ready_list).0 ≡ t → filed t found ≡ 0) =
          ground (arith, h, count-remove k.ready_list ne) in
        elim (Bool-cases ((remove k.ready_list).0 == null)) [
          | inl nobody ↦ rw nobody (
              Ensures-bind _ _ (idle found) (λ _. next_or_idle n)
                (idle-Filed found (h'.0 (ground (arith, nobody, ne))))
                λ _ i. next_or_idle-Filed n i)
          | inr somebody ↦ rw somebody h'
        ]

    -- The current thread is in one place at most, but not ready.
    pub sleep-Agrees :
        (k : Kernel D)
        → (k.current ≢ t → Filed t k)
        → (k.current ≡ t → (count t k.ready_list ≡ 0) × (filed t k ≤ 1))
        → Ensures (λ _ j. Agrees t j) (sleep k.current k)
    unfolding sleep change_status
    sleep-Agrees k others mine = elim (Bool-cases (is_off (irq.get_level k.device))) [
      | inr on ↦ rw (==_refl k.current, on) tt
      | inl off ↦
          rw (==_refl k.current, off)
            (Ensures-bind (λ _ j. Filed t j) _ (change_status k.current blocked k) _ asleep
              λ _ i h.
                Ensures-bind _ _ (next_or_idle irq.patience i) run
                  (next_or_idle-Filed irq.patience i h) λ n j (f, gone). run-Agrees n j f gone)
    ]
      where
        asleep : Ensures (λ _ j. Filed t j) (change_status k.current blocked k)
        asleep = ground (arith, others, mine)

    pub finish-Agrees :
        (k : Kernel D) → Agrees t k → Ensures (λ _ j. Agrees t j) (finish k.current k)
    unfolding finish
    finish-Agrees k h = rw (==_refl k.current) (
        sleep-Agrees
          (record k { device = irq.set_level int_off k.device; to_be_destroyed = k.current })
          (λ other. ground (arith, h, other)) (λ mine. ground (arith, h, mine)))

    pub yield_cpu-Agrees :
        (k : Kernel D) → Agrees t k → Ensures (λ _ j. Agrees t j) (yield_cpu k.current k)
    unfolding yield_cpu find_next_to_run
    yield_cpu-Agrees k h =
        let found : Kernel D = record k {
          device = irq.set_level int_off k.device;
          cpu = restore_level (irq.get_level k.device) ∷ k.cpu;
          ready_list = (remove k.ready_list).1;
        } in
        let h' : ((remove k.ready_list).0 ≢ t → Agrees t found)
            × ((remove k.ready_list).0 ≡ t → (filed t found ≡ 0) × (k.current ≢ t)) =
          ground (arith, h, count-remove k.ready_list ne) in
        rw (==_refl k.current) (elim (Bool-cases ((remove k.ready_list).0 == null)) [
          | inl alone ↦ rw alone (h'.0 (ground (arith, alone, ne)))
          | inr another ↦ rw another (elim (Bool-cases ((remove k.ready_list).0 == t)) [
            | inl mine ↦
                let e : (remove k.ready_list).0 ≡ t = ground (arith, mine) in
                Ensures-bind _ _ (ready_to_run k.current found) (λ _. run (remove k.ready_list).0)
                  (ready_to_run-filed found)
                  λ _ j same_count.
                    run-Agrees (remove k.ready_list).0 j (λ other. absurd (other e))
                      λ _. ground (arith, same_count, h'.1 e)
            | inr other ↦
                let e : (remove k.ready_list).0 ≢ t = ground (arith, other) in
                Ensures-bind _ _ (ready_to_run k.current found) (λ _. run (remove k.ready_list).0)
                  (ready_to_run-Filed found (h'.0 e))
                  λ _ j f. run-Agrees (remove k.ready_list).0 j (λ _. f) λ mine. absurd (e mine)
          ])
        ])

  pub finish_run-Agrees : (k : Kernel D) → Agrees t k → Ensures (λ _ j. Agrees t j) (finish_run k)
  unfolding finish_run destroy
  finish_run-Agrees k h = ground (arith, h)
