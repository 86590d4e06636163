-- ===== src/ThreadOps/Served.antt =====
-- No dispatching loses a unit of a semaphore, or a free lock.
use ooplatingsistm.Base.{
  ℕ, zero, suc, ◌+◌, ◌≤◌, ◌≡◌, sym, ap, subst, inl, inr, true, List, [], ◌∷◌, ◌==◌, arith,
  Option-cases, Bool-cases, total, total-append, total-ext,
}
use ooplatingsistm.LinkedList.Heap.{Ptr, null}
use ooplatingsistm.Queue.{Queue, append, remove}
use ooplatingsistm.Thread.{ThreadStatus, blocked}
use ooplatingsistm.Kernel.{Kernel, Interrupt}
use ooplatingsistm.Kernel.Outcomes.{Ensures, Ensures-bind, Ensures-mono, Ensures-all}
use ooplatingsistm.Kernel.Stacks.{stack_of, SameStacks}
use ooplatingsistm.Kernel.Supply.{Awaited, supply}
use ooplatingsistm.Kernel.Served.{retries, Served, Served-mono}
use ooplatingsistm.Scheduler.{run, find_next_to_run, change_status}
use ooplatingsistm.Wake.{v}
use ooplatingsistm.ThreadOps.{sleep, signal_all, idle, next_or_idle, is_off}
use ooplatingsistm.ThreadOps.Woken.{v-Served}

longer : (w : Ptr → ℕ) (q : Queue) → total w q ≤ total w (remove q).1 + w (remove q).0
longer w [] = omega arith
longer w (r ∷ q) = omega arith

module _ {D : Type 0} (s : Awaited) where
  pub status-writes :
      (k : Kernel D) (r : Ptr) (st : ThreadStatus) (t : Ptr)
      → Ensures
          (λ _ j.
            (stack_of j t ≡ stack_of k t)
            × (supply s j ≡ supply s k)
            × (j.ready_list ≡ k.ready_list))
          (change_status r st k)
  unfolding change_status
  status-writes k r st t = ground arith

  run-writes :
      (k : Kernel D) (n t : Ptr)
      → Ensures
          (λ _ j.
            (stack_of j t ≡ stack_of k t)
            × (supply s j ≡ supply s k)
            × (j.ready_list ≡ k.ready_list)
            × (j.current ≡ n))
          (run n k)
  unfolding run
  run-writes k n t = ground arith

  pub same-Served :
      (e f : ℕ) (k j : Kernel D)
      → Served s e k
      → SameStacks k j
      → supply s j ≡ supply s k
      → j.ready_list ≡ k.ready_list
      → e ≤ f
      → Served s f j
  same-Served e f k j h stacks sems list le =
      Served-mono s e f k j h sems (λ c at t p. stacks t) (rw (stacks null) h.null_idle)
        (ground (
          arith,
          le,
          list,
          total-ext (λ t. retries s (stack_of j t)) (λ t. retries s (stack_of k t)) k.ready_list
              (λ t p. ap (retries s) (stacks t)),
        ))

  -- What the current thread is about to take counts as well.
  abbrev pub AllServed : Kernel D → Type 0
  AllServed k = Served s (retries s (stack_of k k.current)) k

  -- A thread is made ready.
  pub readied-Served :
      (e : ℕ) (k j : Kernel D) (r : Ptr)
      → Served s e k
      → SameStacks k j
      → supply s j ≡ supply s k
      → j.ready_list ≡ append k.ready_list r
      → Served s e j
  readied-Served e k j r h stacks sems list =
      Served-mono s e e k j h sems (λ c at t p. stacks t) (rw (stacks null) h.null_idle)
        (ground (
          arith,
          list,
          total-ext (λ t. retries s (stack_of j t)) (λ t. retries s (stack_of k t)) j.ready_list
              (λ t p. ap (retries s) (stacks t)),
          total-append (λ t. retries s (stack_of k t)) k.ready_list (r ∷ []),
        ))

  pub run-Served :
      (n : Ptr) (k : Kernel D)
      → Served s (retries s (stack_of k n)) k
      → Ensures (λ _ j. AllServed j) (run n k)
  run-Served n k h = Ensures-mono _ _ (run n k) (Ensures-all _ (run n k) (run-writes k n)) λ _ j w.
      same-Served _ _ k j h (λ t. (w t).0) (w n).1 (w n).2
        (ground (arith, (w n).3, ap (retries s) ((w n).0)))

  pub null_first :
      (k : Kernel D) (e : ℕ)
      → Served s e k
      → ((remove k.ready_list).0 == null) ≡ true
      → retries s (stack_of k (remove k.ready_list).0) ≤ 0
  null_first k e h nobody =
      let r : (remove k.ready_list).0 ≡ null = ground (arith, nobody) in
      subst (λ t. retries s (stack_of k t) ≤ 0) (sym r) (omega (arith, h.null_idle))

  -- The first thread of the ready list is taken off.
  pub found-Served :
      (k : Kernel D) (e f : ℕ)
      → Served s e k
      → e + retries s (stack_of k (remove k.ready_list).0) ≤ f
      → Served s f (record k { ready_list = (remove k.ready_list).1 })
  found-Served k e f h le = record {
    in_loop = h.in_loop;
    spoken_for = λ c at some_waiter. omega (
      arith,
      h.spoken_for c at some_waiter,
      longer (λ t. retries s (stack_of k t)) k.ready_list,
      le,
    );
    null_idle = h.null_idle;
  }

  module _ ⦃irq : Interrupt D⦄ where
    signal_all-Served :
        (e : ℕ) (ss : List ℕ) (k : Kernel D)
        → Served s e k
        → Ensures (λ _ j. Served s e j) (signal_all ss k)
    unfolding signal_all
    signal_all-Served e [] k h = h
    signal_all-Served e (m ∷ ss) k h =
        Ensures-bind (λ _ j. Served s e j) _ (v m k) (λ _. signal_all ss) (v-Served s e m k h)
          λ _ i. signal_all-Served e ss i

    idle-Served : (e : ℕ) (k : Kernel D) → Served s e k → Ensures (λ _ j. Served s e j) (idle k)
    unfolding idle
    idle-Served e k h = elim (Option-cases (irq.idle k.device)) [
      | inl stop ↦ rw (stop, idle) tt
      | inr ((d, ss), more) ↦
          rw (more, idle)
            (signal_all-Served e ss (record k { device = d })
              (record { in_loop = h.in_loop; spoken_for = h.spoken_for; null_idle = h.null_idle }))
    ]

    -- The thread that is found counts no more among the ready ones.
    next_or_idle-Served :
        (n : ℕ) (k : Kernel D)
        → Served s 0 k
        → Ensures (λ r j. Served s (retries s (stack_of j r)) j) (next_or_idle n k)
    unfolding next_or_idle find_next_to_run
    next_or_idle-Served zero k h = tt
    next_or_idle-Served (suc n) k h = elim (Bool-cases ((remove k.ready_list).0 == null)) [
      | inl nobody ↦ rw nobody (
          Ensures-bind (λ _ j. Served s 0 j) _
            (idle (record k { ready_list = (remove k.ready_list).1 })) (λ _. next_or_idle n)
            (idle-Served 0 _ (found-Served k 0 0 h (omega (arith, null_first k 0 h nobody))))
            λ _ i. next_or_idle-Served n i)
      | inr somebody ↦ rw somebody (found-Served k 0 _ h (omega arith))
    ]

    pub sleep-Served :
        (this : Ptr) (k : Kernel D) → Served s 0 k → Ensures (λ _ j. AllServed j) (sleep this k)
    unfolding sleep
    sleep-Served this k h = elim (Bool-cases (this == k.current)) [
      | inr wrong ↦ rw wrong tt
      | inl mine ↦ rw mine (elim (Bool-cases (is_off (irq.get_level k.device))) [
        | inr on ↦ rw on tt
        | inl off ↦ rw off (
            Ensures-bind (λ _ j. Served s 0 j) _ (change_status this blocked k) _
              (Ensures-mono _ _ (change_status this blocked k)
                (Ensures-all _ (change_status this blocked k) (status-writes k this blocked))
                λ _ j w. same-Served 0 0 k j h (λ t. (w t).0) (w null).1 (w null).2 (omega arith))
              λ _ i h'.
                Ensures-bind _ _ (next_or_idle irq.patience i) run
                  (next_or_idle-Served irq.patience i h') run-Served)
      ])
    ]
