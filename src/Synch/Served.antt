-- ===== src/Synch/Served.antt =====
-- The loop of `Semaphore::P` loses no unit of a semaphore, and no free lock.
use ooplatingsistm.Base.{
  ℕ, ◌+◌, ◌≤◌, ◌≡◌, ◌≢◌, refl, sym, ap, ◌∙◌, subst, true, ==_refl, inl, inr, some, List, [], ◌∷◌,
  ◌==◌, arith, Option-cases, Bool-cases, count-append, get_elem?, set, total-ext,
}
use ooplatingsistm.LinkedList.Heap.{null}
use ooplatingsistm.Queue.{append}
use ooplatingsistm.Program.{Frame}
use ooplatingsistm.Kernel.{Kernel, Semaphore, Interrupt}
use ooplatingsistm.Kernel.Outcomes.{Ensures}
use ooplatingsistm.Kernel.Stacks.{stack_of, strip, SameStacks}
use ooplatingsistm.Kernel.Supply.{
  Awaited, Supply, supply, in_loop_of, semaphore_supply, own_semaphore, semaphore-supply,
  set_semaphore-supply, other_semaphore-supply, queued-supply, same_supply,
}
use ooplatingsistm.Kernel.Served.{retries, Served, Served-mono}
use ooplatingsistm.Program.{p_loop}
use ooplatingsistm.Kernel.Alive.{queued}
use ooplatingsistm.Wake.{decrement}
use ooplatingsistm.ThreadOps.Served.{AllServed, sleep-Served, same-Served}
use ooplatingsistm.Synch.{p_wait}

decrement_lt : (n : ℕ) → n ≢ 0 → decrement n + 1 ≤ n
decrement_lt n ne = ground arith

module _ {D : Type 0} (s : Awaited) where
  -- The current thread, which is in no queue, gets something else to do.
  pub cpu-Served :
      (e f : ℕ) (k : Kernel D) (d : D) (fs : List Frame)
      → Served s e k
      → k.current ≢ null
      → queued k.current k ≡ 0
      → e ≤ f
      → Served s f (record k { device = d; cpu = fs })
  cpu-Served e f k d fs h ne alone le =
      Served-mono s e f k (record k { device = d; cpu = fs }) h refl
        (λ c at t p. ground (arith, alone, p, queued-supply s k c t at))
        (ground (arith, ne, h.null_idle))
        (ground (
          arith,
          le,
          total-ext (λ t. retries s (stack_of (record k { device = d; cpu = fs }) t))
              (λ t. retries s (stack_of k t)) k.ready_list λ t p. ground (arith, alone, p),
        ))

  -- The current thread waits for what it has found taken.
  pub queue-Served :
      (k j : Kernel D) (f : Frame) (c : Supply)
      → Served s 1 (record k { cpu = f ∷ k.cpu })
      → k.current ≢ null
      → supply s k ≡ some c
      → c.units ≡ 0
      → in_loop_of s (strip (f ∷ k.cpu)) ≡ true
      → SameStacks (record k { cpu = f ∷ k.cpu }) j
      → j.ready_list ≡ k.ready_list
      → supply s j ≡ some (record c { queue = append c.queue k.current })
      → Served s 0 j
  queue-Served k j f c h ne there taken looping stacks list now = record {
    in_loop = λ d at t p. elim (Bool-cases (t == k.current)) [
      | inl me ↦
          let e : t ≡ k.current = ground (arith, me) in
          (ground (arith, me, ne), rw (stacks t, me) looping)
      | inr elsewhere ↦
          let (alive, loops) = h.in_loop c there t (
            ground
              (arith, p, elsewhere, mine_only d at, count-append t c.queue (k.current ∷ []))) in
          (alive, rw (stacks t) loops)
    ];
    spoken_for = λ d at some_waiter. ground (arith, mine_only d at, taken);
    null_idle = rw (stacks null) h.null_idle;
  }
    where
      mine_only :
          (d : Supply) → supply s j ≡ some d → d ≡ record c { queue = append c.queue k.current }
      mine_only d at = same_supply d _ (sym at ∙ now)

  -- The current thread takes what it has found free.
  pub taken-Served :
      (k j : Kernel D) (c : Supply) (units : ℕ)
      → Served s 1 k
      → supply s k ≡ some c
      → units + 1 ≤ c.units
      → SameStacks k j
      → j.ready_list ≡ k.ready_list
      → supply s j ≡ some (record c { units = units })
      → Served s (retries s (stack_of j j.current)) j
  taken-Served k j c units h there less stacks list now = record {
    in_loop = λ d at t p. rw (stacks t) (h.in_loop c there t (ground (arith, p, mine_only d at)));
    spoken_for = λ d at some_waiter. ground (
      arith,
      mine_only d at,
      some_waiter,
      less,
      list,
      h.spoken_for c there,
      total-ext (λ t. retries s (stack_of j t)) (λ t. retries s (stack_of k t)) k.ready_list
          (λ t p. ap (retries s) (stacks t)),
    );
    null_idle = rw (stacks null) h.null_idle;
  }
    where
      mine_only : (d : Supply) → supply s j ≡ some d → d ≡ record c { units = units }
      mine_only d at = same_supply d _ (sym at ∙ now)

  p_queue-Served :
      (m : ℕ) (k : Kernel D) (c : Semaphore)
      → Served s (retries s (p_loop m ∷ [])) k
      → k.current ≢ null
      → queued k.current k ≡ 0
      → get_elem? k.semaphores m ≡ some c
      → c.value ≡ 0
      → Served s 0 (record k {
        cpu = p_loop m ∷ k.cpu;
        semaphores = set k.semaphores m (record c { queue = append c.queue k.current });
      })
  p_queue-Served m k c h ne alone there empty =
      let pushed =
        cpu-Served (retries s (p_loop m ∷ [])) (retries s (p_loop m ∷ [])) k k.device
          (p_loop m ∷ k.cpu) h ne alone (omega arith) in
      let j = record k {
        cpu = p_loop m ∷ k.cpu;
        semaphores = set k.semaphores m (record c { queue = append c.queue k.current });
      } in
      elim (Bool-cases (in_loop_of s (p_loop m ∷ []))) [
        | inl mine ↦
            let e = own_semaphore s m mine in
            queue-Served (record k { device = k.device }) j (p_loop m) (semaphore_supply c)
              (same-Served s (retries s (p_loop m ∷ [])) 1 _ _ pushed (λ t. refl) refl refl
                (ground (arith, mine)))
              ne
              (subst (λ s'. supply s' k ≡ some (semaphore_supply c)) (sym e)
                (semaphore-supply k m c there))
              empty (subst (λ s'. in_loop_of s' (p_loop m ∷ k.cpu) ≡ true) (sym e) (==_refl m))
              (λ t. refl) refl
              (subst
                (λ s'.
                  supply s' j
                  ≡ some (record (semaphore_supply c) { queue = append c.queue k.current }))
                (sym e) (set_semaphore-supply k j m c _ there refl))
        | inr other ↦
            same-Served s (retries s (p_loop m ∷ [])) 0 (record k { cpu = p_loop m ∷ k.cpu }) j
              pushed (λ t. refl) (other_semaphore-supply k j m s _ refl refl other) refl
              (ground (arith, other))
      ]

  p_taken-Served :
      (m : ℕ) (k : Kernel D) (c : Semaphore)
      → Served s (retries s (p_loop m ∷ [])) k
      → get_elem? k.semaphores m ≡ some c
      → c.value ≢ 0
      → AllServed s
          (record k { semaphores = set k.semaphores m (record c { value = decrement c.value }) })
  p_taken-Served m k c h there some_value =
      let j = record k {
        semaphores = set k.semaphores m (record c { value = decrement c.value });
      } in
      elim (Bool-cases (in_loop_of s (p_loop m ∷ []))) [
        | inl mine ↦
            let e = own_semaphore s m mine in
            taken-Served k j (semaphore_supply c) (decrement c.value)
              (same-Served s (retries s (p_loop m ∷ [])) 1 k k h (λ t. refl) refl refl
                (ground (arith, mine)))
              (subst (λ s'. supply s' k ≡ some (semaphore_supply c)) (sym e)
                (semaphore-supply k m c there))
              (decrement_lt c.value some_value) (λ t. refl) refl
              (subst
                (λ s'.
                  supply s' j ≡ some (record (semaphore_supply c) { units = decrement c.value }))
                (sym e) (set_semaphore-supply k j m c _ there refl))
        | inr other ↦
            same-Served s (retries s (p_loop m ∷ [])) _ k j h (λ t. refl)
              (other_semaphore-supply k j m s _ refl refl other) refl (ground (arith, other))
      ]

  pub p_wait-Served :
      ⦃irq : Interrupt D⦄ (m : ℕ) (k : Kernel D)
      → Served s (retries s (p_loop m ∷ [])) k
      → k.current ≢ null
      → queued k.current k ≡ 0
      → Ensures (λ _ j. AllServed s j) (p_wait m k)
  unfolding p_wait
  p_wait-Served m k h ne alone = elim (Option-cases (get_elem? k.semaphores m)) [
    | inl missing ↦ rw missing tt
    | inr (c, there) ↦ rw there (elim (Bool-cases (c.value == 0)) [
      | inr some_value ↦ rw some_value (p_taken-Served m k c h there (ground (arith, some_value)))
      | inl zero_value ↦ rw zero_value (
          sleep-Served s k.current _
            (p_queue-Served m k c h ne alone there (ground (arith, zero_value))))
    ])
  ]
