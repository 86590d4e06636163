-- ===== src/ThreadOps/Woken.antt =====
-- No wakeup loses a unit of a semaphore, or a free lock.
use ooplatingsistm.Base.{
  ℕ, ◌+◌, ◌≤◌, ◌≡◌, ◌≢◌, refl, sym, ap, ◌∙◌, subst, inl, inr, some, [], ◌∷◌, ◌==◌, ==_refl, arith,
  Option-cases, Bool-cases, if◌then◌else◌, count, get_elem?, set, total-append, total-ext,
  get_elem?-set_self, set-set,
}
use ooplatingsistm.LinkedList.Heap.{Ptr, null}
use ooplatingsistm.Queue.{Queue, append, remove}
use ooplatingsistm.Kernel.{Kernel, Semaphore, Interrupt}
use ooplatingsistm.Kernel.Outcomes.{Ensures, Ensures-mono, Ensures-all}
use ooplatingsistm.Kernel.Stacks.{stack_of, SameStacks}
use ooplatingsistm.Kernel.Supply.{
  Awaited, unit_of, Supply, same_supply, semaphore_supply, supply, in_loop_of, own_semaphore,
  semaphore-supply, set_semaphore-supply, other_semaphore-supply,
}
use ooplatingsistm.Kernel.Served.{retries, retrying, Served, Served-mono}
use ooplatingsistm.Program.{p_loop}
use ooplatingsistm.Scheduler.{ready_to_run}
use ooplatingsistm.Wake.{v, ready_unless_null, increment}
use ooplatingsistm.ThreadOps.Alive.{count-remove_le}

-- The ready list behind a wakeup.
abbrev pub woken : Ptr → Queue → Queue
woken r q = if r == null then q else append q r

increment_le : (n : ℕ) → increment n ≤ n + 1
increment_le n = ground arith

module _ {D : Type 0} where
  v-writes :
      ⦃irq : Interrupt D⦄ (k : Kernel D) (m : ℕ) (c : Semaphore)
      → get_elem? k.semaphores m ≡ some c
      → (t : Ptr)
      → Ensures
          (λ _ j.
            (stack_of j t ≡ stack_of k t)
            × (j.semaphores
                ≡ set k.semaphores m
                    (record c { value = increment c.value; queue = (remove c.queue).1 }))
            × (j.locks ≡ k.locks)
            × (j.ready_list ≡ woken (remove c.queue).0 k.ready_list))
          (v m k)
  unfolding v ready_unless_null ready_to_run
  v-writes k m c there t =
      let c' : Semaphore = record c { queue = (remove c.queue).1 } in
      let c'' : Semaphore = record c' { value = increment c.value } in
      ground
        (arith, there, get_elem?-set_self k.semaphores m c' there, set-set k.semaphores m c' c'')

module _ {D : Type 0} (s : Awaited) (e : ℕ) where
  -- A thread is made ready.
  retrying-woken :
      (k j : Kernel D) (r : Ptr)
      → SameStacks k j
      → j.ready_list ≡ woken r k.ready_list
      → retrying s j ≡ retrying s k + (if r == null then 0 else retries s (stack_of k r))
  retrying-woken k j r stacks list = ground (
    arith,
    list,
    total-ext (λ t. retries s (stack_of j t)) (λ t. retries s (stack_of k t)) j.ready_list
        (λ t p. ap (retries s) (stacks t)),
    total-append (λ t. retries s (stack_of k t)) k.ready_list (r ∷ []),
  )

  -- A unit is given back: to the first thread that waits, if any does.
  pub given-Served :
      (k j : Kernel D) (c : Supply) (units : ℕ)
      → Served s e k
      → supply s k ≡ some c
      → SameStacks k j
      → supply s j ≡ some (record { units = units; queue = (remove c.queue).1 })
      → units ≤ c.units + 1
      → j.ready_list ≡ woken (remove c.queue).0 k.ready_list
      → Served s e j
  given-Served k j c units h there stacks now given list = record {
    in_loop = λ d at t p.
        rw (stacks t)
          (h.in_loop c there t (ground (arith, after d at, p, count-remove_le t c.queue)));
    spoken_for = λ d at some_waiter. ground (
      arith,
      after d at,
      some_waiter,
      waits c.queue,
      h.spoken_for c there,
      h.in_loop c there (remove c.queue).0,
      given,
      retrying-woken k j (remove c.queue).0 stacks list,
    );
    null_idle = rw (stacks null) h.null_idle;
  }
    where
      after :
          (d : Supply)
          → supply s j ≡ some d
          → d ≡ record { units = units; queue = (remove c.queue).1 }
      after d at = same_supply d _ (sym at ∙ now)

      waits : (q : Queue) → (remove q).1 ≢ [] → (q ≢ []) × (count (remove q).0 q ≢ 0)
      waits [] ne = absurd (ne refl)
      waits (r ∷ q) ne = ((λ e. ground (arith, e)), ground (arith, ==_refl r))

  -- Threads are woken, and the semaphores are as they were.
  pub woken-Served :
      (k j : Kernel D) (r : Ptr)
      → Served s e k
      → SameStacks k j
      → supply s j ≡ supply s k
      → j.ready_list ≡ woken r k.ready_list
      → Served s e j
  woken-Served k j r h stacks sems list =
      Served-mono s e e k j h sems (λ c at t p. stacks t) (rw (stacks null) h.null_idle)
        (omega (arith, retrying-woken k j r stacks list))

module _ {D : Type 0} where
  pub v-Served :
      ⦃irq : Interrupt D⦄ (s : Awaited) (e m : ℕ) (k : Kernel D)
      → Served s e k
      → Ensures (λ _ j. Served s e j) (v m k)
  unfolding v
  v-Served s e m k h = elim (Option-cases (get_elem? k.semaphores m)) [
    | inl missing ↦ rw missing tt
    | inr (c, there) ↦
        Ensures-mono _ _ (v m k) (Ensures-all _ (v m k) (v-writes k m c there)) λ _ j w.
          elim (Bool-cases (in_loop_of s (p_loop m ∷ []))) [
            | inl mine ↦
                subst (λ s'. Served s' e k → Served s' e j) (sym (own_semaphore s m mine))
                  (λ h'.
                    given-Served (unit_of m) e k j (semaphore_supply c) (increment c.value) h'
                      (semaphore-supply k m c there) (λ t. (w t).0)
                      (set_semaphore-supply k j m c _ there (w null).1) (increment_le c.value)
                      (w null).3)
                  h
            | inr other ↦
                woken-Served s e k j (remove c.queue).0 h (λ t. (w t).0)
                  (other_semaphore-supply k j m s _ (w null).1 (w null).2 other) (w null).3
          ]
  ]
