-- ===== src/ThreadOps/Places.antt =====
-- How the operations of thread.cc move threads between their places.
use ooplatingsistm.Base.{
  ℕ, zero, suc, ◌+◌, ◌≡◌, ◌≢◌, refl, ap, ◌∙◌, inl, inr, List, [], ◌∷◌, arith, ◌==◌, same,
  count-append, Option-cases, Bool-cases,
}
use ooplatingsistm.LinkedList.Heap.{Ptr, null}
use ooplatingsistm.Queue.{remove}
use ooplatingsistm.Program.{int_off}
use ooplatingsistm.Thread.{Entries, blocked}
use ooplatingsistm.Kernel.{Kernel, Interrupt, ◌>>=◌, Outcome}
use ooplatingsistm.Kernel.Outcomes.{Ensures, Ensures-bind, Ensures-mono}
use ooplatingsistm.Kernel.Places.{places}
use ooplatingsistm.Scheduler.{find_next_to_run, run, change_status}
use ooplatingsistm.Scheduler.Places.{change_status-places, run-places}
use ooplatingsistm.Wake.{v}
use ooplatingsistm.Wake.Places.{count-remove, v-places, v-current}
use ooplatingsistm.ThreadOps.{
  Garbage, fork, yield_cpu, signal_all, idle, next_or_idle, sleep, finish, is_off,
}

module _ {D : Type 0} ⦃irq : Interrupt D⦄ (t : Ptr) (ne : t ≢ null) where
  -- Threads move among the queues and the ready list, none is lost, and nothing else happens.
  record Moved (k j : Kernel D) : Type 0 where
    places_eq : places t j ≡ places t k
    current : j.current ≡ k.current
    to_be_destroyed : j.to_be_destroyed ≡ k.to_be_destroyed

  v-Moved : (s : ℕ) (k : Kernel D) → Ensures (λ _ j. Moved k j) (v s k)
  v-Moved s k = both (v s k) (v-places t k ne s) (v-current t k ne s)
    where
      both :
          (m : Outcome D (Unit {0}))
          → Ensures (λ _ j. places t j ≡ places t k) m
          → Ensures (λ _ j. (j.current ≡ k.current) × (j.to_be_destroyed ≡ k.to_be_destroyed)) m
          → Ensures (λ _ j. Moved k j) m
      both (Outcome.ok a j) p q = record { places_eq = p; current = q.0; to_be_destroyed = q.1 }
      both Outcome.abort p q = tt
      both Outcome.crash p q = tt
      both Outcome.halt p q = tt
      both Outcome.out_of_patience p q = tt

  signal_all-Moved : (ss : List ℕ) (k : Kernel D) → Ensures (λ _ j. Moved k j) (signal_all ss k)
  unfolding signal_all
  signal_all-Moved [] k = record { places_eq = refl; current = refl; to_be_destroyed = refl }
  signal_all-Moved (s ∷ ss) k =
      Ensures-bind (λ _ j. Moved k j) _ (v s k) (λ _. signal_all ss) (v-Moved s k)
        λ _ i m. Ensures-mono _ _ (signal_all ss i) (signal_all-Moved ss i) λ _ j n. record {
          places_eq = n.places_eq ∙ m.places_eq;
          current = n.current ∙ m.current;
          to_be_destroyed = n.to_be_destroyed ∙ m.to_be_destroyed;
        }

  idle-Moved : (k : Kernel D) → Ensures (λ _ j. Moved k j) (idle k)
  unfolding idle
  idle-Moved k = elim (Option-cases (irq.idle k.device)) [
    | inl stop ↦ rw (stop, idle) tt
    | inr ((d, ss), more) ↦
        rw (more, idle)
          (Ensures-mono _ _ (signal_all ss (record k { device = d }))
            (signal_all-Moved ss (record k { device = d }))
            λ _ j m. record {
              places_eq = m.places_eq;
              current = m.current;
              to_be_destroyed = m.to_be_destroyed;
            })
  ]

  -- The thread that is found leaves the ready list.
  next_or_idle-places :
      (n : ℕ) (k : Kernel D)
      → Ensures
          (λ r j.
            (places t j + same r t ≡ places t k)
            × (j.current ≡ k.current)
            × (j.to_be_destroyed ≡ k.to_be_destroyed))
          (next_or_idle n k)
  unfolding next_or_idle find_next_to_run
  next_or_idle-places zero k = tt
  next_or_idle-places (suc n) k = elim (Bool-cases ((remove k.ready_list).0 == null)) [
    | inl nobody ↦ rw nobody (
        Ensures-bind (λ _ j. Moved k' j) _ (idle k') (λ _. next_or_idle n) (idle-Moved k')
          λ _ i m. Ensures-mono _ _ (next_or_idle n i) (next_or_idle-places n i) λ r j e. (
            ground (arith, e.0, m.places_eq, count-remove k.ready_list ne),
            e.1 ∙ m.current,
            e.2 ∙ m.to_be_destroyed,
          ))
    | inr somebody ↦ rw somebody (ground (arith, count-remove k.ready_list ne), refl, refl)
  ]
    where
      k' : Kernel D
      k' = record k { ready_list = (remove k.ready_list).1 }

  pub yield_cpu-places :
      (this : Ptr) (k : Kernel D) → Ensures (λ _ j. places t j ≡ places t k) (yield_cpu this k)
  unfolding yield_cpu
  yield_cpu-places this k =
      ground
        (arith, count-remove k.ready_list ne, count-append t (remove k.ready_list).1 (this ∷ []))

  -- `Sleep` behind its assertions: the current thread leaves the processor.
  dispatch-places :
      (n : ℕ) (k : Kernel D)
      → Ensures
          (λ _ j.
            (places t j + same k.current t ≡ places t k) × (j.to_be_destroyed ≡ k.to_be_destroyed))
          ((next_or_idle n >>= run) k)
  dispatch-places n k =
      Ensures-bind _ _ (next_or_idle n k) run (next_or_idle-places n k) λ r i (e, c, d).
        Ensures-mono _ _ (run r i) (run-places t i r)
          λ _ j (e', d'). (let e'' = ap (λ p. same p t) c in omega arith, d' ∙ d)

  pub sleep-places :
      (this : Ptr) (k : Kernel D)
      → Ensures
          (λ _ j.
            (places t j + same k.current t ≡ places t k) × (j.to_be_destroyed ≡ k.to_be_destroyed))
          (sleep this k)
  unfolding sleep
  sleep-places this k = elim (Bool-cases (this == k.current)) [
    | inl mine ↦ rw mine (elim (Bool-cases (is_off (irq.get_level k.device))) [
      | inl off ↦ rw off (
          Ensures-bind _ _ (change_status this blocked k) _ (change_status-places k this blocked)
            λ _ i s.
              Ensures-mono _ _ ((next_or_idle irq.patience >>= run) i)
                (dispatch-places irq.patience i)
                λ _ j (e, d). (ground (arith, e), d ∙ s.to_be_destroyed))
      | inr on ↦ rw on tt
    ])
    | inr wrong ↦ rw wrong tt
  ]

  pub finish-places :
      (this : Ptr) (k : Kernel D)
      → Ensures (λ _ j. places t j + same k.to_be_destroyed t ≡ places t k) (finish this k)
  unfolding finish
  finish-places this k = ground (
    arith,
    sleep-places this
        (record k { device = irq.set_level int_off k.device; to_be_destroyed = k.current }),
  )

  -- `new Thread` and `Fork` put one more thread on the ready list.
  pub fork-places :
      (g : Garbage) (e : Entries) (this func arg : ℕ) (k : Kernel D)
      → Ensures (λ _ j. places t j ≡ places t k + same this t) (fork g e this func arg k)
  unfolding fork
  fork-places g e this func arg k = ground (arith, count-append t k.ready_list (this ∷ []))
