-- ===== src/ThreadOps/Calls.antt =====
-- `Yield`, `Finish`, `Fork` and the rest of `Run` find what they assert, and keep the shape of the
-- stacks.
use Prim.Native.String.{String}
use ooplatingsistm.Base.{
  ℕ, ◌+◌, ◌≡◌, ◌≢◌, refl, sym, ◌∙◌, subst, inl, inr, false, some, ◌==◌, ==_refl, Option-cases,
  Bool-cases, arith,
}
use ooplatingsistm.LinkedList.Heap.{Ptr, null}
use ooplatingsistm.Queue.{remove}
use ooplatingsistm.Program.{int_off}
use ooplatingsistm.Thread.{
  Entries, Thread, new_thread, stack_allocate, stack_intact, stack_allocate-intact,
}
use ooplatingsistm.Kernel.{Kernel, Interrupt, ◌>>=◌}
use ooplatingsistm.Kernel.Outcomes.{Avoids, Avoids-bind, Avoids-mono}
use ooplatingsistm.Kernel.Frames.{IsKept, AllKept, User, User-Suspended, Suspended, Inside, Framed}
use ooplatingsistm.Scheduler.{update, run, ready_to_run, finish_run, destroy}
use ooplatingsistm.ThreadOps.{Garbage, create, fork, yield_cpu, finish, sleep}
use ooplatingsistm.ThreadOps.Frames.{
  Inside-Framed, entered, entered-Inside, Kept, ready_to_run-Kept, run-Inside, sleep-Inside,
}

module _ {D : Type 0} ⦃irq : Interrupt D⦄ where
  pub Kept-Framed : (k j : Kernel D) → User k.cpu → Kept k j → Framed j
  Kept-Framed k j u a = record {
    kept = a.kept;
    suspended = subst Suspended (sym a.cpu) (User-Suspended k.cpu u);
    masked = inl (subst User (sym a.cpu) u);
  }

  module _ (k : Kernel D) (h : AllKept k) (u : User k.cpu) where
    pub yield_cpu-Framed : Avoids (λ _ j. Framed j) (yield_cpu k.current k)
    unfolding yield_cpu
    yield_cpu-Framed = rw (==_refl k.current) (elim (Bool-cases ((remove k.ready_list).0 == null)) [
      | inl alone ↦ rw alone (Inside-Framed found inside)
      | inr another ↦ rw another (
          Avoids-bind _ _ (ready_to_run k.current found) (λ _. run (remove k.ready_list).0)
            (ready_to_run-Kept k.current found h)
            λ _ j a.
              Avoids-mono _ _ (run (remove k.ready_list).0 j)
                (run-Inside (remove k.ready_list).0 j (record {
                  kept = a.kept;
                  suspended = subst Suspended (sym a.cpu) u;
                  off = a.level ∙ inside.off;
                }))
                λ _. Inside-Framed)
    ])
      where
        found : Kernel D
        found = record (entered k) { ready_list = (remove k.ready_list).1 }

        inside : Inside found
        inside = record { kept = h; suspended = u; off = (entered-Inside k h u).off }

    pub finish-Framed : Avoids (λ _ j. Framed j) (finish k.current k)
    unfolding finish
    finish-Framed = rw (==_refl k.current) (
        Avoids-mono _ _ (sleep k.current k')
          (sleep-Inside k' (record {
            kept = h;
            suspended = User-Suspended k.cpu u;
            off = irq.get_level-set_level int_off k.device;
          }))
          λ _. Inside-Framed)
      where
        k' : Kernel D
        k' = record k { device = irq.set_level int_off k.device; to_be_destroyed = k.current }

  -- `~Thread` asserts that it does not delete the current thread.
  pub finish_run-Framed :
      (k : Kernel D)
      → Inside k
      → (k.to_be_destroyed ≢ null → k.to_be_destroyed ≢ k.current)
      → Avoids (λ _ j. Framed j) (finish_run k)
  unfolding finish_run destroy
  finish_run-Framed k h apart = elim (Bool-cases (k.to_be_destroyed == null)) [
    | inl nobody ↦ rw nobody (Inside-Framed k h)
    | inr somebody ↦
        let other : (k.to_be_destroyed == k.current) ≡ false = ground (arith, apart) in
        rw somebody (elim (Option-cases (k.thread k.to_be_destroyed)) [
          | inl gone ↦ rw gone tt
          | inr (c, there) ↦
              rw (there, other)
                (record {
                  kept = λ t. ground (arith, h.kept t);
                  suspended = h.suspended;
                  masked = inr h.off;
                })
        ])
  ]

  -- A new control block, or a change to one that keeps its stack, spoils nothing.
  stored-AllKept :
      (k : Kernel D) (t : Ptr) (c : Thread)
      → AllKept k
      → IsKept (some c)
      → AllKept (record k { thread = update k.thread t (some c) })
  stored-AllKept k t c h new r = ground (arith, h r)

  fork-Kept :
      (g : Garbage) (e : Entries) (t : Ptr) (func arg : ℕ) (k : Kernel D)
      → AllKept k
      → Avoids (λ _ j. Kept k j) (fork g e t func arg k)
  unfolding fork
  fork-Kept g e t func arg k h = elim (Option-cases (k.thread t)) [
    | inl gone ↦ rw gone tt
    | inr (c, there) ↦
        let c' : Thread = stack_allocate e (g.stack t) func arg c in
        let new = stack_allocate-intact e (g.stack t) func arg c in
        let k' : Kernel D = record k {
          thread = update k.thread t (some c');
          device = irq.set_level int_off k.device;
        } in
        let h' : AllKept k' = stored-AllKept k t c' h (new.0, subst Suspended (sym new.7) tt) in
        rw there (
          Avoids-bind _ _ (ready_to_run t k') _ (ready_to_run-Kept t k' h') λ _ j a. record {
            kept = a.kept;
            cpu = a.cpu;
            level = irq.get_level-set_level (irq.get_level k.device) j.device;
          })
  ]

  pub create-fork-Kept :
      (g : Garbage) (e : Entries) (name : String) (func arg : ℕ) (k : Kernel D)
      → AllKept k
      → Avoids (λ _ j. Kept k j) ((create g name >>= λ t. fork g e t func arg) k)
  unfolding create new_thread stack_intact
  create-fork-Kept g e name func arg k h =
      Avoids-mono _ _ (fork g e k.next_addr func arg k')
        (fork-Kept g e k.next_addr func arg k'
          (stored-AllKept (record k { next_addr = k.next_addr + 1 }) k.next_addr c h (refl, tt)))
        λ _ j a. record { kept = a.kept; cpu = a.cpu; level = a.level }
    where
      c : Thread
      c = new_thread name (g.registers k.next_addr)

      k' : Kernel D
      k' = record k { next_addr = k.next_addr + 1; thread = update k.thread k.next_addr (some c) }
