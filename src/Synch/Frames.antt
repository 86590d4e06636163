-- ===== src/Synch/Frames.antt =====
-- `P`, `Acquire` and `Release` find what they assert, and keep the shape of the stacks.
use ooplatingsistm.Base.{ℕ, inl, inr, ◌∷◌, ◌==◌, Option-cases, Bool-cases, get_elem?, set}
use ooplatingsistm.Queue.{append, remove}
use ooplatingsistm.Program.{int_off, p_loop, acquire_loop}
use ooplatingsistm.Kernel.{Kernel, Lock, Interrupt}
use ooplatingsistm.Kernel.Outcomes.{Avoids, Avoids-bind, Avoids-mono}
use ooplatingsistm.Kernel.Frames.{AllKept, User, Inside, Framed}
use ooplatingsistm.Wake.{ready_unless_null}
use ooplatingsistm.ThreadOps.{sleep}
use ooplatingsistm.ThreadOps.Frames.{
  Inside-Framed, entered, entered-Inside, Kept, ready_unless_null-Kept, sleep-Inside,
}
use ooplatingsistm.Synch.{p, p_wait, acquire, acquire_wait, release}

module _ {D : Type 0} ⦃irq : Interrupt D⦄ where
  pub p_wait-Framed : (s : ℕ) (k : Kernel D) → Inside k → Avoids (λ _ j. Framed j) (p_wait s k)
  unfolding p_wait
  p_wait-Framed s k h = elim (Option-cases (get_elem? k.semaphores s)) [
    | inl missing ↦ rw missing tt
    | inr (c, there) ↦ rw there (elim (Bool-cases (c.value == 0)) [
      | inl zero_value ↦ rw zero_value (
          let k' : Kernel D = record k {
            semaphores = set k.semaphores s (record c { queue = append c.queue k.current });
            cpu = p_loop s ∷ k.cpu;
          } in
          Avoids-mono _ _ (sleep k.current k')
            (sleep-Inside k' (record { kept = h.kept; suspended = h.suspended; off = h.off }))
            λ _. Inside-Framed)
      | inr some_value ↦
          rw some_value (record { kept = h.kept; suspended = h.suspended; masked = inr h.off })
    ])
  ]

  pub acquire_wait-Framed :
      (l : ℕ) (k : Kernel D) → Inside k → Avoids (λ _ j. Framed j) (acquire_wait l k)
  unfolding acquire_wait
  acquire_wait-Framed l k h = elim (Option-cases (get_elem? k.locks l)) [
    | inl missing ↦ rw missing tt
    | inr (c, there) ↦ rw there (elim (Bool-cases (c.held == 0)) [
      | inl free ↦ rw free (record { kept = h.kept; suspended = h.suspended; masked = inr h.off })
      | inr busy ↦ rw busy (
          let k' : Kernel D = record k {
            locks = set k.locks l (record c { queue = append c.queue k.current });
            cpu = acquire_loop l ∷ k.cpu;
          } in
          Avoids-mono _ _ (sleep k.current k')
            (sleep-Inside k' (record { kept = h.kept; suspended = h.suspended; off = h.off }))
            λ _. Inside-Framed)
    ])
  ]

  pub p-Framed : (s : ℕ) (k : Kernel D) → AllKept k → User k.cpu → Avoids (λ _ j. Framed j) (p s k)
  unfolding p
  p-Framed s k h u = p_wait-Framed s (entered k) (entered-Inside k h u)

  pub acquire-Framed :
      (l : ℕ) (k : Kernel D) → AllKept k → User k.cpu → Avoids (λ _ j. Framed j) (acquire l k)
  unfolding acquire
  acquire-Framed l k h u = acquire_wait-Framed l (entered k) (entered-Inside k h u)

  pub release-Kept : (l : ℕ) (k : Kernel D) → AllKept k → Avoids (λ _ j. Kept k j) (release l k)
  unfolding release
  release-Kept l k h = elim (Option-cases (get_elem? k.locks l)) [
    | inl missing ↦ rw missing tt
    | inr (c, there) ↦ rw there (
        Avoids-bind _ _ (ready_unless_null (remove c.queue).0 (wake c)) _
          (ready_unless_null-Kept (remove c.queue).0 (wake c) h)
          λ _ j a. elim (Option-cases (get_elem? j.locks l)) [
            | inl lost ↦ rw lost tt
            | inr (d, there') ↦ rw there' (record {
              kept = a.kept;
              cpu = a.cpu;
              level = irq.get_level-set_level (irq.get_level k.device) j.device;
            })
          ])
  ]
    where
      wake : Lock → Kernel D
      wake c = record k {
        device = irq.set_level int_off k.device;
        locks = set k.locks l (record c { queue = (remove c.queue).1 });
      }
