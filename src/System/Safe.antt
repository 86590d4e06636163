-- ===== src/System/Safe.antt =====
-- No assertion fails: the invariant of the whole machine.
use ooplatingsistm.Base.{
  ℕ, ◌<◌, length, ℕ, ◌≡◌, ◌≢◌, ◌⊎◌, refl, subst, inl, inr, List, [], ◌∷◌, arith, All,
}
use ooplatingsistm.LinkedList.Heap.{null}
use ooplatingsistm.Program.{int_off, int_on, Frame, Text}
use ooplatingsistm.Thread.{stack_intact, new_thread}
use ooplatingsistm.Kernel.{Kernel, Interrupt, Outcome, Command, ok, abort}
use ooplatingsistm.Kernel.Outcomes.{Avoids, Avoids-mono}
use ooplatingsistm.Kernel.Frames.{IsPlain, Suspended, User, Framed}
use ooplatingsistm.Wake.{v}
use ooplatingsistm.ThreadOps.{Garbage, yield_cpu}
use ooplatingsistm.ThreadOps.Frames.{v-Kept}
use ooplatingsistm.ThreadOps.Calls.{Kept-Framed, yield_cpu-Framed}
use ooplatingsistm.Machine.{
  Image, step, step-frame, Step, go, timer, device_interrupt, Reach, here, later,
}
use ooplatingsistm.Machine.Frames.{exec_frame-Framed}
use ooplatingsistm.System.{Setup, initialize}
use ooplatingsistm.System.Unique.{Unique, Step-Unique, initialize-Unique}

module _ {D A : Type 0} where
  Avoids-abort : (Q : A → Kernel D → Type 0) (m : Outcome D A) → Avoids Q m → m ≢ abort
  Avoids-abort Q m q e = subst (Avoids Q) e q

  Avoids-apply :
      (Q : A → Kernel D → Type 0) (m : Outcome D A) {a : A} {k : Kernel D}
      → Avoids Q m
      → m ≡ ok a k
      → Q a k
  Avoids-apply Q m q e = subst (Avoids Q) e q

-- No procedure of the program calls `Condition::Wait` or `SynchList::Remove`.
abbrev pub PlainText : Text → Type 0
PlainText text = (func arg : ℕ) → All IsPlain (text func arg)

module _ {D : Type 0} ⦃irq : Interrupt D⦄ where
  -- While interrupts are on, the current thread runs user code.
  pub unmasked-User : (k : Kernel D) → Framed k → irq.get_level k.device ≡ int_on → User k.cpu
  unmasked-User k h on = elim h.masked [ inl u ↦ u | inr off ↦ ground (arith, off, on) ]

  timer-Framed :
      (k : Kernel D)
      → Framed k
      → irq.get_level k.device ≡ int_on
      → Avoids (λ _ j. Framed j) (yield_cpu k.current k)
  timer-Framed k h on = yield_cpu-Framed k h.kept (unmasked-User k h on)

  device-Framed :
      (s : ℕ) (k : Kernel D)
      → Framed k
      → irq.get_level k.device ≡ int_on
      → Avoids (λ _ j. Framed j) (v s k)
  device-Framed s k h on =
      Avoids-mono _ _ (v s k) (v-Kept s k h.kept) λ _ j. Kept-Framed k j (unmasked-User k h on)

  -- What may run next: the current thread, or, while interrupts are on, the timer's handler or one
  -- that signals a semaphore.
  pub data Next (image : Image) (k : Kernel D) : Command D → Type 0 where
    the_step : Next image k (step image)
    the_timer : irq.get_level k.device ≡ int_on → Next image k (yield_cpu k.current)
    a_device :
        (s : ℕ) → s < length k.semaphores → irq.get_level k.device ≡ int_on → Next image k (v s)

module _ {D : Type 0} ⦃irq : Interrupt D⦄ (image : Image) (plain : PlainText image.text) where
  -- The finished thread is not the current one.
  apart : (k : Kernel D) → Unique k → k.to_be_destroyed ≢ null → k.to_be_destroyed ≢ k.current
  apart k u ne e = ground (arith, u.unique k.to_be_destroyed ne)

  stack-Framed :
      (k : Kernel D) (fs : List Frame)
      → k.cpu ≡ fs
      → Framed k
      → Unique k
      → Avoids (λ _ j. Framed j) (step image k)
  unfolding step
  stack-Framed k [] empty h u = rw empty tt
  stack-Framed k (f ∷ fs) top h u = rw (step-frame image k top) (
      exec_frame-Framed image plain f (record k { cpu = fs })
        (record {
          kept = h.kept;
          suspended = subst Suspended top h.suspended;
          masked = subst (λ gs. User gs ⊎ (irq.get_level k.device ≡ int_off)) top h.masked;
        })
        (apart k u))

  -- What holds in every state that the machine reaches.
  pub record Safe (k : Kernel D) : Type 0 where
    pub framed : Framed k
    pub places_unique : Unique k

  Step-Framed : {k j : Kernel D} → Step image k j → Safe k → Framed j
  Step-Framed {k} (go e) h = Avoids-apply _ _ (stack-Framed k k.cpu refl h.framed h.places_unique) e
  Step-Framed {k} (timer on e) h = Avoids-apply _ _ (timer-Framed k h.framed on) e
  Step-Framed {k} (device_interrupt s on e) h = Avoids-apply _ _ (device-Framed s k h.framed on) e

  module _ (d : D) (g : Garbage) (s : Setup) (main_plain : All IsPlain s.main) where
    initialize-Framed : Framed (initialize d g s)
    unfolding initialize new_thread stack_intact
    initialize-Framed = record {
      kept = λ t. ground arith;
      suspended = (main_plain, tt);
      masked = inl (main_plain, tt);
    }

    pub Reach-Safe : {k : Kernel D} → Reach image (initialize d g s) k → Safe k
    Reach-Safe here = record { framed = initialize-Framed; places_unique = initialize-Unique d g s }
    Reach-Safe (later r st) =
        let h = Reach-Safe r in
        record { framed = Step-Framed st h; places_unique = Step-Unique image st h.places_unique }

    -- In every state that a program reaches that calls neither `Condition::Wait` nor
    -- `SynchList::Remove`, under any timer and device interrupts, no assertion fails in what may run
    -- next: the kernel code of the current thread, or the handler of an interrupt that may come.
    pub no_assertion_fails :
        {k : Kernel D} {next : Command D}
        → Reach image (initialize d g s) k
        → Next image k next
        → next k ≢ abort
    no_assertion_fails {k} r the_step =
        let h = Reach-Safe r in
        Avoids-abort _ _ (stack-Framed k k.cpu refl h.framed h.places_unique)
    no_assertion_fails {k} r (the_timer on) =
        Avoids-abort _ _ (timer-Framed k (Reach-Safe r).framed on)
    no_assertion_fails {k} r (a_device sem exists on) =
        Avoids-abort _ _ (device-Framed sem k (Reach-Safe r).framed on)
