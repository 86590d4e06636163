-- ===== src/System/Progress.antt =====
-- The kernel goes on for as long as some thread is ready.
use ooplatingsistm.Base.{ℕ, ◌≡◌, ◌≢◌, refl, true, All, [], ◌∷◌, length, arith, ==_refl}
use ooplatingsistm.Queue.{Queue}
use ooplatingsistm.Kernel.{
  Kernel, Outcome, Command, Interrupt, ok, abort, crash, halt, out_of_patience,
}
use ooplatingsistm.Kernel.Frames.{IsPlain}
use ooplatingsistm.Kernel.Alive.{body_fits}
use ooplatingsistm.ThreadOps.{Garbage}
use ooplatingsistm.ThreadOps.Survival.{HandlersFit}
use ooplatingsistm.Machine.{Image, Reach}
use ooplatingsistm.Machine.Going.{Goes, Backed, v-Goes, yield_cpu-Goes, step-Goes}
use ooplatingsistm.System.{Setup, initialize}
use ooplatingsistm.System.Safe.{PlainText, Next, the_step, the_timer, a_device, no_assertion_fails}
use ooplatingsistm.System.Alive.{sizes, lists_fit, no_crash, Reach-Lives}

-- The command comes to a next state of the machine.
abbrev pub GoesOn : {D : Type 0} → Outcome D (Unit {0}) → Type 0
GoesOn {D} m = (j : Kernel D) × (m ≡ ok tt j)

goes_on : {D : Type 0} (m : Outcome D (Unit {0})) → m ≢ abort → m ≢ crash → Goes m → GoesOn m
goes_on (ok _ j) na nc g = (j, refl)
goes_on abort na nc g = absurd (na refl)
goes_on crash na nc g = absurd (nc refl)
goes_on halt na nc g = absurd g
goes_on out_of_patience na nc g = absurd g

Next-Goes :
    {D : Type 0} ⦃irq : Interrupt D⦄ (image : Image) (k : Kernel D) {next : Command D}
    → Backed k
    → Next image k next
    → Goes (next k)
Next-Goes image k b the_step = step-Goes image k b
Next-Goes image k b (the_timer on) = yield_cpu-Goes k.current k
Next-Goes image k b (a_device sem exists on) = v-Goes sem k

module _ {D : Type 0} ⦃irq : Interrupt D⦄ (image : Image) (d : D) (g : Garbage) (s : Setup)
    (handlers : HandlersFit irq (sizes s))
    (text_fits : (func arg : ℕ) → body_fits (sizes s) (image.text func arg) ≡ true)
    (main_fits : body_fits (sizes s) s.main ≡ true)
    (own_locks : lists_fit (length s.locks) s.synch_lists ≡ true)
    (text_plain : PlainText image.text) (main_plain : All IsPlain s.main)
    (patient : irq.patience ≢ 0) where
  Reach-Backed : {k : Kernel D} → Reach image (initialize d g s) k → k.ready_list ≢ [] → Backed k
  Reach-Backed {k} r some_ready = ready-Backed k.ready_list refl
    where
      ready-Backed : (ready_list : Queue) → k.ready_list ≡ ready_list → Backed k
      ready-Backed [] none_ready = absurd (some_ready none_ready)
      ready-Backed (n ∷ q) first = record {
        patient = patient;
        first = n;
        rest = q;
        ready_list = first;
        exists =
            ((Reach-Lives image d g s handlers text_fits main_fits own_locks
                r).alive.dozing.queued_run
              n (ground (arith, first, ==_refl n))).exists;
      }

  -- Take a program that names objects that exist, and calls neither `Condition::Wait` nor
  -- `SynchList::Remove`. In every state that it reaches in which some thread is ready, under any
  -- timer and device interrupts whose handlers signal semaphores that exist, whatever may run next
  -- comes to a next state: it neither fails, nor halts the machine, nor waits for interrupts. The
  -- patience of the model lets `Sleep` look for a ready thread once at least.
  pub Reach-GoesOn :
      {k : Kernel D} {next : Command D}
      → Reach image (initialize d g s) k
      → Next image k next
      → k.ready_list ≢ []
      → GoesOn (next k)
  Reach-GoesOn {k} {next} r n some_ready =
      goes_on (next k) (no_assertion_fails image text_plain d g s main_plain r n)
        (no_crash image d g s handlers text_fits main_fits own_locks r n)
        (Next-Goes image k (Reach-Backed r some_ready) n)
