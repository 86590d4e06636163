-- ===== src/System/Statuses.antt =====
-- The status of a thread says where it is: in every state that the machine reaches.
use ooplatingsistm.Base.{◌≡◌, ◌≢◌, ◌↔◌, refl, sym, ◌∙◌, some, List, [], ◌∷◌, arith, count}
use ooplatingsistm.LinkedList.Heap.{Ptr, null}
use ooplatingsistm.Program.{Frame}
use ooplatingsistm.Thread.{running, ready, blocked, new_thread}
use ooplatingsistm.Kernel.{Kernel, Interrupt, ok}
use ooplatingsistm.Kernel.Outcomes.{Ensures-apply}
use ooplatingsistm.Kernel.Places.{waiting}
use ooplatingsistm.Kernel.Statuses.{status_of, Agrees}
use ooplatingsistm.ThreadOps.{Garbage}
use ooplatingsistm.ThreadOps.Statuses.{v-Agrees, yield_cpu-Agrees}
use ooplatingsistm.Machine.{
  Image, step, step-idle, step-frame, Step, go, timer, device_interrupt, Reach, here, later,
}
use ooplatingsistm.Machine.Statuses.{exec_frame-Agrees}
use ooplatingsistm.System.{Setup, initialize}
use ooplatingsistm.System.Unique.{Unique, no_waiting, no_queue, Reach-all-Unique}

module _ {D : Type 0} ⦃irq : Interrupt D⦄ (image : Image) (t : Ptr) (ne : t ≢ null) where
  stack-Agrees :
      {k j : Kernel D} (fs : List Frame)
      → k.cpu ≡ fs
      → Agrees t k
      → Unique k
      → step image k ≡ ok tt j
      → Agrees t j
  stack-Agrees {k} [] empty h u e = absurd (step-idle image k empty e)
  stack-Agrees {k} (f ∷ fs) top h u e =
      let fresh = u.fresh k.next_addr (omega arith) in
      Ensures-apply _ _
        (exec_frame-Agrees t ne image f (record k { cpu = fs }) h (ground (arith, fresh))
          (λ mine. ground (arith, fresh, mine)))
        (sym (step-frame image k top) ∙ e)

  Step-Agrees : {k j : Kernel D} → Step image k j → Agrees t k → Unique k → Agrees t j
  Step-Agrees {k} (go e) h u = stack-Agrees k.cpu refl h u e
  Step-Agrees {k} (timer on e) h u = Ensures-apply _ _ (yield_cpu-Agrees t ne k h) e
  Step-Agrees {k} (device_interrupt sem on e) h u =
      (Ensures-apply _ _ (v-Agrees t ne sem k h.0) e).1 h

module _ {D : Type 0} ⦃irq : Interrupt D⦄ (image : Image) (d : D) (g : Garbage) (s : Setup) where
  initialize-Agrees : (t : Ptr) → t ≢ null → Agrees t (initialize d g s)
  unfolding initialize new_thread
  initialize-Agrees t ne = ground (arith, ne, no_waiting t s.semaphores, no_queue t s.locks)

  Reach-Agrees :
      (t : Ptr) → t ≢ null → {k : Kernel D} → Reach image (initialize d g s) k → Agrees t k
  Reach-Agrees t ne here = initialize-Agrees t ne
  Reach-Agrees t ne (later r st) =
      Step-Agrees image t ne st (Reach-Agrees t ne r) (Reach-all-Unique d g s image r)

  -- In every state that a program reaches, under any timer and device interrupts, the thread that
  -- has the status RUNNING is the current one, the threads that are READY are those of the ready
  -- list, and each thread in the queue of a semaphore or a lock is BLOCKED, as is the one that is to
  -- be destroyed.
  pub statuses_agree :
      {k : Kernel D} (t : Ptr)
      → t ≢ null
      → Reach image (initialize d g s) k
      → ((status_of (k.thread t) ≡ some running) ↔ (k.current ≡ t))
        × ((status_of (k.thread t) ≡ some ready) ↔ (count t k.ready_list ≢ 0))
        × (waiting t k ≢ 0 → status_of (k.thread t) ≡ some blocked)
        × (k.to_be_destroyed ≡ t → status_of (k.thread t) ≡ some blocked)
  statuses_agree t ne r = let h = Reach-Agrees t ne r in ((h.2, h.1), (h.0.4, h.0.0), h.0.1, h.0.2)
