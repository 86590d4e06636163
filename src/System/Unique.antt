-- ===== src/System/Unique.antt =====
-- No thread is ever in two places: in every state that the machine reaches.
use Prim.Native.String.{String}
use ooplatingsistm.Base.{
  ℕ, ◌≤◌, ◌<◌, ◌≡◌, ◌≢◌, refl, sym, ◌∙◌, ◌⊎◌, inl, inr, List, [], ◌∷◌, arith, same, count, total,
}
use ooplatingsistm.LinkedList.Heap.{Ptr, null}
use ooplatingsistm.Program.{Stmt, call_fork, Frame, body}
use ooplatingsistm.Kernel.{Kernel, Semaphore, Lock, Interrupt, ok}
use ooplatingsistm.Kernel.Outcomes.{Ensures-apply}
use ooplatingsistm.Kernel.Places.{places}
use ooplatingsistm.Wake.Places.{v-places}
use ooplatingsistm.ThreadOps.{Garbage}
use ooplatingsistm.ThreadOps.Places.{yield_cpu-places}
use ooplatingsistm.Machine.{
  Image, exec_frame, step, step-idle, step-frame, Step, go, timer, device_interrupt, Reach, here,
  later,
}
use ooplatingsistm.Machine.Places.{made_by_stmt, made, exec_frame-places}
use ooplatingsistm.Machine.Fresh.{makes_stmt, makes, exec_frame-next, v-At, yield_cpu-At}
use ooplatingsistm.Synch.{new_semaphore, new_lock}
use ooplatingsistm.System.{Setup, make_semaphores, make_locks, initialize}

made_by_stmt-cases :
    (t : Ptr) (s : Stmt) (n : Ptr)
    → (made_by_stmt t s n ≡ 0) ⊎ ((makes_stmt s ≡ 1) × (made_by_stmt t s n ≡ same n t))
made_by_stmt-cases t (call_fork name func arg) n = inr (refl, refl)
made_by_stmt-cases t _ n = inl refl

module _ {D : Type 0} where
  made-cases :
      (t : Ptr) (f : Frame) (k : Kernel D)
      → (made t f k ≡ 0) ⊎ ((makes f ≡ 1) × (made t f k ≡ same k.next_addr t))
  made-cases t (body []) k = inl refl
  made-cases t (body (s ∷ ss)) k = made_by_stmt-cases t s k.next_addr
  made-cases t _ k = inl refl

  -- Each thread is in one place at most, and only threads that were made are in any.
  pub record Unique (k : Kernel D) : Type 0 where
    pub unique : (t : Ptr) → t ≢ null → places t k ≤ 1
    pub fresh : (t : Ptr) → k.next_addr ≤ t → places t k ≡ 0
    pub started : 0 < k.next_addr

module _ {D : Type 0} ⦃irq : Interrupt D⦄ where
  frame-Unique :
      (image : Image) (f : Frame) {k j : Kernel D}
      → Unique k
      → exec_frame image f k ≡ ok tt j
      → Unique j
  frame-Unique image f {k} {j} u e =
      let next = Ensures-apply _ _ (exec_frame-next image k f) e in
      record {
        unique = λ t ne.
            let moved = Ensures-apply _ _ (exec_frame-places image t ne k f) e in
            ground (arith, moved, made-cases t f k, u.unique t, u.fresh t);
        fresh = λ t above.
            let ne : t ≢ null = omega (arith, u.started) in
            let moved = Ensures-apply _ _ (exec_frame-places image t ne k f) e in
            ground (arith, moved, made-cases t f k, u.fresh t);
        started = omega (arith, u.started);
      }

  step-Unique :
      (image : Image) {k j : Kernel D} (fs : List Frame)
      → k.cpu ≡ fs
      → Unique k
      → step image k ≡ ok tt j
      → Unique j
  step-Unique image {k} [] empty u e = absurd (step-idle image k empty e)
  step-Unique image {k} (f ∷ fs) top u e =
      frame-Unique image f {k = record k { cpu = fs }}
        (record { unique = u.unique; fresh = u.fresh; started = u.started })
        (sym (step-frame image k top) ∙ e)

  -- The step leaves the places and the next address alone.
  kept-Unique :
      {k j : Kernel D}
      → Unique k
      → ((t : Ptr) → t ≢ null → places t j ≡ places t k)
      → j.next_addr ≡ k.next_addr
      → Unique j
  kept-Unique u same_places next = record {
    unique = λ t ne. rw (same_places t ne) (u.unique t ne);
    fresh = λ t above.
        let ne : t ≢ null = omega (arith, u.started) in
        omega (arith, same_places t ne, u.fresh t (omega arith));
    started = omega (arith, u.started);
  }

  pub Step-Unique : (image : Image) {k j : Kernel D} → Step image k j → Unique k → Unique j
  Step-Unique image {k} (go e) u = step-Unique image k.cpu refl u e
  Step-Unique image {k} (timer on e) u =
      kept-Unique u (λ t ne. Ensures-apply _ _ (yield_cpu-places t ne k.current k) e)
        (Ensures-apply _ _ (yield_cpu-At k.next_addr k refl k.current) e)
  Step-Unique image {k} (device_interrupt s on e) u =
      kept-Unique u (λ t ne. Ensures-apply _ _ (v-places t k ne s) e)
        (Ensures-apply _ _ (v-At k.next_addr s k refl) e)

pub no_waiting :
    (t : Ptr) (ss : List (String × ℕ))
    → total (λ (s : Semaphore). count t s.queue) (make_semaphores ss) ≡ 0
unfolding make_semaphores new_semaphore
no_waiting t [] = refl
no_waiting t (s ∷ ss) = omega (arith, no_waiting t ss)

pub no_queue :
    (t : Ptr) (ls : List String) → total (λ (l : Lock). count t l.queue) (make_locks ls) ≡ 0
unfolding make_locks new_lock
no_queue t [] = refl
no_queue t (l ∷ ls) = omega (arith, no_queue t ls)

module _ {D : Type 0} ⦃irq : Interrupt D⦄ (d : D) (g : Garbage) (s : Setup) where
  pub initialize-Unique : Unique (initialize d g s)
  unfolding initialize
  initialize-Unique = record {
    unique = λ t ne. ground (arith, no_waiting t s.semaphores, no_queue t s.locks);
    fresh = λ t above. ground (arith, no_waiting t s.semaphores, no_queue t s.locks);
    started = omega arith;
  }

  pub Reach-all-Unique :
      (image : Image) {k : Kernel D} → Reach image (initialize d g s) k → Unique k
  Reach-all-Unique image here = initialize-Unique
  Reach-all-Unique image (later r st) = Step-Unique image st (Reach-all-Unique image r)

  -- Whatever the program, the timer and the devices do, no thread is in two places at once: none
  -- is both running and ready, waits twice, or waits for the processor after it has finished.
  pub Reach-Unique :
      (image : Image) {k : Kernel D}
      → Reach image (initialize d g s) k
      → (t : Ptr) → t ≢ null
      → places t k ≤ 1
  Reach-Unique image r = (Reach-all-Unique image r).unique
