-- ===== src/Machine/Sections.antt =====
-- A step of the machine keeps mutual exclusion.
use ooplatingsistm.Base.{ℕ, ◌≡◌, refl, ◌⊎◌, inl, inr, true, List, [], ◌∷◌, arith, Option-cases}
use ooplatingsistm.LinkedList.Heap.{null}
use ooplatingsistm.Program.{
  Stmt, printf, call_yield, call_fork, call_p, call_v, call_acquire, call_release, call_wait,
  call_signal, call_broadcast, call_put, call_mapcar, call_take, Frame, thread_root, body,
  thread_finish, after_switch, restore_level, p_loop, acquire_loop, put_locked, map_locked,
  take_locked,
}
use ooplatingsistm.Thread.{initial_pc_state, initial_arg_state}
use ooplatingsistm.Kernel.{Kernel, Interrupt}
use ooplatingsistm.Kernel.Outcomes.{Ensures, Ensures-mono, Ensures-all}
use ooplatingsistm.Scheduler.{load_thread, finish_run}
use ooplatingsistm.Wake.{v}
use ooplatingsistm.ThreadOps.{finish}
use ooplatingsistm.ThreadOps.Stacks.{finish-Quiet, finish_run-stacks, v-Quiet, pushed}
use ooplatingsistm.Synch.Brackets.{holds, well_bracketed}
use ooplatingsistm.Synch.Exclusion.{Exclusive, Exclusive-mono, Exclusive-cpu, cpu-brackets}
use ooplatingsistm.Synch.Sections.{
  Quiet-Exclusive, acquire-Exclusive, acquire_wait-Exclusive, release-Exclusive, p_wait-Exclusive,
}
use ooplatingsistm.Machine.{Image, exec_stmt, enter_root, exec_frame}
use ooplatingsistm.Machine.Exclusion.{
  body_holds-cons, body_bracketed-cons, replace-Exclusive, p-Exclusive, yield_cpu-Exclusive,
  call_fork-Exclusive, put-Exclusive, put_rest-Exclusive, mapcar-Exclusive, mapcar_rest-Exclusive,
  take-Exclusive, take_rest-Exclusive,
}

module _ (lock_of : ℕ → ℕ) (l : ℕ) {D : Type 0} ⦃irq : Interrupt D⦄ (image : Image) where
  exec_stmt-Exclusive :
      (s : Stmt) (k : Kernel D)
      → Exclusive lock_of l (pushed k (body (s ∷ []) ∷ []))
      → Ensures (λ _ j. Exclusive lock_of l j) (exec_stmt image s k)
  unfolding exec_stmt
  exec_stmt-Exclusive (printf format args) k h =
      Exclusive-mono lock_of l (pushed k []) _
        (replace-Exclusive lock_of l k (body (printf format args ∷ []) ∷ []) [] h refl (λ b. b))
        (λ t. inl refl) refl refl
  exec_stmt-Exclusive call_yield k h =
      yield_cpu-Exclusive lock_of l k
        (replace-Exclusive lock_of l k (body (call_yield ∷ []) ∷ []) [] h refl (λ b. b))
  exec_stmt-Exclusive (call_fork name func arg) k h =
      call_fork-Exclusive lock_of l image.garbage image.entries name func arg k (
        replace-Exclusive lock_of l k (body (call_fork name func arg ∷ []) ∷ []) [] h refl (λ b. b))
  exec_stmt-Exclusive (call_p s) k h =
      p-Exclusive lock_of l s k
        (replace-Exclusive lock_of l k (body (call_p s ∷ []) ∷ []) [] h refl (λ b. b))
  exec_stmt-Exclusive (call_v s) k h = Ensures-mono _ _ (v s k) (v-Quiet k s) λ _ j.
      Quiet-Exclusive lock_of l k j
        (replace-Exclusive lock_of l k (body (call_v s ∷ []) ∷ []) [] h refl (λ b. b))
  exec_stmt-Exclusive (call_acquire m) k h = acquire-Exclusive lock_of l m k h
  exec_stmt-Exclusive (call_release m) k h = release-Exclusive lock_of l m k h
  exec_stmt-Exclusive (call_wait m) k h = tt
  exec_stmt-Exclusive (call_signal m) k h =
      replace-Exclusive lock_of l k (body (call_signal m ∷ []) ∷ []) [] h refl (λ b. b)
  exec_stmt-Exclusive (call_broadcast m) k h =
      replace-Exclusive lock_of l k (body (call_broadcast m ∷ []) ∷ []) [] h refl (λ b. b)
  exec_stmt-Exclusive (call_put i item) k h = put-Exclusive lock_of l i item k h
  exec_stmt-Exclusive (call_mapcar i format) k h = mapcar-Exclusive lock_of l i format k h
  exec_stmt-Exclusive (call_take i) k h = take-Exclusive lock_of l i k h

  module _ (text_ok : (func arg : ℕ) → well_bracketed lock_of l (image.text func arg) ≡ true) where
    enter_root-Exclusive :
        (k : Kernel D)
        → Exclusive lock_of l (pushed k (thread_root ∷ []))
        → Ensures (λ _ j. Exclusive lock_of l j) (enter_root image k)
    unfolding enter_root load_thread
    enter_root-Exclusive k h = elim (Option-cases (k.thread k.current)) [
      | inl gone ↦ rw gone tt
      | inr (c, here) ↦ rw here (
          Exclusive-cpu lock_of l (pushed k (thread_root ∷ [])) (irq.enable k.device) _ h
            (ground (
              arith,
              cpu-brackets lock_of l (pushed k (thread_root ∷ [])) h,
              text_ok (c.machine_state initial_pc_state) (c.machine_state initial_arg_state),
            ))
            (ground (
              arith,
              cpu-brackets lock_of l (pushed k (thread_root ∷ [])) h,
              text_ok (c.machine_state initial_pc_state) (c.machine_state initial_arg_state),
            )))
    ]

    -- The frame `f` has been taken from the top of the stack.
    pub exec_frame-Exclusive :
        (f : Frame) (k : Kernel D)
        → Exclusive lock_of l (pushed k (f ∷ []))
        → Ensures (λ _ j. Exclusive lock_of l j) (exec_frame image f k)
    unfolding exec_frame
    exec_frame-Exclusive thread_root k h = enter_root-Exclusive k h
    exec_frame-Exclusive (body []) k h =
        replace-Exclusive lock_of l k (body [] ∷ []) [] h refl λ b. b
    exec_frame-Exclusive (body (s ∷ ss)) k h = exec_stmt-Exclusive s (pushed k (body ss ∷ [])) (
        replace-Exclusive lock_of l k (body (s ∷ ss) ∷ []) (body (s ∷ []) ∷ body ss ∷ []) h
          (body_holds-cons lock_of l s ss (holds lock_of l k.cpu))
          λ b. ground (arith, b, body_bracketed-cons lock_of l s ss (holds lock_of l k.cpu)))
    exec_frame-Exclusive thread_finish k h =
        let h' : Exclusive lock_of l k =
          replace-Exclusive lock_of l k (thread_finish ∷ []) [] h refl (λ b. ground (arith, b)) in
        Ensures-mono _ _ (finish k.current k) (finish-Quiet k)
          λ _ j. Quiet-Exclusive lock_of l k j h'
    exec_frame-Exclusive after_switch k h =
        let h' : Exclusive lock_of l k =
          replace-Exclusive lock_of l k (after_switch ∷ []) [] h refl (λ b. b) in
        Ensures-mono _ _ (finish_run k) (Ensures-all _ (finish_run k) (finish_run-stacks k))
          λ _ j same.
            Exclusive-mono lock_of l k j h' (λ t. shrink (same t).0) (same null).1 (same null).2
      where
        shrink :
            {fs gs : List Frame}
            → (fs ≡ gs) ⊎ (fs ≡ [])
            → (fs ≡ gs) ⊎ ((fs ≡ []) ⊎ (fs ≡ thread_root ∷ []))
        shrink (inl e) = inl e
        shrink (inr e) = inr (inl e)
    exec_frame-Exclusive (restore_level v) k h =
        Exclusive-cpu lock_of l (pushed k (restore_level v ∷ [])) (irq.set_level v k.device) k.cpu h
          refl (cpu-brackets lock_of l (pushed k (restore_level v ∷ [])) h)
    exec_frame-Exclusive (p_loop s) k h =
        p_wait-Exclusive lock_of l s k
          (replace-Exclusive lock_of l k (p_loop s ∷ []) [] h refl λ b. b)
    exec_frame-Exclusive (acquire_loop m) k h = acquire_wait-Exclusive lock_of l m k h
    exec_frame-Exclusive (put_locked i item) k h = put_rest-Exclusive lock_of l i item k h
    exec_frame-Exclusive (map_locked i format) k h = mapcar_rest-Exclusive lock_of l i format k h
    exec_frame-Exclusive (take_locked i) k h = take_rest-Exclusive lock_of l i k h
