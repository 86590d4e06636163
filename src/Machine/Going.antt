-- ===== src/Machine/Going.antt =====
-- While a thread is ready, no piece of kernel code halts the machine or waits for interrupts.
use Prim.Native.String.{String}
use ooplatingsistm.Base.{
  ℕ, ◌≡◌, ◌≢◌, ◌∙◌, refl, some, List, [], ◌∷◌, ◌==◌, arith, Option-cases, Bool-cases, inl, inr,
  get_elem?,
}
use ooplatingsistm.LinkedList.Heap.{Ptr, null}
use ooplatingsistm.Queue.{Queue, remove}
use ooplatingsistm.Queue.Refine.{is_empty}
use ooplatingsistm.Program.{
  Stmt, printf, call_yield, call_fork, call_p, call_v, call_acquire, call_release, call_wait,
  call_signal, call_broadcast, call_put, call_mapcar, call_take, Frame, thread_root, body,
  thread_finish, after_switch, restore_level, p_loop, acquire_loop, put_locked, map_locked,
  take_locked,
}
use ooplatingsistm.Thread.{Entries, set_status, blocked}
use ooplatingsistm.Kernel.{
  Kernel, Interrupt, Outcome, Cmd, ok, abort, crash, halt, out_of_patience, and_then, ◌>>=◌,
}
use ooplatingsistm.Scheduler.{run, ready_to_run, finish_run, load_thread, change_status, update}
use ooplatingsistm.Wake.{v, ready_unless_null}
use ooplatingsistm.ThreadOps.{Garbage, create, fork, yield_cpu, sleep, finish}
use ooplatingsistm.ThreadOps.Leave.{next_or_idle-first}
use ooplatingsistm.ThreadOps.Stacks.{pushed}
use ooplatingsistm.Synch.{p, p_wait, acquire, acquire_wait, release}
use ooplatingsistm.Synchlist.{put, put_rest, mapcar, mapcar_rest, take, take_rest}
use ooplatingsistm.Machine.{Image, exec_stmt, enter_root, exec_frame, step, step-frame}

-- The command neither halts the machine nor runs out of patience.
abbrev pub Goes : {D A : Type 0} → Outcome D A → Type 0
Goes halt = ⊥
Goes out_of_patience = ⊥
Goes _ = Unit

Goes-then :
    {D A B : Type 0} (m : Outcome D A) (f : A → Cmd D B)
    → Goes m
    → ((a : A) (k : Kernel D) → Goes (f a k))
    → Goes (and_then m f)
Goes-then (ok a k) f g next = next a k
Goes-then abort f g next = tt
Goes-then crash f g next = tt
Goes-then halt f g next = absurd g
Goes-then out_of_patience f g next = absurd g

module _ {D : Type 0} where
  run-Goes : (n : Ptr) (k : Kernel D) → Goes (run n k)
  unfolding run
  run-Goes n k = ground arith

  finish_run-Goes : (k : Kernel D) → Goes (finish_run k)
  unfolding finish_run
  finish_run-Goes k = ground arith

  ready_unless_null-Goes : (t : Ptr) (k : Kernel D) → Goes (ready_unless_null t k)
  unfolding ready_unless_null ready_to_run
  ready_unless_null-Goes t k = ground arith

module _ {D : Type 0} ⦃irq : Interrupt D⦄ where
  pub v-Goes : (s : ℕ) (k : Kernel D) → Goes (v s k)
  unfolding v ready_unless_null ready_to_run
  v-Goes s k = ground arith

  release-Goes : (l : ℕ) (k : Kernel D) → Goes (release l k)
  unfolding release ready_unless_null ready_to_run
  release-Goes l k = ground arith

  pub yield_cpu-Goes : (this : Ptr) (k : Kernel D) → Goes (yield_cpu this k)
  unfolding yield_cpu run
  yield_cpu-Goes this k = ground arith

  create-fork-Goes :
      (g : Garbage) (e : Entries) (name : String) (func arg : ℕ) (k : Kernel D)
      → Goes ((create g name >>= λ t. fork g e t func arg) k)
  unfolding create fork ready_to_run
  create-fork-Goes g e name func arg k = ground arith

  -- Some thread is ready, and the model lets `Sleep` look for it.
  pub record Backed (k : Kernel D) : Type 0 where
    pub patient : irq.patience ≢ 0
    pub first : Ptr
    pub rest : Queue
    pub ready_list : k.ready_list ≡ first ∷ rest
    pub exists : first ≢ null

  same-Backed : (k j : Kernel D) → Backed k → j.ready_list ≡ k.ready_list → Backed j
  same-Backed k j b same = record {
    patient = b.patient;
    first = b.first;
    rest = b.rest;
    ready_list = same ∙ b.ready_list;
    exists = b.exists;
  }

  sleep-Goes : (this : Ptr) (k : Kernel D) → Backed k → Goes (sleep this k)
  unfolding sleep change_status run
  sleep-Goes this k b = elim (Option-cases (k.thread this)) [
    | inl gone ↦ ground (arith, gone)
    | inr (c, here) ↦ ground (
      arith,
      here,
      next_or_idle-first (record k { thread = update k.thread this (some (set_status blocked c)) })
          b.ready_list b.exists irq.patience b.patient,
    )
  ]

  finish-Goes : (this : Ptr) (k : Kernel D) → Backed k → Goes (finish this k)
  unfolding finish
  finish-Goes this k b = elim (Bool-cases (this == k.current)) [
    | inr wrong ↦ rw wrong tt
    | inl mine ↦ rw mine (sleep-Goes this _ (same-Backed k _ b refl))
  ]

  p_wait-Goes : (s : ℕ) (k : Kernel D) → Backed k → Goes (p_wait s k)
  unfolding p_wait
  p_wait-Goes s k b = elim (Option-cases (get_elem? k.semaphores s)) [
    | inl missing ↦ rw missing tt
    | inr (c, there) ↦ rw there (elim (Bool-cases (c.value == 0)) [
      | inr some_value ↦ rw some_value tt
      | inl zero_value ↦ rw zero_value (sleep-Goes k.current _ (same-Backed k _ b refl))
    ])
  ]

  acquire_wait-Goes : (l : ℕ) (k : Kernel D) → Backed k → Goes (acquire_wait l k)
  unfolding acquire_wait
  acquire_wait-Goes l k b = elim (Option-cases (get_elem? k.locks l)) [
    | inl missing ↦ rw missing tt
    | inr (c, there) ↦ rw there (elim (Bool-cases (c.held == 0)) [
      | inl free ↦ rw free tt
      | inr busy ↦ rw busy (sleep-Goes k.current _ (same-Backed k _ b refl))
    ])
  ]

  p-Goes : (s : ℕ) (k : Kernel D) → Backed k → Goes (p s k)
  unfolding p
  p-Goes s k b = p_wait-Goes s _ (same-Backed k _ b refl)

  acquire-Goes : (l : ℕ) (k : Kernel D) → Backed k → Goes (acquire l k)
  unfolding acquire
  acquire-Goes l k b = acquire_wait-Goes l _ (same-Backed k _ b refl)

  put_rest-Goes : (i : ℕ) (item : Ptr) (k : Kernel D) → Goes (put_rest i item k)
  unfolding put_rest
  put_rest-Goes i item k = elim (Option-cases (get_elem? k.synch_lists i)) [
    | inl missing ↦ rw missing tt
    | inr (c, there) ↦ rw there (release-Goes c.lock _)
  ]

  mapcar_rest-Goes : (i : ℕ) (format : String) (k : Kernel D) → Goes (mapcar_rest i format k)
  unfolding mapcar_rest
  mapcar_rest-Goes i format k = elim (Option-cases (get_elem? k.synch_lists i)) [
    | inl missing ↦ rw missing tt
    | inr (c, there) ↦ rw there (release-Goes c.lock _)
  ]

  take_rest-Goes : (i : ℕ) (k : Kernel D) → Goes (take_rest i k)
  unfolding take_rest
  take_rest-Goes i k = elim (Option-cases (get_elem? k.synch_lists i)) [
    | inl missing ↦ rw missing tt
    | inr (c, there) ↦ rw there (elim (Bool-cases (is_empty c.list)) [
      | inl empty ↦ rw empty tt
      | inr some_item ↦ rw some_item (elim (Bool-cases ((remove c.list).0 == null)) [
        | inl nothing ↦ rw nothing tt
        | inr something ↦
            rw something (Goes-then (release c.lock _) _ (release-Goes c.lock _) λ _ j. tt)
      ])
    ])
  ]

  locked-Goes : (l : ℕ) (f : Frame) (k : Kernel D) → Backed k → Goes (acquire l (pushed k (f ∷ [])))
  locked-Goes l f k b = acquire-Goes l _ (same-Backed k _ b refl)

  exec_stmt-Goes : (image : Image) (x : Stmt) (k : Kernel D) → Backed k → Goes (exec_stmt image x k)
  unfolding exec_stmt put take mapcar
  exec_stmt-Goes image (printf format args) k b = tt
  exec_stmt-Goes image call_yield k b = yield_cpu-Goes k.current k
  exec_stmt-Goes image (call_fork name func arg) k b =
      create-fork-Goes image.garbage image.entries name func arg k
  exec_stmt-Goes image (call_p s) k b = p-Goes s k b
  exec_stmt-Goes image (call_v s) k b = v-Goes s k
  exec_stmt-Goes image (call_acquire l) k b = acquire-Goes l k b
  exec_stmt-Goes image (call_release l) k b = release-Goes l k
  exec_stmt-Goes image (call_wait l) k b = tt
  exec_stmt-Goes image (call_signal l) k b = tt
  exec_stmt-Goes image (call_broadcast l) k b = tt
  exec_stmt-Goes image (call_put i item) k b = elim (Option-cases (get_elem? k.synch_lists i)) [
    | inl missing ↦ rw missing tt
    | inr (c, there) ↦ rw there (locked-Goes c.lock (put_locked i item) k b)
  ]
  exec_stmt-Goes image (call_mapcar i format) k b =
      elim (Option-cases (get_elem? k.synch_lists i)) [
        | inl missing ↦ rw missing tt
        | inr (c, there) ↦ rw there (locked-Goes c.lock (map_locked i format) k b)
      ]
  exec_stmt-Goes image (call_take i) k b = elim (Option-cases (get_elem? k.synch_lists i)) [
    | inl missing ↦ rw missing tt
    | inr (c, there) ↦ rw there (locked-Goes c.lock (take_locked i) k b)
  ]

  enter_root-Goes : (image : Image) (k : Kernel D) → Goes (enter_root image k)
  unfolding enter_root load_thread
  enter_root-Goes image k = ground arith

  exec_frame-Goes :
      (image : Image) (f : Frame) (k : Kernel D) → Backed k → Goes (exec_frame image f k)
  unfolding exec_frame
  exec_frame-Goes image thread_root k b = enter_root-Goes image k
  exec_frame-Goes image (body []) k b = tt
  exec_frame-Goes image (body (x ∷ ss)) k b =
      exec_stmt-Goes image x (pushed k (body ss ∷ [])) (same-Backed k _ b refl)
  exec_frame-Goes image thread_finish k b = finish-Goes k.current k b
  exec_frame-Goes image after_switch k b = finish_run-Goes k
  exec_frame-Goes image (restore_level l) k b = tt
  exec_frame-Goes image (p_loop s) k b = p_wait-Goes s k b
  exec_frame-Goes image (acquire_loop l) k b = acquire_wait-Goes l k b
  exec_frame-Goes image (put_locked i item) k b = put_rest-Goes i item k
  exec_frame-Goes image (map_locked i format) k b = mapcar_rest-Goes i format k
  exec_frame-Goes image (take_locked i) k b = take_rest-Goes i k

  pub step-Goes : (image : Image) (k : Kernel D) → Backed k → Goes (step image k)
  unfolding step
  step-Goes image k b = stack-Goes k.cpu refl
    where
      stack-Goes : (fs : List Frame) → k.cpu ≡ fs → Goes (step image k)
      stack-Goes [] empty = rw (empty, step) tt
      stack-Goes (f ∷ fs) top =
          rw (step-frame image k top) (exec_frame-Goes image f _ (same-Backed k _ b refl))
