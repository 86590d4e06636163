-- ===== src/Machine/Served.antt =====
-- A step of the machine loses no unit of a semaphore, and no free lock.
use Prim.Native.String.{String}
use ooplatingsistm.Base.{
  ℕ, ◌≤◌, ◌≡◌, ◌≢◌, refl, sym, ap, ◌⊎◌, inl, inr, [], ◌∷◌, ◌==◌, ==_refl, arith, Option-cases,
  Bool-cases, get_elem?, set, total-append, total-ext,
}
use ooplatingsistm.LinkedList.Heap.{Ptr, null}
use ooplatingsistm.Queue.{remove}
use ooplatingsistm.Kernel.{Kernel, Interrupt}
use ooplatingsistm.Kernel.Outcomes.{Ensures, Ensures-bind, Ensures-mono, Ensures-all}
use ooplatingsistm.Kernel.Stacks.{strip, stack_of}
use ooplatingsistm.Kernel.Supply.{Awaited, queued-supply}
use ooplatingsistm.Kernel.Served.{retries, Served, Served-mono}
use ooplatingsistm.Wake.{v}
use ooplatingsistm.Thread.{Entries}
use ooplatingsistm.Kernel.{◌>>=◌}
use ooplatingsistm.Kernel.Alive.{queued}
use ooplatingsistm.Scheduler.{finish_run}
use ooplatingsistm.ThreadOps.{Garbage, create, fork}
use ooplatingsistm.ThreadOps.Served.{AllServed}
use ooplatingsistm.Synch.{acquire, release}
use ooplatingsistm.Synch.LockServed.{acquire_wait-Served}
use ooplatingsistm.Synch.Served.{cpu-Served, p_wait-Served}
use ooplatingsistm.Program.{
  Stmt, printf, call_yield, call_fork, call_p, call_v, call_acquire, call_release, call_wait,
  call_signal, call_broadcast, call_put, call_mapcar, call_take, Frame, thread_root, body,
  thread_finish, after_switch, restore_level, p_loop, acquire_loop, put_locked, map_locked,
  take_locked,
}
use ooplatingsistm.Queue.Refine.{is_empty}
use ooplatingsistm.Scheduler.{load_thread}
use ooplatingsistm.Synch.Units.{
  kept-Served, v-AllServed, release-Served, p-Served, acquire-Served, finish-Served,
  yield_cpu-Served, create-fork-writes, finish_run-writes,
}
use ooplatingsistm.Synchlist.{put, put_rest, mapcar, mapcar_rest, take, take_rest}
use ooplatingsistm.ThreadOps.Stacks.{pushed}
use ooplatingsistm.Machine.{Image, exec_stmt, enter_root, exec_frame}
use ooplatingsistm.Machine.Alive.{Apart}

module _ {D : Type 0} ⦃irq : Interrupt D⦄ (s : Awaited) (k : Kernel D) (h : Served s 0 k)
    (ne : k.current ≢ null) (apart : Apart k) where
  create-fork-Served :
      (g : Garbage) (e : Entries) (name : String) (func arg : ℕ)
      → Ensures (λ _ j. AllServed s j) ((create g name >>= λ t. fork g e t func arg) k)
  create-fork-Served g e name func arg =
      let m = (create g name >>= λ t. fork g e t func arg) k in
      Ensures-mono _ _ m (Ensures-all _ m (create-fork-writes g e name func arg k)) λ _ j w.
        Served-mono s 0 (retries s (stack_of j j.current)) k j h (rw ((w null).1, (w null).2) refl)
          (λ c at t some_t.
            (w t).0 (λ e. ground (arith, e, some_t, apart.fresh_apart.2, queued-supply s k c t at)))
          (rw ((w null).0 (λ e. apart.fresh_apart.0 (sym e))) h.null_idle)
          (ground (
            arith,
            (w null).3,
            total-append (λ t. retries s (stack_of j t)) k.ready_list (k.next_addr ∷ []),
            total-ext (λ t. retries s (stack_of j t)) (λ t. retries s (stack_of k t)) k.ready_list
                (λ t some_t.
                  ap (retries s) ((w t).0 (λ e. ground (arith, e, some_t, apart.fresh_apart.2)))),
          ))

  put_rest-Served : (i : ℕ) (item : Ptr) → Ensures (λ _ j. AllServed s j) (put_rest i item k)
  unfolding put_rest
  put_rest-Served i item = elim (Option-cases (get_elem? k.synch_lists i)) [
    | inl missing ↦ rw missing tt
    | inr (c, there) ↦ rw there (
        release-Served s c.lock _
          (record { in_loop = h.in_loop; spoken_for = h.spoken_for; null_idle = h.null_idle }))
  ]

  mapcar_rest-Served :
      (i : ℕ) (format : String) → Ensures (λ _ j. AllServed s j) (mapcar_rest i format k)
  unfolding mapcar_rest
  mapcar_rest-Served i format = elim (Option-cases (get_elem? k.synch_lists i)) [
    | inl missing ↦ rw missing tt
    | inr (c, there) ↦ rw there (
        release-Served s c.lock _
          (record { in_loop = h.in_loop; spoken_for = h.spoken_for; null_idle = h.null_idle }))
  ]

  take_rest-Served : (i : ℕ) → Ensures (λ _ j. AllServed s j) (take_rest i k)
  unfolding take_rest
  take_rest-Served i = elim (Option-cases (get_elem? k.synch_lists i)) [
    | inl missing ↦ rw missing tt
    | inr (c, there) ↦
        let k' : Kernel D = record k {
          synch_lists = set k.synch_lists i (record c { list = (remove c.list).1 });
        } in
        rw there (elim (Bool-cases (is_empty c.list)) [
          | inl empty ↦ rw empty tt
          | inr some_item ↦ rw some_item (elim (Bool-cases ((remove c.list).0 == null)) [
            | inl nothing ↦ rw nothing tt
            | inr something ↦ rw something (
                Ensures-bind _ _ (release c.lock k') _
                  (release-Served s c.lock k' (record {
                    in_loop = h.in_loop;
                    spoken_for = h.spoken_for;
                    null_idle = h.null_idle;
                  }))
                  λ _ j a. record {
                    in_loop = a.in_loop;
                    spoken_for = a.spoken_for;
                    null_idle = a.null_idle;
                  })
          ])
        ])
  ]

  -- The current thread is in no queue, so that what it has to do may change.
  locked-Served :
      (l : ℕ) (f : Frame) → Ensures (λ _ j. AllServed s j) (acquire l (pushed k (f ∷ [])))
  locked-Served l f =
      acquire-Served s (pushed k (f ∷ []))
        (cpu-Served s 0 0 k k.device (f ∷ k.cpu) h ne apart.current_apart (omega arith)) ne
        apart.current_apart l

  exec_stmt-Served :
      (image : Image) (x : Stmt) → Ensures (λ _ j. AllServed s j) (exec_stmt image x k)
  unfolding exec_stmt put take mapcar
  exec_stmt-Served image (printf format args) = kept-Served s k _ h (λ t. refl) refl refl
  exec_stmt-Served image call_yield = yield_cpu-Served s k h ne apart.current_apart
  exec_stmt-Served image (call_fork name func arg) =
      create-fork-Served image.garbage image.entries name func arg
  exec_stmt-Served image (call_p m) = p-Served s k h ne apart.current_apart m
  exec_stmt-Served image (call_v m) = v-AllServed s m k h
  exec_stmt-Served image (call_acquire l) = acquire-Served s k h ne apart.current_apart l
  exec_stmt-Served image (call_release l) = release-Served s l k h
  exec_stmt-Served image (call_wait l) = tt
  exec_stmt-Served image (call_signal l) = kept-Served s k k h (λ t. refl) refl refl
  exec_stmt-Served image (call_broadcast l) = kept-Served s k k h (λ t. refl) refl refl
  exec_stmt-Served image (call_put i item) = elim (Option-cases (get_elem? k.synch_lists i)) [
    | inl missing ↦ rw missing tt
    | inr (c, there) ↦ rw there (locked-Served c.lock (put_locked i item))
  ]
  exec_stmt-Served image (call_mapcar i format) = elim (Option-cases (get_elem? k.synch_lists i)) [
    | inl missing ↦ rw missing tt
    | inr (c, there) ↦ rw there (locked-Served c.lock (map_locked i format))
  ]
  exec_stmt-Served image (call_take i) = elim (Option-cases (get_elem? k.synch_lists i)) [
    | inl missing ↦ rw missing tt
    | inr (c, there) ↦ rw there (locked-Served c.lock (take_locked i))
  ]

  enter_root-Served : (image : Image) → Ensures (λ _ j. AllServed s j) (enter_root image k)
  unfolding enter_root load_thread
  enter_root-Served image = elim (Option-cases (k.thread k.current)) [
    | inl gone ↦ rw gone tt
    | inr (c, here) ↦
        rw here (cpu-Served s 0 _ k (irq.enable k.device) _ h ne apart.current_apart (omega arith))
  ]

module _ {D : Type 0} ⦃irq : Interrupt D⦄ (s : Awaited) (image : Image) where
  finish_run-Served :
      (k : Kernel D)
      → AllServed s k
      → k.current ≢ null
      → Apart k
      → Ensures (λ _ j. AllServed s j) (finish_run k)
  finish_run-Served k h ne apart =
      Ensures-mono _ _ (finish_run k) (Ensures-all _ (finish_run k) (finish_run-writes k)) λ _ j w.
        Served-mono s (retries s (stack_of k k.current)) (retries s (stack_of j j.current)) k j h
          (rw ((w null).1, (w null).2) refl)
          (λ c at t some_t. (w t).0 (elsewhere t (omega (arith, queued-supply s k c t at)) some_t))
          (rw ((w null).0 (inr refl)) h.null_idle)
          (ground (
            arith,
            (w null).3,
            ap (retries s) ((w k.current).0 (goes_on k.current refl)),
            (w k.current).4,
            total-ext (λ t. retries s (stack_of j t)) (λ t. retries s (stack_of k t)) k.ready_list
                (λ t some_t. ap (retries s) ((w t).0 (elsewhere t (omega arith) some_t))),
          ))
    where
      goes_on : (t : Ptr) → t ≡ k.current → (t ≢ k.to_be_destroyed) ⊎ (t ≡ null)
      goes_on t e = inl λ e'. ground (arith, e, e', ne, apart.finished_apart)

      elsewhere : (t : Ptr) {n : ℕ} → n ≤ queued t k → n ≢ 0 → (t ≢ k.to_be_destroyed) ⊎ (t ≡ null)
      elsewhere t le some_t = elim (Bool-cases (t == null)) [
        | inl is_null ↦ inr (ground (arith, is_null))
        | inr alive ↦ inl λ e. ground (arith, e, alive, le, some_t, apart.finished_apart)
      ]

  popped :
      (f : Frame) (k : Kernel D) (e : ℕ)
      → AllServed s (pushed k (f ∷ []))
      → k.current ≢ null
      → Apart k
      → retries s (strip (f ∷ k.cpu)) ≤ e
      → Served s e k
  popped f k e h ne apart le =
      cpu-Served s (retries s (stack_of (pushed k (f ∷ [])) k.current)) e (pushed k (f ∷ []))
        k.device k.cpu h ne apart.current_apart (ground (arith, le, ==_refl k.current))

  -- The frame `f` has been taken from the top of the stack.
  pub exec_frame-Served :
      (f : Frame) (k : Kernel D)
      → AllServed s (pushed k (f ∷ []))
      → k.current ≢ null
      → Apart k
      → Ensures (λ _ j. AllServed s j) (exec_frame image f k)
  unfolding exec_frame
  exec_frame-Served thread_root k h ne apart =
      enter_root-Served s k (popped thread_root k 0 h ne apart (omega arith)) ne apart image
  exec_frame-Served (body []) k h ne apart =
      kept-Served s k k (popped (body []) k 0 h ne apart (omega arith)) (λ t. refl) refl refl
  exec_frame-Served (body (x ∷ ss)) k h ne apart =
      exec_stmt-Served s (pushed k (body ss ∷ []))
        (cpu-Served s 0 0 k k.device (body ss ∷ k.cpu)
          (popped (body (x ∷ ss)) k 0 h ne apart (omega arith)) ne apart.current_apart
          (omega arith))
        ne
        (record {
          current_apart = apart.current_apart;
          finished_apart = apart.finished_apart;
          fresh_apart = apart.fresh_apart;
        })
        image x
  exec_frame-Served thread_finish k h ne apart =
      finish-Served s k (popped thread_finish k 0 h ne apart (omega arith)) ne apart.current_apart
  exec_frame-Served after_switch k h ne apart =
      finish_run-Served k
        (popped after_switch k (retries s (stack_of k k.current)) h ne apart
          (ground (arith, ==_refl k.current)))
        ne apart
  exec_frame-Served (restore_level v) k h ne apart =
      cpu-Served s 0 _ k (irq.set_level v k.device) k.cpu
        (popped (restore_level v) k 0 h ne apart (omega arith)) ne apart.current_apart (omega arith)
  exec_frame-Served (p_loop m) k h ne apart =
      p_wait-Served s m k (popped (p_loop m) k (retries s (p_loop m ∷ [])) h ne apart (omega arith))
        ne apart.current_apart
  exec_frame-Served (acquire_loop l) k h ne apart =
      acquire_wait-Served s l k
        (popped (acquire_loop l) k (retries s (acquire_loop l ∷ [])) h ne apart (omega arith)) ne
        apart.current_apart
  exec_frame-Served (put_locked i item) k h ne apart =
      put_rest-Served s k (popped (put_locked i item) k 0 h ne apart (omega arith)) ne apart i item
  exec_frame-Served (map_locked i format) k h ne apart =
      mapcar_rest-Served s k (popped (map_locked i format) k 0 h ne apart (omega arith)) ne apart i
        format
  exec_frame-Served (take_locked i) k h ne apart =
      take_rest-Served s k (popped (take_locked i) k 0 h ne apart (omega arith)) ne apart i
