-- ===== src/Machine/Fresh.antt =====
-- The next free address moves only when a thread is made.
use Prim.Native.String.{String}
use ooplatingsistm.Base.{ℕ, ◌+◌, ◌≡◌, refl, inl, inr, [], ◌∷◌, arith, get_elem?, set, Option-cases}
use ooplatingsistm.LinkedList.Heap.{Ptr}
use ooplatingsistm.Queue.{append}
use ooplatingsistm.Program.{
  int_off, Stmt, printf, call_yield, call_fork, call_p, call_v, call_acquire, call_release,
  call_wait, call_signal, call_broadcast, call_put, call_mapcar, call_take, Frame, thread_root,
  body, thread_finish, after_switch, restore_level, p_loop, acquire_loop, put_locked, map_locked,
  take_locked,
}
use ooplatingsistm.Kernel.{Kernel, Semaphore, Lock, Interrupt, Outcome}
use ooplatingsistm.Kernel.Outcomes.{Ensures, Ensures-mono}
use ooplatingsistm.Scheduler.{load_thread, ready_to_run, change_status, run, finish_run}
use ooplatingsistm.Wake.{v, ready_unless_null}
use ooplatingsistm.ThreadOps.{create, yield_cpu, fork, sleep, finish}
use ooplatingsistm.ThreadOps.Keeps.{Dispatchable, sleep-keeps}
use ooplatingsistm.Synch.{p, p_wait, acquire, acquire_wait, release}
use ooplatingsistm.Synchlist.{put, put_rest, mapcar, mapcar_rest, take, take_rest}
use ooplatingsistm.Machine.{Image, exec_stmt, enter_root, exec_frame}

module _ {D : Type 0} ⦃irq : Interrupt D⦄ (n : Ptr) where
  -- The next free address is `n`.
  abbrev pub At : Kernel D → Type 0
  At k = k.next_addr ≡ n

  pub v-At : (s : ℕ) (k : Kernel D) → At k → Ensures (λ _ j. At j) (v s k)
  unfolding v ready_unless_null ready_to_run
  v-At s k h = ground arith

  change_status-At :
      (r : Ptr) (st : ooplatingsistm.Thread.ThreadStatus) (k : Kernel D)
      → At k
      → Ensures (λ _ j. At j) (change_status r st k)
  unfolding change_status
  change_status-At r st k h = ground arith

  run-At : (r : Ptr) (k : Kernel D) → At k → Ensures (λ _ j. At j) (run r k)
  unfolding run
  run-At r k h = ground arith

  dispatch : Dispatchable At
  dispatch = record {
    by_v = v-At;
    by_device = λ d k h. h;
    by_find = λ k h. h;
    by_status = change_status-At;
    by_run = run-At;
  }

  sleep-At : (r : Ptr) (k : Kernel D) → At k → Ensures (λ _ j. At j) (sleep r k)
  sleep-At r k h = sleep-keeps dispatch r k h

module _ {D : Type 0} ⦃irq : Interrupt D⦄ (n : Ptr) (k : Kernel D) (at : At n k) where
  abbrev pub Stays : Outcome D (Unit {0}) → Type 0
  Stays = Ensures λ _ j. At n j

  p_wait-At : (s : ℕ) → Stays (p_wait s k)
  unfolding p_wait
  p_wait-At s = elim (Option-cases (get_elem? k.semaphores s)) [
    | inl missing ↦ rw missing tt
    | inr (c, there) ↦
        let c' : Semaphore = record c { queue = append c.queue k.current } in
        rw there (
          ground (
            arith,
            sleep-At n k.current
                (record k { semaphores = set k.semaphores s c'; cpu = p_loop s ∷ k.cpu }),
          ))
  ]

  acquire_wait-At : (l : ℕ) → Stays (acquire_wait l k)
  unfolding acquire_wait
  acquire_wait-At l = elim (Option-cases (get_elem? k.locks l)) [
    | inl missing ↦ rw missing tt
    | inr (c, there) ↦
        let c' : Lock = record c { queue = append c.queue k.current } in
        rw there (
          ground (
            arith,
            sleep-At n k.current
                (record k { locks = set k.locks l c'; cpu = acquire_loop l ∷ k.cpu }),
          ))
  ]

  release-At : (l : ℕ) → Stays (release l k)
  unfolding release ready_unless_null ready_to_run
  release-At l = ground arith

  pub yield_cpu-At : (this : Ptr) → Stays (yield_cpu this k)
  unfolding yield_cpu
  yield_cpu-At this = ground arith

  finish-At : (this : Ptr) → Stays (finish this k)
  unfolding finish
  finish-At this = ground (
    arith,
    sleep-At n this
        (record k { device = irq.set_level int_off k.device; to_be_destroyed = k.current }),
  )

  finish_run-At : Stays (finish_run k)
  unfolding finish_run
  finish_run-At = ground arith

-- The operations that go on in `P` and `Acquire`, and those on synchronized lists.
module _ {D : Type 0} ⦃irq : Interrupt D⦄ (n : Ptr) (k : Kernel D) (at : At n k) where
  p-At : (s : ℕ) → Stays n k at (p s k)
  unfolding p
  p-At s = p_wait-At n _ at s

  acquire-At : (l : ℕ) → Stays n k at (acquire l k)
  unfolding acquire
  acquire-At l = acquire_wait-At n _ at l

module _ {D : Type 0} ⦃irq : Interrupt D⦄ (n : Ptr) (k : Kernel D) (at : At n k) (i : ℕ) where
  put-At : (item : Ptr) → Stays n k at (put i item k)
  unfolding put
  put-At item = elim (Option-cases (get_elem? k.synch_lists i)) [
    | inl missing ↦ rw missing tt
    | inr (c, there) ↦
        rw there (acquire-At n (record k { cpu = put_locked i item ∷ k.cpu }) at c.lock)
  ]

  take-At : Stays n k at (take i k)
  unfolding take
  take-At = elim (Option-cases (get_elem? k.synch_lists i)) [
    | inl missing ↦ rw missing tt
    | inr (c, there) ↦ rw there (acquire-At n (record k { cpu = take_locked i ∷ k.cpu }) at c.lock)
  ]

  mapcar-At : (format : String) → Stays n k at (mapcar i format k)
  unfolding mapcar
  mapcar-At format = elim (Option-cases (get_elem? k.synch_lists i)) [
    | inl missing ↦ rw missing tt
    | inr (c, there) ↦
        rw there (acquire-At n (record k { cpu = map_locked i format ∷ k.cpu }) at c.lock)
  ]

  mapcar_rest-At : (format : String) → Stays n k at (mapcar_rest i format k)
  unfolding mapcar_rest release ready_unless_null ready_to_run
  mapcar_rest-At format = ground arith

  put_rest-At : (item : Ptr) → Stays n k at (put_rest i item k)
  unfolding put_rest release ready_unless_null ready_to_run
  put_rest-At item = ground arith

  take_rest-At : Stays n k at (take_rest i k)
  unfolding take_rest release ready_unless_null ready_to_run
  take_rest-At = ground arith

-- How many threads a frame makes.
abbrev pub makes_stmt : Stmt → ℕ
makes_stmt (call_fork name func arg) = 1
makes_stmt _ = 0

abbrev pub makes : Frame → ℕ
makes (body (s ∷ ss)) = makes_stmt s
makes _ = 0

module _ {D : Type 0} ⦃irq : Interrupt D⦄ (image : Image) (k : Kernel D) where
  abbrev n : Ptr
  n = k.next_addr

  none_made : (m : Outcome D (Unit {0})) → Stays n k refl m → Ensures (λ _ j. j.next_addr ≡ n + 0) m
  none_made m h = Ensures-mono _ _ m h λ _ j e. omega arith

  exec_stmt-next :
      (s : Stmt) → Ensures (λ _ j. j.next_addr ≡ n + makes_stmt s) (exec_stmt image s k)
  unfolding exec_stmt create
  exec_stmt-next (printf f a) = omega arith
  exec_stmt-next call_yield = none_made (yield_cpu k.current k) (yield_cpu-At n k refl k.current)
  exec_stmt-next (call_fork name func arg) = unfold fork ready_to_run in ground arith
  exec_stmt-next (call_p s) = none_made (p s k) (p-At n k refl s)
  exec_stmt-next (call_v s) = none_made (v s k) (v-At n s k refl)
  exec_stmt-next (call_acquire l) = none_made (acquire l k) (acquire-At n k refl l)
  exec_stmt-next (call_release l) = none_made (release l k) (release-At n k refl l)
  exec_stmt-next (call_wait l) = tt
  exec_stmt-next (call_signal l) = omega arith
  exec_stmt-next (call_broadcast l) = omega arith
  exec_stmt-next (call_put i item) = none_made (put i item k) (put-At n k refl i item)
  exec_stmt-next (call_mapcar i format) =
      none_made (mapcar i format k) (mapcar-At n k refl i format)
  exec_stmt-next (call_take i) = none_made (take i k) (take-At n k refl i)

module _ {D : Type 0} ⦃irq : Interrupt D⦄ (image : Image) (k : Kernel D) where
  pub exec_frame-next :
      (f : Frame) → Ensures (λ _ j. j.next_addr ≡ k.next_addr + makes f) (exec_frame image f k)
  unfolding exec_frame
  exec_frame-next thread_root = unfold enter_root load_thread in ground arith
  exec_frame-next (body []) = omega arith
  exec_frame-next (body (s ∷ ss)) = exec_stmt-next image (record k { cpu = body ss ∷ k.cpu }) s
  exec_frame-next thread_finish =
      none_made image k (finish k.current k) (finish-At k.next_addr k refl k.current)
  exec_frame-next after_switch = none_made image k (finish_run k) (finish_run-At k.next_addr k refl)
  exec_frame-next (restore_level l) = omega arith
  exec_frame-next (p_loop s) = none_made image k (p_wait s k) (p_wait-At k.next_addr k refl s)
  exec_frame-next (acquire_loop l) =
      none_made image k (acquire_wait l k) (acquire_wait-At k.next_addr k refl l)
  exec_frame-next (put_locked i item) =
      none_made image k (put_rest i item k) (put_rest-At k.next_addr k refl i item)
  exec_frame-next (map_locked i format) =
      none_made image k (mapcar_rest i format k) (mapcar_rest-At k.next_addr k refl i format)
  exec_frame-next (take_locked i) =
      none_made image k (take_rest i k) (take_rest-At k.next_addr k refl i)
