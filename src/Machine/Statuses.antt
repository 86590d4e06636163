-- ===== src/Machine/Statuses.antt =====
-- What a step of the machine does to statuses.
use Prim.Native.String.{String}
use Prim.Native.String.{String}
use ooplatingsistm.Base.{
  ℕ, ◌≡◌, ◌≢◌, inl, inr, [], ◌∷◌, ◌++◌, ◌==◌, arith, Option-cases, Bool-cases, count-append,
  get_elem?, set,
}
use ooplatingsistm.LinkedList.Heap.{Ptr, null}
use ooplatingsistm.Queue.{append, remove}
use ooplatingsistm.Queue.Refine.{is_empty}
use ooplatingsistm.Program.{
  Stmt, printf, call_yield, call_fork, call_p, call_v, call_acquire, call_release, call_wait,
  call_signal, call_broadcast, call_put, call_mapcar, call_take, Frame, thread_root, body,
  thread_finish, after_switch, restore_level, p_loop, acquire_loop, put_locked, map_locked,
  take_locked,
}
use ooplatingsistm.Thread.{Entries, new_thread, stack_allocate}
use ooplatingsistm.Kernel.{Kernel, Interrupt, ◌>>=◌}
use ooplatingsistm.Kernel.Outcomes.{Ensures, Ensures-bind, Ensures-mono}
use ooplatingsistm.Kernel.Statuses.{filed, Agrees}
use ooplatingsistm.Scheduler.{load_thread, ready_to_run}
use ooplatingsistm.Wake.{v}
use ooplatingsistm.ThreadOps.{Garbage, create, fork}
use ooplatingsistm.ThreadOps.Statuses.{v-Agrees, finish-Agrees, yield_cpu-Agrees, finish_run-Agrees}
use ooplatingsistm.Synch.{release}
use ooplatingsistm.Synch.Statuses.{
  p-Agrees, p_wait-Agrees, acquire-Agrees, acquire_wait-Agrees, release-Agrees,
}
use ooplatingsistm.Synchlist.{put, put_rest, take, take_rest, mapcar, mapcar_rest, printed}
use ooplatingsistm.Machine.{Image, exec_stmt, enter_root, exec_frame}

module _ {D : Type 0} ⦃irq : Interrupt D⦄ (t : Ptr) (ne : t ≢ null) where
  create-fork-Agrees :
      (g : Garbage) (e : Entries) (name : String) (func arg : ℕ) (k : Kernel D)
      → Agrees t k
      → k.next_addr ≢ k.current
      → (k.next_addr ≡ t → filed t k ≡ 0)
      → Ensures (λ _ j. Agrees t j) ((create g name >>= λ n. fork g e n func arg) k)
  unfolding create fork stack_allocate new_thread ready_to_run
  create-fork-Agrees g e name func arg k h apart fresh =
      ground (arith, h, apart, fresh, count-append t k.ready_list (k.next_addr ∷ []))

  put_rest-Agrees :
      (i : ℕ) (item : Ptr) (k : Kernel D)
      → Agrees t k
      → Ensures (λ _ j. Agrees t j) (put_rest i item k)
  unfolding put_rest
  put_rest-Agrees i item k h = elim (Option-cases (get_elem? k.synch_lists i)) [
    | inl missing ↦ rw missing tt
    | inr (c, there) ↦ rw there (
        release-Agrees t ne c.lock
          (record k { synch_lists = set k.synch_lists i (record c { list = append c.list item }) })
          h)
  ]

  mapcar_rest-Agrees :
      (i : ℕ) (format : String) (k : Kernel D)
      → Agrees t k
      → Ensures (λ _ j. Agrees t j) (mapcar_rest i format k)
  unfolding mapcar_rest
  mapcar_rest-Agrees i format k h = elim (Option-cases (get_elem? k.synch_lists i)) [
    | inl missing ↦ rw missing tt
    | inr (c, there) ↦
        rw there
          (release-Agrees t ne c.lock (record k { output = k.output ++ printed format c.list }) h)
  ]

  take_rest-Agrees :
      (i : ℕ) (k : Kernel D) → Agrees t k → Ensures (λ _ j. Agrees t j) (take_rest i k)
  unfolding take_rest
  take_rest-Agrees i k h = elim (Option-cases (get_elem? k.synch_lists i)) [
    | inl missing ↦ rw missing tt
    | inr (c, there) ↦
        let k' : Kernel D = record k {
          synch_lists = set k.synch_lists i (record c { list = (remove c.list).1 });
        } in
        rw there (elim (Bool-cases (is_empty c.list)) [
          | inl empty ↦ rw empty tt
          | inr some_item ↦ rw some_item (elim (Bool-cases ((remove c.list).0 == null)) [
            | inl nothing ↦ rw nothing tt
            | inr something ↦ rw something (
                Ensures-bind _ _ (release c.lock k') _ (release-Agrees t ne c.lock k' h) λ _ j q. q)
          ])
        ])
  ]

  module _ (image : Image) where
    exec_stmt-Agrees :
        (s : Stmt) (k : Kernel D)
        → Agrees t k
        → k.next_addr ≢ k.current
        → (k.next_addr ≡ t → filed t k ≡ 0)
        → Ensures (λ _ j. Agrees t j) (exec_stmt image s k)
    unfolding exec_stmt put take mapcar
    exec_stmt-Agrees (printf format args) k h apart fresh = h
    exec_stmt-Agrees call_yield k h apart fresh = yield_cpu-Agrees t ne k h
    exec_stmt-Agrees (call_fork name func arg) k h apart fresh =
        create-fork-Agrees image.garbage image.entries name func arg k h apart fresh
    exec_stmt-Agrees (call_p s) k h apart fresh = p-Agrees t ne s k h
    exec_stmt-Agrees (call_v s) k h apart fresh =
        Ensures-mono _ _ (v s k) (v-Agrees t ne s k h.0) λ _ j (_, agrees). agrees h
    exec_stmt-Agrees (call_acquire l) k h apart fresh = acquire-Agrees t ne l k h
    exec_stmt-Agrees (call_release l) k h apart fresh = release-Agrees t ne l k h
    exec_stmt-Agrees (call_wait l) k h apart fresh = tt
    exec_stmt-Agrees (call_signal l) k h apart fresh = h
    exec_stmt-Agrees (call_broadcast l) k h apart fresh = h
    exec_stmt-Agrees (call_put i item) k h apart fresh =
        elim (Option-cases (get_elem? k.synch_lists i)) [
          | inl missing ↦ rw missing tt
          | inr (c, there) ↦
              rw there (acquire-Agrees t ne c.lock (record k { cpu = put_locked i item ∷ k.cpu }) h)
        ]
    exec_stmt-Agrees (call_mapcar i format) k h apart fresh =
        elim (Option-cases (get_elem? k.synch_lists i)) [
          | inl missing ↦ rw missing tt
          | inr (c, there) ↦
              rw there
                (acquire-Agrees t ne c.lock (record k { cpu = map_locked i format ∷ k.cpu }) h)
        ]
    exec_stmt-Agrees (call_take i) k h apart fresh =
        elim (Option-cases (get_elem? k.synch_lists i)) [
          | inl missing ↦ rw missing tt
          | inr (c, there) ↦
              rw there (acquire-Agrees t ne c.lock (record k { cpu = take_locked i ∷ k.cpu }) h)
        ]

    pub exec_frame-Agrees :
        (f : Frame) (k : Kernel D)
        → Agrees t k
        → k.next_addr ≢ k.current
        → (k.next_addr ≡ t → filed t k ≡ 0)
        → Ensures (λ _ j. Agrees t j) (exec_frame image f k)
    unfolding exec_frame enter_root load_thread
    exec_frame-Agrees thread_root k h apart fresh = elim (Option-cases (k.thread k.current)) [
      | inl gone ↦ rw gone tt
      | inr (c, here) ↦ rw here h
    ]
    exec_frame-Agrees (body []) k h apart fresh = h
    exec_frame-Agrees (body (s ∷ ss)) k h apart fresh =
        exec_stmt-Agrees s (record k { cpu = body ss ∷ k.cpu }) h apart fresh
    exec_frame-Agrees thread_finish k h apart fresh = finish-Agrees t ne k h
    exec_frame-Agrees after_switch k h apart fresh = finish_run-Agrees t ne k h
    exec_frame-Agrees (restore_level l) k h apart fresh = h
    exec_frame-Agrees (p_loop s) k h apart fresh = p_wait-Agrees t ne s k h
    exec_frame-Agrees (acquire_loop l) k h apart fresh = acquire_wait-Agrees t ne l k h
    exec_frame-Agrees (put_locked i item) k h apart fresh = put_rest-Agrees i item k h
    exec_frame-Agrees (take_locked i) k h apart fresh = take_rest-Agrees i k h
    exec_frame-Agrees (map_locked i format) k h apart fresh = mapcar_rest-Agrees i format k h
