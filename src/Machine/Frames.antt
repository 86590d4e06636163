-- ===== src/Machine/Frames.antt =====
-- The steps of the machine find what they assert, and keep the shape of the stacks.
use Prim.Native.String.{String}
use ooplatingsistm.Base.{ℕ, ◌≢◌, ◌⊎◌, inl, inr, [], ◌∷◌, ◌++◌, All, Option-cases, get_elem?, set}
use ooplatingsistm.LinkedList.Heap.{Ptr, null}
use ooplatingsistm.Queue.{append}
use ooplatingsistm.Program.{
  Stmt, printf, call_yield, call_fork, call_p, call_v, call_acquire, call_release, call_wait,
  call_signal, call_broadcast, call_put, call_mapcar, call_take, Frame, thread_root, body,
  thread_finish, after_switch, restore_level, p_loop, acquire_loop, put_locked, map_locked,
  take_locked,
}
use ooplatingsistm.Kernel.{Kernel, Interrupt, ◌>>=◌}
use ooplatingsistm.Kernel.Outcomes.{Avoids, Avoids-mono}
use ooplatingsistm.Kernel.Frames.{IsPlain, AllKept, User, User-Suspended, Framed}
use ooplatingsistm.Scheduler.{load_thread}
use ooplatingsistm.Wake.{v}
use ooplatingsistm.ThreadOps.{create, fork}
use ooplatingsistm.ThreadOps.Frames.{v-Kept}
use ooplatingsistm.Synch.{release}
use ooplatingsistm.Synch.Frames.{
  p-Framed, p_wait-Framed, acquire-Framed, acquire_wait-Framed, release-Kept,
}
use ooplatingsistm.Synchlist.{put, put_rest, mapcar, mapcar_rest, printed}
use ooplatingsistm.Machine.{Image, exec_stmt, enter_root, exec_frame}
use ooplatingsistm.ThreadOps.Calls.{
  Kept-Framed, yield_cpu-Framed, finish-Framed, finish_run-Framed, create-fork-Kept,
}

off_under : {A : Type 0} → ⊥ ⊎ A → A
off_under (inl never) = absurd never
off_under (inr a) = a

module _ {D : Type 0} ⦃irq : Interrupt D⦄ where
  module _ (k : Kernel D) (h : AllKept k) (u : User k.cpu) where
    put-Framed : (i : ℕ) (item : Ptr) → Avoids (λ _ j. Framed j) (put i item k)
    unfolding put
    put-Framed i item = elim (Option-cases (get_elem? k.synch_lists i)) [
      | inl missing ↦ rw missing tt
      | inr (c, there) ↦
          rw there (acquire-Framed c.lock (record k { cpu = put_locked i item ∷ k.cpu }) h u)
    ]

    put_rest-Framed : (i : ℕ) (item : Ptr) → Avoids (λ _ j. Framed j) (put_rest i item k)
    unfolding put_rest
    put_rest-Framed i item = elim (Option-cases (get_elem? k.synch_lists i)) [
      | inl missing ↦ rw missing tt
      | inr (c, there) ↦
          let k' : Kernel D = record k {
            synch_lists = set k.synch_lists i (record c { list = append c.list item });
          } in
          rw there (
            Avoids-mono _ _ (release c.lock k') (release-Kept c.lock k' h)
              λ _ j. Kept-Framed k' j u)
    ]

    mapcar-Framed : (i : ℕ) (format : String) → Avoids (λ _ j. Framed j) (mapcar i format k)
    unfolding mapcar
    mapcar-Framed i format = elim (Option-cases (get_elem? k.synch_lists i)) [
      | inl missing ↦ rw missing tt
      | inr (c, there) ↦
          rw there (acquire-Framed c.lock (record k { cpu = map_locked i format ∷ k.cpu }) h u)
    ]

    mapcar_rest-Framed :
        (i : ℕ) (format : String) → Avoids (λ _ j. Framed j) (mapcar_rest i format k)
    unfolding mapcar_rest
    mapcar_rest-Framed i format = elim (Option-cases (get_elem? k.synch_lists i)) [
      | inl missing ↦ rw missing tt
      | inr (c, there) ↦
          let k' : Kernel D = record k { output = k.output ++ printed format c.list } in
          rw there (
            Avoids-mono _ _ (release c.lock k') (release-Kept c.lock k' h)
              λ _ j. Kept-Framed k' j u)
    ]

    user-Framed : Framed k
    user-Framed = record { kept = h; suspended = User-Suspended k.cpu u; masked = inl u }

    exec_stmt-Framed :
        (image : Image) (s : Stmt) → IsPlain s → Avoids (λ _ j. Framed j) (exec_stmt image s k)
    unfolding exec_stmt
    exec_stmt-Framed image (printf format args) plain = record {
      kept = h;
      suspended = User-Suspended k.cpu u;
      masked = inl u;
    }
    exec_stmt-Framed image call_yield plain = yield_cpu-Framed k h u
    exec_stmt-Framed image (call_fork name func arg) plain =
        Avoids-mono _ _
          ((create image.garbage name >>= λ t. fork image.garbage image.entries t func arg) k)
          (create-fork-Kept image.garbage image.entries name func arg k h) λ _ j. Kept-Framed k j u
    exec_stmt-Framed image (call_p s) plain = p-Framed s k h u
    exec_stmt-Framed image (call_v s) plain =
        Avoids-mono _ _ (v s k) (v-Kept s k h) λ _ j. Kept-Framed k j u
    exec_stmt-Framed image (call_acquire l) plain = acquire-Framed l k h u
    exec_stmt-Framed image (call_release l) plain =
        Avoids-mono _ _ (release l k) (release-Kept l k h) λ _ j. Kept-Framed k j u
    exec_stmt-Framed image (call_wait l) plain = absurd plain
    exec_stmt-Framed image (call_signal l) plain = user-Framed
    exec_stmt-Framed image (call_broadcast l) plain = user-Framed
    exec_stmt-Framed image (call_put i item) plain = put-Framed i item
    exec_stmt-Framed image (call_take i) plain = absurd plain
    exec_stmt-Framed image (call_mapcar i format) plain = mapcar-Framed i format

    enter_root-Framed :
        (image : Image)
        → ((func arg : ℕ) → All IsPlain (image.text func arg))
        → Avoids (λ _ j. Framed j) (enter_root image k)
    unfolding enter_root load_thread
    enter_root-Framed image plain = elim (Option-cases (k.thread k.current)) [
      | inl gone ↦ rw gone tt
      | inr (c, here) ↦
          rw here (record { kept = h; suspended = (plain _ _, u); masked = inl (plain _ _, u) })
    ]

  -- The frame `f` has been taken from the top of the stack.
  pub exec_frame-Framed :
      (image : Image)
      → ((func arg : ℕ) → All IsPlain (image.text func arg))
      → (f : Frame) (k : Kernel D) → Framed (record k { cpu = f ∷ k.cpu })
      → (k.to_be_destroyed ≢ null → k.to_be_destroyed ≢ k.current)
      → Avoids (λ _ j. Framed j) (exec_frame image f k)
  unfolding exec_frame
  exec_frame-Framed image plain thread_root k h apart =
      enter_root-Framed k h.kept h.suspended image plain
  exec_frame-Framed image plain (body []) k h apart = user-Framed k h.kept h.suspended.1
  exec_frame-Framed image plain (body (s ∷ ss)) k h apart =
      exec_stmt-Framed (record k { cpu = body ss ∷ k.cpu }) h.kept (h.suspended.0.1, h.suspended.1)
        image s h.suspended.0.0
  exec_frame-Framed image plain thread_finish k h apart = finish-Framed k h.kept h.suspended
  exec_frame-Framed image plain after_switch k h apart =
      finish_run-Framed k
        (record { kept = h.kept; suspended = h.suspended; off = off_under h.masked }) apart
  exec_frame-Framed image plain (restore_level l) k h apart =
      user-Framed (record k { device = irq.set_level l k.device }) h.kept h.suspended
  exec_frame-Framed image plain (p_loop s) k h apart =
      p_wait-Framed s k
        (record { kept = h.kept; suspended = h.suspended; off = off_under h.masked })
  exec_frame-Framed image plain (acquire_loop l) k h apart =
      acquire_wait-Framed l k
        (record { kept = h.kept; suspended = h.suspended; off = off_under h.masked })
  exec_frame-Framed image plain (put_locked i item) k h apart =
      put_rest-Framed k h.kept h.suspended i item
  exec_frame-Framed image plain (take_locked i) k h apart = absurd h.suspended
  exec_frame-Framed image plain (map_locked i format) k h apart =
      mapcar_rest-Framed k h.kept h.suspended i format
