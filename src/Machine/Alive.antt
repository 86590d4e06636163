-- ===== src/Machine/Alive.antt =====
-- A step of the machine dereferences only what exists.
use Prim.Native.String.{String}
use ooplatingsistm.Base.{
  ℕ, ◌<◌, ◌≡◌, ◌≢◌, refl, inl, inr, true, some, [], ◌∷◌, ◌++◌, ◌==◌, arith, Option-cases,
  Bool-cases, get_elem?, set, get_elem?-none, length-set, get_elem?-set_self, get_elem?-set_ne,
}
use ooplatingsistm.LinkedList.Heap.{Ptr, null}
use ooplatingsistm.Queue.{append, remove}
use ooplatingsistm.Kernel.{Kernel, SynchList, Interrupt}
use ooplatingsistm.Kernel.Outcomes.{Survives, Survives-bind, Survives-mono}
use ooplatingsistm.Kernel.Alive.{Sizes, queued, Alive}
use ooplatingsistm.Wake.{v}
use ooplatingsistm.ThreadOps.Stacks.{pushed}
use ooplatingsistm.ThreadOps.Survival.{HandlersFit}
use ooplatingsistm.Program.{
  Stmt, printf, call_yield, call_fork, call_p, call_v, call_acquire, call_release, call_wait,
  call_signal, call_broadcast, call_put, call_mapcar, call_take, Frame, thread_root, body,
  thread_finish, after_switch, restore_level, p_loop, acquire_loop, put_locked, map_locked,
  take_locked,
}
use ooplatingsistm.Queue.Refine.{is_empty}
use ooplatingsistm.Thread.{initial_pc_state, initial_arg_state}
use ooplatingsistm.Kernel.Alive.{stmt_fits, body_fits}
use ooplatingsistm.Scheduler.{load_thread}
use ooplatingsistm.ThreadOps.Alive.{v-Survives, Roused-Alive}
use ooplatingsistm.ThreadOps.Running.{cpu-fits, moved-Alive, cpu-Alive}
use ooplatingsistm.ThreadOps.Leaving.{
  yield_cpu-Alive, finish-Alive, finish_run-Alive, create-fork-Alive,
}
use ooplatingsistm.Synch.{release}
use ooplatingsistm.Synch.Alive.{
  p-Alive, p_wait-Alive, acquire-Alive, acquire_wait-Alive, release-Survives,
}
use ooplatingsistm.Synchlist.{put, put_rest, mapcar, mapcar_rest, printed, take, take_rest}
use ooplatingsistm.Machine.{Image, exec_stmt, enter_root, exec_frame}

-- No thread is in two places.
pub record Apart {D : Type 0} (k : Kernel D) : Type 0 where
  pub current_apart : queued k.current k ≡ 0
  pub finished_apart :
      k.to_be_destroyed ≢ null → (k.to_be_destroyed ≢ k.current) × (queued k.to_be_destroyed k ≡ 0)
  pub fresh_apart : (k.next_addr ≢ null) × (k.next_addr ≢ k.current) × (queued k.next_addr k ≡ 0)

module _ {D : Type 0} ⦃irq : Interrupt D⦄ (z : Sizes) where
  -- The items of a list change, its lock does not.
  list-Alive :
      (k : Kernel D) (i : ℕ) (c c' : SynchList)
      → Alive z k
      → get_elem? k.synch_lists i ≡ some c
      → c'.lock ≡ c.lock
      → Alive z (record k { synch_lists = set k.synch_lists i c' })
  list-Alive k i c c' h there e =
      moved-Alive z k _ h (λ t. omega arith) refl refl refl
        (refl, refl, length-set k.synch_lists i c')
        (λ j d at. elim (Bool-cases (i == j)) [
          | inl mine ↦ ground (
            arith,
            mine,
            at,
            e,
            h.dozing.list_locks i c there,
            get_elem?-set_self k.synch_lists i c' there,
          )
          | inr other ↦
              ground
                (arith, other, at, get_elem?-set_ne k.synch_lists i j c', h.dozing.list_locks j d)
        ])
        (cpu-fits z k h)

  module _ (k : Kernel D) (h : Alive z k) (i : ℕ) (small : i < z.lists) where
    put_rest-Alive : (item : Ptr) → Survives (λ _ j. Alive z j) (put_rest i item k)
    unfolding put_rest
    put_rest-Alive item = elim (Option-cases (get_elem? k.synch_lists i)) [
      | inl missing ↦ absurd (omega (arith, get_elem?-none k.synch_lists i missing, h.dozing.lists))
      | inr (c, there) ↦
          let c' : SynchList = record c { list = append c.list item } in
          let k' : Kernel D = record k { synch_lists = set k.synch_lists i c' } in
          let h' : Alive z k' = list-Alive k i c c' h there refl in
          rw there (
            Survives-mono _ _ (release c.lock k')
              (release-Survives z k' c.lock h'.dozing (h.dozing.list_locks i c there))
              λ _ j q. Roused-Alive z k' j q h')
    ]

    mapcar_rest-Alive : (format : String) → Survives (λ _ j. Alive z j) (mapcar_rest i format k)
    unfolding mapcar_rest
    mapcar_rest-Alive format = elim (Option-cases (get_elem? k.synch_lists i)) [
      | inl missing ↦ absurd (omega (arith, get_elem?-none k.synch_lists i missing, h.dozing.lists))
      | inr (c, there) ↦
          let k' : Kernel D = record k { output = k.output ++ printed format c.list } in
          let h' : Alive z k' =
            moved-Alive z k k' h (λ t. omega arith) refl refl refl (refl, refl, refl)
              h.dozing.list_locks (cpu-fits z k h) in
          rw there (
            Survives-mono _ _ (release c.lock k')
              (release-Survives z k' c.lock h'.dozing (h.dozing.list_locks i c there))
              λ _ j q. Roused-Alive z k' j q h')
    ]

    take_rest-Alive : Survives (λ _ j. Alive z j) (take_rest i k)
    unfolding take_rest
    take_rest-Alive = elim (Option-cases (get_elem? k.synch_lists i)) [
      | inl missing ↦ absurd (omega (arith, get_elem?-none k.synch_lists i missing, h.dozing.lists))
      | inr (c, there) ↦
          let c' : SynchList = record c { list = (remove c.list).1 } in
          let k' : Kernel D = record k { synch_lists = set k.synch_lists i c' } in
          let h' : Alive z k' = list-Alive k i c c' h there refl in
          rw there (elim (Bool-cases (is_empty c.list)) [
            | inl empty ↦ rw empty tt
            | inr some_item ↦ rw some_item (elim (Bool-cases ((remove c.list).0 == null)) [
              | inl nothing ↦ rw nothing tt
              | inr something ↦ rw something (
                  Survives-bind _ _ (release c.lock k') _
                    (release-Survives z k' c.lock h'.dozing (h.dozing.list_locks i c there))
                    λ _ j q.
                      let a = Roused-Alive z k' j q h' in
                      moved-Alive z j _ a (λ t. omega arith) refl refl refl (refl, refl, refl)
                        a.dozing.list_locks (cpu-fits z j a))
            ])
          ])
    ]

  module _ (handlers : HandlersFit irq z) (image : Image) where
    exec_stmt-Alive :
        (s : Stmt) (k : Kernel D)
        → Alive z k
        → stmt_fits z s ≡ true
        → Apart k
        → Survives (λ _ j. Alive z j) (exec_stmt image s k)
    unfolding exec_stmt put take mapcar
    exec_stmt-Alive (printf format args) k h fit apart =
        moved-Alive z k _ h (λ t. omega arith) refl refl refl (refl, refl, refl) h.dozing.list_locks
          (cpu-fits z k h)
    exec_stmt-Alive call_yield k h fit apart = yield_cpu-Alive z k h
    exec_stmt-Alive (call_fork name func arg) k h fit apart =
        create-fork-Alive z image.garbage image.entries name func arg k h apart.fresh_apart
    exec_stmt-Alive (call_p s) k h fit apart = p-Alive z handlers s k h (ground (arith, fit))
    exec_stmt-Alive (call_v s) k h fit apart =
        Survives-mono _ _ (v s k) (v-Survives z k s h.dozing (ground (arith, fit)))
          λ _ j q. Roused-Alive z k j q h
    exec_stmt-Alive (call_acquire l) k h fit apart =
        acquire-Alive z handlers l k h (ground (arith, fit))
    exec_stmt-Alive (call_release l) k h fit apart =
        Survives-mono _ _ (release l k) (release-Survives z k l h.dozing (ground (arith, fit)))
          λ _ j q. Roused-Alive z k j q h
    exec_stmt-Alive (call_wait l) k h fit apart = tt
    exec_stmt-Alive (call_signal l) k h fit apart = h
    exec_stmt-Alive (call_broadcast l) k h fit apart = h
    exec_stmt-Alive (call_put i item) k h fit apart =
        elim (Option-cases (get_elem? k.synch_lists i)) [
          | inl missing ↦
              ground (arith, fit, get_elem?-none k.synch_lists i missing, h.dozing.lists)
          | inr (c, there) ↦ rw there (
              acquire-Alive z handlers c.lock _
                (cpu-Alive z k k.device (put_locked i item ∷ k.cpu) h
                  (ground (arith, fit, cpu-fits z k h)))
                (h.dozing.list_locks i c there))
        ]
    exec_stmt-Alive (call_mapcar i format) k h fit apart =
        elim (Option-cases (get_elem? k.synch_lists i)) [
          | inl missing ↦
              ground (arith, fit, get_elem?-none k.synch_lists i missing, h.dozing.lists)
          | inr (c, there) ↦ rw there (
              acquire-Alive z handlers c.lock _
                (cpu-Alive z k k.device (map_locked i format ∷ k.cpu) h
                  (ground (arith, fit, cpu-fits z k h)))
                (h.dozing.list_locks i c there))
        ]
    exec_stmt-Alive (call_take i) k h fit apart = elim (Option-cases (get_elem? k.synch_lists i)) [
      | inl missing ↦ ground (arith, fit, get_elem?-none k.synch_lists i missing, h.dozing.lists)
      | inr (c, there) ↦ rw there (
          acquire-Alive z handlers c.lock _
            (cpu-Alive z k k.device (take_locked i ∷ k.cpu) h (ground (arith, fit, cpu-fits z k h)))
            (h.dozing.list_locks i c there))
    ]

    module _ (text_fits : (func arg : ℕ) → body_fits z (image.text func arg) ≡ true) where
      enter_root-Alive :
          (k : Kernel D)
          → Alive z (pushed k (thread_root ∷ []))
          → Survives (λ _ j. Alive z j) (enter_root image k)
      unfolding enter_root load_thread
      enter_root-Alive k h = elim (Option-cases (k.thread k.current)) [
        | inl gone ↦ ground (arith, gone, h.dozing.current_live)
        | inr (c, here) ↦ rw here (
            cpu-Alive z (pushed k (thread_root ∷ [])) (irq.enable k.device) _ h (
              ground (
                arith,
                text_fits (c.machine_state initial_pc_state) (c.machine_state initial_arg_state),
              )))
      ]

      -- The frame `f` has been taken from the top of the stack.
      pub exec_frame-Alive :
          (f : Frame) (k : Kernel D)
          → Alive z (pushed k (f ∷ []))
          → Apart k
          → Survives (λ _ j. Alive z j) (exec_frame image f k)
      unfolding exec_frame
      exec_frame-Alive thread_root k h apart = enter_root-Alive k h
      exec_frame-Alive (body []) k h apart =
          cpu-Alive z (pushed k (body [] ∷ [])) k.device k.cpu h
            (cpu-fits z (pushed k (body [] ∷ [])) h)
      exec_frame-Alive (body (s ∷ ss)) k h apart =
          let fit = cpu-fits z (pushed k (body (s ∷ ss) ∷ [])) h in
          exec_stmt-Alive s (pushed k (body ss ∷ []))
            (cpu-Alive z (pushed k (body (s ∷ ss) ∷ [])) k.device (body ss ∷ k.cpu) h
              (ground (arith, fit)))
            (ground (arith, fit))
            (record {
              current_apart = apart.current_apart;
              finished_apart = apart.finished_apart;
              fresh_apart = apart.fresh_apart;
            })
      exec_frame-Alive thread_finish k h apart = finish-Alive z handlers k h apart.current_apart
      exec_frame-Alive after_switch k h apart =
          finish_run-Alive z k
            (cpu-Alive z (pushed k (after_switch ∷ [])) k.device k.cpu h
              (cpu-fits z (pushed k (after_switch ∷ [])) h))
            apart.finished_apart
      exec_frame-Alive (restore_level v) k h apart =
          cpu-Alive z (pushed k (restore_level v ∷ [])) (irq.set_level v k.device) k.cpu h
            (cpu-fits z (pushed k (restore_level v ∷ [])) h)
      exec_frame-Alive (p_loop s) k h apart =
          let fit = cpu-fits z (pushed k (p_loop s ∷ [])) h in
          p_wait-Alive z handlers s k
            (cpu-Alive z (pushed k (p_loop s ∷ [])) k.device k.cpu h (ground (arith, fit)))
            (ground (arith, fit))
      exec_frame-Alive (acquire_loop l) k h apart =
          let fit = cpu-fits z (pushed k (acquire_loop l ∷ [])) h in
          acquire_wait-Alive z handlers l k
            (cpu-Alive z (pushed k (acquire_loop l ∷ [])) k.device k.cpu h (ground (arith, fit)))
            (ground (arith, fit))
      exec_frame-Alive (put_locked i item) k h apart =
          let fit = cpu-fits z (pushed k (put_locked i item ∷ [])) h in
          put_rest-Alive k
            (cpu-Alive z (pushed k (put_locked i item ∷ [])) k.device k.cpu h (ground (arith, fit)))
            i (ground (arith, fit)) item
      exec_frame-Alive (map_locked i format) k h apart =
          let fit = cpu-fits z (pushed k (map_locked i format ∷ [])) h in
          mapcar_rest-Alive k
            (cpu-Alive z (pushed k (map_locked i format ∷ [])) k.device k.cpu h
              (ground (arith, fit)))
            i (ground (arith, fit)) format
      exec_frame-Alive (take_locked i) k h apart =
          let fit = cpu-fits z (pushed k (take_locked i ∷ [])) h in
          take_rest-Alive k
            (cpu-Alive z (pushed k (take_locked i ∷ [])) k.device k.cpu h (ground (arith, fit))) i
            (ground (arith, fit))
