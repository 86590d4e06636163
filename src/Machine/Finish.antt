-- ===== src/Machine/Finish.antt =====
-- What becomes of a thread behind `ThreadFinish`: the step in which it finishes, and the next one.
use ooplatingsistm.Base.{◌≡◌, ◌≢◌, ◌∙◌, none, some, List, ◌∷◌, arith}
use ooplatingsistm.LinkedList.Heap.{Ptr, null}
use ooplatingsistm.Queue.{Queue}
use ooplatingsistm.Program.{int_off, Frame, thread_root, body, thread_finish, after_switch}
use ooplatingsistm.Thread.{
  Thread, initial_pc_state, initial_arg_state, set_status, running, blocked,
}
use ooplatingsistm.Kernel.{Kernel, Interrupt, ◌>>◌}
use ooplatingsistm.Kernel.Outcomes.{Succeeds, Succeeds-bind}
use ooplatingsistm.Scheduler.{finish_run, load_thread}
use ooplatingsistm.ThreadOps.Leave.{CanLeave, Asleep, finish-Asleep}
use ooplatingsistm.Machine.{Image, step, step-frame, exec_frame, enter_root}

module _ {D : Type 0} ⦃irq : Interrupt D⦄ (image : Image) where
  -- A current thread that comes to `ThreadFinish` goes to sleep, and is marked to be destroyed.
  step-Asleep :
      (k : Kernel D) (n : Ptr) (q : Queue) (c d : Thread) (fs : List Frame)
      → CanLeave k n q c d
      → k.cpu ≡ thread_finish ∷ fs
      → Succeeds
          (λ _ j.
            Asleep
              (record k {
                device = irq.set_level int_off k.device;
                to_be_destroyed = k.current;
                cpu = fs;
              })
              n
              q
              c
              d
              j)
          (step image k)
  unfolding exec_frame
  step-Asleep k n q c d fs h top = rw (step-frame image k top) (
      finish-Asleep (record k { cpu = fs }) n q c d
        record {
          patient = h.patient;
          first = h.first;
          exists = h.exists;
          apart = h.apart;
          here = h.here;
          intact = h.intact;
          there = h.there;
        })

  -- When a thread finishes while another thread is ready, that is suspended inside `Run`, and the
  -- stack of the finishing one is intact, then the next two steps of the machine switch to the ready
  -- thread, delete the finished thread and no other, and leave the ready thread running with what
  -- it had to do behind `Run`.
  pub finish-deleted :
      (k : Kernel D) (n : Ptr) (q : Queue) (c d : Thread) (fs gs : List Frame)
      → CanLeave k n q c d
      → k.current ≢ null
      → k.cpu ≡ thread_finish ∷ fs
      → d.context ≡ after_switch ∷ gs
      → Succeeds
          (λ _ j.
            (j.current ≡ n)
            × (j.cpu ≡ gs)
            × (j.ready_list ≡ q)
            × (j.to_be_destroyed ≡ null)
            × (j.thread k.current ≡ none)
            × (j.thread n ≡ some (set_status running d))
            × ((t : Ptr) → t ≢ n → t ≢ k.current → j.thread t ≡ k.thread t))
          ((step image >> step image) k)
  unfolding finish_run exec_frame
  finish-deleted k n q c d fs gs h ne top suspended =
      Succeeds-bind _ _ (step image k) _ (step-Asleep k n q c d fs h top) λ _ j a.
        rw (step-frame image j (a.switched.loaded ∙ suspended)) (
          ground (
            arith, a.to_be_destroyed, a.ready_list, a.switched.current, a.switched.next_thread,
            a.switched.old_thread, a.switched.others,
          ))

  -- When a thread finishes, with its stack intact, while the first ready thread has never run, the
  -- next two steps of the machine switch to that thread and enter its procedure. The finished
  -- thread is still there, with its stack, and still to be destroyed.
  pub finish-kept :
      (k : Kernel D) (n : Ptr) (q : Queue) (c d : Thread) (fs gs : List Frame)
      → CanLeave k n q c d
      → k.cpu ≡ thread_finish ∷ fs
      → d.context ≡ thread_root ∷ gs
      → Succeeds
          (λ _ j.
            (j.current ≡ n)
            × (j.cpu
                ≡ body (
                    image.text
                      (d.machine_state initial_pc_state)
                      (d.machine_state initial_arg_state))
                  ∷ thread_finish
                  ∷ gs)
            × (j.ready_list ≡ q)
            × (j.to_be_destroyed ≡ k.current)
            × (j.thread k.current
                ≡ some (record c { status = blocked; context = after_switch ∷ fs }))
            × (j.thread n ≡ some (set_status running d)))
          ((step image >> step image) k)
  unfolding exec_frame enter_root load_thread
  finish-kept k n q c d fs gs h top fresh =
      Succeeds-bind _ _ (step image k) _ (step-Asleep k n q c d fs h top) λ _ j a.
        rw (step-frame image j (a.switched.loaded ∙ fresh)) (
          ground (
            arith, a.to_be_destroyed, a.ready_list, a.switched.current, a.switched.next_thread,
            a.switched.old_thread,
          ))
