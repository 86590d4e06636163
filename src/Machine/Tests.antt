-- ===== src/Machine/Tests.antt =====
-- A thread finishes while another one is ready: one that is suspended, or one that has never run.
use ooplatingsistm.Base.{ℕ, arith, ◌≡◌, ◌≢◌, refl, none, some, [], ◌∷◌, ◌==◌, if◌then◌else◌}
use ooplatingsistm.LinkedList.Heap.{null}
use ooplatingsistm.Program.{
  IntStatus, int_on, thread_root, body, thread_finish, after_switch, restore_level,
}
use ooplatingsistm.Thread.{
  Thread, initial_pc_state, initial_arg_state, running, blocked, set_status, new_thread,
  stack_allocate, stack_intact,
}
use ooplatingsistm.Kernel.{Kernel, ◌>>◌}
use ooplatingsistm.Kernel.Outcomes.{Succeeds}
use ooplatingsistm.ThreadOps.Leave.{CanLeave}
use ooplatingsistm.Machine.{step}
use ooplatingsistm.Machine.Finish.{finish-deleted, finish-kept}
use ooplatingsistm.Synch.Tests.{main, other, two_threads}
use ooplatingsistm.Threadtest.Tests.{plain, image}

-- Thread 2, which yielded with interrupts on.
abbrev suspended : Thread
suspended = record other { context = after_switch ∷ restore_level int_on ∷ [] }

-- Thread 1 is behind the end of its procedure, and thread 2 is ready.
abbrev finishing : Thread → Kernel IntStatus
finishing d = record (two_threads int_on) {
  thread = λ t. if t == 1 then some main else (if t == 2 then some d else none);
  cpu = thread_finish ∷ [];
}

finishing-CanLeave : (d : Thread) → CanLeave (finishing d) 2 [] main d
unfolding new_thread stack_intact
finishing-CanLeave d = record {
  patient = omega arith;
  first = refl;
  exists = omega arith;
  apart = omega arith;
  here = refl;
  intact = refl;
  there = refl;
}

finish-deleted_example :
    Succeeds
      (λ _ j.
        (j.current ≡ 2)
        × (j.cpu ≡ restore_level int_on ∷ [])
        × (j.ready_list ≡ [])
        × (j.to_be_destroyed ≡ null)
        × (j.thread 1 ≡ none)
        × (j.thread 2 ≡ some (set_status running suspended))
        × ((t : ℕ) → t ≢ 2 → t ≢ 1 → j.thread t ≡ (finishing suspended).thread t))
      ((step image >> step image) (finishing suspended))
finish-deleted_example =
    finish-deleted image (finishing suspended) 2 [] main suspended [] (restore_level int_on ∷ [])
      (finishing-CanLeave suspended) (omega arith) refl refl

other_root : other.context ≡ thread_root ∷ []
unfolding stack_allocate
other_root = refl

finish-kept_example :
    Succeeds
      (λ _ j.
        (j.current ≡ 2)
        × (j.cpu
            ≡ body (
                image.text
                  (other.machine_state initial_pc_state)
                  (other.machine_state initial_arg_state))
              ∷ thread_finish
              ∷ [])
        × (j.ready_list ≡ [])
        × (j.to_be_destroyed ≡ 1)
        × (j.thread 1 ≡ some (record main { status = blocked; context = after_switch ∷ [] }))
        × (j.thread 2 ≡ some (set_status running other)))
      ((step image >> step image) (finishing other))
finish-kept_example =
    finish-kept image (finishing other) 2 [] main other [] [] (finishing-CanLeave other) refl
      other_root
