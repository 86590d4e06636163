-- ===== src/System/LockTests.antt =====
-- A program in which two threads wait for a lock and a third one releases it.
use ooplatingsistm.Base.{ℕ, ◌+◌, ◌≤◌, ◌≡◌, refl, arith, true, [], ◌∷◌}
use ooplatingsistm.Program.{
  IntStatus, int_off, call_fork, call_yield, call_acquire, call_release, Text,
}
use ooplatingsistm.Kernel.{Kernel, Lock}
use ooplatingsistm.Kernel.Stacks.{stack_of}
use ooplatingsistm.Kernel.Alive.{body_fits}
use ooplatingsistm.Kernel.Supply.{free_lock}
use ooplatingsistm.Kernel.Served.{retries, retrying}
use ooplatingsistm.Scheduler.{
  ready_to_run, find_next_to_run, run, finish_run, load_thread, destroy, change_status, switch,
  check_overflow,
}
use ooplatingsistm.Wake.{v, ready_unless_null}
use ooplatingsistm.Thread.{stack_allocate, stack_intact, new_thread}
use ooplatingsistm.ThreadOps.{
  create, fork, yield_cpu, signal_all, idle, next_or_idle, sleep, finish,
}
use ooplatingsistm.ThreadOps.Survival.{HandlersFit}
use ooplatingsistm.Synch.{p, p_wait, acquire, acquire_wait, release, new_semaphore, new_lock}
use ooplatingsistm.Machine.{
  Image, Reach, here, exec_stmt, enter_root, exec_frame, step, run_until, run_until-Reach,
}
use ooplatingsistm.System.{Setup, initialize}
use ooplatingsistm.System.Alive.{sizes}
use ooplatingsistm.System.Safe.{PlainText}
use ooplatingsistm.System.Wakeup.{no_lost_release}
use ooplatingsistm.Threadtest.Tests.{plain, entries, garbage}

abbrev text : Text
text func arg = call_acquire 0 ∷ call_release 0 ∷ []

abbrev image : Image
image = record { text = text; entries = entries; garbage = garbage }

abbrev setup : Setup
setup = record {
  semaphores = [];
  locks = "door" ∷ [];
  synch_lists = [];
  main =
      call_acquire 0
      ∷ call_fork "a" 0x10 0
      ∷ call_fork "b" 0x10 0
      ∷ call_yield
      ∷ call_release 0
      ∷ [];
}

-- The state in which the main thread has released the lock.
unfoldable released : Kernel IntStatus
unfolding run_until step exec_frame exec_stmt enter_root initialize create fork yield_cpu signal_all
    idle next_or_idle sleep finish p p_wait acquire acquire_wait release v ready_unless_null
    ready_to_run find_next_to_run run finish_run load_thread destroy change_status switch
    check_overflow stack_allocate stack_intact new_thread new_semaphore new_lock
released = run_until image 12 (initialize int_off garbage setup)

abbrev one_waits : Lock
one_waits = record { name = "door"; held = 0; queue = 3 ∷ [] }

released_state : released.locks ≡ one_waits ∷ []
unfolding released
released_state = refl

released_reached : Reach image (initialize int_off garbage setup) released
unfolding released
released_reached = run_until-Reach image 12 here

no_handlers : HandlersFit plain (sizes setup)
no_handlers d e vs h = cc

text_fits : (func arg : ℕ) → body_fits (sizes setup) (text func arg) ≡ true
text_fits func arg = ground arith

text_plain : PlainText text
text_plain func arg = ground arith

no_lost_release_example :
    1 ≤ retrying (free_lock 0) released + retries (free_lock 0) (stack_of released released.current)
unfolding released
no_lost_release_example =
    no_lost_release image int_off garbage setup no_handlers text_fits refl refl text_plain
      (tt, (tt, (tt, (tt, (tt, tt))))) 0 one_waits released_reached refl (λ e. ground (arith, e))
      refl
