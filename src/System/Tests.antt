-- ===== src/System/Tests.antt =====
-- A program in which two threads wait for a semaphore and a third one signals it.
use ooplatingsistm.Base.{ℕ, ◌+◌, ◌≤◌, ◌≡◌, refl, arith, true, [], ◌∷◌, ◌==◌, if◌then◌else◌}
use ooplatingsistm.Program.{IntStatus, int_off, call_fork, call_p, call_v, Text}
use ooplatingsistm.Kernel.{Kernel, Semaphore}
use ooplatingsistm.Kernel.Stacks.{stack_of}
use ooplatingsistm.Kernel.Alive.{body_fits}
use ooplatingsistm.Kernel.Supply.{unit_of}
use ooplatingsistm.Kernel.Served.{retries, retrying}
use ooplatingsistm.Scheduler.{
  ready_to_run, find_next_to_run, run, finish_run, load_thread, destroy, change_status, switch,
  check_overflow,
}
use ooplatingsistm.Wake.{v, ready_unless_null}
use ooplatingsistm.Thread.{stack_allocate, stack_intact, new_thread}
use ooplatingsistm.ThreadOps.{
  create, fork, yield_cpu, signal_all, idle, next_or_idle, sleep, finish,
}
use ooplatingsistm.ThreadOps.Survival.{HandlersFit}
use ooplatingsistm.Synch.{p, p_wait, acquire, acquire_wait, release, new_semaphore, new_lock}
use ooplatingsistm.Machine.{
  Image, Reach, here, exec_stmt, enter_root, exec_frame, step, run_until, run_until-Reach,
}
use ooplatingsistm.System.{Setup, initialize}
use ooplatingsistm.System.Alive.{sizes}
use ooplatingsistm.System.Safe.{PlainText}
use ooplatingsistm.System.Wakeup.{no_lost_wakeup}
use ooplatingsistm.Threadtest.Tests.{plain, entries, garbage}

abbrev text : Text
text func arg = if func == 0x10 then call_p 0 ∷ [] else call_v 0 ∷ []

abbrev image : Image
image = record { text = text; entries = entries; garbage = garbage }

abbrev setup : Setup
setup = record {
  semaphores = ("ready", 0) ∷ [];
  locks = [];
  synch_lists = [];
  main = call_fork "a" 0x10 0 ∷ call_fork "b" 0x10 0 ∷ call_fork "c" 0x20 0 ∷ [];
}

-- The state in which the third thread has signalled.
unfoldable signalled : Kernel IntStatus
unfolding run_until step exec_frame exec_stmt enter_root initialize create fork yield_cpu signal_all
    idle next_or_idle sleep finish p p_wait acquire acquire_wait release v ready_unless_null
    ready_to_run find_next_to_run run finish_run load_thread destroy change_status switch
    check_overflow stack_allocate stack_intact new_thread new_semaphore new_lock
signalled = run_until image 11 (initialize int_off garbage setup)

abbrev one_waits : Semaphore
one_waits = record { name = "ready"; value = 1; queue = 3 ∷ [] }

signalled_state : signalled.semaphores ≡ one_waits ∷ []
unfolding signalled
signalled_state = refl

signalled_reached : Reach image (initialize int_off garbage setup) signalled
unfolding signalled
signalled_reached = run_until-Reach image 11 here

no_handlers : HandlersFit plain (sizes setup)
no_handlers d e vs h = cc

text_fits : (func arg : ℕ) → body_fits (sizes setup) (text func arg) ≡ true
text_fits func arg = ground arith

text_plain : PlainText text
text_plain func arg = ground arith

no_lost_wakeup_example :
    1 ≤ retrying (unit_of 0) signalled + retries (unit_of 0) (stack_of signalled signalled.current)
unfolding signalled
no_lost_wakeup_example =
    no_lost_wakeup image int_off garbage setup no_handlers text_fits refl refl text_plain
      (tt, (tt, (tt, tt))) 0 one_waits signalled_reached refl (λ e. ground (arith, e))
