-- ===== src/Threadtest/Tests.antt =====
-- Runs of the test programs on a machine whose only device is its interrupt mask, and the theorems
-- at states of these runs.
use Prim.Native.String.{String}
use mathlib.Core.List.{map}
use ooplatingsistm.Base.{
  count, ◌↔◌, ◌≢◌, ℕ, ◌+◌, ◌≤◌, arith, ◌≡◌, refl, Option, none, some, List, [], ◌∷◌,
}
use ooplatingsistm.Program.{IntStatus, int_off, int_on, call_fork, body, restore_level}
use ooplatingsistm.Kernel.{Kernel, Interrupt}
use ooplatingsistm.Kernel.Outcomes.{Ensures, Succeeds}
use ooplatingsistm.Scheduler.{
  ready_to_run, find_next_to_run, run, finish_run, load_thread, destroy, change_status, switch,
  check_overflow,
}
use ooplatingsistm.Wake.{v, ready_unless_null}
use ooplatingsistm.Thread.{
  blocked, Thread, running, ready, set_status, Entries, stack_allocate, stack_intact, new_thread,
}
use ooplatingsistm.ThreadOps.{
  Garbage, create, fork, yield_cpu, signal_all, idle, next_or_idle, sleep, finish,
}
use ooplatingsistm.Synch.{p, p_wait, acquire, acquire_wait, release, new_semaphore, new_lock}
use ooplatingsistm.Machine.{
  Image, Step, go, Reach, here, later, exec_stmt, enter_root, exec_frame, step, run_until,
}
use ooplatingsistm.System.{Setup, initialize}
use ooplatingsistm.Threadtest.{text, thread_test, lock_thread1_addr}
use ooplatingsistm.Kernel.Places.{places}
use ooplatingsistm.Machine.Places.{made, gone, exec_frame-places}
use ooplatingsistm.Kernel.Statuses.{status_of}
use ooplatingsistm.Kernel.Places.{waiting}
use ooplatingsistm.System.Statuses.{statuses_agree}
use ooplatingsistm.ThreadOps.Dispatch.{Switched, yield_cpu-Switched}
use ooplatingsistm.System.Unique.{Reach-Unique}

pub idle_none : {A : Type 0} {e d : IntStatus} {x : A} → ◌≡◌ {A = Option A} none (some x) → e ≡ d
idle_none h = cc

-- No device raises interrupts, so that an idle machine halts.
instance abbrev pub plain : Interrupt IntStatus
plain = record {
  get_level = λ d. d;
  set_level = λ l d. l;
  enable = λ d. int_on;
  idle = λ d. none;
  patience = 1;
  get_level-set_level = λ l d. refl;
  get_level-enable = λ d. refl;
  get_level-idle = λ d h. idle_none h;
}

abbrev pub entries : Entries
entries = record { root = 0x100; interrupt_enable = 0x200; finish = 0x300 }

abbrev pub garbage : Garbage
garbage = record { registers = λ t i. 0; stack = λ t i. 0 }

abbrev pub image : Image
image = record { text = text; entries = entries; garbage = garbage }

abbrev pub setup : ℕ → Setup
setup testnum = record {
  semaphores = [];
  locks = "LockTest1" ∷ [];
  synch_lists = [];
  main = thread_test testnum;
}

-- The state behind so many steps of a test.
unfoldable pub after : ℕ → ℕ → Kernel IntStatus
unfolding text thread_test run_until step exec_frame exec_stmt enter_root initialize create fork
    yield_cpu signal_all idle next_or_idle sleep finish p p_wait acquire acquire_wait release v
    ready_unless_null ready_to_run find_next_to_run run finish_run load_thread destroy change_status
    switch check_overflow stack_allocate stack_intact new_thread new_semaphore new_lock
after testnum n = run_until image n (initialize int_off garbage (setup testnum))

-- The two threads of LockTest1 take the lock one after the other.
lock_test_output :
    (after 2 100).output
    ≡ ("L1:0\n", [])
      ∷ ("L1:1\n", [])
      ∷ ("L2:0\n", [])
      ∷ ("L1:2\n", [])
      ∷ ("L1:3\n", [])
      ∷ ("L2:1\n", [])
      ∷ ("L2:2\n", [])
      ∷ ("L2:3\n", [])
      ∷ []
unfolding after
lock_test_output = refl

thread_test_output :
    map (λ (l : String × List ℕ). l.1) (after 1 100).output
    ≡ (0 ∷ 0 ∷ [])
      ∷ (1 ∷ 0 ∷ [])
      ∷ (0 ∷ 1 ∷ [])
      ∷ (1 ∷ 1 ∷ [])
      ∷ (0 ∷ 2 ∷ [])
      ∷ (1 ∷ 2 ∷ [])
      ∷ (0 ∷ 3 ∷ [])
      ∷ (1 ∷ 3 ∷ [])
      ∷ (0 ∷ 4 ∷ [])
      ∷ (1 ∷ 4 ∷ [])
      ∷ []
unfolding after
thread_test_output = refl

abbrev k0 : Kernel IntStatus
k0 = initialize int_off garbage (setup 2)

-- Two steps of LockTest1: the state behind each, and how it is reached.
unfoldable first_step : Step image k0 (after 2 1)
unfolding after
first_step = go refl

second_step : Step image (after 2 1) (after 2 2)
unfolding after
second_step = go refl

pub two_steps : Reach image k0 (after 2 2)
two_steps = later (later here first_step) second_step

Reach-Unique_example : places 2 (after 2 2) ≤ 1
Reach-Unique_example = Reach-Unique int_off garbage (setup 2) image two_steps 2 (omega arith)

exec_frame-places_example :
    Ensures
      (λ _ j.
        places 2 j + gone 2 (body (call_fork "one" lock_thread1_addr 0 ∷ [])) k0
        ≡ places 2 k0 + made 2 (body (call_fork "one" lock_thread1_addr 0 ∷ [])) k0)
      (exec_frame image (body (call_fork "one" lock_thread1_addr 0 ∷ [])) k0)
exec_frame-places_example =
    exec_frame-places image 2 (omega arith) k0 (body (call_fork "one" lock_thread1_addr 0 ∷ []))

-- Main forks the two threads of LockTest1 and yields.
abbrev main_thread : Thread
main_thread = set_status running (new_thread "main" (λ i. 0))

abbrev forked : Thread
forked =
    set_status ready
      (stack_allocate entries (λ i. 0) lock_thread1_addr 0 (new_thread "one" (λ i. 0)))

yield_cpu-Switched_example :
    Succeeds
      (λ _ j.
        (j.ready_list ≡ 1 ∷ [])
        × (plain.get_level j.device ≡ int_off)
        × Switched (after 2 1) 2 main_thread forked ready (restore_level int_on ∷ []) j)
      (yield_cpu (after 2 1).current (after 2 1))
unfolding after
yield_cpu-Switched_example =
    yield_cpu-Switched (after 2 1) 2 [] main_thread forked refl (omega arith) (omega arith) refl
      refl refl

statuses_agree_example :
    let k = after 2 2 in
    ((status_of (k.thread 2) ≡ some running) ↔ (k.current ≡ 2))
    × ((status_of (k.thread 2) ≡ some ready) ↔ (count 2 k.ready_list ≢ 0))
    × (waiting 2 k ≢ 0 → status_of (k.thread 2) ≡ some blocked)
    × (k.to_be_destroyed ≡ 2 → status_of (k.thread 2) ≡ some blocked)
statuses_agree_example = statuses_agree image int_off garbage (setup 2) 2 (omega arith) two_steps
