-- ===== src/Synch/Tests.antt =====
-- The theorems on sleeping and waking, at a state with one thread that runs and one that is ready.
use ooplatingsistm.Base.{arith, ◌≡◌, ◌≢◌, refl, none, some, [], ◌∷◌, ◌==◌, if◌then◌else◌}
use ooplatingsistm.LinkedList.Heap.{null}
use ooplatingsistm.Program.{IntStatus, int_off, int_on, p_loop, acquire_loop, restore_level}
use ooplatingsistm.Thread.{Thread, running, set_status, new_thread, stack_allocate, stack_intact}
use ooplatingsistm.Kernel.{Kernel, Semaphore, Lock, abort}
use ooplatingsistm.Kernel.Outcomes.{Succeeds}
use ooplatingsistm.Wake.{v}
use ooplatingsistm.ThreadOps.{finish, sleep, yield_cpu}
use ooplatingsistm.ThreadOps.Overflow.{Overrun, Overrun-aborts}
use ooplatingsistm.ThreadOps.Leave.{CanLeave, Asleep, sleep-Switched}
use ooplatingsistm.Synch.{p, acquire, release}
use ooplatingsistm.Synch.Wakeup.{Woken, v-Woken, release-Woken}
use ooplatingsistm.Synch.Blocking.{Waiting, p-Waiting, acquire-Waiting}
use ooplatingsistm.Threadtest.Tests.{plain, entries}

abbrev pub main : Thread
main = set_status running (new_thread "main" (λ i. 0))

abbrev pub other : Thread
other = stack_allocate entries (λ i. 0) 0x500 7 (new_thread "other" (λ i. 0))

abbrev nothing_free : Semaphore
nothing_free = record { name = "s"; value = 0; queue = [] }

abbrev pub waited_for : Semaphore
waited_for = record { name = "w"; value = 0; queue = 2 ∷ [] }

abbrev pub busy : Lock
busy = record { name = "l"; held = 1; queue = 2 ∷ [] }

-- Interrupts are as given; thread 1 runs, and thread 2 is ready.
abbrev pub two_threads : IntStatus → Kernel IntStatus
two_threads level = record {
  current = 1;
  to_be_destroyed = null;
  ready_list = 2 ∷ [];
  thread = λ t. if t == 1 then some main else (if t == 2 then some other else none);
  semaphores = nothing_free ∷ [];
  locks = busy ∷ [];
  synch_lists = [];
  device = level;
  cpu = [];
  next_addr = 3;
  taken = [];
  output = [];
}

-- The same with thread 2 in the queue of a semaphore or of a lock.
abbrev pub one_waits : Kernel IntStatus
one_waits = record (two_threads int_on) { ready_list = []; semaphores = waited_for ∷ [] }

main_leaves : (level : IntStatus) → CanLeave (two_threads level) 2 [] main other
unfolding stack_allocate new_thread stack_intact
main_leaves level = record {
  patient = omega arith;
  first = refl;
  exists = omega arith;
  apart = omega arith;
  here = refl;
  intact = refl;
  there = refl;
}

other_exists : one_waits.thread 2 ≢ none
other_exists e = cc

sleep-Switched_example :
    Succeeds (λ _ j. Asleep (two_threads int_off) 2 [] main other j) (sleep 1 (two_threads int_off))
sleep-Switched_example =
    sleep-Switched (two_threads int_off) 2 [] main other (main_leaves int_off) refl

p-Waiting_example :
    Succeeds
      (λ _ j.
        Waiting
          (two_threads int_on)
          2
          []
          main
          other
          (p_loop 0 ∷ restore_level int_on ∷ [])
          (record nothing_free { queue = 1 ∷ [] } ∷ [])
          (busy ∷ [])
          j)
      (p 0 (two_threads int_on))
p-Waiting_example =
    p-Waiting (two_threads int_on) 2 [] main other (main_leaves int_on) 0 nothing_free refl refl

acquire-Waiting_example :
    Succeeds
      (λ _ j.
        Waiting
          (two_threads int_on)
          2
          []
          main
          other
          (acquire_loop 0 ∷ restore_level int_on ∷ [])
          (nothing_free ∷ [])
          (record busy { queue = 2 ∷ 1 ∷ [] } ∷ [])
          j)
      (acquire 0 (two_threads int_on))
acquire-Waiting_example =
    acquire-Waiting (two_threads int_on) 2 [] main other (main_leaves int_on) 0 busy refl
      (omega arith)

v-Woken_example :
    Succeeds
      (λ _ j.
        (j.semaphores ≡ record waited_for { value = 1; queue = [] } ∷ [])
        × (j.locks ≡ busy ∷ [])
        × Woken one_waits 2 j)
      (v 0 one_waits)
v-Woken_example = v-Woken 0 one_waits waited_for refl λ _. other_exists

release-Woken_example :
    Succeeds
      (λ _ j.
        (j.locks ≡ record busy { held = 0; queue = [] } ∷ [])
        × (j.semaphores ≡ waited_for ∷ [])
        × Woken one_waits 2 j)
      (release 0 one_waits)
release-Woken_example = release-Woken 0 one_waits busy refl λ _. other_exists

-- Thread 1 has written zero over its fencepost.
abbrev overrun : Thread
overrun = record main { stack = some (λ i. 0) }

abbrev one_overrun : Kernel IntStatus
one_overrun = record (two_threads int_on) {
  thread = λ t. if t == 1 then some overrun else (if t == 2 then some other else none);
}

is_overrun : Overrun one_overrun 2 [] overrun
unfolding stack_intact
is_overrun = record {
  patient = omega arith;
  first = refl;
  exists = omega arith;
  here = refl;
  broken = refl;
}

Overrun-aborts_example :
    (yield_cpu 1 one_overrun ≡ abort)
    × (finish 1 one_overrun ≡ abort)
    × (sleep 1 (record one_overrun { device = int_off }) ≡ abort)
Overrun-aborts_example = Overrun-aborts one_overrun 2 [] overrun int_off is_overrun refl
