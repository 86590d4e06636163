-- ===== src/Synch/IdlingTests.antt =====
-- The last thread that can run goes to sleep on a machine with pending interrupts.
use ooplatingsistm.Base.{
  ℕ, ◌≡◌, refl, arith, Option, none, some, List, [], ◌∷◌, ◌==◌, if◌then◌else◌,
}
use ooplatingsistm.LinkedList.Heap.{null}
use ooplatingsistm.Program.{IntStatus, int_off, int_on}
use ooplatingsistm.Thread.{ready, set_status}
use ooplatingsistm.Kernel.{Kernel, Interrupt, ok, halt}
use ooplatingsistm.Scheduler.{run, ready_to_run, change_status, update}
use ooplatingsistm.Wake.{v, ready_unless_null}
use ooplatingsistm.ThreadOps.{sleep, idle, signal_all}
use ooplatingsistm.ThreadOps.Idling.{Idles, over, round, dozing, sleep-halt, sleep-wakes}
use ooplatingsistm.Synch.Tests.{main, other, waited_for, busy}

-- The interrupt level, and the semaphores that the handler of each pending interrupt signals.
abbrev Pending : Type 0
Pending = IntStatus × List (List ℕ)

abbrev first_pending : Pending → Option (Pending × List ℕ)
first_pending (l, []) = none
first_pending (l, signals ∷ rest) = some ((l, rest), signals)

first_pending-level :
    (d : Pending) {e : Pending} {vs : List ℕ} → first_pending d ≡ some (e, vs) → e.0 ≡ d.0
first_pending-level (l, []) h = cc
first_pending-level (l, signals ∷ rest) {e = e} {vs = vs} h = ground (arith, h)

instance abbrev with_pending : Interrupt Pending
with_pending = record {
  get_level = λ d. d.0;
  set_level = λ l d. (l, d.1);
  enable = λ d. (int_on, d.1);
  idle = first_pending;
  patience = 3;
  get_level-set_level = λ l d. refl;
  get_level-enable = λ d. refl;
  get_level-idle = first_pending-level;
}

-- Thread 1 runs, and thread 2 waits for a semaphore.
abbrev nobody_ready : List (List ℕ) → Kernel Pending
nobody_ready pending = record {
  current = 1;
  to_be_destroyed = null;
  ready_list = [];
  thread = λ t. if t == 1 then some main else (if t == 2 then some other else none);
  semaphores = waited_for ∷ [];
  locks = busy ∷ [];
  synch_lists = [];
  device = (int_off, pending);
  cpu = [];
  next_addr = 3;
  taken = [];
  output = [];
}

in_vain :
    (rest : List (List ℕ))
    → Idles 1 (dozing main (nobody_ready ([] ∷ rest))) (dozing main (nobody_ready rest))
unfolding idle signal_all
in_vain rest = round refl refl over

twice_in_vain : Idles 2 (dozing main (nobody_ready ([] ∷ [] ∷ []))) (dozing main (nobody_ready []))
unfolding idle signal_all
twice_in_vain = round refl refl (in_vain [])

-- Two interrupts that signal nothing, and then none.
sleep-halt_example : sleep 1 (nobody_ready ([] ∷ [] ∷ [])) ≡ halt
sleep-halt_example =
    sleep-halt (nobody_ready ([] ∷ [] ∷ [])) main refl refl refl twice_in_vain refl (omega arith)

-- An interrupt that signals nothing, and one whose handler calls `V`.
abbrev woken : Kernel Pending
woken = record (dozing main (nobody_ready [])) {
  ready_list = 2 ∷ [];
  thread = update (dozing main (nobody_ready [])).thread 2 (some (set_status ready other));
  semaphores = record waited_for { value = 1; queue = [] } ∷ [];
}

signalled : idle (dozing main (nobody_ready ((0 ∷ []) ∷ []))) ≡ ok tt woken
unfolding idle signal_all v ready_unless_null ready_to_run change_status
signalled = refl

sleep-wakes_example :
    sleep 1 (nobody_ready ([] ∷ (0 ∷ []) ∷ [])) ≡ run 2 (record woken { ready_list = [] })
sleep-wakes_example =
    sleep-wakes (nobody_ready ([] ∷ (0 ∷ []) ∷ [])) woken main 2 [] refl refl refl
      (in_vain ((0 ∷ []) ∷ [])) signalled refl (omega arith) (omega arith)
