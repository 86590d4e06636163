-- ===== src/ThreadOps.antt =====
-- The methods of thread.cc that hand the processor over: `Fork`, `Yield`, `Sleep`, `Finish`. The
-- argument `this` is the thread whose method is called.
pub mod Places
pub mod Keeps
pub mod Dispatch
pub mod Leave
pub mod Idling
pub mod Frames
pub mod Calls
pub mod Stacks
pub mod Alive
pub mod Woken
pub mod Served
pub mod Survival
pub mod Running
pub mod Leaving
pub mod Overflow
pub mod Statuses
use Prim.Native.String.{String}
use ooplatingsistm.Base.{
  ℕ, zero, suc, ◌+◌, ◌≡◌, Bool, true, false, Option, none, some, List, [], ◌∷◌, ◌++◌, ◌==◌,
  if◌then◌else◌,
}
use ooplatingsistm.LinkedList.Heap.{Ptr, null}
use ooplatingsistm.Queue.{remove}
use ooplatingsistm.Program.{IntStatus, int_off, int_on, restore_level}
use ooplatingsistm.Thread.{Entries, blocked, new_thread, stack_allocate}
use ooplatingsistm.Kernel.{
  Kernel, Interrupt, Cmd, Command, ok, halt, out_of_patience, pure, ◌>>=◌, ◌>>◌, modify, assert,
}
use ooplatingsistm.Scheduler.{
  load_thread, store_thread, change_status, ready_to_run, find_next_to_run, push, run,
}
use ooplatingsistm.Wake.{set_level, v}

abbrev pub is_off : IntStatus → Bool
is_off int_off = true
is_off int_on = false

-- What `new` and `AllocBoundedArray` return in memory that nobody has written yet.
pub record Garbage : Type 0 where
  pub registers : Ptr → ℕ → ℕ
  pub stack : Ptr → ℕ → ℕ

module _ {D : Type 0} where
  -- `new Thread(name)`: addresses are given out upwards and not again.
  unfoldable pub create : Garbage → String → Cmd D Ptr
  create g name k =
      let t = k.next_addr in
      (do
        modify λ j. record j { next_addr = t + 1 }
        store_thread t (some (new_thread name (g.registers t)))
        pure t)
        k

  module _ ⦃irq : Interrupt D⦄ where
    -- `Thread::Fork`, with `StackAllocate`.
    unfoldable pub fork : Garbage → Entries → (this : Ptr) → (func arg : ℕ) → Command D
    unfolding load_thread ready_to_run
    fork g e this func arg = do
      t ← load_thread this
      store_thread this (some (stack_allocate e (g.stack this) func arg t))
      old_level ← set_level int_off
      ready_to_run this
      set_level old_level
      pure tt

    -- `Thread::Yield`; the level is restored when control comes back.
    unfoldable pub yield_cpu : (this : Ptr) → Command D
    unfolding find_next_to_run ready_to_run run
    yield_cpu this = do
      old_level ← set_level int_off
      λ k. assert (this == k.current) k
      next_thread ← find_next_to_run
      push (restore_level old_level)
      if next_thread == null then pure tt else (ready_to_run this >> run next_thread)

    -- The handlers that one call of `Idle` runs.
    unfoldable pub signal_all : List ℕ → Command D
    signal_all [] = pure tt
    signal_all (s ∷ ss) = v s >> signal_all ss

    unfoldable pub idle : Command D
    idle k = elim (irq.idle k.device) [
      | none ↦ halt
      | some (d, ss) ↦ signal_all ss (record k { device = d })
    ]

    -- `while ((nextThread = scheduler->FindNextToRun()) == NULL) interrupt->Idle();`
    unfoldable pub next_or_idle : ℕ → Cmd D Ptr
    next_or_idle zero = λ k. out_of_patience
    next_or_idle (suc n) = do
      next_thread ← find_next_to_run
      if next_thread == null then (idle >> next_or_idle n) else pure next_thread

    -- `Thread::Sleep`.
    unfoldable pub sleep : (this : Ptr) → Command D
    unfolding change_status
    sleep this = do
      λ k. assert (this == k.current) k
      λ k. assert (is_off (irq.get_level k.device)) k
      change_status this blocked
      next_thread ← next_or_idle irq.patience
      run next_thread

    -- `Thread::Finish`.
    unfoldable pub finish : (this : Ptr) → Command D
    finish this = do
      set_level int_off
      λ k. assert (this == k.current) k
      modify λ k. record k { to_be_destroyed = k.current }
      sleep this
