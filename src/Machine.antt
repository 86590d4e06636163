-- ===== src/Machine.antt =====
-- The whole kernel as a machine: one step runs the top frame of the current thread to the next
-- place where control may go elsewhere, and the timer may make it yield between steps.
pub mod Places
pub mod Frames
pub mod Exclusion
pub mod Sections
pub mod Alive
pub mod Served
pub mod Fresh
pub mod Statuses
pub mod Going
pub mod Finish
pub mod Tests
use ooplatingsistm.Base.{
  ℕ, zero, suc, ◌≡◌, ◌≢◌, arith, refl, Option, none, some, List, [], ◌∷◌, ◌++◌,
}
use ooplatingsistm.LinkedList.Heap.{Ptr}
use ooplatingsistm.Program.{
  IntStatus, int_on, Stmt, printf, call_yield, call_fork, call_p, call_v, call_acquire,
  call_release, call_wait, call_signal, call_broadcast, call_put, call_mapcar, call_take, Frame,
  thread_root, body, thread_finish, after_switch, restore_level, p_loop, acquire_loop, put_locked,
  map_locked, take_locked, Text,
}
use ooplatingsistm.Thread.{Entries, initial_pc_state, initial_arg_state}
use ooplatingsistm.Kernel.{
  Kernel, Interrupt, Outcome, Cmd, Command, ok, abort, crash, halt, out_of_patience, pure, ◌>>=◌,
  ◌>>◌, deref, modify,
}
use ooplatingsistm.Scheduler.{load_thread, push, finish_run}
use ooplatingsistm.Wake.{set_level, v}
use ooplatingsistm.ThreadOps.{Garbage, create, fork, yield_cpu, finish}
use ooplatingsistm.Synch.{p, p_wait, acquire, acquire_wait, release, wait, signal, broadcast}
use ooplatingsistm.Synchlist.{put, put_rest, take, take_rest, mapcar, mapcar_rest}

-- What the program is linked from, and what fresh memory holds.
pub record Image : Type 0 where
  pub text : Text
  pub entries : Entries
  pub garbage : Garbage

module _ {D : Type 0} ⦃irq : Interrupt D⦄ (image : Image) where
  unfoldable pub exec_stmt : Stmt → Command D
  exec_stmt (printf format args) = modify λ k. record k { output = k.output ++ (format, args) ∷ [] }
  exec_stmt call_yield = λ k. yield_cpu k.current k
  exec_stmt (call_fork name func arg) = do
    t ← create image.garbage name
    fork image.garbage image.entries t func arg
  exec_stmt (call_p s) = p s
  exec_stmt (call_v s) = v s
  exec_stmt (call_acquire l) = acquire l
  exec_stmt (call_release l) = release l
  exec_stmt (call_wait l) = wait l
  exec_stmt (call_signal l) = signal l
  exec_stmt (call_broadcast l) = broadcast l
  exec_stmt (call_put i item) = put i item
  exec_stmt (call_take i) = take i
  exec_stmt (call_mapcar i format) = mapcar i format

  -- `ThreadRoot`: enable interrupts, call the procedure with its argument, then `ThreadFinish`.
  unfoldable pub enter_root : Command D
  enter_root k =
      (do
        t ← load_thread k.current
        modify λ j. record j { device = irq.enable j.device }
        push thread_finish
        push (
            body
              (image.text (t.machine_state initial_pc_state) (t.machine_state initial_arg_state))))
        k

  unfoldable pub exec_frame : Frame → Command D
  exec_frame thread_root = enter_root
  exec_frame (body []) = pure tt
  exec_frame (body (s ∷ ss)) = push (body ss) >> exec_stmt s
  exec_frame thread_finish = λ k. finish k.current k
  exec_frame after_switch = finish_run
  exec_frame (restore_level l) = do set_level l; pure tt
  exec_frame (p_loop s) = p_wait s
  exec_frame (acquire_loop l) = acquire_wait l
  exec_frame (put_locked i item) = put_rest i item
  exec_frame (take_locked i) = take_rest i
  exec_frame (map_locked i format) = mapcar_rest i format

  -- Nothing is left to do only behind `ThreadFinish`, which does not return.
  unfoldable pub step : Command D
  step k = elim k.cpu [ [] ↦ crash | f ∷ fs ↦ exec_frame f (record k { cpu = fs }) ]

  pub step-frame :
      (k : Kernel D) {f : Frame} {fs : List Frame}
      → k.cpu ≡ f ∷ fs
      → step k ≡ exec_frame f (record k { cpu = fs })
  unfolding step
  step-frame k top = rw (top, step)

  pub step-idle : (k : Kernel D) {j : Kernel D} → k.cpu ≡ [] → step k ≢ ok tt j
  unfolding step
  step-idle k top e = ground arith

  -- The current thread goes on, or is interrupted by the timer (`TimerInterruptHandler`), or by a
  -- device whose handler signals a semaphore; interrupts come only while they are enabled.
  pub data Step (k : Kernel D) : Kernel D → Type 0 where
    go : {j : Kernel D} → step k ≡ ok tt j → Step k j
    timer :
        {j : Kernel D}
        → irq.get_level k.device ≡ int_on
        → yield_cpu k.current k ≡ ok tt j
        → Step k j
    device_interrupt :
        {j : Kernel D} (s : ℕ) → irq.get_level k.device ≡ int_on → v s k ≡ ok tt j → Step k j

  pub data Reach (k : Kernel D) : Kernel D → Type 0 where
    here : Reach k k
    later : {i j : Kernel D} → Reach k i → Step i j → Reach k j

  -- The last state of a run of so many steps at most: the run ends where the machine halts or fails.
  unfoldable pub run_until : ℕ → Kernel D → Kernel D
  run_until zero k = k
  run_until (suc n) k = elim (step k) [
    | ok _ j ↦ run_until n j
    | abort ↦ k
    | crash ↦ k
    | halt ↦ k
    | out_of_patience ↦ k
  ]

  pub run_until-Reach : (n : ℕ) {k i : Kernel D} → Reach k i → Reach k (run_until n i)
  unfolding run_until
  run_until-Reach zero r = r
  run_until-Reach (suc n) {k} {i} r =
      goes_on (step i) refl λ j e. run_until-Reach n (later r (go e))
    where
      goes_on :
          (m : Outcome D (Unit {0}))
          → step i ≡ m
          → ((j : Kernel D) → step i ≡ ok tt j → Reach k (run_until n j))
          → Reach k (elim m [
            | ok _ j ↦ run_until n j
            | abort ↦ i
            | crash ↦ i
            | halt ↦ i
            | out_of_patience ↦ i
          ])
      goes_on (ok a j) e rest = rest j e
      goes_on abort e rest = r
      goes_on crash e rest = r
      goes_on halt e rest = r
      goes_on out_of_patience e rest = r
