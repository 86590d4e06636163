-- ===== src/UserState.antt =====
-- What `Scheduler::Run` does under USER_PROGRAM on the two sides of SWITCH, with
-- `Thread::SaveUserState` and `Thread::RestoreUserState`. The simulated machine and the address
-- spaces are parameters.
mod Tests
use ooplatingsistm.Base.{
  ℕ, zero, suc, ◌+◌, ◌≤◌, ◌<◌, ◌≡◌, ◌≢◌, refl, ◌∙◌, inl, inr, true, false, Option, none, some, ◌==◌,
  if◌then◌else◌, arith, Bool-cases, Option-cases,
}

-- `machine->ReadRegister` and `WriteRegister`, and `space->SaveState` and `RestoreState`. Registers
-- keep what is written to them, and loading an address space leaves them alone.
pub record Simulation (M W S : Type 0) : Type 0 where
  pub num_total_regs : ℕ
  pub read_register : ℕ → M → W
  pub write_register : ℕ → W → M → M
  pub save_state : S → M → S
  pub restore_state : S → M → M
  pub read-write_self : (i : ℕ) (w : W) (m : M) → read_register i (write_register i w m) ≡ w
  pub read-write_other :
      (i j : ℕ) (w : W) (m : M) → i ≢ j → read_register j (write_register i w m) ≡ read_register j m
  pub read-restore_state :
      (i : ℕ) (s : S) (m : M) → read_register i (restore_state s m) ≡ read_register i m

-- What a thread has of a user program: its address space, NULL if it runs none, and its
-- `userRegisters`.
pub record UserThread (W S : Type 0) : Type 0 where
  pub space : Option S
  pub user_registers : ℕ → W

module _ {M W S : Type 0} (sim : Simulation M W S) where
  -- The loops, with `left` rounds to go.
  unfoldable pub save_loop : (left i : ℕ) → M → (ℕ → W) → ℕ → W
  save_loop zero i m regs = regs
  save_loop (suc left) i m regs =
      save_loop left (i + 1) m (λ j. if j == i then sim.read_register i m else regs j)

  unfoldable pub restore_loop : (left i : ℕ) → (ℕ → W) → M → M
  restore_loop zero i regs m = m
  restore_loop (suc left) i regs m =
      restore_loop left (i + 1) regs (sim.write_register i (regs i) m)

  -- `Thread::SaveUserState` and `Thread::RestoreUserState`.
  unfoldable pub save_user_state : UserThread W S → M → UserThread W S
  unfolding save_loop
  save_user_state t m = record t {
    user_registers = save_loop sim.num_total_regs 0 m t.user_registers;
  }

  unfoldable pub restore_user_state : UserThread W S → M → M
  unfolding restore_loop
  restore_user_state t m = restore_loop sim.num_total_regs 0 t.user_registers m

  -- `Scheduler::Run` in front of SWITCH, for the thread that leaves, and behind it, for the thread
  -- that has been switched to.
  unfoldable pub leave_user : UserThread W S → M → UserThread W S
  unfolding save_user_state
  leave_user t m = elim t.space [
    | none ↦ t
    | some s ↦ record (save_user_state t m) { space = some (sim.save_state s m) }
  ]

  unfoldable pub enter_user : UserThread W S → M → M
  unfolding restore_user_state
  enter_user t m = elim t.space [ none ↦ m | some s ↦ sim.restore_state s (restore_user_state t m) ]

  save_loop-below :
      (left i j : ℕ) (m : M) (regs : ℕ → W) → j < i → save_loop left i m regs j ≡ regs j
  unfolding save_loop
  save_loop-below zero i j m regs below = refl
  save_loop-below (suc left) i j m regs below =
      save_loop-below left (i + 1) j m _ (omega (arith, below)) ∙ ground (arith, below)

  save_loop-saved :
      (left i j : ℕ) (m : M) (regs : ℕ → W)
      → i ≤ j
      → j < i + left
      → save_loop left i m regs j ≡ sim.read_register j m
  unfolding save_loop
  save_loop-saved zero i j m regs above below = absurd (omega (arith, above, below))
  save_loop-saved (suc left) i j m regs above below = elim (Bool-cases (j == i)) [
    | inl here ↦ save_loop-below left (i + 1) j m _ (ground (arith, here)) ∙ ground (arith, here)
    | inr further ↦
        save_loop-saved left (i + 1) j m _ (ground (arith, further, above)) (omega (arith, below))
  ]

  restore_loop-below :
      (left i j : ℕ) (regs : ℕ → W) (m : M)
      → j < i
      → sim.read_register j (restore_loop left i regs m) ≡ sim.read_register j m
  unfolding restore_loop
  restore_loop-below zero i j regs m below = refl
  restore_loop-below (suc left) i j regs m below =
      restore_loop-below left (i + 1) j regs _ (omega (arith, below))
      ∙ sim.read-write_other i j (regs i) m (omega (arith, below))

  restore_loop-restored :
      (left i j : ℕ) (regs : ℕ → W) (m : M)
      → i ≤ j
      → j < i + left
      → sim.read_register j (restore_loop left i regs m) ≡ regs j
  unfolding restore_loop
  restore_loop-restored zero i j regs m above below = absurd (omega (arith, above, below))
  restore_loop-restored (suc left) i j regs m above below = elim (Bool-cases (j == i)) [
    | inl here ↦
        let e : j ≡ i = ground (arith, here) in
        restore_loop-below left (i + 1) j regs _ (omega (arith, e))
        ∙ rw e (sim.read-write_self i (regs i) m)
    | inr further ↦
        restore_loop-restored left (i + 1) j regs _ (ground (arith, further, above))
          (omega (arith, below))
  ]

  leave_user-saved :
      (t : UserThread W S) (m : M) (s : S)
      → t.space ≡ some s
      → leave_user t m ≡ record {
        space = some (sim.save_state s m);
        user_registers = save_loop sim.num_total_regs 0 m t.user_registers;
      }
  unfolding leave_user save_user_state
  leave_user-saved t m s user = rw (user, leave_user)

  -- A thread that runs a user program and gives the processor away finds all user registers again
  -- when it is switched to, whatever other threads have done to the machine. A thread that runs no
  -- user program leaves the machine alone.
  pub enter-leave :
      (t : UserThread W S) (m later : M) (i : ℕ)
      → i < sim.num_total_regs
      → (t.space ≢ none
          → sim.read_register i (enter_user (leave_user t m) later) ≡ sim.read_register i m)
        × (t.space ≡ none → enter_user (leave_user t m) later ≡ later)
  unfolding enter_user leave_user save_user_state restore_user_state
  enter-leave t m later i small = elim (Option-cases t.space) [
    | inl kernel_only ↦
        ((λ some_space. absurd (some_space kernel_only)), λ _. ground (arith, kernel_only))
    | inr (s, user) ↦
        let saved = save_loop sim.num_total_regs 0 m t.user_registers in
        (
          λ _. rw (leave_user-saved t m s user) (
              sim.read-restore_state i (sim.save_state s m) _
              ∙ restore_loop-restored sim.num_total_regs 0 i saved later (omega arith)
                  (omega (arith, small))
              ∙ save_loop-saved sim.num_total_regs 0 i m t.user_registers (omega arith)
                  (omega (arith, small))),
          λ no_space. ground (arith, user, no_space),
        )
  ]
