-- ===== src/Switch/Hosts.antt =====
-- switch.s and switch.h for HOST_MIPS and HOST_SNAKE, which differ in their registers and offsets
-- alone, with StackAllocate and CheckOverflow of thread.cc on these hosts.
pub mod LoadStore
pub mod Layout
pub mod Rounds
mod Tests
use ooplatingsistm.Base.{
  ℕ, ◌+◌, ◌-◌, ◌*◌, ◌/◌, Bool, true, false, List, [], ◌∷◌, ◌==◌, if◌then◌else◌,
}
use ooplatingsistm.LinkedList.Heap.{Ptr}
use ooplatingsistm.Thread.{Entries, stack_size, stack_fencepost, put}

-- A register by its number, and where the control block keeps it, in bytes.
abbrev pub Slots : Type 0
Slots = List (ℕ × ℕ)

-- `stores` are the registers that SWITCH stores, in its order, and `loads` those that it loads; `link`
-- holds the return address. `old_thread` and `new_thread` hold the arguments of SWITCH; the first
-- is the one for the argument of a procedure as well.
pub record Host : Type 0 where
  pub stores : Slots
  pub loads : Slots
  pub link : ℕ
  pub pc : ℕ
  pub old_thread : ℕ
  pub new_thread : ℕ
  -- the registers that ThreadRoot reads, and the offsets that StackAllocate fills for them
  pub initial_pc : ℕ × ℕ
  pub initial_arg : ℕ × ℕ
  pub when_done_pc : ℕ × ℕ
  pub startup_pc : ℕ × ℕ
  -- the registers that ThreadRoot clears first
  pub cleared : List ℕ
  pub top_word : ℕ
  -- where StackAllocate writes the fence post, and where CheckOverflow reads it
  pub fencepost_word : ℕ
  pub checked_word : ℕ

abbrev pub mips : Host
mips = record {
  stores =
      (29, 0)
      ∷ (16, 4)
      ∷ (17, 8)
      ∷ (18, 12)
      ∷ (19, 16)
      ∷ (20, 20)
      ∷ (21, 24)
      ∷ (22, 28)
      ∷ (23, 32)
      ∷ (30, 36)
      ∷ (31, 40)
      ∷ [];
  loads =
      (29, 0)
      ∷ (16, 4)
      ∷ (17, 8)
      ∷ (18, 12)
      ∷ (19, 16)
      ∷ (20, 20)
      ∷ (21, 24)
      ∷ (22, 28)
      ∷ (23, 32)
      ∷ (30, 36)
      ∷ (31, 40)
      ∷ [];
  link = 31;
  pc = 40;
  old_thread = 4;
  new_thread = 5;
  initial_pc = (16, 4);
  initial_arg = (17, 8);
  when_done_pc = (18, 12);
  startup_pc = (19, 16);
  cleared = 30 ∷ [];
  top_word = stack_size - 4;
  fencepost_word = 0;
  checked_word = 0;
}

abbrev pub snake : Host
snake = record {
  stores =
      (30, 0)
      ∷ (3, 4)
      ∷ (4, 8)
      ∷ (5, 12)
      ∷ (6, 16)
      ∷ (7, 20)
      ∷ (8, 24)
      ∷ (9, 28)
      ∷ (10, 32)
      ∷ (11, 36)
      ∷ (12, 40)
      ∷ (13, 44)
      ∷ (14, 48)
      ∷ (15, 52)
      ∷ (16, 56)
      ∷ (17, 60)
      ∷ (18, 64)
      ∷ (2, 68)
      ∷ [];
  loads =
      (30, 0)
      ∷ (3, 4)
      ∷ (4, 8)
      ∷ (5, 12)
      ∷ (6, 16)
      ∷ (7, 20)
      ∷ (8, 24)
      ∷ (9, 28)
      ∷ (10, 32)
      ∷ (11, 36)
      ∷ (12, 40)
      ∷ (13, 44)
      ∷ (14, 48)
      ∷ (15, 52)
      ∷ (16, 56)
      ∷ (17, 60)
      ∷ (2, 68)
      ∷ (18, 64)
      ∷ [];
  link = 2;
  pc = 68;
  old_thread = 26;
  new_thread = 25;
  initial_pc = (3, 4);
  initial_arg = (4, 8);
  when_done_pc = (5, 12);
  startup_pc = (6, 16);
  cleared = [];
  top_word = 16;
  fencepost_word = stack_size - 1;
  checked_word = stack_size - 1;
}

pub data Processor : Type 0 where
  mips_processor snake_processor : Processor

abbrev pub host : Processor → Host
host mips_processor = mips
host snake_processor = snake

-- The registers, and the words of the control blocks by block and offset.
pub record Cpu : Type 0 where
  pub register : ℕ → ℕ
  pub blocks : Ptr → ℕ → ℕ

abbrev pub set_register : ℕ → ℕ → Cpu → Cpu
set_register r w c = record c { register = put c.register r w }

-- `sw r, offset(a)` for each of the slots, then `lw r, offset(a)`.
unfoldable pub store_all : Slots → Ptr → Cpu → Cpu
store_all [] t c = c
store_all ((r, offset) ∷ slots) t c = store_all slots t (record c {
  blocks = λ q i. if q == t then put (c.blocks q) offset (c.register r) i else c.blocks q i;
})

unfoldable pub load_all : Slots → Ptr → Cpu → Cpu
load_all [] t c = c
load_all ((r, offset) ∷ slots) t c = load_all slots t (set_register r (c.blocks t offset) c)

-- SWITCH; it returns to the address in the link register.
unfoldable pub switch_on : Host → Cpu → Cpu
unfolding store_all load_all
switch_on h c =
    load_all h.loads (c.register h.new_thread) (store_all h.stores (c.register h.old_thread) c)

abbrev pub clear_all : List ℕ → Cpu → Cpu
clear_all [] c = c
clear_all (r ∷ rs) c = clear_all rs (set_register r 0 c)

-- ThreadRoot: the functions that it calls, each with the word in the argument register. `callee a` is
-- what the function at the address `a` does.
module _ (callee : ℕ → Cpu → Cpu) where
  unfoldable pub root_calls : Host → Cpu → List (ℕ × ℕ)
  root_calls h c =
      let entered = clear_all h.cleared c in
      let started = callee (entered.register h.startup_pc.0) entered in
      let handed = set_register h.old_thread (started.register h.initial_arg.0) started in
      let done = callee (handed.register h.initial_pc.0) handed in
      (entered.register h.startup_pc.0, entered.register h.old_thread)
      ∷ (handed.register h.initial_pc.0, handed.register h.old_thread)
      ∷ (done.register h.when_done_pc.0, done.register h.old_thread)
      ∷ []

-- The condition of CheckOverflow.
unfoldable pub stack_intact_on : Host → (ℕ → ℕ) → Bool
stack_intact_on h words = words h.checked_word == stack_fencepost

-- What StackAllocate makes: the word of the stack that `stackTop` points at, the stack, and the
-- control block behind `stackTop`, by offset.
unfoldable pub stack_allocate_on :
    Host → Entries → (block : ℕ → ℕ) → (func arg : ℕ) → (registers : ℕ → ℕ) → ℕ × (ℕ → ℕ) × (ℕ → ℕ)
stack_allocate_on h e block func arg registers =
    let regs = put registers h.pc e.root in
    let regs = put regs h.startup_pc.1 e.interrupt_enable in
    let regs = put regs h.initial_pc.1 func in
    let regs = put regs h.initial_arg.1 arg in
    let regs = put regs h.when_done_pc.1 e.finish in
    (h.top_word, put block h.fencepost_word stack_fencepost, regs)
