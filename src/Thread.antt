-- ===== src/Thread.antt =====
-- The thread control block of thread.h, and the methods of thread.cc that concern one alone. Words
-- are bit patterns of 32 bits; sizes and register slots are those of HOST_i386.
use Prim.Native.String.{String}
use mathlib.Core.Option
use ooplatingsistm.Base.{
  ℕ, ◌-◌, ◌*◌, ◌≡◌, refl, Bool, true, Option, none, some, List, [], ◌∷◌, ◌==◌, if◌then◌else◌,
}
use ooplatingsistm.Program.{Frame, thread_root}

pub data ThreadStatus : Type 0 where
  just_created running ready blocked : ThreadStatus

-- `STACK_FENCEPOST`, and `StackSize` in words.
abbrev pub stack_fencepost : ℕ
stack_fencepost = 0xdeadbeef

abbrev pub stack_size : ℕ
stack_size = 4 * 1024

-- The slots of `machineState` that `ThreadRoot` reads (switch.h).
abbrev pub initial_pc_state : ℕ
initial_pc_state = 5

abbrev pub initial_arg_state : ℕ
initial_arg_state = 3

abbrev pub when_done_pc_state : ℕ
when_done_pc_state = 6

abbrev pub startup_pc_state : ℕ
startup_pc_state = 2

abbrev pub pc_state : ℕ
pc_state = 7

-- The addresses of the kernel's own entry points, which the linker fixes.
pub record Entries : Type 0 where
  pub root : ℕ
  pub interrupt_enable : ℕ
  pub finish : ℕ

-- `stack` is `none` for NULL; `context` is what the saved registers and the stack stand for.
pub record Thread : Type 0 where
  pub name : String
  pub status : ThreadStatus
  pub stack : Option (ℕ → ℕ)
  pub stack_top : ℕ
  pub machine_state : ℕ → ℕ
  pub context : List Frame

-- `Thread::Thread`. The registers hold what the memory held.
unfoldable pub new_thread : String → (ℕ → ℕ) → Thread
new_thread thread_name garbage = record {
  name = thread_name;
  status = just_created;
  stack = none;
  stack_top = 0;
  machine_state = garbage;
  context = [];
}

abbrev pub put : (ℕ → ℕ) → ℕ → ℕ → ℕ → ℕ
put m slot word i = if i == slot then word else m i

-- `Thread::StackAllocate`, on the block that `AllocBoundedArray` returned.
unfoldable pub stack_allocate : Entries → (block : ℕ → ℕ) → (func arg : ℕ) → Thread → Thread
stack_allocate e block func arg t =
    let top = stack_size - 4 - 1 in
    let regs = put t.machine_state pc_state e.root in
    let regs = put regs startup_pc_state e.interrupt_enable in
    let regs = put regs initial_pc_state func in
    let regs = put regs initial_arg_state arg in
    record t {
      stack = some (put (put block top e.root) 0 stack_fencepost);
      stack_top = top;
      machine_state = put regs when_done_pc_state e.finish;
      context = thread_root ∷ [];
    }

-- The condition of `Thread::CheckOverflow`.
unfoldable pub stack_intact : Option (ℕ → ℕ) → Bool
stack_intact none = true
stack_intact (some words) = words 0 == stack_fencepost

abbrev pub set_status : ThreadStatus → Thread → Thread
set_status st t = record t { status = st }

-- A new stack is intact, returns into `ThreadRoot`, and `ThreadRoot` finds in the registers the
-- procedure, its argument and the two calls round it.
pub stack_allocate-intact :
    (e : Entries) (block : ℕ → ℕ) (func arg : ℕ) (t : Thread)
    → let t' = stack_allocate e block func arg t in
      (stack_intact t'.stack ≡ true)
      × (Option.map (λ (words : ℕ → ℕ). words t'.stack_top) t'.stack ≡ some e.root)
      × (t'.machine_state initial_pc_state ≡ func)
      × (t'.machine_state initial_arg_state ≡ arg)
      × (t'.machine_state startup_pc_state ≡ e.interrupt_enable)
      × (t'.machine_state when_done_pc_state ≡ e.finish)
      × (t'.machine_state pc_state ≡ e.root)
      × (t'.context ≡ thread_root ∷ [])
      × (t'.status ≡ t.status)
unfolding stack_allocate stack_intact
stack_allocate-intact e block func arg t = (refl, refl, refl, refl, refl, refl, refl, refl, refl)
