-- ===== src/Switch.antt =====
-- switch.s and switch.h for HOST_i386, instruction by instruction: SWITCH and ThreadRoot. The
-- kernel's `switch` and `enter_root` are what they come to for the frames of a thread.
pub mod Resume
pub mod Hosts
mod Tests
use ooplatingsistm.Base.{ℕ, ◌+◌, ◌-◌, List, [], ◌∷◌, ◌==◌, if◌then◌else◌}
use ooplatingsistm.LinkedList.Heap.{Ptr}

pub data Reg : Type 0 where
  eax ebx ecx edx esi edi ebp esp : Reg

-- The registers, the word `_eax_save`, the memory of the stacks by address, and the words of the
-- control blocks by block and slot: slot 0 is `stackTop`, slot i + 1 is `machineState[i]`.
pub record Cpu : Type 0 where
  pub register : Reg → ℕ
  pub eip : ℕ
  pub eax_save : ℕ
  pub memory : ℕ → ℕ
  pub blocks : Ptr → ℕ → ℕ

-- `_ESP`, ..., `_PC` of switch.h, divided by 4.
abbrev pub pc_slot : ℕ
pc_slot = 8

abbrev pub slot : Reg → ℕ
slot esp = 0
slot eax = 1
slot ebx = 2
slot ecx = 3
slot edx = 4
slot ebp = 5
slot esi = 6
slot edi = 7

-- `InitialPC`, `InitialArg`, `WhenDonePC`, `StartupPC` of switch.h.
abbrev pub initial_pc : Reg
initial_pc = esi

abbrev pub initial_arg : Reg
initial_arg = edx

abbrev pub when_done_pc : Reg
when_done_pc = edi

abbrev pub startup_pc : Reg
startup_pc = ecx

abbrev pub put_reg : (Reg → ℕ) → Reg → ℕ → Reg → ℕ
put_reg m r w q = if slot q == slot r then w else m q

abbrev pub put_word : (ℕ → ℕ) → ℕ → ℕ → ℕ → ℕ
put_word m a w i = if i == a then w else m i

abbrev pub put_slot : (Ptr → ℕ → ℕ) → Ptr → ℕ → ℕ → Ptr → ℕ → ℕ
put_slot m t s w q i = if i == s then (if q == t then w else m q i) else m q i

-- `movl r,_eax_save`, `movl _eax_save,r`, `movl a,b`, `movl n(%esp),r`, `movl r,n(%esp)`,
-- `movl r,slot(%eax)`, `movl slot(%eax),r`, `pushl r`, `popl r`, `call *r`, `ret`.
pub data Instr : Type 0 where
  save restore push pop call : Reg → Instr
  move : (a b : Reg) → Instr
  load_stack : ℕ → Reg → Instr
  store_stack : Reg → ℕ → Instr
  store_block : Reg → ℕ → Instr
  load_block : ℕ → Reg → Instr
  ret : Instr

abbrev pub set_reg : Reg → ℕ → Cpu → Cpu
set_reg r w c = record c { register = put_reg c.register r w }

abbrev pub push_word : ℕ → Cpu → Cpu
push_word w c =
    let top = c.register esp - 4 in record (set_reg esp top c) { memory = put_word c.memory top w }

-- `callee a` is what the function at the address `a` does, from its entry until it has returned;
-- `behind r` is the address behind the instruction `call *r`.
module _ (callee : ℕ → Cpu → Cpu) (behind : Reg → ℕ) where
  unfoldable pub exec : Instr → Cpu → Cpu
  exec (save r) c = record c { eax_save = c.register r }
  exec (restore r) c = set_reg r c.eax_save c
  exec (move a b) c = set_reg b (c.register a) c
  exec (load_stack n r) c = set_reg r (c.memory (c.register esp + n)) c
  exec (store_stack r n) c = record c {
    memory = put_word c.memory (c.register esp + n) (c.register r);
  }
  exec (store_block r s) c = record c {
    blocks = put_slot c.blocks (c.register eax) s (c.register r);
  }
  exec (load_block s r) c = set_reg r (c.blocks (c.register eax) s) c
  exec (push r) c = push_word (c.register r) c
  exec (pop r) c = set_reg r (c.memory (c.register esp)) (set_reg esp (c.register esp + 4) c)
  exec (call r) c = callee (c.register r) (push_word (behind r) c)
  exec ret c = record (set_reg esp (c.register esp + 4) c) { eip = c.memory (c.register esp) }

  unfoldable pub exec_all : List Instr → Cpu → Cpu
  unfolding exec
  exec_all [] c = c
  exec_all (i ∷ is) c = exec_all is (exec i c)

  -- The functions that the code calls, each with the word that is its first argument.
  unfoldable pub calls : List Instr → Cpu → List (ℕ × ℕ)
  unfolding exec
  calls [] c = []
  calls (call r ∷ is) c = (c.register r, c.memory (c.register esp)) ∷ calls is (exec (call r) c)
  calls (i ∷ is) c = calls is (exec i c)

-- `SWITCH`.
abbrev pub switch_code : List Instr
switch_code =
    save eax
    ∷ load_stack 4 eax
    ∷ store_block ebx (slot ebx)
    ∷ store_block ecx (slot ecx)
    ∷ store_block edx (slot edx)
    ∷ store_block esi (slot esi)
    ∷ store_block edi (slot edi)
    ∷ store_block ebp (slot ebp)
    ∷ store_block esp (slot esp)
    ∷ restore ebx
    ∷ store_block ebx (slot eax)
    ∷ load_stack 0 ebx
    ∷ store_block ebx pc_slot
    ∷ load_stack 8 eax
    ∷ load_block (slot eax) ebx
    ∷ save ebx
    ∷ load_block (slot ebx) ebx
    ∷ load_block (slot ecx) ecx
    ∷ load_block (slot edx) edx
    ∷ load_block (slot esi) esi
    ∷ load_block (slot edi) edi
    ∷ load_block (slot ebp) ebp
    ∷ load_block (slot esp) esp
    ∷ load_block pc_slot eax
    ∷ store_stack eax 4
    ∷ restore eax
    ∷ ret
    ∷ []

-- `ThreadRoot`.
abbrev pub thread_root_code : List Instr
thread_root_code =
    push ebp
    ∷ move esp ebp
    ∷ push initial_arg
    ∷ call startup_pc
    ∷ call initial_pc
    ∷ call when_done_pc
    ∷ move ebp esp
    ∷ pop ebp
    ∷ ret
    ∷ []
