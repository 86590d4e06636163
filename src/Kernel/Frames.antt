-- ===== src/Kernel/Frames.antt =====
-- The shape of what threads have to do: kernel frames, which run with interrupts off, stand on top
-- of user frames, and every stack keeps its fencepost.
use ooplatingsistm.Base.{◌≡◌, true, ◌⊎◌, Option, none, some, List, [], ◌∷◌, All}
use ooplatingsistm.LinkedList.Heap.{Ptr}
use ooplatingsistm.Program.{
  int_off, Stmt, call_wait, call_take, Frame, thread_root, body, thread_finish, after_switch,
  restore_level, p_loop, acquire_loop, put_locked, map_locked, take_locked,
}
use ooplatingsistm.Thread.{Thread, stack_intact}
use ooplatingsistm.Kernel.{Kernel, Interrupt}

-- The statements other than `Condition::Wait` and `SynchList::Remove`, which assert.
abbrev pub IsPlain : Stmt → Type 0
IsPlain (call_wait l) = ⊥
IsPlain (call_take i) = ⊥
IsPlain _ = Unit

abbrev pub User : List Frame → Type 0
User [] = Unit
User (body ss ∷ fs) = All IsPlain ss × User fs
User (thread_finish ∷ fs) = User fs
User (put_locked i item ∷ fs) = User fs
User (map_locked i format ∷ fs) = User fs
User (thread_root ∷ fs) = ⊥
User (after_switch ∷ fs) = ⊥
User (restore_level l ∷ fs) = ⊥
User (p_loop s ∷ fs) = ⊥
User (acquire_loop l ∷ fs) = ⊥
User (take_locked i ∷ fs) = ⊥

abbrev pub Suspended : List Frame → Type 0
Suspended [] = Unit
Suspended (body ss ∷ fs) = All IsPlain ss × User fs
Suspended (thread_finish ∷ fs) = User fs
Suspended (put_locked i item ∷ fs) = User fs
Suspended (map_locked i format ∷ fs) = User fs
Suspended (thread_root ∷ fs) = User fs
Suspended (after_switch ∷ fs) = Suspended fs
Suspended (restore_level l ∷ fs) = User fs
Suspended (p_loop s ∷ fs) = Suspended fs
Suspended (acquire_loop l ∷ fs) = Suspended fs
Suspended (take_locked i ∷ fs) = ⊥

pub User-Suspended : (fs : List Frame) → User fs → Suspended fs
User-Suspended [] u = tt
User-Suspended (body ss ∷ fs) u = u
User-Suspended (thread_finish ∷ fs) u = u
User-Suspended (put_locked i item ∷ fs) u = u
User-Suspended (map_locked i format ∷ fs) u = u
User-Suspended (thread_root ∷ fs) u = absurd u
User-Suspended (after_switch ∷ fs) u = absurd u
User-Suspended (restore_level l ∷ fs) u = absurd u
User-Suspended (p_loop s ∷ fs) u = absurd u
User-Suspended (acquire_loop l ∷ fs) u = absurd u
User-Suspended (take_locked i ∷ fs) u = absurd u

-- What a pointer to a thread leads to.
abbrev pub IsKept : Option Thread → Type 0
IsKept none = Unit
IsKept (some c) = (stack_intact c.stack ≡ true) × Suspended c.context

abbrev pub AllKept : {D : Type 0} → Kernel D → Type 0
AllKept k = (t : Ptr) → IsKept (k.thread t)

module _ {D : Type 0} ⦃irq : Interrupt D⦄ where
  -- Inside the kernel: interrupts are off.
  pub record Inside (k : Kernel D) : Type 0 where
    pub kept : AllKept k
    pub suspended : Suspended k.cpu
    pub off : irq.get_level k.device ≡ int_off

  -- Between two steps: interrupts are off, or only user frames are left.
  pub record Framed (k : Kernel D) : Type 0 where
    pub kept : AllKept k
    pub suspended : Suspended k.cpu
    pub masked : User k.cpu ⊎ (irq.get_level k.device ≡ int_off)
