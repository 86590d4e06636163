-- ===== src/Switch/Resume.antt =====
-- SWITCH gives a thread back the registers that it had when it last called SWITCH, and a new thread
-- goes on with the calls of ThreadRoot.
use ooplatingsistm.Base.{
  ℕ, ◌+◌, ◌-◌, ◌*◌, ◌≤◌, ◌≡◌, ◌≢◌, refl, sym, ap, subst, ◌∙◌, List, [], ◌∷◌, arith, some, suc,
  ==_refl, ==-false_of_ne, ◌==◌, false,
}
use ooplatingsistm.LinkedList.Heap.{Ptr}
use ooplatingsistm.Thread.{Thread, Entries, stack_allocate, stack_size}
use ooplatingsistm.Switch.{
  Reg, eax, ebx, ecx, edx, esi, edi, ebp, esp, Cpu, slot, exec, exec_all, calls, switch_code,
  thread_root_code, push_word, set_reg, startup_pc, initial_pc, initial_arg, when_done_pc,
}

-- The words above the stack pointer at the entry of SWITCH: its two arguments.
pub record Called (c : Cpu) (t u : Ptr) : Type 0 where
  pub from : c.memory (c.register esp + 4) ≡ t
  pub into : c.memory (c.register esp + 8) ≡ u

below : (a : ℕ) → (a == a + 4) ≡ false
below a = ground arith

module _ (callee : ℕ → Cpu → Cpu) (behind : Reg → ℕ) where
  switch_saves :
      (c : Cpu) (t u : Ptr) (r : Reg)
      → Called c t u
      → (exec_all callee behind switch_code c).blocks t (slot r) ≡ c.register r
  unfolding exec_all exec
  switch_saves c t u eax h = rw (h.from, ==_refl t)
  switch_saves c t u ebx h = rw (h.from, ==_refl t)
  switch_saves c t u ecx h = rw (h.from, ==_refl t)
  switch_saves c t u edx h = rw (h.from, ==_refl t)
  switch_saves c t u esi h = rw (h.from, ==_refl t)
  switch_saves c t u edi h = rw (h.from, ==_refl t)
  switch_saves c t u ebp h = rw (h.from, ==_refl t)
  switch_saves c t u esp h = rw (h.from, ==_refl t)

  switch_loads :
      (c : Cpu) (t u : Ptr) (r : Reg)
      → Called c t u
      → (u == t) ≡ false
      → slot r ≢ 0
      → (exec_all callee behind switch_code c).register r ≡ c.blocks u (slot r)
  unfolding exec_all exec
  switch_loads c t u eax h ne n = rw (h.into, h.from, ne)
  switch_loads c t u ebx h ne n = rw (h.into, h.from, ne)
  switch_loads c t u ecx h ne n = rw (h.into, h.from, ne)
  switch_loads c t u edx h ne n = rw (h.into, h.from, ne)
  switch_loads c t u esi h ne n = rw (h.into, h.from, ne)
  switch_loads c t u edi h ne n = rw (h.into, h.from, ne)
  switch_loads c t u ebp h ne n = rw (h.into, h.from, ne)
  switch_loads c t u esp h ne n = absurd (n refl)

  switch_pops :
      (c : Cpu) (t u : Ptr)
      → Called c t u
      → (u == t) ≡ false
      → (exec_all callee behind switch_code c).register esp ≡ c.blocks u (slot esp) + 4
  unfolding exec_all exec
  switch_pops c t u h ne = rw (h.into, h.from, ne)

  switch_returns :
      (c : Cpu) (t u : Ptr)
      → Called c t u
      → (u == t) ≡ false
      → (exec_all callee behind switch_code c).eip ≡ c.memory (c.blocks u (slot esp))
  unfolding exec_all exec
  switch_returns c t u h ne = rw (h.into, h.from, ne, below (c.blocks u (slot esp)))

  -- A thread that has called SWITCH, and is switched to later, by a call of SWITCH in another
  -- thread, goes on behind its own call, with the registers that it had and its stack popped,
  -- if nobody has written its control block or the return address on its stack in between.
  pub switch_resumes :
      (c d : Cpu) (t u v : Ptr)
      → Called c t u
      → Called d v t
      → t ≢ v
      → ((s : ℕ) → d.blocks t s ≡ (exec_all callee behind switch_code c).blocks t s)
      → d.memory (c.register esp) ≡ c.memory (c.register esp)
      → let j = exec_all callee behind switch_code d in
        ((r : Reg) → slot r ≢ 0 → j.register r ≡ c.register r)
        × (j.register esp ≡ c.register esp + 4)
        × (j.eip ≡ c.memory (c.register esp))
  switch_resumes c d t u v h g ne kept same =
      let apart = ==-false_of_ne ne in
      let block = λ (r : Reg). kept (slot r) ∙ switch_saves c t u r h in
      (
        λ r n. switch_loads d v t r g apart n ∙ block r,
        switch_pops d v t g apart ∙ ap (λ a. a + 4) (block esp),
        switch_returns d v t g apart ∙ ap d.memory (block esp) ∙ same,
      )

-- What a C function leaves to its caller: the registers that it must keep, its own return.
pub record Conventional (callee : ℕ → Cpu → Cpu) : Type 0 where
  pub keeps_esi : (a : ℕ) (c : Cpu) → (callee a c).register esi ≡ c.register esi
  pub keeps_edi : (a : ℕ) (c : Cpu) → (callee a c).register edi ≡ c.register edi
  pub returns : (a : ℕ) (c : Cpu) → (callee a c).register esp ≡ c.register esp + 4

-- The function at `a`, which takes no argument, leaves the stack above its return address alone.
abbrev pub TakesNothing : (ℕ → Cpu → Cpu) → ℕ → Type 0
TakesNothing callee a =
    (c : Cpu) (i : ℕ) → c.register esp + 4 ≤ i → (callee a c).memory i ≡ c.memory i

pub three_calls :
    {p p' q q' r r' a a' b b' w : ℕ}
    → p ≡ p'
    → a ≡ a'
    → q ≡ q'
    → b ≡ b'
    → r ≡ r'
    → ◌≡◌ {A = List (ℕ × ℕ)} ((p, a) ∷ (q, b) ∷ (r, w) ∷ []) ((p', a') ∷ (q', b') ∷ (r', w) ∷ [])
three_calls o h i j k = rw (o, h, i, j, k)

-- The control block of a thread, and its stack from the address `base` on.
pub record Placed (th : Thread) (base : ℕ) (t : Ptr) (c : Cpu) : Type 0 where
  pub top : c.blocks t 0 ≡ base + 4 * th.stack_top
  pub state : (i : ℕ) → c.blocks t (suc i) ≡ th.machine_state i
  pub words : (w : ℕ → ℕ) → th.stack ≡ some w → (i : ℕ) → c.memory (base + 4 * i) ≡ w i

module _ (callee : ℕ → Cpu → Cpu) (behind : Reg → ℕ) (conv : Conventional callee) where
  -- At the call of the start-up function, and behind it.
  abbrev entered : Cpu → Cpu
  entered c = push_word (behind startup_pc) (
      push_word (c.register initial_arg)
        (set_reg ebp (c.register esp - 4) (push_word (c.register ebp) c)))

  abbrev started : Cpu → Cpu
  started c = callee (c.register startup_pc) (entered c)

  started-top : (c : Cpu) → 12 ≤ c.register esp → (started c).register esp ≡ c.register esp - 8
  started-top c high = conv.returns (c.register startup_pc) (entered c) ∙ omega (arith, high)

  entered-argument :
      (c : Cpu)
      → 12 ≤ c.register esp
      → (entered c).memory (c.register esp - 8) ≡ c.register initial_arg
  entered-argument c high = ground (arith, high)

  started-argument :
      (c : Cpu)
      → 12 ≤ c.register esp
      → TakesNothing callee (c.register startup_pc)
      → (started c).memory ((started c).register esp) ≡ c.register initial_arg
  started-argument c high nothing =
      rw (started-top c high)
        (nothing (entered c) (c.register esp - 8) (omega (arith, high)) ∙ entered-argument c high)

  calls-thread_root_code :
      (c : Cpu)
      → 12 ≤ c.register esp
      → TakesNothing callee (c.register startup_pc)
      → (w : ℕ) × (calls callee behind thread_root_code c
          ≡ (c.register startup_pc, c.register initial_arg)
            ∷ (c.register initial_pc, c.register initial_arg)
            ∷ (c.register when_done_pc, w)
            ∷ [])
  unfolding calls exec
  calls-thread_root_code c high nothing =
      let d = started c in
      let e = callee (d.register initial_pc) (push_word (behind initial_pc) d) in
      let edi_kept =
        conv.keeps_edi (d.register initial_pc) (push_word (behind initial_pc) d)
        ∙ conv.keeps_edi (c.register startup_pc) (entered c) in
      (
        e.memory (e.register esp),
        three_calls refl (rw (==_refl (c.register esp - 4 - 4)))
            (conv.keeps_esi (c.register startup_pc) (entered c)) (started-argument c high nothing)
            edi_kept,
      )

  -- When SWITCH first takes up a thread, whose control block and stack are as StackAllocate has
  -- left them, it comes out in ThreadRoot, which calls the function that enables interrupts, then
  -- the procedure of the thread on its argument, then the function that finishes the thread, if
  -- functions obey the calling convention of C and the first takes no argument.
  pub switch_starts :
      (c : Cpu) (e : Entries) (block : ℕ → ℕ) (func arg base : ℕ) (th : Thread) (t u : Ptr)
      → Called c t u
      → t ≢ u
      → Placed (stack_allocate e block func arg th) base u c
      → TakesNothing callee e.interrupt_enable
      → let j = exec_all callee behind switch_code c in
        (j.eip ≡ e.root)
        × (w : ℕ) × (calls callee behind thread_root_code j
            ≡ (e.interrupt_enable, arg) ∷ (func, arg) ∷ (e.finish, w) ∷ [])
  unfolding stack_allocate
  switch_starts c e block func arg base th t u h ne placed nothing =
      let apart = ==-false_of_ne λ q. ne (sym q) in
      let reg = λ (r : Reg). switch_loads callee behind c t u r h apart in
      let pop = switch_pops callee behind c t u h apart in
      let startup = reg startup_pc (omega arith) ∙ placed.state 2 in
      let (w, trace) =
        calls-thread_root_code (exec_all callee behind switch_code c)
          (rw (pop, placed.top) (omega arith))
          (subst (TakesNothing callee) (sym startup) nothing) in
      (
        switch_returns callee behind c t u h apart
            ∙ ap c.memory placed.top
            ∙ placed.words _ refl (stack_size - 5),
        w,
        trace
            ∙ three_calls startup (reg initial_arg (omega arith) ∙ placed.state 3)
                (reg initial_pc (omega arith) ∙ placed.state 5)
                (reg initial_arg (omega arith) ∙ placed.state 3)
                (reg when_done_pc (omega arith) ∙ placed.state 6),
      )
