-- ===== src/Switch/Hosts/Rounds.antt =====
-- SWITCH and StackAllocate on the hosts that load and store: what a thread goes on with when it is
-- switched to, whether it has called SWITCH before or is new.
use ooplatingsistm.Base.{
  ℕ, ◌≡◌, ◌≢◌, refl, ap, ◌∙◌, true, false, List, [], ◌∷◌, ◌==◌, arith, ==-false_of_ne,
}
use ooplatingsistm.Thread.{Entries, put, stack_fencepost}
use ooplatingsistm.Switch.Resume.{three_calls}
use ooplatingsistm.Switch.Hosts.{
  Host, Processor, host, Cpu, set_register, store_all, switch_on, clear_all, root_calls,
  stack_intact_on, stack_allocate_on,
}
use ooplatingsistm.Switch.Hosts.Layout.{
  among, contains-has, filled, kept_registers, slot_of, matched-has, Laid, host-Laid,
}
use ooplatingsistm.Switch.Hosts.LoadStore.{
  has, has_register, distinct, load_all-loaded, load_all-blocks, store_all-kept, store_all-stored,
}

-- What a thread finds in a register when it goes on is what its block held in that slot.
switch_on-loads :
    (h : Host) (d : Cpu) (p : ℕ × ℕ)
    → distinct h.loads ≡ true
    → has h.loads p ≡ true
    → (d.register h.new_thread == d.register h.old_thread) ≡ false
    → (switch_on h d).register p.0 ≡ d.blocks (d.register h.new_thread) p.1
unfolding switch_on
switch_on-loads h d p fine there apart =
    load_all-loaded h.loads (d.register h.new_thread) _ p fine there
    ∙ store_all-kept h.stores (d.register h.old_thread) (d.register h.new_thread) d p.1 (rw apart)

switch_on-saves :
    (h : Host) (c : Cpu) (p : ℕ × ℕ)
    → distinct h.stores ≡ true
    → has h.stores p ≡ true
    → (switch_on h c).blocks (c.register h.old_thread) p.1 ≡ c.register p.0
unfolding switch_on
switch_on-saves h c p fine there =
    ap (λ m. m (c.register h.old_thread) p.1)
      (load_all-blocks h.loads (c.register h.new_thread)
        (store_all h.stores (c.register h.old_thread) c))
    ∙ store_all-stored h.stores (c.register h.old_thread) c p fine there

-- On the MIPS and on the SNAKE, a thread that has called SWITCH, and is switched to later by a call of
-- SWITCH in another thread, finds its stack pointer, its return address and each register that a
-- function must keep as they were, if nobody has written its control block in between.
pub resumes :
    (m : Processor) (c d : Cpu) (r : ℕ)
    → among (kept_registers m) r ≡ true
    → d.register (host m).new_thread ≡ c.register (host m).old_thread
    → c.register (host m).old_thread ≢ d.register (host m).old_thread
    → ((i : ℕ)
        → d.blocks (c.register (host m).old_thread) i
          ≡ (switch_on (host m) c).blocks (c.register (host m).old_thread) i)
    → (switch_on (host m) d).register r ≡ c.register r
resumes m c d r kept into ne same =
    let h = host m in
    let laid = host-Laid m in
    let i = slot_of h.loads r in
    let (stored, loaded) =
      matched-has h.stores h.loads (kept_registers m) r laid.all_matched kept in
    switch_on-loads h d (r, i) laid.loads_distinct loaded
      (ap (λ a. a == d.register h.old_thread) into ∙ ==-false_of_ne ne)
    ∙ ap (λ a. d.blocks a i) into
    ∙ same i
    ∙ switch_on-saves h c (r, i) laid.stores_distinct stored

clear_all-kept :
    (rs : List ℕ) (c : Cpu) (r : ℕ)
    → among rs r ≡ false
    → (clear_all rs c).register r ≡ c.register r
clear_all-kept [] c r none_there = refl
clear_all-kept (q ∷ rs) c r none_there =
    clear_all-kept rs (set_register q 0 c) r (ground (arith, none_there))
    ∙ ground (arith, none_there)

-- The words that StackAllocate leaves in the slots that it fills.
stack_allocate_on-filled :
    (h : Host) (rs : List ℕ) (e : Entries) (block registers : ℕ → ℕ) (func arg : ℕ)
    → Laid h rs
    → let words = (stack_allocate_on h e block func arg registers).2 in
      (words h.pc ≡ e.root)
      × (words h.startup_pc.1 ≡ e.interrupt_enable)
      × (words h.initial_pc.1 ≡ func)
      × (words h.initial_arg.1 ≡ arg)
      × (words h.when_done_pc.1 ≡ e.finish)
unfolding stack_allocate_on
stack_allocate_on-filled h rs e block registers func arg laid =
    let fine = laid.filled_distinct in
    (
      ground (arith, fine),
      ground (arith, fine),
      ground (arith, fine),
      ground (arith, fine),
      ground (arith, fine),
    )

-- The functions keep the registers that ThreadRoot reads later.
pub record Keeps (h : Host) (callee : ℕ → Cpu → Cpu) : Type 0 where
  pub func_kept :
      (a : ℕ) (c : Cpu) → (callee a c).register h.initial_pc.0 ≡ c.register h.initial_pc.0
  pub arg_kept :
      (a : ℕ) (c : Cpu) → (callee a c).register h.initial_arg.0 ≡ c.register h.initial_arg.0
  pub done_kept :
      (a : ℕ) (c : Cpu) → (callee a c).register h.when_done_pc.0 ≡ c.register h.when_done_pc.0

set_argument-kept :
    (h : Host) (c : Cpu) (w r : ℕ)
    → has_register (filled h) h.old_thread ≡ false
    → has_register (filled h) r ≡ true
    → (set_register h.old_thread w c).register r ≡ c.register r
set_argument-kept h c w r free there = ground (arith, free, there)

-- The calls of ThreadRoot, from the registers that it reads.
root_calls-registers :
    (callee : ℕ → Cpu → Cpu) (h : Host) (rs : List ℕ) (c : Cpu)
    → Laid h rs
    → Keeps h callee
    → (v : ℕ) × (w : ℕ) × (root_calls callee h c
        ≡ (c.register h.startup_pc.0, v)
          ∷ (c.register h.initial_pc.0, c.register h.initial_arg.0)
          ∷ (c.register h.when_done_pc.0, w)
          ∷ [])
unfolding root_calls
root_calls-registers callee h rs c laid keeps =
    let e = clear_all h.cleared c in
    let entered = λ (r : ℕ) (there : has_register (filled h) r ≡ true).
      clear_all-kept h.cleared c r (laid.none_cleared r there) in
    let start = e.register h.startup_pc.0 in
    let s = callee start e in
    let handed = λ (r : ℕ) (there : has_register (filled h) r ≡ true).
      set_argument-kept h s (s.register h.initial_arg.0) r laid.argument_free there in
    let func : has_register (filled h) h.initial_pc.0 ≡ true = ground arith in
    let arg : has_register (filled h) h.initial_arg.0 ≡ true = ground arith in
    let done : has_register (filled h) h.when_done_pc.0 ≡ true = ground arith in
    (
      _,
      _,
      three_calls (entered h.startup_pc.0 (ground arith)) refl
          (handed h.initial_pc.0 func ∙ keeps.func_kept start e ∙ entered h.initial_pc.0 func)
          (ground arith ∙ keeps.arg_kept start e ∙ entered h.initial_arg.0 arg)
          (keeps.done_kept _ _
            ∙ handed h.when_done_pc.0 done
            ∙ keeps.done_kept start e
            ∙ entered h.when_done_pc.0 done),
    )

fence_found :
    (i j : ℕ) (block : ℕ → ℕ) → i ≡ j → (put block j stack_fencepost i == stack_fencepost) ≡ true
fence_found i j block e = ground (arith, e)

-- On the MIPS and on the SNAKE, with functions that keep the registers that ThreadRoot reads, a SWITCH
-- from another thread to one whose control block StackAllocate has filled returns to ThreadRoot,
-- which calls the function that enables interrupts, then `func` with `arg`, then ThreadFinish; and
-- StackAllocate has put the fence post where CheckOverflow looks for it.
pub starts :
    (callee : ℕ → Cpu → Cpu) (m : Processor) (e : Entries) (block registers : ℕ → ℕ) (func arg : ℕ)
    (d : Cpu)
    → Keeps (host m) callee
    → d.register (host m).new_thread ≢ d.register (host m).old_thread
    → ((i : ℕ)
        → d.blocks (d.register (host m).new_thread) i
          ≡ (stack_allocate_on (host m) e block func arg registers).2 i)
    → ((switch_on (host m) d).register (host m).link ≡ e.root)
      × ((v : ℕ) × (w : ℕ) × (root_calls callee (host m) (switch_on (host m) d)
            ≡ (e.interrupt_enable, v) ∷ (func, arg) ∷ (e.finish, w) ∷ []))
      × (stack_intact_on (host m) (stack_allocate_on (host m) e block func arg registers).1 ≡ true)
unfolding stack_intact_on stack_allocate_on
starts callee m e block registers func arg d keeps ne placed =
    let h = host m in
    let laid = host-Laid m in
    let goes = λ (p : ℕ × ℕ) (there : has (filled h) p ≡ true).
      switch_on-loads h d p laid.loads_distinct
        (contains-has h.loads (filled h) p laid.in_loads there) (==-false_of_ne ne)
      ∙ placed p.1 in
    let words = stack_allocate_on-filled h (kept_registers m) e block registers func arg laid in
    let calls = root_calls-registers callee h (kept_registers m) (switch_on h d) laid keeps in
    (
      goes (h.link, h.pc) (ground arith) ∙ words.0,
      (
        calls.0,
        calls.1,
        calls.2
            ∙ three_calls (goes h.startup_pc (ground arith) ∙ words.1) refl
                (goes h.initial_pc (ground arith) ∙ words.2)
                (goes h.initial_arg (ground arith) ∙ words.3)
                (goes h.when_done_pc (ground arith) ∙ words.4),
      ),
      fence_found h.checked_word h.fencepost_word block laid.fence_read,
    )
