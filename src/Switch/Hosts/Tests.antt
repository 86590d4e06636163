-- ===== src/Switch/Hosts/Tests.antt =====
-- Runs of SWITCH on the MIPS and on the SNAKE between the threads at 1 and 2.
use ooplatingsistm.Base.{ℕ, ◌+◌, ◌≡◌, refl, true, [], ◌∷◌, ◌==◌, if◌then◌else◌, arith}
use ooplatingsistm.Thread.{Entries}
use ooplatingsistm.Switch.Hosts.{
  Host, mips, snake, mips_processor, snake_processor, Cpu, set_register, switch_on, root_calls,
  stack_intact_on, stack_allocate_on,
}
use ooplatingsistm.Switch.Hosts.Rounds.{Keeps, resumes, starts}

-- A function that clears its argument register and the address register 31 of the MIPS.
abbrev callee : ℕ → Cpu → Cpu
callee a c = set_register 4 0 (set_register 31 0 c)

callee-Keeps : Keeps mips callee
callee-Keeps = record { func_kept = λ a c. refl; arg_kept = λ a c. refl; done_kept = λ a c. refl }

abbrev entries : Entries
entries = record { root = 500; interrupt_enable = 600; finish = 700 }

abbrev cpu : (old new : ℕ) → (ℕ → ℕ → ℕ) → Host → Cpu
cpu old new blocks h = record {
  register = λ r. if r == h.old_thread then old else (if r == h.new_thread then new else r + 100);
  blocks = blocks;
}

-- On the MIPS, thread 1 starts thread 2, which is new.
abbrev new_block : ℕ → ℕ
new_block = (stack_allocate_on mips entries (λ i. 0) 800 3 (λ i. 0)).2

starts_example :
    ((switch_on mips (cpu 1 2 (λ t. new_block) mips)).register 31 ≡ 500)
    × ((v : ℕ) × (w : ℕ) × (root_calls callee mips (switch_on mips (cpu 1 2 (λ t. new_block) mips))
          ≡ (600, v) ∷ (800, 3) ∷ (700, w) ∷ []))
    × (stack_intact_on mips (stack_allocate_on mips entries (λ i. 0) 800 3 (λ i. 0)).1 ≡ true)
starts_example =
    starts callee mips_processor entries (λ i. 0) (λ i. 0) 800 3 (cpu 1 2 (λ t. new_block) mips)
      callee-Keeps (λ e. absurd (omega (arith, e))) (λ i. refl)

-- On the SNAKE, thread 1 calls SWITCH, and then thread 2 switches back to it.
abbrev left : Cpu
left = switch_on snake (cpu 1 2 (λ t i. 0) snake)

abbrev back : Cpu
back = cpu 2 1 left.blocks snake

resumes_example : (switch_on snake back).register 18 ≡ 118
resumes_example =
    resumes snake_processor (cpu 1 2 (λ t i. 0) snake) back 18 refl refl
      (λ e. absurd (omega (arith, e))) (λ i. refl)
