-- ===== src/Switch/Tests.antt =====
-- Runs of SWITCH and ThreadRoot between a thread at 1 and one at 2.
use ooplatingsistm.Base.{
  ℕ, ◌+◌, ◌-◌, ◌*◌, ◌/◌, ◌≡◌, ◌≢◌, refl, [], ◌∷◌, arith, some, none, ltb, ◌==◌, if◌then◌else◌, zero,
  suc, Option, ap, false,
}
use ooplatingsistm.Thread.{
  Thread, Entries, new_thread, stack_allocate, stack_size, stack_fencepost, put,
}
use ooplatingsistm.Switch.{
  Reg, esp, Cpu, slot, set_reg, exec_all, calls, switch_code, thread_root_code,
}
use ooplatingsistm.Switch.Resume.{Conventional, Placed, switch_resumes, switch_starts}

-- A function that only returns.
abbrev callee : ℕ → Cpu → Cpu
callee a c = record (set_reg esp (c.register esp + 4) c) { eip = c.memory (c.register esp) }

abbrev behind : Reg → ℕ
behind r = 9000 + slot r

callee-Conventional : Conventional callee
callee-Conventional = record {
  keeps_esi = λ a c. refl;
  keeps_edi = λ a c. refl;
  returns = λ a c. refl;
}

abbrev entries : Entries
entries = record { root = 500; interrupt_enable = 600; finish = 700 }

-- Thread 2 is new, with its stack at 1000.
abbrev fresh : Thread
fresh = stack_allocate entries (λ i. 0) 800 3 (new_thread "forked" (λ i. 0))

abbrev words : ℕ → ℕ
words = put (put (λ i. 0) (stack_size - 5) 500) 0 stack_fencepost

-- The stack of thread 1 lies below 1000: the return address, and the arguments of SWITCH.
abbrev memory_1 : ℕ → ℕ
memory_1 i = if i == 100 then 77 else (if i == 104 then 1 else (if i == 108 then 2 else 0))

abbrev both_stacks : ℕ → ℕ
both_stacks i = if ltb i 1000 then memory_1 i else words ((i - 1000) / 4)

abbrev block_2 : ℕ → ℕ
block_2 zero = 1000 + 4 * fresh.stack_top
block_2 (suc i) = fresh.machine_state i

abbrev leaving_1 : Cpu
leaving_1 = record {
  register = λ r. if slot r == 0 then 100 else slot r;
  eip = 0;
  eax_save = 0;
  memory = both_stacks;
  blocks = λ t. if t == 2 then block_2 else (λ i. 0);
}

abbrev running_2 : Cpu
running_2 = exec_all callee behind switch_code leaving_1

-- Thread 2 calls SWITCH with its stack pointer at 200.
abbrev leaving_2 : Cpu
leaving_2 = record running_2 {
  register = λ r. if slot r == 0 then 200 else 0;
  memory = λ i. if i == 204 then 2 else (if i == 208 then 1 else memory_1 i);
}

switch_resumes_example :
    let j = exec_all callee behind switch_code leaving_2 in
    ((r : Reg) → slot r ≢ 0 → j.register r ≡ leaving_1.register r)
    × (j.register esp ≡ 104)
    × (j.eip ≡ 77)
switch_resumes_example =
    switch_resumes callee behind leaving_1 leaving_2 1 2 2 (record { from = refl; into = refl })
      (record { from = refl; into = refl }) (omega arith) (λ s. refl) refl

abbrev content : Option (ℕ → ℕ) → ℕ → ℕ
content none i = 0
content (some w) i = w i

below_1000 : (i : ℕ) → ltb (1000 + 4 * i) 1000 ≡ false
below_1000 i = ground arith

word_at : (i : ℕ) → (1000 + 4 * i - 1000) / 4 ≡ i
word_at i = omega arith

fresh-Placed : Placed fresh 1000 2 leaving_1
unfolding stack_allocate new_thread
fresh-Placed = record {
  top = refl;
  state = λ i. refl;
  words = λ w q i. rw (below_1000 i, word_at i) (ap (λ o. content o i) q);
}

switch_starts_example :
    let j = exec_all callee behind switch_code leaving_1 in
    (j.eip ≡ 500)
    × (w : ℕ) × (calls callee behind thread_root_code j ≡ (600, 3) ∷ (800, 3) ∷ (700, w) ∷ [])
switch_starts_example =
    switch_starts callee behind callee-Conventional leaving_1 entries (λ i. 0) 800 3 1000
      (new_thread "forked" (λ i. 0)) 1 2 (record { from = refl; into = refl }) (omega arith)
      fresh-Placed (λ c i h. refl)
