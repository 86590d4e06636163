-- ===== src/Kernel/Served.antt =====
-- What is free of a semaphore or a lock while threads wait for it is spoken for: as many threads have
-- been woken and are about to take it.
use ooplatingsistm.Base.{
  ℕ, ◌+◌, ◌≤◌, ◌≡◌, ◌≢◌, sym, ◌∙◌, arith, true, some, List, [], if◌then◌else◌, count, total,
}
use ooplatingsistm.LinkedList.Heap.{Ptr, null}
use ooplatingsistm.Program.{Frame}
use ooplatingsistm.Kernel.{Kernel}
use ooplatingsistm.Kernel.Stacks.{stack_of}
use ooplatingsistm.Kernel.Supply.{Awaited, Supply, supply, in_loop_of}

abbrev pub retries : Awaited → List Frame → ℕ
retries s fs = if in_loop_of s fs then 1 else 0

module _ {D : Type 0} (s : Awaited) where
  -- How many threads are ready to test it again.
  abbrev pub retrying : Kernel D → ℕ
  retrying k = total (λ t. retries s (stack_of k t)) k.ready_list

  -- Threads that wait are in the loop, and while there are any, at most `extra` units are free that
  -- no ready thread is about to take.
  pub record Served (extra : ℕ) (k : Kernel D) : Type 0 where
    pub in_loop :
        (c : Supply)
        → supply s k ≡ some c
        → (t : Ptr) → count t c.queue ≢ 0
        → (t ≢ null) × (in_loop_of s (stack_of k t) ≡ true)
    pub spoken_for :
        (c : Supply) → supply s k ≡ some c → c.queue ≢ [] → c.units ≤ retrying k + extra
    pub null_idle : retries s (stack_of k null) ≡ 0

  -- The stacks of the threads that wait or are ready count, and the ready list may grow.
  pub Served-mono :
      (e f : ℕ) (k j : Kernel D)
      → Served e k
      → supply s j ≡ supply s k
      → ((c : Supply)
          → supply s k ≡ some c
          → (t : Ptr) → count t c.queue ≢ 0
          → stack_of j t ≡ stack_of k t)
      → retries s (stack_of j null) ≡ 0
      → retrying k + e ≤ retrying j + f
      → Served f j
  Served-mono e f k j h same stacks idle le = record {
    in_loop = λ c at t p. rw (stacks c (sym same ∙ at) t p) (h.in_loop c (sym same ∙ at) t p);
    spoken_for = λ c at some_waiter. omega (arith, h.spoken_for c (sym same ∙ at) some_waiter);
    null_idle = idle;
  }
