-- ===== src/Kernel/Supply.antt =====
-- What the threads in the queue of a semaphore or a lock wait for.
use ooplatingsistm.Base.{
  ℕ, ◌≤◌, ◌≡◌, ◌≢◌, sym, ◌∙◌, arith, Bool, true, false, Option, none, some, List, [], ◌∷◌, ◌==◌,
  if◌then◌else◌, count, get_elem?, set, Option-cases, inl, inr, total-at, ap, get_elem?-set_self,
  get_elem?-set_ne,
}
use ooplatingsistm.LinkedList.Heap.{Ptr}
use ooplatingsistm.Queue.{Queue}
use ooplatingsistm.Program.{Frame, p_loop, acquire_loop}
use ooplatingsistm.Kernel.{Kernel, Semaphore, Lock}
use ooplatingsistm.Kernel.Places.{waiting}

-- What threads wait for.
pub data Awaited : Type 0 where
  unit_of free_lock : ℕ → Awaited

-- How many threads may go on, and who waits.
pub record Supply : Type 0 where
  pub units : ℕ
  pub queue : Queue

abbrev pub semaphore_supply : Semaphore → Supply
semaphore_supply c = record { units = c.value; queue = c.queue }

abbrev pub lock_supply : Lock → Supply
lock_supply c = record { units = if c.held == 0 then 1 else 0; queue = c.queue }

abbrev pub semaphore_supplies : Option Semaphore → Option Supply
semaphore_supplies none = none
semaphore_supplies (some c) = some (semaphore_supply c)

abbrev pub lock_supplies : Option Lock → Option Supply
lock_supplies none = none
lock_supplies (some c) = some (lock_supply c)

abbrev pub supply_in : Awaited → List Semaphore → List Lock → Option Supply
supply_in (unit_of s) ss ls = semaphore_supplies (get_elem? ss s)
supply_in (free_lock l) ss ls = lock_supplies (get_elem? ls l)

-- What the thread is about to test again, if it is in one of the loops.
abbrev pub awaits : List Frame → Option Awaited
awaits (p_loop s ∷ fs) = some (unit_of s)
awaits (acquire_loop l ∷ fs) = some (free_lock l)
awaits _ = none

abbrev pub is_awaited : Option Awaited → Awaited → Bool
is_awaited none s = false
is_awaited (some (unit_of m)) (unit_of s) = m == s
is_awaited (some (free_lock m)) (free_lock l) = m == l
is_awaited (some _) _ = false

abbrev pub in_loop_of : Awaited → List Frame → Bool
in_loop_of s fs = is_awaited (awaits fs) s

module _ {D : Type 0} (s : Awaited) where
  abbrev pub supply : Kernel D → Option Supply
  supply k = supply_in s k.semaphores k.locks

module _ {D : Type 0} where
  pub semaphore-supply :
      (k : Kernel D) (n : ℕ) (c : Semaphore)
      → get_elem? k.semaphores n ≡ some c
      → supply (unit_of n) k ≡ some (semaphore_supply c)
  semaphore-supply k n c there = ap semaphore_supplies there

  pub lock-supply :
      (k : Kernel D) (n : ℕ) (c : Lock)
      → get_elem? k.locks n ≡ some c
      → supply (free_lock n) k ≡ some (lock_supply c)
  lock-supply k n c there = ap lock_supplies there

  -- A semaphore or a lock has been written.
  pub set_semaphore-supply :
      (k j : Kernel D) (n : ℕ) (c d : Semaphore)
      → get_elem? k.semaphores n ≡ some c
      → j.semaphores ≡ set k.semaphores n d
      → supply (unit_of n) j ≡ some (semaphore_supply d)
  set_semaphore-supply k j n c d there sems =
      semaphore-supply j n d
        (ap (λ ss. get_elem? ss n) sems ∙ get_elem?-set_self k.semaphores n d there)

  pub set_lock-supply :
      (k j : Kernel D) (n : ℕ) (c d : Lock)
      → get_elem? k.locks n ≡ some c
      → j.locks ≡ set k.locks n d
      → supply (free_lock n) j ≡ some (lock_supply d)
  set_lock-supply k j n c d there locks =
      lock-supply j n d (ap (λ ls. get_elem? ls n) locks ∙ get_elem?-set_self k.locks n d there)

  pub other_semaphore-supply :
      (k j : Kernel D) (m : ℕ) (s : Awaited) (c : Semaphore)
      → j.semaphores ≡ set k.semaphores m c
      → j.locks ≡ k.locks
      → in_loop_of s (p_loop m ∷ []) ≡ false
      → supply s j ≡ supply s k
  other_semaphore-supply k j m (unit_of n) c sems locks other =
      let same : get_elem? j.semaphores n ≡ get_elem? k.semaphores n =
        ap (λ ss. get_elem? ss n) sems
        ∙ ground (arith, other, get_elem?-set_ne k.semaphores m n c) in
      ap semaphore_supplies same
  other_semaphore-supply k j m (free_lock l) c sems locks other = rw locks

  pub other_lock-supply :
      (k j : Kernel D) (m : ℕ) (s : Awaited) (c : Lock)
      → j.locks ≡ set k.locks m c
      → j.semaphores ≡ k.semaphores
      → in_loop_of s (acquire_loop m ∷ []) ≡ false
      → supply s j ≡ supply s k
  other_lock-supply k j m (free_lock n) c locks sems other =
      let same : get_elem? j.locks n ≡ get_elem? k.locks n =
        ap (λ ls. get_elem? ls n) locks ∙ ground (arith, other, get_elem?-set_ne k.locks m n c) in
      ap lock_supplies same
  other_lock-supply k j m (unit_of s) c locks sems other = rw sems

pub own_semaphore : (s : Awaited) (m : ℕ) → in_loop_of s (p_loop m ∷ []) ≡ true → s ≡ unit_of m
own_semaphore (unit_of n) m mine = ground (arith, mine)
own_semaphore (free_lock n) m mine = cc

pub own_lock : (s : Awaited) (m : ℕ) → in_loop_of s (acquire_loop m ∷ []) ≡ true → s ≡ free_lock m
own_lock (unit_of n) m mine = cc
own_lock (free_lock n) m mine = ground (arith, mine)

pub same_supply : (d c : Supply) → ◌≡◌ {A = Option Supply} (some d) (some c) → d ≡ c
same_supply d c e = cc

none_some : {c : Supply} → ◌≢◌ {A = Option Supply} none (some c)
none_some e = cc

module _ {D : Type 0} where
  semaphore_of :
      (k : Kernel D) (n : ℕ) (c : Supply)
      → supply (unit_of n) k ≡ some c
      → (d : Semaphore) × (get_elem? k.semaphores n ≡ some d) × (c ≡ semaphore_supply d)
  semaphore_of k n c at = elim (Option-cases (get_elem? k.semaphores n)) [
    | inl missing ↦ absurd (none_some (sym (ap semaphore_supplies missing) ∙ at))
    | inr (d, there) ↦ (d, there, same_supply c _ (sym at ∙ semaphore-supply k n d there))
  ]

  lock_of :
      (k : Kernel D) (n : ℕ) (c : Supply)
      → supply (free_lock n) k ≡ some c
      → (d : Lock) × (get_elem? k.locks n ≡ some d) × (c ≡ lock_supply d)
  lock_of k n c at = elim (Option-cases (get_elem? k.locks n)) [
    | inl missing ↦ absurd (none_some (sym (ap lock_supplies missing) ∙ at))
    | inr (d, there) ↦ (d, there, same_supply c _ (sym at ∙ lock-supply k n d there))
  ]

  -- Who waits for one of them waits.
  pub queued-supply :
      (s : Awaited) (k : Kernel D) (c : Supply) (t : Ptr)
      → supply s k ≡ some c
      → count t c.queue ≤ waiting t k
  queued-supply (unit_of n) k c t at =
      let (d, there, e) = semaphore_of k n c at in
      rw e (omega (arith, total-at (λ (c : Semaphore). count t c.queue) k.semaphores n d there))
  queued-supply (free_lock n) k c t at =
      let (d, there, e) = lock_of k n c at in
      rw e (omega (arith, total-at (λ (c : Lock). count t c.queue) k.locks n d there))

  pub unawaited-supply :
      (s : Awaited) (k : Kernel D) (c : Supply)
      → ((n : ℕ) (d : Semaphore) → get_elem? k.semaphores n ≡ some d → d.queue ≡ [])
      → ((n : ℕ) (d : Lock) → get_elem? k.locks n ≡ some d → d.queue ≡ [])
      → supply s k ≡ some c
      → c.queue ≡ []
  unawaited-supply (unit_of n) k c semaphores locks at =
      let (d, there, e) = semaphore_of k n c at in rw e (semaphores n d there)
  unawaited-supply (free_lock n) k c semaphores locks at =
      let (d, there, e) = lock_of k n c at in rw e (locks n d there)
