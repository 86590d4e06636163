-- ===== src/System/Exclusion.antt =====
-- Mutual exclusion in every state that the machine reaches.
use ooplatingsistm.Base.{
  ℕ, zero, suc, ◌≡◌, ◌≢◌, refl, sym, ◌∙◌, subst, true, some, List, [], ◌∷◌, arith, get_elem?,
}
use ooplatingsistm.LinkedList.Heap.{Ptr}
use ooplatingsistm.Program.{Frame}
use ooplatingsistm.Kernel.{Kernel, SynchList, Interrupt, ok}
use ooplatingsistm.Kernel.Outcomes.{Ensures-apply}
use ooplatingsistm.Kernel.Stacks.{stack_of}
use ooplatingsistm.ThreadOps.{Garbage}
use ooplatingsistm.ThreadOps.Stacks.{v-Quiet}
use ooplatingsistm.Synch.Brackets.{holds, well_bracketed}
use ooplatingsistm.Synch.Exclusion.{Exclusive, held_of}
use ooplatingsistm.Synch.Sections.{Quiet-Exclusive}
use ooplatingsistm.Machine.{
  Image, step, step-idle, step-frame, Step, go, timer, device_interrupt, Reach, here, later,
}
use ooplatingsistm.Machine.Exclusion.{yield_cpu-Exclusive}
use ooplatingsistm.Machine.Sections.{exec_frame-Exclusive}
use ooplatingsistm.System.{Setup, make_lists, initialize}

-- The lock of a synchronized list, where `locks` are the locks of all.
abbrev pub list_lock : (locks : List ℕ) → ℕ → ℕ
list_lock [] i = 0
list_lock (lock ∷ locks) zero = lock
list_lock (lock ∷ locks) (suc i) = list_lock locks i

make_lists-lock :
    (locks : List ℕ) (i : ℕ) (c : SynchList)
    → get_elem? (make_lists locks) i ≡ some c
    → c.lock ≡ list_lock locks i
unfolding make_lists
make_lists-lock [] i c e = cc
make_lists-lock (lock ∷ locks) zero c e = ground (arith, e)
make_lists-lock (lock ∷ locks) (suc i) c e = make_lists-lock locks i c e

module _ {D : Type 0} ⦃irq : Interrupt D⦄ (image : Image) (l : ℕ) (d : D) (g : Garbage) (s : Setup)
    (text_ok : (func arg : ℕ)
      → well_bracketed (list_lock s.synch_lists) l (image.text func arg) ≡ true)
    (main_ok : well_bracketed (list_lock s.synch_lists) l s.main ≡ true) where
  initialize-Exclusive : Exclusive (list_lock s.synch_lists) l (initialize d g s)
  unfolding initialize
  initialize-Exclusive = record {
    one = λ t u p q. ground (arith, main_ok);
    busy = λ t p. ground (arith, main_ok);
    brackets = λ t. ground (arith, main_ok);
    lists = make_lists-lock s.synch_lists;
  }

  stack-Exclusive :
      {k j : Kernel D} (fs : List Frame)
      → k.cpu ≡ fs
      → Exclusive (list_lock s.synch_lists) l k
      → step image k ≡ ok tt j
      → Exclusive (list_lock s.synch_lists) l j
  stack-Exclusive {k} [] empty h e = absurd (step-idle image k empty e)
  stack-Exclusive {k} (f ∷ fs) top h e =
      Ensures-apply _ _
        (exec_frame-Exclusive (list_lock s.synch_lists) l image text_ok f (record k { cpu = fs })
          (subst (λ gs. Exclusive (list_lock s.synch_lists) l (record k { cpu = gs })) top h))
        (sym (step-frame image k top) ∙ e)

  Step-Exclusive :
      {k j : Kernel D}
      → Step image k j
      → Exclusive (list_lock s.synch_lists) l k
      → Exclusive (list_lock s.synch_lists) l j
  Step-Exclusive {k} (go e) h = stack-Exclusive k.cpu refl h e
  Step-Exclusive {k} (timer on e) h =
      Ensures-apply _ _ (yield_cpu-Exclusive (list_lock s.synch_lists) l k h) e
  Step-Exclusive {k} {j} (device_interrupt sem on e) h =
      Quiet-Exclusive (list_lock s.synch_lists) l k j h (Ensures-apply _ _ (v-Quiet k sem) e)

  Reach-Exclusive :
      {k : Kernel D} → Reach image (initialize d g s) k → Exclusive (list_lock s.synch_lists) l k
  Reach-Exclusive here = initialize-Exclusive
  Reach-Exclusive (later r st) = Step-Exclusive st (Reach-Exclusive r)

  -- If every procedure acquires the lock `l` only where it does not hold it, releases it only where
  -- it does, and ends without it, then in every state that the program reaches, under any timer and
  -- device interrupts, one thread at most is between `Acquire` and `Release` of the lock, and the
  -- lock is busy while one is. The methods of a synchronized list count as sections of its lock.
  pub mutual_exclusion :
      {k : Kernel D} (t u : Ptr)
      → Reach image (initialize d g s) k
      → holds (list_lock s.synch_lists) l (stack_of k t) ≡ true
      → holds (list_lock s.synch_lists) l (stack_of k u) ≡ true
      → (t ≡ u) × (held_of (get_elem? k.locks l) ≢ 0)
  mutual_exclusion t u r p q = let h = Reach-Exclusive r in (h.one t u p q, h.busy t p)
