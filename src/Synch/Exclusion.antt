-- ===== src/Synch/Exclusion.antt =====
-- Mutual exclusion as an invariant, and what `Acquire` and `Release` do to it.
use ooplatingsistm.Base.{
  ℕ, if◌then◌else◌, ◌≡◌, ◌≢◌, refl, sym, ap, ◌∙◌, ◌⊎◌, inl, inr, true, false, Option, none, some,
  List, [], ◌∷◌, ◌==◌, ==_refl, arith, Bool-cases, get_elem?, set, get_elem?-set_self,
  get_elem?-set_ne,
}
use ooplatingsistm.LinkedList.Heap.{Ptr}
use ooplatingsistm.Program.{
  Frame, thread_root, body, after_switch, acquire_loop, restore_level, thread_finish, p_loop,
  put_locked, map_locked, take_locked,
}
use ooplatingsistm.Kernel.{Kernel, Lock, SynchList}
use ooplatingsistm.Kernel.Stacks.{strip, stack_of}
use ooplatingsistm.Synch.Brackets.{holds, bracketed}

abbrev pub held_of : Option Lock → ℕ
held_of none = 0
held_of (some c) = c.held

module _ (lock_of : ℕ → ℕ) (l : ℕ) where
  pub holds-strip : (fs : List Frame) → holds lock_of l (strip fs) ≡ holds lock_of l fs
  holds-strip [] = refl
  holds-strip (after_switch ∷ fs) = holds-strip fs
  holds-strip (thread_root ∷ fs) = refl
  holds-strip (body ss ∷ fs) = refl
  holds-strip (thread_finish ∷ fs) = refl
  holds-strip (restore_level v ∷ fs) = refl
  holds-strip (p_loop s ∷ fs) = refl
  holds-strip (acquire_loop m ∷ fs) = refl
  holds-strip (put_locked i item ∷ fs) = refl
  holds-strip (map_locked i format ∷ fs) = refl
  holds-strip (take_locked i ∷ fs) = refl

  pub bracketed-strip : (fs : List Frame) → bracketed lock_of l (strip fs) ≡ bracketed lock_of l fs
  bracketed-strip [] = refl
  bracketed-strip (after_switch ∷ fs) = bracketed-strip fs
  bracketed-strip (thread_root ∷ fs) = refl
  bracketed-strip (body ss ∷ fs) = refl
  bracketed-strip (thread_finish ∷ fs) = refl
  bracketed-strip (restore_level v ∷ fs) = refl
  bracketed-strip (p_loop s ∷ fs) = refl
  bracketed-strip (acquire_loop m ∷ fs) = refl
  bracketed-strip (put_locked i item ∷ fs) = refl
  bracketed-strip (map_locked i format ∷ fs) = refl
  bracketed-strip (take_locked i ∷ fs) = refl

  held_of-set :
      (ls : List Lock) (m : ℕ) {c : Lock} (c' : Lock)
      → get_elem? ls m ≡ some c
      → held_of (get_elem? (set ls m c') l) ≡ (if m == l then c'.held else held_of (get_elem? ls l))
  held_of-set ls m c' there =
      ground (arith, get_elem?-set_self ls m c' there, get_elem?-set_ne ls m l c')

  module _ {D : Type 0} where
    -- One thread at most holds the lock `l`, which is then busy, and every thread's code is
    -- bracketed.
    pub record Exclusive (k : Kernel D) : Type 0 where
      pub one :
          (t u : Ptr)
          → holds lock_of l (stack_of k t) ≡ true
          → holds lock_of l (stack_of k u) ≡ true
          → t ≡ u
      pub busy :
          (t : Ptr) → holds lock_of l (stack_of k t) ≡ true → held_of (get_elem? k.locks l) ≢ 0
      pub brackets : (t : Ptr) → bracketed lock_of l (stack_of k t) ≡ true
      pub lists : (i : ℕ) (c : SynchList) → get_elem? k.synch_lists i ≡ some c → c.lock ≡ lock_of i

    -- Stacks may end or begin, as long as those that there are do not change.
    pub Exclusive-mono :
        (k j : Kernel D)
        → Exclusive k
        → ((t : Ptr)
            → (stack_of j t ≡ stack_of k t)
              ⊎ ((stack_of j t ≡ []) ⊎ (stack_of j t ≡ thread_root ∷ [])))
        → j.locks ≡ k.locks
        → j.synch_lists ≡ k.synch_lists
        → Exclusive j
    Exclusive-mono k j h same locks lists = record {
      one = λ t u p q. ground (arith, same t, same u, h.one t u);
      busy = λ t p. rw locks (ground (arith, same t, h.busy t));
      brackets = λ t. ground (arith, same t, h.brackets t);
      lists = λ i c e. h.lists i c (ap (λ ls. get_elem? ls i) (sym lists) ∙ e);
    }

    -- The current thread's stack changes, but neither what it holds nor that it is bracketed.
    pub Exclusive-cpu :
        (k : Kernel D) (d : D) (fs : List Frame)
        → Exclusive k
        → holds lock_of l fs ≡ holds lock_of l k.cpu
        → bracketed lock_of l fs ≡ true
        → Exclusive (record k { device = d; cpu = fs })
    Exclusive-cpu k d fs h e b = record {
      one = λ t u p q. ground (arith, e, holds-strip fs, holds-strip k.cpu, h.one t u);
      busy = λ t p. ground (arith, e, holds-strip fs, holds-strip k.cpu, h.busy t);
      brackets = λ t. ground (arith, b, bracketed-strip fs, h.brackets t);
      lists = h.lists;
    }

    -- The current thread takes a lock that is free.
    pub Exclusive-take :
        (k : Kernel D) (fs : List Frame) (m : ℕ) (c : Lock)
        → Exclusive k
        → get_elem? k.locks m ≡ some c
        → c.held ≡ 0
        → (m ≢ l → holds lock_of l fs ≡ holds lock_of l k.cpu)
        → bracketed lock_of l fs ≡ true
        → Exclusive (record k { cpu = fs; locks = set k.locks m (record c { held = 1 }) })
    Exclusive-take k fs m c h there free e b = record {
      one = λ t u p q.
          ground (arith, e, holds-strip fs, holds-strip k.cpu, h.one t u, h.busy t, h.busy u);
      busy = λ t p. ground (
        arith,
        e,
        holds-strip fs,
        holds-strip k.cpu,
        h.busy t,
        held_of-set k.locks m (record c { held = 1 }) there,
      );
      brackets = λ t. ground (arith, b, bracketed-strip fs, h.brackets t);
      lists = h.lists;
    }

    -- The current thread gives back a lock that it holds.
    pub Exclusive-drop :
        (k : Kernel D) (fs : List Frame) (m : ℕ) (c c' : Lock)
        → Exclusive k
        → get_elem? k.locks m ≡ some c
        → (m ≡ l → holds lock_of l k.cpu ≡ true)
        → holds lock_of l fs ≡ (if m == l then false else holds lock_of l k.cpu)
        → bracketed lock_of l fs ≡ true
        → Exclusive (record k { cpu = fs; locks = set k.locks m c' })
    Exclusive-drop k fs m c c' h there had e b = record {
      one = λ t u p q. ground (arith, e, holds-strip fs, holds-strip k.cpu, h.one t u);
      busy = λ t p. ground (
        arith,
        e,
        had,
        holds-strip fs,
        holds-strip k.cpu,
        h.busy t,
        h.one t k.current,
        held_of-set k.locks m c' there,
      );
      brackets = λ t. ground (arith, b, bracketed-strip fs, h.brackets t);
      lists = h.lists;
    }

    -- A thread is queued at a lock.
    pub Exclusive-queue :
        (k : Kernel D) (m : ℕ) (c c' : Lock)
        → Exclusive k
        → get_elem? k.locks m ≡ some c
        → c'.held ≡ c.held
        → Exclusive (record k { locks = set k.locks m c' })
    Exclusive-queue k m c c' h there e = record {
      one = h.one;
      busy = λ t p. ground (arith, e, h.busy t p, held_of-set k.locks m c' there);
      brackets = h.brackets;
      lists = h.lists;
    }

    pub cpu-brackets : (k : Kernel D) → Exclusive k → bracketed lock_of l k.cpu ≡ true
    cpu-brackets k h =
        ground (arith, h.brackets k.current, ==_refl k.current, bracketed-strip k.cpu)

    -- A synchronized list gets other items.
    pub Exclusive-list :
        (k : Kernel D) (i : ℕ) (c c' : SynchList)
        → Exclusive k
        → get_elem? k.synch_lists i ≡ some c
        → c'.lock ≡ c.lock
        → Exclusive (record k { synch_lists = set k.synch_lists i c' })
    Exclusive-list k i c c' h there e = record {
      one = h.one;
      busy = h.busy;
      brackets = h.brackets;
      lists = λ j d at. elim (Bool-cases (i == j)) [
        | inl mine ↦
            ground
              (arith, mine, at, e, h.lists i c there, get_elem?-set_self k.synch_lists i c' there)
        | inr other ↦ ground (arith, other, at, get_elem?-set_ne k.synch_lists i j c', h.lists j d)
      ];
    }
