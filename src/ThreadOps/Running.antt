-- ===== src/ThreadOps/Running.antt =====
-- The operations of thread.cc, from states where the current thread can run, dereference only threads
-- that exist.
use ooplatingsistm.Base.{
  ℕ, ◌+◌, ◌<◌, ◌≤◌, ◌≡◌, ◌≢◌, refl, sym, ◌∙◌, subst, inl, inr, true, some, List, [], ◌∷◌, ◌==◌,
  ==_refl, arith, Bool-cases, length, count-append, same, get_elem?,
}
use ooplatingsistm.LinkedList.Heap.{Ptr}
use ooplatingsistm.Program.{Frame, after_switch, restore_level}
use ooplatingsistm.Kernel.{Kernel, SynchList}
use ooplatingsistm.Kernel.Outcomes.{Ensures, Ensures-mono, Ensures-all, Survives, Survives-Ensures}
use ooplatingsistm.Kernel.Stacks.{strip, stack_of}
use ooplatingsistm.Kernel.Alive.{Sizes, fits, is_live, queued, CanRun, Dozing, Alive}
use ooplatingsistm.Scheduler.{ready_to_run}
use ooplatingsistm.Wake.{v}
use ooplatingsistm.Program.{
  thread_root, thread_finish, body, restore_level, p_loop, acquire_loop, put_locked, map_locked,
  take_locked,
}

module _ (z : Sizes) where
  pub fits-strip : (fs : List Frame) → fits z (strip fs) ≡ fits z fs
  fits-strip [] = refl
  fits-strip (after_switch ∷ fs) = fits-strip fs
  fits-strip (thread_root ∷ fs) = refl
  fits-strip (body ss ∷ fs) = refl
  fits-strip (thread_finish ∷ fs) = refl
  fits-strip (restore_level v ∷ fs) = refl
  fits-strip (p_loop s ∷ fs) = refl
  fits-strip (acquire_loop m ∷ fs) = refl
  fits-strip (put_locked i item ∷ fs) = refl
  fits-strip (map_locked i format ∷ fs) = refl
  fits-strip (take_locked i ∷ fs) = refl

  module _ {D : Type 0} where
    pub cpu-fits : (k : Kernel D) → Alive z k → fits z k.cpu ≡ true
    cpu-fits k h = ground (arith, h.current_runs.stack_fits, ==_refl k.current, fits-strip k.cpu)

    -- The current thread gets something else to do, and the tables other entries.
    pub moved-Alive :
        (k j : Kernel D)
        → Alive z k
        → ((t : Ptr) → queued t j ≤ queued t k)
        → j.current ≡ k.current
        → j.to_be_destroyed ≡ k.to_be_destroyed
        → j.thread ≡ k.thread
        → (length j.semaphores ≡ length k.semaphores)
          × (length j.locks ≡ length k.locks)
          × (length j.synch_lists ≡ length k.synch_lists)
        → ((i : ℕ) (c : SynchList) → get_elem? j.synch_lists i ≡ some c → c.lock < z.locks)
        → fits z j.cpu ≡ true
        → Alive z j
    moved-Alive k j h le current finished thread (semaphores, locks, lists) own fit = record {
      dozing = record {
        queued_run = λ t p. runs t (h.dozing.queued_run t (ground (arith, p, le t)));
        current_live = rw (current, thread) h.dozing.current_live;
        finished_live = rw (finished, thread) h.dozing.finished_live;
        semaphores = semaphores ∙ h.dozing.semaphores;
        locks = locks ∙ h.dozing.locks;
        lists = lists ∙ h.dozing.lists;
        list_locks = own;
      };
      current_runs = subst (CanRun z j) (sym current) (runs k.current h.current_runs);
    }
      where
        runs : (t : Ptr) → CanRun z k t → CanRun z j t
        runs t c = record {
          exists = c.exists;
          live = rw thread c.live;
          stack_fits = rw (current, thread) (ground (arith, c.stack_fits, fits-strip j.cpu, fit));
        }

    pub cpu-Alive :
        (k : Kernel D) (d : D) (fs : List Frame)
        → Alive z k
        → fits z fs ≡ true
        → Alive z (record k { device = d; cpu = fs })
    cpu-Alive k d fs h fit =
        moved-Alive k _ h (λ t. omega arith) refl refl refl (refl, refl, refl) h.dozing.list_locks
          fit

    -- A thread that is ready again can run.
    ready_to_run-same :
        (k : Kernel D) (r t : Ptr)
        → Ensures
            (λ _ j.
              (stack_of j t ≡ stack_of k t)
              × (is_live (k.thread t) ≡ true → is_live (j.thread t) ≡ true)
              × (queued t j ≡ queued t k + same r t)
              × (j.current ≡ k.current)
              × (j.to_be_destroyed ≡ k.to_be_destroyed)
              × (j.semaphores ≡ k.semaphores)
              × (j.locks ≡ k.locks)
              × (j.synch_lists ≡ k.synch_lists))
            (ready_to_run r k)
    unfolding ready_to_run
    ready_to_run-same k r t = ground (arith, count-append t k.ready_list (r ∷ []))

    pub ready_to_run-Dozing :
        (k : Kernel D) (r : Ptr)
        → Dozing z k
        → CanRun z k r
        → Survives
            (λ _ j.
              Dozing z j × ((t : Ptr) → CanRun z k t → CanRun z j t) × (j.current ≡ k.current))
            (ready_to_run r k)
    unfolding ready_to_run
    ready_to_run-Dozing k r h c =
        Survives-Ensures _ (ready_to_run r k) (λ e. ground (arith, c.live))
          (Ensures-mono _ _ (ready_to_run r k)
            (Ensures-all _ (ready_to_run r k) (ready_to_run-same k r))
            λ _ j q. (dozes j q, runs j q, (q r).3))
      where
        Same : Kernel D → Type 0
        Same j =
            (t : Ptr)
            → (stack_of j t ≡ stack_of k t)
              × (is_live (k.thread t) ≡ true → is_live (j.thread t) ≡ true)
              × (queued t j ≡ queued t k + same r t)
              × (j.current ≡ k.current)
              × (j.to_be_destroyed ≡ k.to_be_destroyed)
              × (j.semaphores ≡ k.semaphores)
              × (j.locks ≡ k.locks)
              × (j.synch_lists ≡ k.synch_lists)

        runs : (j : Kernel D) → Same j → (t : Ptr) → CanRun z k t → CanRun z j t
        runs j q t ran = record {
          exists = ran.exists;
          live = (q t).1 ran.live;
          stack_fits = rw (q t).0 ran.stack_fits;
        }

        here_or_queued : (j : Kernel D) → Same j → (t : Ptr) → queued t j ≢ 0 → CanRun z k t
        here_or_queued j q t p = elim (Bool-cases (r == t)) [
          | inl mine ↦ let e : r ≡ t = ground (arith, mine) in subst (CanRun z k) e c
          | inr other ↦ h.queued_run t (ground (arith, (q t).2, p, other))
        ]

        dozes : (j : Kernel D) → Same j → Dozing z j
        dozes j q = record {
          queued_run = λ t p. runs j q t (here_or_queued j q t p);
          current_live = rw (q r).3 ((q k.current).1 h.current_live);
          finished_live = rw (q r).4 (λ ne. (q k.to_be_destroyed).1 (h.finished_live ne));
          semaphores = rw (q r).5 h.semaphores;
          locks = rw (q r).6 h.locks;
          lists = rw (q r).7 h.lists;
          list_locks = rw (q r).7 h.list_locks;
        }
