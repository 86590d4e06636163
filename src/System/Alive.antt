-- ===== src/System/Alive.antt =====
-- Nothing that is not there is ever dereferenced: in every state that the machine reaches.
use Prim.Native.String.{String}
use ooplatingsistm.Base.{
  ℕ, zero, suc, ◌<◌, ◌≡◌, ◌≢◌, refl, ap, subst, Bool, true, some, List, [], ◌∷◌, arith, ltb, ◌&&◌,
  length, get_elem?,
}
use ooplatingsistm.LinkedList.Heap.{null}
use ooplatingsistm.Program.{Frame}
use ooplatingsistm.Kernel.{Kernel, SynchList, Command, Interrupt, crash}
use ooplatingsistm.Kernel.Outcomes.{Survives, Survives-apply, Survives-mono, Ensures-apply}
use ooplatingsistm.Kernel.Alive.{Sizes, body_fits, Alive}
use ooplatingsistm.Wake.{v}
use ooplatingsistm.ThreadOps.{Garbage}
use ooplatingsistm.ThreadOps.Alive.{v-Survives, v-Roused, Roused-Alive}
use ooplatingsistm.ThreadOps.Survival.{HandlersFit}
use ooplatingsistm.ThreadOps.Leaving.{yield_cpu-Alive}
use ooplatingsistm.Machine.{
  Image, step, step-frame, Step, go, timer, device_interrupt, Reach, here, later,
}
use ooplatingsistm.Machine.Alive.{Apart, exec_frame-Alive}
use ooplatingsistm.System.{Setup, make_semaphores, make_locks, make_lists, initialize}
use ooplatingsistm.System.Unique.{Unique, no_waiting, no_queue, Step-Unique, initialize-Unique}
use ooplatingsistm.System.Safe.{Next, the_step, the_timer, a_device}

-- The tables that `initialize` sets up.
abbrev pub sizes : Setup → Sizes
sizes s = record {
  semaphores = length s.semaphores;
  locks = length s.locks;
  lists = length s.synch_lists;
}

-- Every synchronized list has a lock that exists.
abbrev pub lists_fit : ℕ → List ℕ → Bool
lists_fit locks [] = true
lists_fit locks (lock ∷ rest) = ltb lock locks && lists_fit locks rest

module _ {D : Type 0} where
  pub Unique-Apart : (k : Kernel D) → Unique k → k.current ≢ null → Apart k
  Unique-Apart k u ne = record {
    current_apart = ground (arith, u.unique k.current ne);
    finished_apart = λ some_thread.
        let few = u.unique k.to_be_destroyed some_thread in
        (λ e. ground (arith, few, e), ground (arith, few));
    fresh_apart =
        let none_there = u.fresh k.next_addr (omega arith) in
        (omega (arith, u.started), λ e. ground (arith, none_there, e), ground (arith, none_there));
  }

module _ {D : Type 0} ⦃irq : Interrupt D⦄ (image : Image) (z : Sizes) (handlers : HandlersFit irq z)
    (text_fits : (func arg : ℕ) → body_fits z (image.text func arg) ≡ true) where
  stack-Alive :
      (k : Kernel D) (fs : List Frame)
      → k.cpu ≡ fs
      → Alive z k
      → Unique k
      → Survives (λ _ j. Alive z j) (step image k)
  stack-Alive k [] empty h u = ground (arith, empty, h.current_runs.stack_fits)
  stack-Alive k (f ∷ fs) top h u = rw (step-frame image k top) (
      exec_frame-Alive z handlers image text_fits f (record k { cpu = fs })
        (subst (λ gs. Alive z (record k { cpu = gs })) top h)
        (Unique-Apart (record k { cpu = fs })
          (record { unique = u.unique; fresh = u.fresh; started = u.started })
          h.current_runs.exists))

  pub record Lives (k : Kernel D) : Type 0 where
    pub alive : Alive z k
    pub places_unique : Unique k

  Step-Alive : {k j : Kernel D} → Step image k j → Lives k → Alive z j
  Step-Alive {k} (go e) h = Survives-apply _ _ (stack-Alive k k.cpu refl h.alive h.places_unique) e
  Step-Alive {k} (timer on e) h = Survives-apply _ _ (yield_cpu-Alive z k h.alive) e
  Step-Alive {k} {j} (device_interrupt sem on e) h =
      Roused-Alive z k j (Ensures-apply _ _ (v-Roused k sem) e) h.alive

  Next-Survives :
      {k : Kernel D} {next : Command D}
      → Lives k
      → Next image k next
      → Survives (λ _ j. Alive z j) (next k)
  Next-Survives {k} h the_step = stack-Alive k k.cpu refl h.alive h.places_unique
  Next-Survives {k} h (the_timer on) = yield_cpu-Alive z k h.alive
  Next-Survives {k} h (a_device sem exists on) =
      Survives-mono _ _ (v sem k)
        (v-Survives z k sem h.alive.dozing (rw (← h.alive.dozing.semaphores) exists))
        λ _ j q. Roused-Alive z k j q h.alive

length-make_semaphores : (ss : List (String × ℕ)) → length (make_semaphores ss) ≡ length ss
unfolding make_semaphores
length-make_semaphores [] = refl
length-make_semaphores (s ∷ ss) = ap suc (length-make_semaphores ss)

length-make_locks : (ls : List String) → length (make_locks ls) ≡ length ls
unfolding make_locks
length-make_locks [] = refl
length-make_locks (l ∷ ls) = ap suc (length-make_locks ls)

length-make_lists : (ls : List ℕ) → length (make_lists ls) ≡ length ls
unfolding make_lists
length-make_lists [] = refl
length-make_lists (l ∷ ls) = ap suc (length-make_lists ls)

make_lists-fit :
    (n : ℕ) (ls : List ℕ)
    → lists_fit n ls ≡ true
    → (i : ℕ) (c : SynchList) → get_elem? (make_lists ls) i ≡ some c
    → c.lock < n
unfolding make_lists
make_lists-fit n [] fit i c e = cc
make_lists-fit n (l ∷ ls) fit zero c e = ground (arith, fit, e)
make_lists-fit n (l ∷ ls) fit (suc i) c e = make_lists-fit n ls (ground (arith, fit)) i c e

module _ {D : Type 0} ⦃irq : Interrupt D⦄ (image : Image) (d : D) (g : Garbage) (s : Setup)
    (handlers : HandlersFit irq (sizes s))
    (text_fits : (func arg : ℕ) → body_fits (sizes s) (image.text func arg) ≡ true)
    (main_fits : body_fits (sizes s) s.main ≡ true)
    (own_locks : lists_fit (length s.locks) s.synch_lists ≡ true) where
  initialize-Alive : Alive (sizes s) (initialize d g s)
  unfolding initialize
  initialize-Alive = record {
    dozing = record {
      queued_run = λ t p. absurd (ground (arith, p, no_waiting t s.semaphores, no_queue t s.locks));
      current_live = refl;
      finished_live = λ some_thread. absurd (some_thread refl);
      semaphores = length-make_semaphores s.semaphores;
      locks = length-make_locks s.locks;
      lists = length-make_lists s.synch_lists;
      list_locks = make_lists-fit (length s.locks) s.synch_lists own_locks;
    };
    current_runs = record {
      exists = omega arith;
      live = refl;
      stack_fits = ground (arith, main_fits);
    };
  }

  pub Reach-Lives :
      {k : Kernel D} → Reach image (initialize d g s) k → Lives image (sizes s) handlers text_fits k
  Reach-Lives here = record { alive = initialize-Alive; places_unique = initialize-Unique d g s }
  Reach-Lives (later r st) =
      let h = Reach-Lives r in
      record {
        alive = Step-Alive image (sizes s) handlers text_fits st h;
        places_unique = Step-Unique image st h.places_unique;
      }

  -- In every state that a program reaches whose statements name semaphores, locks and lists that
  -- exist, under any timer and device interrupts, nothing that may run next dereferences NULL, a
  -- deleted thread, or an object that does not exist.
  pub no_crash :
      {k : Kernel D} {next : Command D}
      → Reach image (initialize d g s) k
      → Next image k next
      → next k ≢ crash
  no_crash {k} {next} r n e =
      subst (Survives _) e (Next-Survives image (sizes s) handlers text_fits (Reach-Lives r) n)
