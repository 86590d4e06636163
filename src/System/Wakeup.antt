-- ===== src/System/Wakeup.antt =====
-- No wakeup is lost: in every state that the machine reaches.
use ooplatingsistm.Base.{
  zero, suc, ==_refl, ℕ, ◌+◌, ◌≤◌, ◌≡◌, ◌≢◌, refl, sym, ◌∙◌, subst, true, some, List, [], ◌∷◌, All,
  arith, get_elem?, length,
}
use ooplatingsistm.LinkedList.Heap.{null}
use ooplatingsistm.Program.{
  Frame, thread_root, body, thread_finish, after_switch, restore_level, p_loop, acquire_loop,
  put_locked, map_locked, take_locked,
}
use ooplatingsistm.Thread.{new_thread}
use ooplatingsistm.Kernel.{Kernel, Semaphore, Lock, Interrupt, ok}
use ooplatingsistm.Kernel.Outcomes.{Ensures-apply}
use ooplatingsistm.Kernel.Frames.{IsPlain, User, Framed}
use ooplatingsistm.Kernel.Stacks.{strip, stack_of}
use ooplatingsistm.Kernel.Supply.{
  Awaited, unit_of, free_lock, Supply, semaphore_supply, lock_supply, semaphore-supply, lock-supply,
  unawaited-supply, supply,
}
use ooplatingsistm.Kernel.Served.{retries, retrying, Served}
use ooplatingsistm.ThreadOps.{Garbage}
use ooplatingsistm.ThreadOps.Served.{AllServed}
use ooplatingsistm.Synch.Served.{cpu-Served}
use ooplatingsistm.Synch.Units.{v-AllServed, yield_cpu-Served}
use ooplatingsistm.Machine.{
  Image, step, step-idle, step-frame, Step, go, timer, device_interrupt, Reach, here, later,
}
use ooplatingsistm.Machine.Served.{exec_frame-Served}
use ooplatingsistm.System.{Setup, make_semaphores, make_locks, initialize}
use ooplatingsistm.System.Unique.{Unique}
use ooplatingsistm.System.Alive.{Unique-Apart, sizes, lists_fit, Reach-Lives}
use ooplatingsistm.System.Safe.{PlainText, Reach-Safe, unmasked-User}
use ooplatingsistm.Kernel.Alive.{queued, body_fits}
use ooplatingsistm.ThreadOps.Survival.{HandlersFit}
use Prim.Native.String.{String}
use ooplatingsistm.Synch.{new_semaphore, new_lock}

-- User code is not in the loop of `P`.
User-idle : (s : Awaited) (fs : List Frame) → User fs → retries s (strip fs) ≡ 0
User-idle s [] u = refl
User-idle s (body ss ∷ fs) u = refl
User-idle s (thread_finish ∷ fs) u = refl
User-idle s (put_locked i item ∷ fs) u = refl
User-idle s (map_locked i format ∷ fs) u = refl
User-idle s (thread_root ∷ fs) u = absurd u
User-idle s (after_switch ∷ fs) u = absurd u
User-idle s (restore_level l ∷ fs) u = absurd u
User-idle s (p_loop m ∷ fs) u = absurd u
User-idle s (acquire_loop l ∷ fs) u = absurd u
User-idle s (take_locked i ∷ fs) u = absurd u

module _ {D : Type 0} ⦃irq : Interrupt D⦄ (image : Image) (s : Awaited) where
  idle-Served :
      (k : Kernel D)
      → AllServed s k
      → k.current ≢ null
      → queued k.current k ≡ 0
      → User k.cpu
      → Served s 0 k
  idle-Served k h ne alone u =
      cpu-Served s (retries s (stack_of k k.current)) 0 k k.device k.cpu h ne alone
        (ground (arith, User-idle s k.cpu u, ==_refl k.current))

  stack-Served :
      {k j : Kernel D} (fs : List Frame)
      → k.cpu ≡ fs
      → AllServed s k
      → Unique k
      → k.current ≢ null
      → step image k ≡ ok tt j
      → AllServed s j
  stack-Served {k} [] empty h u ne e = absurd (step-idle image k empty e)
  stack-Served {k} (f ∷ fs) top h u ne e =
      Ensures-apply _ _
        (exec_frame-Served s image f (record k { cpu = fs })
          (subst (λ gs. AllServed s (record k { cpu = gs })) top h) ne
          (Unique-Apart (record k { cpu = fs })
            (record { unique = u.unique; fresh = u.fresh; started = u.started }) ne))
        (sym (step-frame image k top) ∙ e)

  Step-Served :
      {k j : Kernel D}
      → Step image k j
      → AllServed s k
      → Unique k
      → Framed k
      → k.current ≢ null
      → AllServed s j
  Step-Served {k} (go e) h u fr ne = stack-Served k.cpu refl h u ne e
  Step-Served {k} (timer on e) h u fr ne =
      Ensures-apply _ _
        (yield_cpu-Served s k
          (idle-Served k h ne (Unique-Apart k u ne).current_apart (unmasked-User k fr on)) ne
          (Unique-Apart k u ne).current_apart)
        e
  Step-Served {k} (device_interrupt sem on e) h u fr ne =
      Ensures-apply _ _
        (v-AllServed s sem k
          (idle-Served k h ne (Unique-Apart k u ne).current_apart (unmasked-User k fr on)))
        e

nobody_waits :
    (ss : List (String × ℕ)) (i : ℕ) (c : Semaphore)
    → get_elem? (make_semaphores ss) i ≡ some c
    → c.queue ≡ []
unfolding make_semaphores new_semaphore
nobody_waits [] i c e = cc
nobody_waits (x ∷ ss) zero c e = ground (arith, e)
nobody_waits (x ∷ ss) (suc i) c e = nobody_waits ss i c e

nobody_waits_for_lock :
    (ns : List String) (i : ℕ) (c : Lock) → get_elem? (make_locks ns) i ≡ some c → c.queue ≡ []
unfolding make_locks new_lock
nobody_waits_for_lock [] i c e = cc
nobody_waits_for_lock (x ∷ ns) zero c e = ground (arith, e)
nobody_waits_for_lock (x ∷ ns) (suc i) c e = nobody_waits_for_lock ns i c e

module _ {D : Type 0} ⦃irq : Interrupt D⦄ (image : Image) (d : D) (g : Garbage) (s : Setup)
    (handlers : HandlersFit irq (sizes s))
    (text_fits : (func arg : ℕ) → body_fits (sizes s) (image.text func arg) ≡ true)
    (main_fits : body_fits (sizes s) s.main ≡ true)
    (own_locks : lists_fit (length s.locks) s.synch_lists ≡ true)
    (text_plain : PlainText image.text) (main_plain : All IsPlain s.main) (a : Awaited) where
  unawaited : (c : Supply) → supply a (initialize d g s) ≡ some c → c.queue ≡ []
  unfolding initialize
  unawaited c at =
      unawaited-supply a (initialize d g s) c (nobody_waits s.semaphores)
        (nobody_waits_for_lock s.locks) at

  initialize-Served : AllServed a (initialize d g s)
  unfolding initialize new_thread
  initialize-Served = record {
    in_loop = λ c at t some_t. ground (arith, some_t, unawaited c at);
    spoken_for = λ c at some_waiter. absurd (some_waiter (unawaited c at));
    null_idle = refl;
  }

  Reach-Served : {k : Kernel D} → Reach image (initialize d g s) k → AllServed a k
  Reach-Served here = initialize-Served
  Reach-Served (later {i} r st) =
      let safe = Reach-Safe image text_plain d g s main_plain r in
      let lives = Reach-Lives image d g s handlers text_fits main_fits own_locks r in
      Step-Served image a st (Reach-Served r) safe.places_unique safe.framed
        lives.alive.current_runs.exists

module _ {D : Type 0} ⦃irq : Interrupt D⦄ (image : Image) (d : D) (g : Garbage) (s : Setup)
    (handlers : HandlersFit irq (sizes s))
    (text_fits : (func arg : ℕ) → body_fits (sizes s) (image.text func arg) ≡ true)
    (main_fits : body_fits (sizes s) s.main ≡ true)
    (own_locks : lists_fit (length s.locks) s.synch_lists ≡ true)
    (text_plain : PlainText image.text) (main_plain : All IsPlain s.main) where
  -- While a thread waits for a semaphore, no more units are free than there are threads, ready or
  -- running, that have been woken and are about to test the value again: `V` loses no wakeup. It
  -- holds in every state that a program reaches, under any timer and device interrupts, if the
  -- program names objects that exist, and calls neither `Condition::Wait` nor `SynchList::Remove`.
  pub no_lost_wakeup :
      {k : Kernel D} (sem : ℕ) (c : Semaphore)
      → Reach image (initialize d g s) k
      → get_elem? k.semaphores sem ≡ some c
      → c.queue ≢ []
      → c.value ≤ retrying (unit_of sem) k + retries (unit_of sem) (stack_of k k.current)
  no_lost_wakeup {k} sem c r at some_waiter =
      (Reach-Served image d g s handlers text_fits main_fits own_locks text_plain main_plain
          (unit_of sem) r).spoken_for
        (semaphore_supply c) (semaphore-supply k sem c at) some_waiter

  -- While a thread waits for a lock that is free, another thread, ready or running, has been woken
  -- and is about to test the lock again: `Release` loses no wakeup, those inside a `SynchList`
  -- included. It holds in every state that a program reaches, under any timer and device
  -- interrupts, if the program names objects that exist, and calls neither `Condition::Wait` nor
  -- `SynchList::Remove`.
  pub no_lost_release :
      {k : Kernel D} (l : ℕ) (c : Lock)
      → Reach image (initialize d g s) k
      → get_elem? k.locks l ≡ some c
      → c.queue ≢ []
      → c.held ≡ 0
      → 1 ≤ retrying (free_lock l) k + retries (free_lock l) (stack_of k k.current)
  no_lost_release {k} l c r at some_waiter free =
      let served =
        Reach-Served image d g s handlers text_fits main_fits own_locks text_plain main_plain
          (free_lock l) r in
      ground (arith, free, served.spoken_for (lock_supply c) (lock-supply k l c at) some_waiter)
