-- ===== src/Machine/Exclusion.antt =====
-- Each frame that the machine runs keeps mutual exclusion.
use Prim.Native.String.{String}
use Prim.Native.String.{String}
use ooplatingsistm.Base.{
  ℕ, ◌≡◌, refl, ◌⊎◌, inl, inr, Bool, true, ◌&&◌, List, [], ◌∷◌, ◌++◌, ◌==◌, ==_refl, arith,
  Option-cases, Bool-cases, get_elem?, set,
}
use ooplatingsistm.LinkedList.Heap.{Ptr, null}
use ooplatingsistm.Queue.{append, remove}
use ooplatingsistm.Queue.Refine.{is_empty}
use ooplatingsistm.Program.{
  int_off, Stmt, printf, call_yield, call_fork, call_p, call_v, call_acquire, call_release,
  call_wait, call_signal, call_broadcast, call_put, call_mapcar, call_take, Frame, thread_root,
  body, restore_level, put_locked, map_locked, take_locked,
}
use ooplatingsistm.Thread.{Entries, new_thread, stack_allocate}
use ooplatingsistm.Kernel.{Kernel, Outcome, SynchList, Interrupt, ◌>>=◌}
use ooplatingsistm.Kernel.Outcomes.{Ensures, Ensures-bind, Ensures-mono, Ensures-all}
use ooplatingsistm.Kernel.Stacks.{stack_of}
use ooplatingsistm.Scheduler.{ready_to_run}
use ooplatingsistm.ThreadOps.{Garbage, create, fork, yield_cpu}
use ooplatingsistm.ThreadOps.Stacks.{yield_cpu-Quiet, pushed}
use ooplatingsistm.Synch.{p, release}
use ooplatingsistm.Synch.Brackets.{body_holds, body_bracketed, holds, bracketed}
use ooplatingsistm.Synch.Exclusion.{
  Exclusive, Exclusive-mono, Exclusive-cpu, Exclusive-list, cpu-brackets,
}
use ooplatingsistm.Synch.Sections.{
  Quiet-Exclusive, acquire-Exclusive, release-Exclusive, p_wait-Exclusive,
}
use ooplatingsistm.Synchlist.{put, put_rest, mapcar, mapcar_rest, printed, take, take_rest}

module _ (lock_of : ℕ → ℕ) (l : ℕ) where
  -- The first statement by itself.
  pub body_holds-cons :
      (s : Stmt) (ss : List Stmt) (b : Bool)
      → body_holds lock_of l (s ∷ []) (body_holds lock_of l ss b) ≡ body_holds lock_of l (s ∷ ss) b
  body_holds-cons (printf format args) ss b = refl
  body_holds-cons call_yield ss b = refl
  body_holds-cons (call_fork name func arg) ss b = refl
  body_holds-cons (call_p s) ss b = refl
  body_holds-cons (call_v s) ss b = refl
  body_holds-cons (call_acquire m) ss b = refl
  body_holds-cons (call_release m) ss b = refl
  body_holds-cons (call_wait m) ss b = refl
  body_holds-cons (call_signal m) ss b = refl
  body_holds-cons (call_broadcast m) ss b = refl
  body_holds-cons (call_put i item) ss b = refl
  body_holds-cons (call_mapcar i format) ss b = refl
  body_holds-cons (call_take i) ss b = refl

  pub body_bracketed-cons :
      (s : Stmt) (ss : List Stmt) (b : Bool)
      → body_bracketed lock_of l (s ∷ ss) b ≡ (
          body_bracketed lock_of l (s ∷ []) (body_holds lock_of l ss b)
          && body_bracketed lock_of l ss b)
  body_bracketed-cons (printf format args) ss b = refl
  body_bracketed-cons call_yield ss b = refl
  body_bracketed-cons (call_fork name func arg) ss b = refl
  body_bracketed-cons (call_p s) ss b = refl
  body_bracketed-cons (call_v s) ss b = refl
  body_bracketed-cons (call_acquire m) ss b = ground arith
  body_bracketed-cons (call_release m) ss b = ground arith
  body_bracketed-cons (call_wait m) ss b = refl
  body_bracketed-cons (call_signal m) ss b = refl
  body_bracketed-cons (call_broadcast m) ss b = refl
  body_bracketed-cons (call_put i item) ss b = ground arith
  body_bracketed-cons (call_mapcar i format) ss b = ground arith
  body_bracketed-cons (call_take i) ss b = ground arith

module _ (lock_of : ℕ → ℕ) (l : ℕ) {D : Type 0} ⦃irq : Interrupt D⦄ where
  -- The top of the stack is replaced by frames that hold the same, and are bracketed as well.
  pub replace-Exclusive :
      (k : Kernel D) (fs gs : List Frame)
      → Exclusive lock_of l (pushed k fs)
      → holds lock_of l (gs ++ k.cpu) ≡ holds lock_of l (fs ++ k.cpu)
      → (bracketed lock_of l (fs ++ k.cpu) ≡ true → bracketed lock_of l (gs ++ k.cpu) ≡ true)
      → Exclusive lock_of l (pushed k gs)
  replace-Exclusive k fs gs h e b =
      Exclusive-cpu lock_of l (pushed k fs) k.device (gs ++ k.cpu) h e
        (b (cpu-brackets lock_of l (pushed k fs) h))

  pub p-Exclusive :
      (s : ℕ) (k : Kernel D)
      → Exclusive lock_of l k
      → Ensures (λ _ j. Exclusive lock_of l j) (p s k)
  unfolding p
  p-Exclusive s k h =
      p_wait-Exclusive lock_of l s k'
        (Exclusive-cpu lock_of l k k'.device k'.cpu h refl (cpu-brackets lock_of l k h))
    where
      k' : Kernel D
      k' = record k {
        device = irq.set_level int_off k.device;
        cpu = restore_level (irq.get_level k.device) ∷ k.cpu;
      }

  pub yield_cpu-Exclusive :
      (k : Kernel D)
      → Exclusive lock_of l k
      → Ensures (λ _ j. Exclusive lock_of l j) (yield_cpu k.current k)
  yield_cpu-Exclusive k h = Ensures-mono _ _ (yield_cpu k.current k) (yield_cpu-Quiet k) λ _ j.
      Quiet-Exclusive lock_of l k' j
        (Exclusive-cpu lock_of l k k.device k'.cpu h refl (cpu-brackets lock_of l k h))
    where
      k' : Kernel D
      k' = pushed k (restore_level (irq.get_level k.device) ∷ [])

  pub call_fork-Exclusive :
      (g : Garbage) (e : Entries) (name : String) (func arg : ℕ) (k : Kernel D)
      → Exclusive lock_of l k
      → Ensures (λ _ j. Exclusive lock_of l j) ((create g name >>= λ t. fork g e t func arg) k)
  unfolding create fork ready_to_run new_thread stack_allocate
  call_fork-Exclusive g e name func arg k h =
      Ensures-mono _ _ m (Ensures-all _ m λ t. stacks t)
        λ _ j same. Exclusive-mono lock_of l k j h (λ t. (same t).0) (same null).1 (same null).2
    where
      m : Outcome D (Unit {0})
      m = (create g name >>= λ t. fork g e t func arg) k

      stacks :
          (t : Ptr)
          → Ensures
              (λ _ j.
                ((stack_of j t ≡ stack_of k t)
                  ⊎ ((stack_of j t ≡ []) ⊎ (stack_of j t ≡ thread_root ∷ [])))
                × (j.locks ≡ k.locks)
                × (j.synch_lists ≡ k.synch_lists))
              m
      stacks t = ground (arith, ==_refl k.next_addr)

  pub put-Exclusive :
      (i : ℕ) (item : Ptr) (k : Kernel D)
      → Exclusive lock_of l (pushed k (body (call_put i item ∷ []) ∷ []))
      → Ensures (λ _ j. Exclusive lock_of l j) (put i item k)
  unfolding put
  put-Exclusive i item k h = elim (Option-cases (get_elem? k.synch_lists i)) [
    | inl missing ↦ rw missing tt
    | inr (c, there) ↦
        let own : c.lock ≡ lock_of i = h.lists i c there in
        rw there (
          acquire-Exclusive lock_of l c.lock (pushed k (put_locked i item ∷ [])) (
            replace-Exclusive k (body (call_put i item ∷ []) ∷ [])
              (body (call_acquire c.lock ∷ []) ∷ put_locked i item ∷ []) h (ground (arith, own))
              λ b. ground (arith, own, b)))
  ]

  pub take-Exclusive :
      (i : ℕ) (k : Kernel D)
      → Exclusive lock_of l (pushed k (body (call_take i ∷ []) ∷ []))
      → Ensures (λ _ j. Exclusive lock_of l j) (take i k)
  unfolding take
  take-Exclusive i k h = elim (Option-cases (get_elem? k.synch_lists i)) [
    | inl missing ↦ rw missing tt
    | inr (c, there) ↦
        let own : c.lock ≡ lock_of i = h.lists i c there in
        rw there (
          acquire-Exclusive lock_of l c.lock (pushed k (take_locked i ∷ [])) (
            replace-Exclusive k (body (call_take i ∷ []) ∷ [])
              (body (call_acquire c.lock ∷ []) ∷ take_locked i ∷ []) h (ground (arith, own))
              λ b. ground (arith, own, b)))
  ]

  pub mapcar-Exclusive :
      (i : ℕ) (format : String) (k : Kernel D)
      → Exclusive lock_of l (pushed k (body (call_mapcar i format ∷ []) ∷ []))
      → Ensures (λ _ j. Exclusive lock_of l j) (mapcar i format k)
  unfolding mapcar
  mapcar-Exclusive i format k h = elim (Option-cases (get_elem? k.synch_lists i)) [
    | inl missing ↦ rw missing tt
    | inr (c, there) ↦
        let own : c.lock ≡ lock_of i = h.lists i c there in
        rw there (
          acquire-Exclusive lock_of l c.lock (pushed k (map_locked i format ∷ [])) (
            replace-Exclusive k (body (call_mapcar i format ∷ []) ∷ [])
              (body (call_acquire c.lock ∷ []) ∷ map_locked i format ∷ []) h (ground (arith, own))
              λ b. ground (arith, own, b)))
  ]

  pub put_rest-Exclusive :
      (i : ℕ) (item : Ptr) (k : Kernel D)
      → Exclusive lock_of l (pushed k (put_locked i item ∷ []))
      → Ensures (λ _ j. Exclusive lock_of l j) (put_rest i item k)
  unfolding put_rest
  put_rest-Exclusive i item k h = elim (Option-cases (get_elem? k.synch_lists i)) [
    | inl missing ↦ rw missing tt
    | inr (c, there) ↦
        let own : c.lock ≡ lock_of i = h.lists i c there in
        let c' : SynchList = record c { list = append c.list item } in
        rw there (
          release-Exclusive lock_of l c.lock (record k { synch_lists = set k.synch_lists i c' })
            (Exclusive-list lock_of l (pushed k (body (call_release c.lock ∷ []) ∷ [])) i c c'
              (replace-Exclusive k (put_locked i item ∷ []) (body (call_release c.lock ∷ []) ∷ []) h
                (ground (arith, own)) λ b. ground (arith, own, b))
              there refl))
  ]

  pub mapcar_rest-Exclusive :
      (i : ℕ) (format : String) (k : Kernel D)
      → Exclusive lock_of l (pushed k (map_locked i format ∷ []))
      → Ensures (λ _ j. Exclusive lock_of l j) (mapcar_rest i format k)
  unfolding mapcar_rest
  mapcar_rest-Exclusive i format k h = elim (Option-cases (get_elem? k.synch_lists i)) [
    | inl missing ↦ rw missing tt
    | inr (c, there) ↦
        let own : c.lock ≡ lock_of i = h.lists i c there in
        let k' : Kernel D = record k { output = k.output ++ printed format c.list } in
        rw there (
          release-Exclusive lock_of l c.lock k' (
            Exclusive-mono lock_of l (pushed k (body (call_release c.lock ∷ []) ∷ []))
              (pushed k' (body (call_release c.lock ∷ []) ∷ []))
              (replace-Exclusive k (map_locked i format ∷ []) (body (call_release c.lock ∷ []) ∷ [])
                h (ground (arith, own)) λ b. ground (arith, own, b))
              (λ t. inl refl) refl refl))
  ]

  pub take_rest-Exclusive :
      (i : ℕ) (k : Kernel D)
      → Exclusive lock_of l (pushed k (take_locked i ∷ []))
      → Ensures (λ _ j. Exclusive lock_of l j) (take_rest i k)
  unfolding take_rest
  take_rest-Exclusive i k h = elim (Option-cases (get_elem? k.synch_lists i)) [
    | inl missing ↦ rw missing tt
    | inr (c, there) ↦
        let own : c.lock ≡ lock_of i = h.lists i c there in
        let c' : SynchList = record c { list = (remove c.list).1 } in
        let k' : Kernel D = record k { synch_lists = set k.synch_lists i c' } in
        let h' : Exclusive lock_of l (pushed k' (body (call_release c.lock ∷ []) ∷ [])) =
          Exclusive-list lock_of l (pushed k (body (call_release c.lock ∷ []) ∷ [])) i c c'
            (replace-Exclusive k (take_locked i ∷ []) (body (call_release c.lock ∷ []) ∷ []) h
              (ground (arith, own)) λ b. ground (arith, own, b))
            there refl in
        rw there (elim (Bool-cases (is_empty c.list)) [
          | inl empty ↦ rw empty tt
          | inr some_item ↦ rw some_item (elim (Bool-cases ((remove c.list).0 == null)) [
            | inl nothing ↦ rw nothing tt
            | inr something ↦ rw something (
                Ensures-bind _ _ (release c.lock k') _ (release-Exclusive lock_of l c.lock k' h')
                  λ _ j e. Exclusive-mono lock_of l j _ e (λ t. inl refl) refl refl)
          ])
        ])
  ]
