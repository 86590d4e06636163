-- ===== src/Synch/Wakeup.antt =====
-- `Semaphore::V` and `Lock::Release`: what they write, and whom they wake.
use ooplatingsistm.Base.{
  ℕ, ◌+◌, ◌<◌, ◌≡◌, ◌≢◌, none, some, ◌∷◌, arith, get_elem?, set, set-set, get_elem?-set_self,
}
use ooplatingsistm.LinkedList.Heap.{Ptr, null}
use ooplatingsistm.Queue.{remove}
use ooplatingsistm.Program.{int_off, restore_level}
use ooplatingsistm.Thread.{Thread, ready, set_status}
use ooplatingsistm.Kernel.{Kernel, Semaphore, Lock, Interrupt, ◌>>◌}
use ooplatingsistm.Kernel.Outcomes.{Succeeds, Succeeds-bind}
use ooplatingsistm.Scheduler.{ready_to_run}
use ooplatingsistm.Wake.{ready_unless_null, increment, decrement, int_mod, v}
use ooplatingsistm.ThreadOps.Woken.{woken}
use ooplatingsistm.Synch.{release, acquire, acquire_wait, p, p_wait}

increment-decrement : (n : ℕ) → n + 1 < int_mod → (increment n ≢ 0) × (decrement (increment n) ≡ n)
increment-decrement n small = ground arith

module _ {D : Type 0} ⦃irq : Interrupt D⦄ where
  -- What a wakeup does to everything but the semaphore or the lock: the thread `r`, unless it is
  -- NULL, is ready behind the others, and the current thread goes on at the level it had.
  pub record Woken (k : Kernel D) (r : Ptr) (j : Kernel D) : Type 0 where
    pub ready_list : j.ready_list ≡ woken r k.ready_list
    pub status :
        (c : Thread) → r ≢ null → k.thread r ≡ some c → j.thread r ≡ some (set_status ready c)
    pub others : (t : Ptr) → t ≢ r → j.thread t ≡ k.thread t
    pub level : irq.get_level j.device ≡ irq.get_level k.device
    pub current : j.current ≡ k.current
    pub cpu : j.cpu ≡ k.cpu
    pub to_be_destroyed : j.to_be_destroyed ≡ k.to_be_destroyed

  -- `V` takes the first thread out of the queue, makes it ready, and adds one to the value.
  pub v-Woken :
      (s : ℕ) (k : Kernel D) (c : Semaphore)
      → get_elem? k.semaphores s ≡ some c
      → ((remove c.queue).0 ≢ null → k.thread (remove c.queue).0 ≢ none)
      → Succeeds
          (λ _ j.
            (j.semaphores
              ≡ set k.semaphores s
                  (record c { value = increment c.value; queue = (remove c.queue).1 }))
            × (j.locks ≡ k.locks)
            × Woken k (remove c.queue).0 j)
          (v s k)
  unfolding v ready_unless_null ready_to_run
  v-Woken s k c there alive =
      let c' : Semaphore = record c { queue = (remove c.queue).1 } in
      let c'' : Semaphore = record c' { value = increment c.value } in
      ground (
        arith,
        get_elem?-set_self k.semaphores s c' there,
        set-set k.semaphores s c' c'',
        irq.get_level-set_level (irq.get_level k.device) (irq.set_level int_off k.device),
      )

  -- `Release`, by whichever thread, frees the lock, takes the first thread out of the queue and
  -- makes it ready.
  pub release-Woken :
      (l : ℕ) (k : Kernel D) (c : Lock)
      → get_elem? k.locks l ≡ some c
      → ((remove c.queue).0 ≢ null → k.thread (remove c.queue).0 ≢ none)
      → Succeeds
          (λ _ j.
            (j.locks ≡ set k.locks l (record c { held = 0; queue = (remove c.queue).1 }))
            × (j.semaphores ≡ k.semaphores)
            × Woken k (remove c.queue).0 j)
          (release l k)
  unfolding release ready_unless_null ready_to_run
  release-Woken l k c there alive =
      let c' : Lock = record c { queue = (remove c.queue).1 } in
      let c'' : Lock = record c' { held = 0 } in
      ground (
        arith,
        get_elem?-set_self k.locks l c' there,
        set-set k.locks l c' c'',
        irq.get_level-set_level (irq.get_level k.device) (irq.set_level int_off k.device),
      )

  -- `Release` does not hand the lock on: the thread that released it gets it back at once, and the
  -- thread that was woken is ready but has to wait again.
  pub release-acquire :
      (l : ℕ) (k : Kernel D) (c : Lock)
      → get_elem? k.locks l ≡ some c
      → ((remove c.queue).0 ≢ null → k.thread (remove c.queue).0 ≢ none)
      → Succeeds
          (λ _ j.
            (j.locks ≡ set k.locks l (record c { held = 1; queue = (remove c.queue).1 }))
            × (j.ready_list ≡ woken (remove c.queue).0 k.ready_list)
            × (j.current ≡ k.current)
            × (j.cpu ≡ restore_level (irq.get_level k.device) ∷ k.cpu))
          ((release l >> acquire l) k)
  unfolding acquire acquire_wait
  release-acquire l k c there alive =
      let c' : Lock = record c { held = 0; queue = (remove c.queue).1 } in
      let c'' : Lock = record c' { held = 1 } in
      Succeeds-bind _ _ (release l k) (λ _. acquire l) (release-Woken l k c there alive)
        λ _ j (locks, _, w). ground (
          arith,
          locks,
          w.ready_list,
          w.level,
          w.current,
          w.cpu,
          get_elem?-set_self k.locks l c' there,
          set-set k.locks l c' c'',
        )

  -- A `V` is good for one `P`: the value is what it was, and the current thread does not sleep,
  -- though it may have taken the unit from the thread that was woken.
  pub v-p :
      (s : ℕ) (k : Kernel D) (c : Semaphore)
      → get_elem? k.semaphores s ≡ some c
      → c.value + 1 < int_mod
      → ((remove c.queue).0 ≢ null → k.thread (remove c.queue).0 ≢ none)
      → Succeeds
          (λ _ j.
            (j.semaphores ≡ set k.semaphores s (record c { queue = (remove c.queue).1 }))
            × (j.ready_list ≡ woken (remove c.queue).0 k.ready_list)
            × (j.current ≡ k.current)
            × (j.cpu ≡ restore_level (irq.get_level k.device) ∷ k.cpu))
          ((v s >> p s) k)
  unfolding p p_wait
  v-p s k c there small alive =
      let c' : Semaphore = record c { value = increment c.value; queue = (remove c.queue).1 } in
      let c'' : Semaphore = record c' { value = decrement (increment c.value) } in
      Succeeds-bind _ _ (v s k) (λ _. p s) (v-Woken s k c there alive)
        λ _ j (semaphores, _, w). ground (
          arith,
          semaphores,
          w.ready_list,
          w.level,
          w.current,
          w.cpu,
          increment-decrement c.value small,
          get_elem?-set_self k.semaphores s c' there,
          set-set k.semaphores s c' c'',
        )
