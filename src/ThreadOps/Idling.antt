-- ===== src/ThreadOps/Idling.antt =====
-- The loop of `Sleep` round `Interrupt::Idle`, while no thread is ready.
use ooplatingsistm.Base.{
  ℕ, suc, ◌+◌, ◌≡◌, ◌≢◌, refl, ap, ◌-◌, ◌≤◌, ◌∙◌, none, some, [], ◌∷◌, arith, ==_refl,
}
use ooplatingsistm.LinkedList.Heap.{Ptr, null}
use ooplatingsistm.Queue.{Queue}
use ooplatingsistm.Program.{int_off}
use ooplatingsistm.Thread.{Thread, set_status, blocked}
use ooplatingsistm.Kernel.{Kernel, Interrupt, ok, halt, and_then}
use ooplatingsistm.Scheduler.{run, find_next_to_run, change_status, update}
use ooplatingsistm.ThreadOps.{sleep, idle, next_or_idle}
use ooplatingsistm.ThreadOps.Leave.{next_or_idle-first}

module _ {D : Type 0} ⦃irq : Interrupt D⦄ where
  -- So many calls of `Idle`, one after the other, serve interrupts and make nobody ready.
  pub data Idles : ℕ → Kernel D → Kernel D → Type 0 where
    over : {k : Kernel D} → Idles 0 k k
    round :
        {m : ℕ} {k i j : Kernel D}
        → idle k ≡ ok tt i
        → i.ready_list ≡ []
        → Idles m i j
        → Idles (suc m) k j

  -- The current thread blocked.
  abbrev pub dozing : Thread → Kernel D → Kernel D
  dozing c k = record k { thread = update k.thread k.current (some (set_status blocked c)) }

  next_or_idle-nobody :
      (n : ℕ) (k : Kernel D)
      → k.ready_list ≡ []
      → next_or_idle (suc n) k ≡ and_then (idle k) (λ _. next_or_idle n)
  unfolding next_or_idle find_next_to_run
  next_or_idle-nobody n k nobody = rw nobody refl

  -- Rounds that make nobody ready only use up patience.
  next_or_idle-Idles :
      {m : ℕ} (n : ℕ) {k j : Kernel D}
      → k.ready_list ≡ []
      → Idles m k j
      → (next_or_idle (m + n) k ≡ next_or_idle n j) × (j.ready_list ≡ [])
  next_or_idle-Idles n {k} nobody over = (ap (λ p. next_or_idle p k) (omega arith), nobody)
  next_or_idle-Idles n {k} {j} nobody (round {m = m} {i = i} served still rest) =
      let (e, end) = next_or_idle-Idles n still rest in
      (
        ap (λ p. next_or_idle p k) (omega arith)
            ∙ next_or_idle-nobody (m + n) k nobody
            ∙ ap (λ o. and_then o (λ _. next_or_idle (m + n))) served
            ∙ e,
        end,
      )

  next_or_idle-halt :
      (n : ℕ) (j : Kernel D)
      → j.ready_list ≡ []
      → irq.idle j.device ≡ none
      → next_or_idle (suc n) j ≡ halt
  unfolding next_or_idle find_next_to_run idle
  next_or_idle-halt n j nobody quiet = ground arith

  sleep-next :
      (k : Kernel D) (c : Thread)
      → k.thread k.current ≡ some c
      → irq.get_level k.device ≡ int_off
      → sleep k.current k ≡ and_then (next_or_idle irq.patience (dozing c k)) run
  unfolding sleep change_status
  sleep-next k c here off = rw (==_refl k.current, off, here) refl

  -- `Sleep` with nobody ready serves interrupts for as long as they make nobody ready, and if no
  -- interrupt is pending then, the machine halts: all threads would wait for ever. The rounds fit
  -- into the patience of the model.
  pub sleep-halt :
      {m : ℕ} {j : Kernel D} (k : Kernel D) (c : Thread)
      → k.thread k.current ≡ some c
      → irq.get_level k.device ≡ int_off
      → k.ready_list ≡ []
      → Idles m (dozing c k) j
      → irq.idle j.device ≡ none
      → m + 1 ≤ irq.patience
      → sleep k.current k ≡ halt
  sleep-halt {m} {j} k c here off nobody idles quiet fits =
      let (e, still) = next_or_idle-Idles (suc (irq.patience - m - 1)) nobody idles in
      sleep-next k c here off
      ∙ ap (λ p. and_then (next_or_idle p (dozing c k)) run) (omega (arith, fits))
      ∙ ap (λ o. and_then o run) (e ∙ next_or_idle-halt (irq.patience - m - 1) j still quiet)

  -- `Sleep` with nobody ready serves interrupts for as long as they make nobody ready. In the first
  -- round that makes a thread ready it stops, and runs the first ready thread. The rounds fit into
  -- the patience of the model.
  pub sleep-wakes :
      {m : ℕ} {j : Kernel D} (k i : Kernel D) (c : Thread) (n : Ptr) (q : Queue)
      → k.thread k.current ≡ some c
      → irq.get_level k.device ≡ int_off
      → k.ready_list ≡ []
      → Idles m (dozing c k) j
      → idle j ≡ ok tt i
      → i.ready_list ≡ n ∷ q
      → n ≢ null
      → m + 2 ≤ irq.patience
      → sleep k.current k ≡ run n (record i { ready_list = q })
  sleep-wakes {m} {j} k i c n q here off nobody idles served first exists fits =
      let r = irq.patience - m - 2 in
      let (e, still) = next_or_idle-Idles (suc (suc r)) nobody idles in
      sleep-next k c here off
      ∙ ap (λ p. and_then (next_or_idle p (dozing c k)) run) (omega (arith, fits))
      ∙ ap (λ o. and_then o run)
          (e
            ∙ next_or_idle-nobody (suc r) j still
            ∙ ap (λ o. and_then o (λ _. next_or_idle (suc r))) served
            ∙ next_or_idle-first i first exists (suc r) (omega arith))
