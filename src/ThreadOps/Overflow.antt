-- ===== src/ThreadOps/Overflow.antt =====
-- `Thread::CheckOverflow` at work: a thread that has overwritten the end of its stack.
use ooplatingsistm.Base.{◌≡◌, ◌≢◌, false, some, ◌∷◌, arith, ==_refl}
use ooplatingsistm.LinkedList.Heap.{Ptr, null}
use ooplatingsistm.Queue.{Queue}
use ooplatingsistm.Program.{int_off}
use ooplatingsistm.Thread.{Thread, blocked, set_status, stack_intact}
use ooplatingsistm.Kernel.{Kernel, Interrupt, abort}
use ooplatingsistm.ThreadOps.{yield_cpu, sleep, finish}
use ooplatingsistm.Scheduler.{run, update}
use ooplatingsistm.ThreadOps.Leave.{next_or_idle-first}

module _ {D : Type 0} ⦃irq : Interrupt D⦄ where
  -- The current thread has overwritten its fencepost, and thread `n` is the first of those ready.
  pub record Overrun (k : Kernel D) (n : Ptr) (q : Queue) (c : Thread) : Type 0 where
    pub patient : irq.patience ≢ 0
    pub first : k.ready_list ≡ n ∷ q
    pub exists : n ≢ null
    pub here : k.thread k.current ≡ some c
    pub broken : stack_intact c.stack ≡ false

  yield_cpu-Overrun :
      (k : Kernel D) (n : Ptr) (q : Queue) (c : Thread)
      → Overrun k n q c
      → yield_cpu k.current k ≡ abort
  unfolding yield_cpu run
  yield_cpu-Overrun k n q c h = ground (arith, ==_refl k.current, h)

  sleep-Overrun :
      (k : Kernel D) (n : Ptr) (q : Queue) (c : Thread)
      → Overrun k n q c
      → irq.get_level k.device ≡ int_off
      → sleep k.current k ≡ abort
  unfolding sleep run
  sleep-Overrun k n q c h off = ground (
    arith,
    ==_refl k.current,
    h,
    next_or_idle-first
        (record k { thread = update k.thread k.current (some (set_status blocked c)) }) h.first
        h.exists irq.patience h.patient,
  )

  finish-Overrun :
      (k : Kernel D) (n : Ptr) (q : Queue) (c : Thread)
      → Overrun k n q c
      → finish k.current k ≡ abort
  unfolding finish
  finish-Overrun k n q c h =
      let j : Kernel D = record k {
        device = irq.set_level int_off k.device;
        to_be_destroyed = k.current;
      } in
      ground (
        arith,
        ==_refl k.current,
        sleep-Overrun j n q c
            (record {
              patient = h.patient;
              first = h.first;
              exists = h.exists;
              here = h.here;
              broken = h.broken;
            })
            (irq.get_level-set_level int_off k.device),
      )

  -- A thread that has overwritten its fencepost does not hand the processor over: while another
  -- thread is ready, its next `Yield` and its `Finish`, at any interrupt level, and its next `Sleep`
  -- with interrupts off, fail the assertion in `Scheduler::Run`, before the context switch.
  pub Overrun-aborts :
      (k : Kernel D) (n : Ptr) (q : Queue) (c : Thread) (off : D)
      → Overrun k n q c
      → irq.get_level off ≡ int_off
      → (yield_cpu k.current k ≡ abort)
        × (finish k.current k ≡ abort)
        × (sleep k.current (record k { device = off }) ≡ abort)
  Overrun-aborts k n q c off h is_off = (
    yield_cpu-Overrun k n q c h,
    finish-Overrun k n q c h,
    sleep-Overrun (record k { device = off }) n q c
        (record {
          patient = h.patient;
          first = h.first;
          exists = h.exists;
          here = h.here;
          broken = h.broken;
        })
        is_off,
  )
