-- ===== src/Wake.antt =====
-- `Semaphore::V` (synch.cc). It stands apart from the other operations on semaphores since the
-- interrupt handlers that `Interrupt::Idle` serves wake threads through it.
pub mod Places
use ooplatingsistm.Base.{
  ℕ, ◌+◌, ◌%◌, ◌*◌, ◌-◌, Option, none, some, List, [], ◌∷◌, ◌==◌, if◌then◌else◌, get_elem?, set,
}
use ooplatingsistm.LinkedList.Heap.{Ptr, null}
use ooplatingsistm.Queue.{append, remove}
use ooplatingsistm.Program.{IntStatus, int_off, int_on}
use ooplatingsistm.Kernel.{
  Kernel, Semaphore, Interrupt, Cmd, Command, ok, pure, ◌>>=◌, ◌>>◌, deref, modify,
}
use ooplatingsistm.Scheduler.{ready_to_run}

-- `int` is 32 bits wide.
abbrev pub int_mod : ℕ
int_mod = 0x1_0000_0000

abbrev pub increment : ℕ → ℕ
increment v = (v + 1) % int_mod

abbrev pub decrement : ℕ → ℕ
decrement v = (v + int_mod - 1) % int_mod

module _ {D : Type 0} where
  abbrev pub load_semaphore : ℕ → Cmd D Semaphore
  load_semaphore s k = deref (get_elem? k.semaphores s) k

  abbrev pub store_semaphore : ℕ → Semaphore → Command D
  store_semaphore s c = modify λ k. record k { semaphores = set k.semaphores s c }

  -- `if (thread != NULL) scheduler->ReadyToRun(thread);`
  unfoldable pub ready_unless_null : Ptr → Command D
  ready_unless_null t = if t == null then pure tt else ready_to_run t

  module _ ⦃irq : Interrupt D⦄ where
    -- `interrupt->SetLevel(level)`, and the level before.
    abbrev pub set_level : IntStatus → Cmd D IntStatus
    set_level level k =
        ok (irq.get_level k.device) (record k { device = irq.set_level level k.device })

    unfoldable pub v : ℕ → Command D
    v s = do
      old_level ← set_level int_off
      c ← load_semaphore s
      store_semaphore s (record c { queue = (remove c.queue).1 })
      ready_unless_null (remove c.queue).0
      d ← load_semaphore s
      store_semaphore s (record d { value = increment d.value })
      set_level old_level
      pure tt
