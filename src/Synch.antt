-- ===== src/Synch.antt =====
-- synch.h and synch.cc without `Semaphore::V`: `Semaphore::P`, locks and condition variables. A
-- `while` loop that sleeps is a frame: it is entered again when the thread runs again.
pub mod Places
pub mod Wakeup
pub mod Blocking
pub mod Frames
pub mod Brackets
pub mod Exclusion
pub mod Sections
pub mod Alive
pub mod Served
pub mod LockServed
pub mod Units
pub mod Statuses
pub mod Tests
pub mod IdlingTests
use Prim.Native.String.{String}
use ooplatingsistm.Base.{
  ℕ, Bool, true, false, Option, none, some, List, [], ◌∷◌, ◌++◌, ◌==◌, if◌then◌else◌, get_elem?,
  set,
}
use ooplatingsistm.LinkedList.Heap.{Ptr}
use ooplatingsistm.Queue.{append, remove}
use ooplatingsistm.Program.{int_off, restore_level, p_loop, acquire_loop}
use ooplatingsistm.Kernel.{
  Kernel, Semaphore, Lock, Interrupt, Cmd, Command, ok, pure, ◌>>=◌, ◌>>◌, deref, modify, assert,
}
use ooplatingsistm.Scheduler.{push}
use ooplatingsistm.Wake.{decrement, load_semaphore, store_semaphore, ready_unless_null, set_level}
use ooplatingsistm.ThreadOps.{sleep}

-- `Semaphore::Semaphore` and `Lock::Lock`.
unfoldable pub new_semaphore : String → ℕ → Semaphore
new_semaphore debug_name initial_value = record {
  name = debug_name;
  value = initial_value;
  queue = [];
}

unfoldable pub new_lock : String → Lock
new_lock debug_name = record { name = debug_name; held = 0; queue = [] }

module _ {D : Type 0} where
  abbrev pub load_lock : ℕ → Cmd D Lock
  load_lock l k = deref (get_elem? k.locks l) k

  abbrev pub store_lock : ℕ → Lock → Command D
  store_lock l c = modify λ k. record k { locks = set k.locks l c }

  module _ ⦃irq : Interrupt D⦄ where
    abbrev pub sleep_current : Command D
    sleep_current k = sleep k.current k

    -- The `while` loop of `Semaphore::P`, and `value--`.
    unfoldable pub p_wait : ℕ → Command D
    p_wait s k =
        (do
          c ← load_semaphore s
          if c.value == 0
              then (do
                store_semaphore s (record c { queue = append c.queue k.current })
                push (p_loop s)
                sleep_current)
              else store_semaphore s (record c { value = decrement c.value }))
          k

    -- `Semaphore::P`.
    unfoldable pub p : ℕ → Command D
    p s = do old_level ← set_level int_off; push (restore_level old_level); p_wait s

    -- The `while` loop of `Lock::Acquire`, and `held = 1`.
    unfoldable pub acquire_wait : ℕ → Command D
    acquire_wait l k =
        (do
          c ← load_lock l
          if c.held == 0 then store_lock l (record c { held = 1 }) else (do
            store_lock l (record c { queue = append c.queue k.current })
            push (acquire_loop l)
            sleep_current))
          k

    -- `Lock::Acquire`.
    unfoldable pub acquire : ℕ → Command D
    acquire l = do old_level ← set_level int_off; push (restore_level old_level); acquire_wait l

    -- `Lock::Release`.
    unfoldable pub release : ℕ → Command D
    release l = do
      old_level ← set_level int_off
      c ← load_lock l
      store_lock l (record c { queue = (remove c.queue).1 })
      ready_unless_null (remove c.queue).0
      d ← load_lock l
      store_lock l (record d { held = 0 })
      set_level old_level
      pure tt

  -- `Condition::Wait`, `Condition::Signal`, `Condition::Broadcast`.
  abbrev pub wait : (condition_lock : ℕ) → Command D
  wait condition_lock = assert false

  abbrev pub signal : (condition_lock : ℕ) → Command D
  signal condition_lock = pure tt

  abbrev pub broadcast : (condition_lock : ℕ) → Command D
  broadcast condition_lock = pure tt
