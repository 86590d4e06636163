-- ===== src/Synchlist.antt =====
-- synchlist.h and synchlist.cc: a list behind a lock. Each method acquires the lock and goes on in
-- a frame of its own, since `Acquire` may give the processor away.
pub mod Rest
mod Tests
use Prim.Native.String.{String}
use ooplatingsistm.Base.{ℕ, not, List, [], ◌∷◌, ◌++◌, ◌==◌, if◌then◌else◌, get_elem?, set}
use ooplatingsistm.LinkedList.Heap.{Ptr, null}
use ooplatingsistm.Queue.{Queue, append, remove}
use ooplatingsistm.Queue.Refine.{is_empty}
use ooplatingsistm.Program.{put_locked, take_locked, map_locked}
use ooplatingsistm.Kernel.{
  SynchList, Interrupt, Cmd, Command, pure, ◌>>=◌, ◌>>◌, deref, modify, assert,
}
use ooplatingsistm.Scheduler.{push}
use ooplatingsistm.Synch.{acquire, release, wait, signal}

-- `list->Mapcar(func)`, where `func` prints.
abbrev pub printed : String → Queue → List (String × List ℕ)
printed format [] = []
printed format (item ∷ q) = (format, item ∷ []) ∷ printed format q

module _ {D : Type 0} where
  abbrev pub load_list : ℕ → Cmd D SynchList
  load_list i k = deref (get_elem? k.synch_lists i) k

  abbrev pub store_list : ℕ → SynchList → Command D
  store_list i c = modify λ k. record k { synch_lists = set k.synch_lists i c }

  module _ ⦃irq : Interrupt D⦄ where
    -- `SynchList::Append` up to and behind `lock->Acquire()`.
    unfoldable pub put : ℕ → Ptr → Command D
    put i item = do c ← load_list i; push (put_locked i item); acquire c.lock

    unfoldable pub put_rest : ℕ → Ptr → Command D
    put_rest i item = do
      c ← load_list i
      store_list i (record c { list = append c.list item })
      signal c.lock
      release c.lock

    -- `SynchList::Remove` up to and behind `lock->Acquire()`. `Wait` does not return, so the loop
    -- round it is entered once at most.
    unfoldable pub take : ℕ → Command D
    take i = do c ← load_list i; push (take_locked i); acquire c.lock

    unfoldable pub take_rest : ℕ → Command D
    take_rest i = do
      c ← load_list i
      if is_empty c.list then wait c.lock else pure tt
      store_list i (record c { list = (remove c.list).1 })
      assert (not ((remove c.list).0 == null))
      release c.lock
      modify λ k. record k { taken = k.taken ++ (k.current, (remove c.list).0) ∷ [] }

    -- `SynchList::Mapcar` up to and behind `lock->Acquire()`. The function prints its argument.
    unfoldable pub mapcar : ℕ → String → Command D
    mapcar i format = do c ← load_list i; push (map_locked i format); acquire c.lock

    unfoldable pub mapcar_rest : ℕ → String → Command D
    mapcar_rest i format = do
      c ← load_list i
      modify λ k. record k { output = k.output ++ printed format c.list }
      release c.lock
