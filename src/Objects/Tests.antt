-- ===== src/Objects/Tests.antt =====
-- Objects made by their constructors, and deleted.
use ooplatingsistm.Base.{◌≡◌, ◌≢◌, refl, false, none, some, [], ◌∷◌, ◌==◌, pos, arith}
use ooplatingsistm.LinkedList.Heap.{Ptr, null, Heap, write}
use ooplatingsistm.LinkedList.Cells.{Cells, cell}
use ooplatingsistm.LinkedList.Walk.{Without}
use ooplatingsistm.LinkedList.{empty_list}
use ooplatingsistm.Objects.{
  Objects, corrupted, put_at, new_semaphore, new_lock, new_synch_list, delete_lock,
}
use ooplatingsistm.Objects.Destroy.{Holds, delete_lock-name}

-- The name at 90 comes from `new`; one at 91 is a literal.
abbrev bare : Objects
bare = record {
  elements = λ p. none;
  lists = λ p. none;
  semaphores = λ p. none;
  locks = λ p. none;
  conditions = λ p. false;
  synch_lists = λ p. none;
  schedulers = λ p. none;
  strings = λ p. p == 90;
}

-- A semaphore at 1, its queue at 2 with the thread 50.
abbrev queued : Objects
queued = record (new_semaphore 1 2 91 0 bare) {
  elements = write (λ p. none) 3 (some (record { next = null; key = pos 0; item = 50 }));
  lists = put_at (λ p. none) 2 (some (record { first = 3; last = 3 }));
}

abbrev waiters : Cells
waiters = cell 3 (pos 0) 50 ∷ []

queued-Holds : Holds queued 2 waiters
unfolding write
queued-Holds = record {
  there = omega arith;
  list = record { first = 3; last = 3 };
  at = refl;
  linked = record { first = refl; last = refl; linked = (omega arith, refl, refl, tt) };
  items = (omega arith, tt);
}

-- A lock at 1 with its queue at 2, whose name is the literal.
abbrev locked : Objects
locked = new_lock 1 2 91 bare

empty-Holds : (o : Objects) (q : Ptr) → q ≢ null → o.lists q ≡ some empty_list → Holds o q []
unfolding empty_list
empty-Holds o q ne at = record {
  there = ne;
  list = empty_list;
  at = at;
  linked = record { first = refl; last = refl; linked = tt };
  items = tt;
}

delete_lock-name_example :
    (g : Heap) × (delete_lock 1 1 locked ≡ corrupted) × Without [] locked.elements g
unfolding new_lock
delete_lock-name_example =
    delete_lock-name 1 locked 1 (record { name = 91; queue = 2; held = 0 }) [] (omega arith) refl
      (omega arith) (empty-Holds locked 2 (omega arith) refl) (omega arith)

-- A SynchList at 1, as its constructor makes it.
abbrev synchronized : Objects
synchronized = new_synch_list 1 2 3 4 91 5 bare
