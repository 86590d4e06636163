-- ===== src/Objects.antt =====
-- The constructors and the destructors of synch.cc, synchlist.cc and scheduler.cc over the memory
-- where the objects stand; those of list.cc are commands of LinkedList.
pub mod Destroy
mod Tests
use ooplatingsistm.Base.{ℕ, Bool, true, false, Option, none, some, ◌==◌, if◌then◌else◌}
use ooplatingsistm.LinkedList.Heap.{Ptr, null, Heap, out_of_fuel, fault, done}
use ooplatingsistm.LinkedList.{LinkedList, empty_list, destroy}

pub record SemaphoreObject : Type 0 where
  pub name : Ptr
  pub value : ℕ
  pub queue : Ptr

pub record LockObject : Type 0 where
  pub name : Ptr
  pub queue : Ptr
  pub held : ℕ

pub record SynchListObject : Type 0 where
  pub list : Ptr
  pub lock : Ptr
  pub list_empty : Ptr

-- What stands in memory, by class and address. `strings` are the blocks of characters that `new` has
-- returned; a string literal is none of them. A `Scheduler` is the address of its ready list.
pub record Objects : Type 0 where
  pub elements : Heap
  pub lists : Ptr → Option LinkedList
  pub semaphores : Ptr → Option SemaphoreObject
  pub locks : Ptr → Option LockObject
  pub conditions : Ptr → Bool
  pub synch_lists : Ptr → Option SynchListObject
  pub schedulers : Ptr → Option Ptr
  pub strings : Ptr → Bool

abbrev pub put_at : {A : Type 0} → (Ptr → A) → Ptr → A → Ptr → A
put_at m p a q = if q == p then a else m q

-- How an action ends: it deletes what `new` has not returned or what is gone already, it runs out of
-- fuel, or it leaves a memory.
pub data Outcome : Type 0 where
  corrupted starved : Outcome
  left : Objects → Outcome

abbrev pub Action : Type 0
Action = Objects → Outcome

abbrev pub continue : Action → Outcome → Outcome
continue next corrupted = corrupted
continue next starved = starved
continue next (left o) = next o

infixl 5 ◌>>◌
abbrev pub ◌>>◌ : Action → Action → Action
◌>>◌ first next o = continue next (first o)

-- The constructors, each with the addresses that `new` returns in it.
abbrev pub new_list : Ptr → Objects → Objects
new_list p o = record o { lists = put_at o.lists p (some empty_list) }

unfoldable pub new_semaphore : (p queue debug_name : Ptr) (initial_value : ℕ) → Objects → Objects
new_semaphore p queue debug_name initial_value o = record (new_list queue o) {
  semaphores =
      put_at o.semaphores p
        (some (record { name = debug_name; value = initial_value; queue = queue }));
}

unfoldable pub new_lock : (p queue debug_name : Ptr) → Objects → Objects
new_lock p queue debug_name o = record (new_list queue o) {
  locks = put_at o.locks p (some (record { name = debug_name; queue = queue; held = 0 }));
}

abbrev pub new_condition : Ptr → Objects → Objects
new_condition p o = record o { conditions = put_at o.conditions p true }

unfoldable pub new_synch_list :
    (p list lock queue list_lock_name condition : Ptr) → Objects → Objects
unfolding new_lock
new_synch_list p list lock queue list_lock_name condition o =
    record (new_condition condition (new_lock lock queue list_lock_name (new_list list o))) {
      synch_lists =
          put_at o.synch_lists p
            (some (record { list = list; lock = lock; list_empty = condition }));
    }

unfoldable pub new_scheduler : (p ready_list : Ptr) → Objects → Objects
new_scheduler p ready_list o = record (new_list ready_list o) {
  schedulers = put_at o.schedulers p (some ready_list);
}

-- `delete` of NULL does nothing.
abbrev pub unless_null : Ptr → Action → Action
unless_null p action o = if p == null then left o else action o

unfoldable pub delete_string : Ptr → Action
delete_string p =
    unless_null p
      λ o. if o.strings p then left (record o { strings = put_at o.strings p false }) else corrupted

module _ (fuel : ℕ) where
  -- `~List`, and its memory.
  unfoldable pub delete_list : Ptr → Action
  delete_list p = unless_null p λ o. elim (o.lists p) [
    | none ↦ corrupted
    | some l ↦ elim (destroy fuel l o.elements) [
      | out_of_fuel ↦ starved
      | fault ↦ corrupted
      | done l' g ↦ left (record o { elements = g; lists = put_at o.lists p none })
    ]
  ]

  -- `~Semaphore`, which does not delete the name.
  unfoldable pub delete_semaphore : Ptr → Action
  unfolding delete_list
  delete_semaphore p = unless_null p λ o. elim (o.semaphores p) [
    | none ↦ corrupted
    | some s ↦
        (delete_list s.queue >> λ o. left (record o { semaphores = put_at o.semaphores p none })) o
  ]

  -- `~Lock`, which does; the members that it sets to NULL then go with the object.
  unfoldable pub delete_lock : Ptr → Action
  unfolding delete_list delete_string
  delete_lock p = unless_null p λ o. elim (o.locks p) [
    | none ↦ corrupted
    | some l ↦
        (delete_string l.name >> delete_list l.queue >> λ o.
        left (record o { locks = put_at o.locks p none }))
          o
  ]

  -- `~Condition`.
  unfoldable pub delete_condition : Ptr → Action
  delete_condition p = unless_null p λ o.
      if o.conditions p
      then left (record o { conditions = put_at o.conditions p false })
      else corrupted

  -- `~SynchList`.
  unfoldable pub delete_synch_list : Ptr → Action
  unfolding delete_list delete_lock delete_condition
  delete_synch_list p = unless_null p λ o. elim (o.synch_lists p) [
    | none ↦ corrupted
    | some s ↦
        (delete_list s.list >> delete_lock s.lock >> delete_condition s.list_empty >> λ o.
        left (record o { synch_lists = put_at o.synch_lists p none }))
          o
  ]

  -- `~Scheduler`.
  unfoldable pub delete_scheduler : Ptr → Action
  unfolding delete_list
  delete_scheduler p = unless_null p λ o. elim (o.schedulers p) [
    | none ↦ corrupted
    | some q ↦ (delete_list q >> λ o. left (record o { schedulers = put_at o.schedulers p none })) o
  ]
