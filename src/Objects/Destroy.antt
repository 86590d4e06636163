-- ===== src/Objects/Destroy.antt =====
-- What the destructors delete, and the one that corrupts the memory.
use ooplatingsistm.Base.{
  ℕ, ◌<◌, ◌≡◌, ◌≢◌, refl, true, false, none, some, if◌then◌else◌, length, All, Bool-cases, inl, inr,
  ==-false_of_ne,
}
use ooplatingsistm.LinkedList.Heap.{Ptr, null, Heap, Run, out_of_fuel, fault, done, Returns}
use ooplatingsistm.LinkedList.Cells.{Cells, Cell, IsList}
use ooplatingsistm.LinkedList.Walk.{Without, destroy-Without}
use ooplatingsistm.LinkedList.{LinkedList, destroy}
use ooplatingsistm.Objects.{
  Objects, corrupted, left, put_at, delete_string, delete_list, delete_semaphore, delete_lock,
  delete_synch_list, delete_scheduler, SynchListObject, LockObject, SemaphoreObject,
}

-- The list at `q` consists of the elements of `cs`, whose items are not NULL.
pub record Holds (o : Objects) (q : Ptr) (cs : Cells) : Type 0 where
  pub there : q ≢ null
  pub list : LinkedList
  pub at : o.lists q ≡ some list
  pub linked : IsList o.elements list cs
  pub items : All (λ (c : Cell). c.item ≢ null) cs

destroyed :
    (r : Run LinkedList) (Q : LinkedList → Heap → Type 0)
    → Returns Q r
    → (l : LinkedList) × (g : Heap) × (r ≡ done l g) × Q l g
destroyed (done l g) Q q = (l, g, refl, q)
destroyed fault Q q = absurd q
destroyed out_of_fuel Q q = absurd q

-- `delete` of such a list, with fuel for its elements and one more, deletes these elements and the
-- list.
delete_list-Without :
    (fuel : ℕ) (o : Objects) (q : Ptr) (cs : Cells)
    → Holds o q cs
    → length cs < fuel
    → (g : Heap) × (delete_list fuel q o
        ≡ left (record o { elements = g; lists = put_at o.lists q none }))
      × Without cs o.elements g
unfolding delete_list
delete_list-Without fuel o q cs h enough =
    let (l, g, e, (_, w)) =
      destroyed (destroy fuel h.list o.elements) _
        (destroy-Without fuel cs h.items h.linked enough) in
    (g, rw (==-false_of_ne h.there, h.at, e), w)

-- `delete` of a semaphore deletes the object, its queue and the elements of the queue, and touches
-- no other memory; the threads in the queue, which wait, are not told.
pub delete_semaphore-deleted :
    (fuel : ℕ) (o : Objects) (p : Ptr) (s : SemaphoreObject) (cs : Cells)
    → p ≢ null
    → o.semaphores p ≡ some s
    → Holds o s.queue cs
    → length cs < fuel
    → (g : Heap) × (delete_semaphore fuel p o
        ≡ left (record o {
          elements = g;
          lists = put_at o.lists s.queue none;
          semaphores = put_at o.semaphores p none;
        }))
      × Without cs o.elements g
unfolding delete_semaphore
delete_semaphore-deleted fuel o p s cs ne at h enough =
    let (g, e, w) = delete_list-Without fuel o s.queue cs h enough in
    (g, rw (==-false_of_ne ne, at, e), w)

-- `delete` of a scheduler deletes the object, the ready list and its elements, and no thread.
pub delete_scheduler-deleted :
    (fuel : ℕ) (o : Objects) (p q : Ptr) (cs : Cells)
    → p ≢ null
    → o.schedulers p ≡ some q
    → Holds o q cs
    → length cs < fuel
    → (g : Heap) × (delete_scheduler fuel p o
        ≡ left (record o {
          elements = g;
          lists = put_at o.lists q none;
          schedulers = put_at o.schedulers p none;
        }))
      × Without cs o.elements g
unfolding delete_scheduler
delete_scheduler-deleted fuel o p q cs ne at h enough =
    let (g, e, w) = delete_list-Without fuel o q cs h enough in
    (g, rw (==-false_of_ne ne, at, e), w)

literal-corrupts :
    (o : Objects) (n : Ptr) → n ≢ null → o.strings n ≡ false → delete_string n o ≡ corrupted
unfolding delete_string
literal-corrupts o n ne literal = rw (==-false_of_ne ne, literal)

own_string :
    (o : Objects) (n : Ptr)
    → n ≢ null
    → o.strings n ≡ true
    → delete_string n o ≡ left (record o { strings = put_at o.strings n false })
unfolding delete_string
own_string o n ne own = rw (==-false_of_ne ne, own)

-- `delete` of a lock that has a name, and a well linked queue without NULL items, with fuel for the
-- elements and one more, deletes the object, its name, its queue and the elements of the queue,
-- and touches no other memory, if `new` has returned the name. A string literal for the name
-- corrupts the memory.
pub delete_lock-name :
    (fuel : ℕ) (o : Objects) (p : Ptr) (l : LockObject) (cs : Cells)
    → p ≢ null
    → o.locks p ≡ some l
    → l.name ≢ null
    → Holds o l.queue cs
    → length cs < fuel
    → (g : Heap) × (delete_lock fuel p o ≡ (
        if o.strings l.name
        then left (record o {
          elements = g;
          lists = put_at o.lists l.queue none;
          locks = put_at o.locks p none;
          strings = put_at o.strings l.name false;
        })
        else corrupted))
      × Without cs o.elements g
unfolding delete_lock
delete_lock-name fuel o p l cs ne at named h enough =
    let delete_name = record o { strings = put_at o.strings l.name false } in
    let h' : Holds delete_name l.queue cs = record {
      there = h.there;
      list = h.list;
      at = h.at;
      linked = h.linked;
      items = h.items;
    } in
    let (g, e, w) = delete_list-Without fuel delete_name l.queue cs h' enough in
    (
      g,
      elim (Bool-cases (o.strings l.name)) [
        | inl own ↦ rw (==-false_of_ne ne, at, own_string o l.name named own, e, own)
        | inr literal ↦ rw (==-false_of_ne ne, at, literal-corrupts o l.name named literal, literal)
      ],
      w,
    )

-- `delete` of a SynchList whose lock has a string literal for its name, as the constructor gives it
-- one, corrupts the memory, once the elements of the list are deleted.
pub delete_synch_list-corrupts :
    (fuel : ℕ) (o : Objects) (p : Ptr) (s : SynchListObject) (l : LockObject) (cs : Cells)
    → p ≢ null
    → o.synch_lists p ≡ some s
    → Holds o s.list cs
    → length cs < fuel
    → s.lock ≢ null
    → o.locks s.lock ≡ some l
    → l.name ≢ null
    → o.strings l.name ≡ false
    → delete_synch_list fuel p o ≡ corrupted
unfolding delete_synch_list delete_lock
delete_synch_list-corrupts fuel o p s l cs ne at h enough locked at' named literal =
    let (g, e, w) = delete_list-Without fuel o s.list cs h enough in
    let o' = record o { elements = g; lists = put_at o.lists s.list none } in
    rw (
      ==-false_of_ne ne,
      at,
      e,
      ==-false_of_ne locked,
      at',
      literal-corrupts o' l.name named literal,
    )
