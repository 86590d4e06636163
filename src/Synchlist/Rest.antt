-- ===== src/Synchlist/Rest.antt =====
-- What `SynchList::Append` and `SynchList::Remove` do once they hold the lock of the list.
use Prim.Native.String.{String}
use mathlib.Core.List.{map}
use ooplatingsistm.Base.{
  refl, ap, ℕ, ◌≡◌, ◌≢◌, none, some, [], ◌∷◌, ◌++◌, arith, get_elem?, set, set-set,
  get_elem?-set_self,
}
use ooplatingsistm.LinkedList.Heap.{Ptr, null}
use ooplatingsistm.Queue.{Queue, remove}
use ooplatingsistm.Kernel.{Kernel, Lock, SynchList, Interrupt}
use ooplatingsistm.Kernel.Outcomes.{Succeeds}
use ooplatingsistm.Program.{int_off}
use ooplatingsistm.Scheduler.{ready_to_run}
use ooplatingsistm.Wake.{ready_unless_null}
use ooplatingsistm.Synch.{release}
use ooplatingsistm.Synch.Wakeup.{Woken}
use ooplatingsistm.Synchlist.{put_rest, take_rest, mapcar_rest, printed}

printed-map : (format : String) (q : Queue) → printed format q ≡ map (λ item. (format, item ∷ [])) q
printed-map format [] = refl
printed-map format (item ∷ q) = ap (λ rest. (format, item ∷ []) ∷ rest) (printed-map format q)

module _ {D : Type 0} ⦃irq : Interrupt D⦄ where
  -- The lock `l`, which was `d`, is free, and its first waiter has been woken.
  pub record Released (k : Kernel D) (l : ℕ) (d : Lock) (j : Kernel D) : Type 0 where
    pub locks : j.locks ≡ set k.locks l (record d { held = 0; queue = (remove d.queue).1 })
    pub semaphores : j.semaphores ≡ k.semaphores
    pub woken : Woken k (remove d.queue).0 j

  -- `Append`, once it holds the lock, puts the item at the end, frees the lock, wakes the first
  -- thread that waits for it, and goes on with the caller.
  pub put_rest-Released :
      (i : ℕ) (item : Ptr) (k : Kernel D) (c : SynchList) (d : Lock)
      → get_elem? k.synch_lists i ≡ some c
      → get_elem? k.locks c.lock ≡ some d
      → ((remove d.queue).0 ≢ null → k.thread (remove d.queue).0 ≢ none)
      → Succeeds
          (λ _ j.
            (j.synch_lists ≡ set k.synch_lists i (record c { list = c.list ++ item ∷ [] }))
            × (j.taken ≡ k.taken)
            × Released k c.lock d j)
          (put_rest i item k)
  unfolding put_rest release ready_unless_null ready_to_run
  put_rest-Released i item k c d there locked alive =
      let d' : Lock = record d { queue = (remove d.queue).1 } in
      let d'' : Lock = record d' { held = 0 } in
      ground (
        arith,
        get_elem?-set_self k.locks c.lock d' locked,
        set-set k.locks c.lock d' d'',
        irq.get_level-set_level (irq.get_level k.device) (irq.set_level int_off k.device),
      )

  -- `Remove`, once it holds the lock, takes the first item and returns it, frees the lock, wakes
  -- the first thread that waits for it, and goes on with the caller, if the list is not empty and
  -- its first item is not NULL.
  pub take_rest-Released :
      (i : ℕ) (k : Kernel D) (x : Ptr) (q : Queue) (c : SynchList) (d : Lock)
      → get_elem? k.synch_lists i ≡ some c
      → c.list ≡ x ∷ q
      → x ≢ null
      → get_elem? k.locks c.lock ≡ some d
      → ((remove d.queue).0 ≢ null → k.thread (remove d.queue).0 ≢ none)
      → Succeeds
          (λ _ j.
            (j.synch_lists ≡ set k.synch_lists i (record c { list = q }))
            × (j.taken ≡ k.taken ++ (k.current, x) ∷ [])
            × Released k c.lock d j)
          (take_rest i k)
  unfolding take_rest release ready_unless_null ready_to_run
  take_rest-Released i k x q c d there full ne locked alive =
      let d' : Lock = record d { queue = (remove d.queue).1 } in
      let d'' : Lock = record d' { held = 0 } in
      ground (
        arith,
        get_elem?-set_self k.locks c.lock d' locked,
        set-set k.locks c.lock d' d'',
        irq.get_level-set_level (irq.get_level k.device) (irq.set_level int_off k.device),
      )

  -- `Mapcar`, once it holds the lock, calls the function on each item, from the first to the last,
  -- leaves the list as it was, frees the lock, wakes the first thread that waits for it, and goes on
  -- with the caller; the function prints its argument.
  pub mapcar_rest-Released :
      (i : ℕ) (format : String) (k : Kernel D) (c : SynchList) (d : Lock)
      → get_elem? k.synch_lists i ≡ some c
      → get_elem? k.locks c.lock ≡ some d
      → ((remove d.queue).0 ≢ null → k.thread (remove d.queue).0 ≢ none)
      → Succeeds
          (λ _ j.
            (j.output ≡ k.output ++ map (λ item. (format, item ∷ [])) c.list)
            × (j.synch_lists ≡ k.synch_lists)
            × (j.taken ≡ k.taken)
            × Released k c.lock d j)
          (mapcar_rest i format k)
  unfolding mapcar_rest release ready_unless_null ready_to_run
  mapcar_rest-Released i format k c d there locked alive =
      let d' : Lock = record d { queue = (remove d.queue).1 } in
      let d'' : Lock = record d' { held = 0 } in
      ground (
        arith,
        printed-map format c.list,
        get_elem?-set_self k.locks c.lock d' locked,
        set-set k.locks c.lock d' d'',
        irq.get_level-set_level (irq.get_level k.device) (irq.set_level int_off k.device),
      )
