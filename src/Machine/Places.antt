-- ===== src/Machine/Places.antt =====
-- What one step of the machine does to the places of a thread, frame by frame.
use Prim.Native.String.{String}
use ooplatingsistm.Base.{
  ℕ, ◌+◌, ◌≡◌, ◌≢◌, refl, inl, inr, [], ◌∷◌, ◌++◌, arith, ◌==◌, same, get_elem?, set, not,
  if◌then◌else◌, Option-cases, Bool-cases,
}
use ooplatingsistm.LinkedList.Heap.{Ptr, null}
use ooplatingsistm.Program.{
  Stmt, printf, call_yield, call_fork, call_p, call_v, call_acquire, call_release, call_wait,
  call_signal, call_broadcast, call_put, call_mapcar, call_take, Frame, thread_root, body,
  thread_finish, after_switch, restore_level, p_loop, acquire_loop, put_locked, map_locked,
  take_locked,
}
use ooplatingsistm.Kernel.{Kernel, SynchList, Interrupt, Outcome, pure, assert, modify, ◌>>◌}
use ooplatingsistm.Kernel.Outcomes.{Ensures, Ensures-bind, Ensures-mono}
use ooplatingsistm.Kernel.Places.{places}
use ooplatingsistm.Scheduler.{load_thread, finish_run}
use ooplatingsistm.Scheduler.Places.{finish_run-places}
use ooplatingsistm.Wake.Places.{v-places}
use ooplatingsistm.ThreadOps.{create, yield_cpu, finish}
use ooplatingsistm.Wake.{v}
use ooplatingsistm.Queue.{Queue, append, remove}
use ooplatingsistm.Queue.Refine.{is_empty}
use ooplatingsistm.ThreadOps.Places.{yield_cpu-places, finish-places, fork-places}
use ooplatingsistm.Synch.{p, p_wait, acquire, acquire_wait, release, wait}
use ooplatingsistm.Synch.Places.{
  p-places, p_wait-places, acquire-places, acquire_wait-places, release-places,
}
use ooplatingsistm.Synchlist.{
  put, put_rest, mapcar, mapcar_rest, printed, take, take_rest, store_list,
}
use ooplatingsistm.Machine.{Image, exec_stmt, enter_root, exec_frame}

-- The thread that a statement or a frame makes: the one at the next free address.
abbrev pub made_by_stmt : Ptr → Stmt → Ptr → ℕ
made_by_stmt t (call_fork name func arg) next = same next t
made_by_stmt t _ next = 0

module _ {D : Type 0} where
  abbrev pub made : Ptr → Frame → Kernel D → ℕ
  made t (body (s ∷ ss)) k = made_by_stmt t s k.next_addr
  made t _ k = 0

  -- The finished thread that a frame deletes, or that `Finish` forgets: it puts the current thread
  -- in its place.
  abbrev pub gone : Ptr → Frame → Kernel D → ℕ
  gone t thread_finish k = same k.to_be_destroyed t
  gone t after_switch k = same k.to_be_destroyed t
  gone t _ k = 0

-- The synchronized lists: their own items are not threads.
module _ {D : Type 0} ⦃irq : Interrupt D⦄ (t : Ptr) (ne : t ≢ null) (k : Kernel D) (i : ℕ) where
  lists : SynchList → Queue → Kernel D
  lists c q = record k { synch_lists = set k.synch_lists i (record c { list = q }) }

  put-places : (item : Ptr) → Ensures (λ _ j. places t j ≡ places t k) (put i item k)
  unfolding put
  put-places item = elim (Option-cases (get_elem? k.synch_lists i)) [
    | inl missing ↦ rw missing tt
    | inr (c, there) ↦
        rw there (acquire-places t ne (record k { cpu = put_locked i item ∷ k.cpu }) c.lock)
  ]

  take-places : Ensures (λ _ j. places t j ≡ places t k) (take i k)
  unfolding take
  take-places = elim (Option-cases (get_elem? k.synch_lists i)) [
    | inl missing ↦ rw missing tt
    | inr (c, there) ↦
        rw there (acquire-places t ne (record k { cpu = take_locked i ∷ k.cpu }) c.lock)
  ]

  mapcar-places : (format : String) → Ensures (λ _ j. places t j ≡ places t k) (mapcar i format k)
  unfolding mapcar
  mapcar-places format = elim (Option-cases (get_elem? k.synch_lists i)) [
    | inl missing ↦ rw missing tt
    | inr (c, there) ↦
        rw there (acquire-places t ne (record k { cpu = map_locked i format ∷ k.cpu }) c.lock)
  ]

  mapcar_rest-places :
      (format : String) → Ensures (λ _ j. places t j ≡ places t k) (mapcar_rest i format k)
  unfolding mapcar_rest
  mapcar_rest-places format = elim (Option-cases (get_elem? k.synch_lists i)) [
    | inl missing ↦ rw missing tt
    | inr (c, there) ↦
        rw there
          (release-places t ne (record k { output = k.output ++ printed format c.list }) c.lock)
  ]

  put_rest-places : (item : Ptr) → Ensures (λ _ j. places t j ≡ places t k) (put_rest i item k)
  unfolding put_rest lists
  put_rest-places item = elim (Option-cases (get_elem? k.synch_lists i)) [
    | inl missing ↦ rw missing tt
    | inr (c, there) ↦ rw there (release-places t ne (lists c (append c.list item)) c.lock)
  ]

  take_rest-places : Ensures (λ _ j. places t j ≡ places t k) (take_rest i k)
  unfolding take_rest lists
  take_rest-places = elim (Option-cases (get_elem? k.synch_lists i)) [
    | inl missing ↦ rw missing tt
    | inr (c, there) ↦ rw there (taken c c.list)
  ]
    where
      unlocked :
          (c : SynchList) (x : Ptr) (q : Queue)
          → Ensures
              (λ _ j. places t j ≡ places t k)
              ((release c.lock >> modify λ j. record j { taken = j.taken ++ (j.current, x) ∷ [] })
                (lists c q))
      unlocked c x q =
          Ensures-bind (λ _ j. places t j ≡ places t k) _ (release c.lock (lists c q)) _
            (release-places t ne (lists c q) c.lock) λ _ j e. e

      taken :
          (c : SynchList) (q : Queue)
          → Ensures
              (λ _ j. places t j ≡ places t k)
              (((if is_empty q then wait c.lock else pure tt)
                  >> (store_list i (record c { list = (remove q).1 })
                      >> (assert (not ((remove q).0 == null))
                          >> (release c.lock
                              >> modify λ j. record j {
                                taken = j.taken ++ (j.current, (remove q).0) ∷ [];
                              }))))
                k)
      taken c [] = tt
      taken c (x ∷ q) = elim (Bool-cases (x == null)) [
        | inl null_item ↦ rw null_item tt
        | inr item ↦ rw item (unlocked c x q)
      ]

module _ {D : Type 0} ⦃irq : Interrupt D⦄ (image : Image) (t : Ptr) (ne : t ≢ null)
    (k : Kernel D) where
  abbrev Stays : Outcome D (Unit {0}) → Type 0
  Stays = Ensures λ _ j. places t j ≡ places t k

  none_made : (m : Outcome D (Unit {0})) → Stays m → Ensures (λ _ j. places t j ≡ places t k + 0) m
  none_made m h = Ensures-mono _ _ m h λ _ j e. omega arith

  exec_stmt-places :
      (s : Stmt)
      → Ensures
          (λ _ j. places t j ≡ places t k + made_by_stmt t s k.next_addr)
          (exec_stmt image s k)
  unfolding exec_stmt create
  exec_stmt-places (printf f a) = omega arith
  exec_stmt-places call_yield =
      none_made (yield_cpu k.current k) (yield_cpu-places t ne k.current k)
  exec_stmt-places (call_fork name func arg) =
      fork-places t ne image.garbage image.entries k.next_addr func arg _
  exec_stmt-places (call_p s) = none_made (p s k) (p-places t ne k s)
  exec_stmt-places (call_v s) = none_made (v s k) (v-places t k ne s)
  exec_stmt-places (call_acquire l) = none_made (acquire l k) (acquire-places t ne k l)
  exec_stmt-places (call_release l) = none_made (release l k) (release-places t ne k l)
  exec_stmt-places (call_wait l) = tt
  exec_stmt-places (call_signal l) = omega arith
  exec_stmt-places (call_broadcast l) = omega arith
  exec_stmt-places (call_put i item) = none_made (put i item k) (put-places t ne k i item)
  exec_stmt-places (call_mapcar i format) =
      none_made (mapcar i format k) (mapcar-places t ne k i format)
  exec_stmt-places (call_take i) = none_made (take i k) (take-places t ne k i)

  none_gone :
      (m : Outcome D (Unit {0})) → Stays m → Ensures (λ _ j. places t j + 0 ≡ places t k + 0) m
  none_gone m h = Ensures-mono _ _ m h λ _ j e. omega arith

module _ {D : Type 0} ⦃irq : Interrupt D⦄ (image : Image) (t : Ptr) (ne : t ≢ null)
    (k : Kernel D) where
  enter_root-places : Stays image t ne k (enter_root image k)
  unfolding enter_root load_thread
  enter_root-places = ground arith

  -- Each frame leaves every thread in as many places as before, but for the one that it makes and
  -- the one that it deletes or forgets.
  pub exec_frame-places :
      (f : Frame)
      → Ensures (λ _ j. places t j + gone t f k ≡ places t k + made t f k) (exec_frame image f k)
  unfolding exec_frame
  exec_frame-places thread_root = none_gone image t ne k (enter_root image k) enter_root-places
  exec_frame-places (body []) = refl
  exec_frame-places (body (s ∷ ss)) =
      Ensures-mono _ _ (exec_stmt image s (record k { cpu = body ss ∷ k.cpu }))
        (exec_stmt-places image t ne (record k { cpu = body ss ∷ k.cpu }) s) λ _ j e. omega arith
  exec_frame-places thread_finish =
      Ensures-mono _ _ (finish k.current k) (finish-places t ne k.current k) λ _ j e. omega arith
  exec_frame-places after_switch =
      Ensures-mono _ _ (finish_run k) (finish_run-places t k ne) λ _ j e. omega arith
  exec_frame-places (restore_level l) = refl
  exec_frame-places (p_loop s) = none_gone image t ne k (p_wait s k) (p_wait-places t ne k s)
  exec_frame-places (acquire_loop l) =
      none_gone image t ne k (acquire_wait l k) (acquire_wait-places t ne k l)
  exec_frame-places (put_locked i item) =
      none_gone image t ne k (put_rest i item k) (put_rest-places t ne k i item)
  exec_frame-places (map_locked i format) =
      none_gone image t ne k (mapcar_rest i format k) (mapcar_rest-places t ne k i format)
  exec_frame-places (take_locked i) =
      none_gone image t ne k (take_rest i k) (take_rest-places t ne k i)
