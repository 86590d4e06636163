-- ===== src/Kernel/Alive.antt =====
-- What keeps the kernel from dereferencing something that is not there: the threads that wait or are
-- ready exist, and what they have to do names semaphores, locks and lists that exist.
use ooplatingsistm.Base.{
  ℕ, ◌+◌, ◌<◌, ◌≡◌, ◌≢◌, Bool, true, false, ◌&&◌, Option, none, some, List, [], ◌∷◌, length, ltb,
  count, get_elem?,
}
use ooplatingsistm.LinkedList.Heap.{Ptr, null}
use ooplatingsistm.Program.{
  Stmt, call_p, call_v, call_acquire, call_release, call_put, call_mapcar, call_take, Frame,
  thread_root, body, thread_finish, p_loop, acquire_loop, put_locked, map_locked, take_locked,
}
use ooplatingsistm.Thread.{Thread}
use ooplatingsistm.Kernel.{Kernel, SynchList}
use ooplatingsistm.Kernel.Places.{waiting}
use ooplatingsistm.Kernel.Stacks.{stack_of}

-- How many semaphores, locks and synchronized lists there are.
pub record Sizes : Type 0 where
  pub semaphores : ℕ
  pub locks : ℕ
  pub lists : ℕ

abbrev pub stmt_fits : Sizes → Stmt → Bool
stmt_fits z (call_p s) = ltb s z.semaphores
stmt_fits z (call_v s) = ltb s z.semaphores
stmt_fits z (call_acquire l) = ltb l z.locks
stmt_fits z (call_release l) = ltb l z.locks
stmt_fits z (call_put i item) = ltb i z.lists
stmt_fits z (call_take i) = ltb i z.lists
stmt_fits z (call_mapcar i format) = ltb i z.lists
stmt_fits z _ = true

abbrev pub body_fits : Sizes → List Stmt → Bool
body_fits z [] = true
body_fits z (s ∷ ss) = stmt_fits z s && body_fits z ss

-- The stack ends in `ThreadFinish`, behind which nothing is run.
abbrev pub fits : Sizes → List Frame → Bool
fits z [] = false
fits z (body ss ∷ fs) = body_fits z ss && fits z fs
fits z (thread_root ∷ fs) = true
fits z (thread_finish ∷ fs) = true
fits z (p_loop s ∷ fs) = ltb s z.semaphores && fits z fs
fits z (acquire_loop l ∷ fs) = ltb l z.locks && fits z fs
fits z (put_locked i item ∷ fs) = ltb i z.lists && fits z fs
fits z (take_locked i ∷ fs) = ltb i z.lists && fits z fs
fits z (map_locked i format ∷ fs) = ltb i z.lists && fits z fs
fits z (_ ∷ fs) = fits z fs

abbrev pub is_live : Option Thread → Bool
is_live none = false
is_live (some c) = true

module _ {D : Type 0} where
  -- How often a thread waits or is ready.
  abbrev pub queued : Ptr → Kernel D → ℕ
  queued t k = count t k.ready_list + waiting t k

  -- The thread can be dispatched.
  pub record CanRun (z : Sizes) (k : Kernel D) (t : Ptr) : Type 0 where
    pub exists : t ≢ null
    pub live : is_live (k.thread t) ≡ true
    pub stack_fits : fits z (stack_of k t) ≡ true

  -- Every thread that is waited for can run; the current one need only exist.
  pub record Dozing (z : Sizes) (k : Kernel D) : Type 0 where
    pub queued_run : (t : Ptr) → queued t k ≢ 0 → CanRun z k t
    pub current_live : is_live (k.thread k.current) ≡ true
    pub finished_live : k.to_be_destroyed ≢ null → is_live (k.thread k.to_be_destroyed) ≡ true
    pub semaphores : length k.semaphores ≡ z.semaphores
    pub locks : length k.locks ≡ z.locks
    pub lists : length k.synch_lists ≡ z.lists
    pub list_locks : (i : ℕ) (c : SynchList) → get_elem? k.synch_lists i ≡ some c → c.lock < z.locks

  -- Between two steps the current thread can run as well.
  pub record Alive (z : Sizes) (k : Kernel D) : Type 0 where
    pub dozing : Dozing z k
    pub current_runs : CanRun z k k.current
