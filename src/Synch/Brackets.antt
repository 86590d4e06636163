-- ===== src/Synch/Brackets.antt =====
-- Critical sections as they stand in the code that a thread has still to run: it holds a lock if it
-- comes to a release of the lock before it comes to an acquire. The methods of a synchronized list
-- are sections of the list's lock.
use ooplatingsistm.Base.{ℕ, Bool, true, false, not, ◌&&◌, List, [], ◌∷◌, ◌==◌, if◌then◌else◌}
use ooplatingsistm.Program.{
  Stmt, call_acquire, call_release, call_put, call_mapcar, call_take, Frame, thread_root, body,
  thread_finish, acquire_loop, put_locked, map_locked, take_locked,
}

-- `lock_of i` is the lock of the synchronized list `i`.
module _ (lock_of : ℕ → ℕ) (l : ℕ) where
  -- `after` tells whether the lock is held behind the statements.
  abbrev pub body_holds : List Stmt → (after : Bool) → Bool
  body_holds [] after = after
  body_holds (call_acquire m ∷ ss) after = if m == l then false else body_holds ss after
  body_holds (call_release m ∷ ss) after = if m == l then true else body_holds ss after
  body_holds (call_put i item ∷ ss) after = if lock_of i == l then false else body_holds ss after
  body_holds (call_take i ∷ ss) after = if lock_of i == l then false else body_holds ss after
  body_holds (call_mapcar i format ∷ ss) after =
      if lock_of i == l then false else body_holds ss after
  body_holds (_ ∷ ss) after = body_holds ss after

  abbrev pub holds : List Frame → Bool
  holds [] = false
  holds (body ss ∷ fs) = body_holds ss (holds fs)
  holds (acquire_loop m ∷ fs) = if m == l then false else holds fs
  holds (put_locked i item ∷ fs) = if lock_of i == l then true else holds fs
  holds (take_locked i ∷ fs) = if lock_of i == l then true else holds fs
  holds (map_locked i format ∷ fs) = if lock_of i == l then true else holds fs
  holds (_ ∷ fs) = holds fs

  -- The lock is acquired only where it is not held, is released where it is, and is held no more
  -- when a thread ends.
  abbrev pub body_bracketed : List Stmt → (after : Bool) → Bool
  body_bracketed [] after = true
  body_bracketed (call_acquire m ∷ ss) after =
      (if m == l then body_holds ss after else true) && body_bracketed ss after
  body_bracketed (call_release m ∷ ss) after =
      (if m == l then not (body_holds ss after) else true) && body_bracketed ss after
  body_bracketed (call_put i item ∷ ss) after =
      (if lock_of i == l then not (body_holds ss after) else true) && body_bracketed ss after
  body_bracketed (call_take i ∷ ss) after =
      (if lock_of i == l then not (body_holds ss after) else true) && body_bracketed ss after
  body_bracketed (call_mapcar i format ∷ ss) after =
      (if lock_of i == l then not (body_holds ss after) else true) && body_bracketed ss after
  body_bracketed (_ ∷ ss) after = body_bracketed ss after

  abbrev pub bracketed : List Frame → Bool
  bracketed [] = true
  bracketed (body ss ∷ fs) = body_bracketed ss (holds fs) && bracketed fs
  bracketed (thread_root ∷ fs) = not (holds fs) && bracketed fs
  bracketed (thread_finish ∷ fs) = not (holds fs) && bracketed fs
  bracketed (acquire_loop m ∷ fs) = (if m == l then holds fs else true) && bracketed fs
  bracketed (put_locked i item ∷ fs) =
      (if lock_of i == l then not (holds fs) else true) && bracketed fs
  bracketed (take_locked i ∷ fs) = (if lock_of i == l then not (holds fs) else true) && bracketed fs
  bracketed (map_locked i format ∷ fs) =
      (if lock_of i == l then not (holds fs) else true) && bracketed fs
  bracketed (_ ∷ fs) = bracketed fs

  -- What a procedure that a thread is forked with has to be like.
  abbrev pub well_bracketed : List Stmt → Bool
  well_bracketed ss = not (body_holds ss false) && body_bracketed ss false
