-- ===== src/Globals.antt =====
-- The objects that `Initialize` creates for the global variables of system.cc, and `Cleanup`, which
-- deletes them, for every build.
pub mod Once
pub mod Leaves
mod Tests
use ooplatingsistm.Base.{
  ℕ, zero, suc, ◌+◌, Bool, true, false, Option, none, some, List, [], ◌∷◌, ◌++◌, ◌==◌,
  if◌then◌else◌,
}
use ooplatingsistm.LinkedList.Heap.{Ptr, null}
use ooplatingsistm.Cmdline.{Build}

pub data Global : Type 0 where
  stats interrupt scheduler timer current_thread machine synch_disk file_system post_office : Global

abbrev pub index : Global → ℕ
index stats = 0
index interrupt = 1
index scheduler = 2
index timer = 3
index current_thread = 4
index machine = 5
index synch_disk = 6
index file_system = 7
index post_office = 8

-- The variables, what `new` has returned and nobody has deleted, and the address that it returns
-- next.
pub record Globals : Type 0 where
  pub at : Global → Ptr
  pub live : Ptr → Bool
  pub next : Ptr

-- Before `Initialize`.
abbrev pub no_globals : Globals
no_globals = record { at = λ g. null; live = λ p. false; next = 1 }

-- `g = new ...`.
abbrev pub create : Global → Globals → Globals
create g s = record {
  at = λ h. if index h == index g then s.next else s.at h;
  live = λ p. if p == s.next then true else s.live p;
  next = s.next + 1;
}

unfoldable pub create_all : List Global → Globals → Globals
create_all [] s = s
create_all (g ∷ gs) s = create_all gs (create g s)

-- `delete g`; `none` is the deletion of an object that is gone.
unfoldable pub delete : Global → Globals → Option Globals
delete g s =
    if s.at g == null
    then some s
    else if s.live (s.at g)
    then some (record s { live = λ p. if p == s.at g then false else s.live p })
    else none

unfoldable pub delete_all : List Global → Globals → Option Globals
unfolding delete
delete_all [] s = some s
delete_all (g ∷ gs) s = elim (delete g s) [ none ↦ none | some t ↦ delete_all gs t ]

abbrev pub on : Bool → Global → List Global
on true g = g ∷ []
on false g = []

-- What `Initialize` creates, in order; `random_yield` says that `-rs` was given.
unfoldable pub created : Build → (random_yield : Bool) → List Global
created b random_yield =
    (stats ∷ interrupt ∷ scheduler ∷ [])
    ++ on random_yield timer
    ++ (current_thread ∷ [])
    ++ on b.user_program machine
    ++ on b.filesys synch_disk
    ++ on b.filesys_needed file_system
    ++ on b.network post_office

-- What `Cleanup` deletes, in order.
unfoldable pub deleted : Build → List Global
deleted b =
    on b.network post_office
    ++ on b.user_program machine
    ++ on b.filesys_needed file_system
    ++ on b.filesys synch_disk
    ++ (timer ∷ scheduler ∷ interrupt ∷ [])

-- `Cleanup`, but for the message and `Exit`.
unfoldable pub cleanup : Build → Globals → Option Globals
unfolding delete_all deleted
cleanup b s = delete_all (deleted b) s
