-- ===== src/Queue.antt =====
-- The view that the other modules have of a `List` (list.h) whose items are threads or other
-- pointers, used first in, first out: the sequence of the items. `Queue.Refine` shows that list.cc
-- implements it.
pub mod Refine
use ooplatingsistm.Base.{List, [], ◌∷◌, ◌++◌}
use ooplatingsistm.LinkedList.Heap.{Ptr, null}

abbrev pub Queue : Type 0
Queue = List Ptr

abbrev pub append : Queue → Ptr → Queue
append q t = q ++ t ∷ []

-- The first item and the others; NULL if there is none.
abbrev pub remove : Queue → Ptr × Queue
remove [] = (null, [])
remove (t ∷ q) = (t, q)
