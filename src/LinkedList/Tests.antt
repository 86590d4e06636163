-- ===== src/LinkedList/Tests.antt =====
-- A list of two elements, runs of list.cc on it, and the theorems at it.
use ooplatingsistm.Base.{◌+◌, ◌≡◌, refl, none, some, [], ◌∷◌, ◌++◌, pos, arith}
use ooplatingsistm.LinkedList.Heap.{null, Heap, write, done, Returns}
use ooplatingsistm.LinkedList.Cells.{cell, Cells, IsList, IsFresh, SameOutside}
use ooplatingsistm.LinkedList.Walk.{mapcar-for_each, left, deleted, Without, destroy-deleted}
use ooplatingsistm.LinkedList.Sorted.{upto, above, IsSorted, sorted_insert-IsSorted}
use ooplatingsistm.Queue.Refine.{Implements, append-Implements, remove-Implements}
use ooplatingsistm.LinkedList.{LinkedList, append, sorted_insert, remove, mapcar, destroy}

abbrev heap : Heap
heap =
    write (write (λ p. none) 1 (some (record { next = 2; key = pos 10; item = 50 }))) 2
      (some (record { next = null; key = pos 20; item = 60 }))

abbrev list : LinkedList
list = record { first = 1; last = 2 }

abbrev cells : Cells
cells = cell 1 (pos 10) 50 ∷ cell 2 (pos 20) 60 ∷ []

list-IsList : IsList heap list cells
unfolding write
list-IsList = record {
  first = refl;
  last = refl;
  linked = (omega arith, refl, refl, (omega arith, refl, refl, tt));
}

fresh : IsFresh heap 3
unfolding write
fresh = record { ne_null = omega arith; unused = refl }

-- The same list with a NULL item in front.
abbrev null_cells : Cells
null_cells = cell 1 (pos 10) null ∷ cell 2 (pos 20) 60 ∷ []

abbrev null_heap : Heap
null_heap = write heap 1 (some (record { next = 2; key = pos 10; item = null }))

null-IsList : IsList null_heap list null_cells
unfolding write
null-IsList = record {
  first = refl;
  last = refl;
  linked = (omega arith, refl, refl, (omega arith, refl, refl, tt));
}

sorted_insert-IsSorted_example :
    let ds = upto (pos 10) cells ++ cell 3 (pos 10) 70 ∷ above (pos 10) cells in
    Returns
      (λ l' g. IsList g l' ds × IsSorted ds × SameOutside (cell 3 (pos 10) 70 ∷ cells) heap g)
      (sorted_insert 2 3 list 70 (pos 10) heap)
sorted_insert-IsSorted_example =
    sorted_insert-IsSorted 2 3 70 (pos 10) list-IsList ((refl, tt), (tt, tt)) fresh (omega arith)

mapcar-for_each_example : mapcar 3 ◌+◌ list 0 heap ≡ done 110 heap
mapcar-for_each_example = mapcar-for_each ◌+◌ heap 3 0 list-IsList (omega arith)

destroy-deleted_example :
    Returns
      (λ l' g. IsList g l' (left null_cells) × Without (deleted null_cells) null_heap g)
      (destroy 3 list null_heap)
destroy-deleted_example = destroy-deleted 3 null_cells null-IsList (omega arith)

append-Implements_example :
    Returns (λ l' g. Implements g l' (50 ∷ 60 ∷ 70 ∷ [])) (append 3 list 70 heap)
append-Implements_example = append-Implements 3 70 (cells, list-IsList, refl) fresh

remove-Implements_example :
    Returns (λ r g. (r.0 ≡ 50) × Implements g r.1 (60 ∷ [])) (remove list heap)
remove-Implements_example = remove-Implements (cells, list-IsList, refl)
