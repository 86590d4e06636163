-- ===== src/LinkedList/Ends.antt =====
-- `Append`, `Prepend`, `Remove`, `SortedRemove` and the destructor at the two ends of a list.
use ooplatingsistm.Base.{
  ◌≡◌, ◌≢◌, refl, ap, sym, ◌∙◌, Bool, true, false, Option, none, some, [], ◌∷◌, ◌++◌, ℤ, pos, arith,
  ==-false_of_ne, ==_refl,
}
use ooplatingsistm.LinkedList.Heap.{
  Ptr, null, Heap, write, Returns, write_ne, write_both_ne, write_self, set_next-done, load-done,
  free-done,
}
use ooplatingsistm.LinkedList.Cells.{
  Cell, cell, Cells, has, last_cell, Linked, IsList, SameOutside, IsFresh, has-cons-false,
  ne_of_has, frame-write, fresh-not-in, last-at, Linked-snoc, last_cell-append, handle, handle_lem,
  handle-IsList,
}
use ooplatingsistm.LinkedList.{
  LinkedList, new_element, empty_list, is_empty, append, prepend, out_key, sorted_remove,
}

abbrev pub added : Ptr → Ptr → Cell
added fresh item = cell fresh (pos 0) item

module _ (h : Heap) (fresh item : Ptr) where
  append-handle :
      (cs : Cells)
      → Linked h cs
      → IsFresh h fresh
      → Returns
          (λ l g.
            IsList g l (cs ++ added fresh item ∷ []) × SameOutside (added fresh item ∷ cs) h g)
          (append fresh (handle cs) item h)
  unfolding append write
  append-handle [] s f = (
    record { first = refl; last = refl; linked = (f.ne_null, ground arith, refl, tt) },
    λ a o. ground arith,
  )
  append-handle (c ∷ cs) s f =
      let new : has fresh (c ∷ cs) ≡ false = fresh-not-in h (c ∷ cs) s f.unused in
      let (ne, at, mem) = last-at h c cs s in
      let apart = ne_of_has (c ∷ cs) new mem in
      let h' = write h fresh (some (new_element item (pos 0))) in
      rw (==-false_of_ne s.0, set_next-done h' ne (write_ne h _ (λ e. apart (sym e)) ∙ at) fresh)
        (
          record {
            first = refl;
            last = ap (λ (d : Cell). d.addr) (sym (last_cell-append c cs (added fresh item)));
            linked =
                Linked-snoc h _ c cs (added fresh item) s f.ne_null new (ground arith)
                  (ground arith) λ a n m. write_both_ne h _ _ m n;
          },
          λ a o.
              let (n, out) = has-cons-false (added fresh item) (c ∷ cs) o in
              write_both_ne h _ _ n (ne_of_has (c ∷ cs) out mem),
        )

  -- `Append` puts the item at the end, under key 0, and writes only to the list's elements and to
  -- the new one.
  pub append-snoc :
      {l : LinkedList} {cs : Cells}
      → IsList h l cs
      → IsFresh h fresh
      → Returns
          (λ l g.
            IsList g l (cs ++ added fresh item ∷ []) × SameOutside (added fresh item ∷ cs) h g)
          (append fresh l item h)
  append-snoc {cs} is f = rw (← handle_lem is) (append-handle cs is.linked f)

  prepend-handle :
      (cs : Cells)
      → Linked h cs
      → IsFresh h fresh
      → Returns
          (λ l g. IsList g l (added fresh item ∷ cs) × SameOutside (added fresh item ∷ []) h g)
          (prepend fresh (handle cs) item h)
  unfolding prepend write
  prepend-handle [] s f = (
    record { first = refl; last = refl; linked = (f.ne_null, ground arith, refl, tt) },
    λ a o. ground arith,
  )
  prepend-handle (c ∷ cs) s f =
      let new : has fresh (c ∷ cs) ≡ false = fresh-not-in h (c ∷ cs) s f.unused in
      let h' = write h fresh (some (new_element item (pos 0))) in
      let there = frame-write h fresh (some (new_element item (pos 0))) (c ∷ cs) s new in
      rw (==-false_of_ne s.0, set_next-done h' f.ne_null (write_self h fresh _) c.addr)
        (
          record {
            first = refl;
            last = refl;
            linked = (f.ne_null, ground arith, new, frame-write h' fresh _ (c ∷ cs) there new);
          },
          λ a o. ground arith,
        )

  -- `Prepend` puts the item at the front, under key 0, and writes only to the new element.
  pub prepend-cons :
      {l : LinkedList} {cs : Cells}
      → IsList h l cs
      → IsFresh h fresh
      → Returns
          (λ l g. IsList g l (added fresh item ∷ cs) × SameOutside (added fresh item ∷ []) h g)
          (prepend fresh l item h)
  prepend-cons {cs} is f = rw (← handle_lem is) (prepend-handle cs is.linked f)

-- What a removal from `cs` returns: the first item and its key, or NULL and `*keyPtr` as it was.
abbrev pub removed_item : Cells → Ptr
removed_item [] = null
removed_item (c ∷ cs) = c.item

abbrev pub removed_key : Cells → Option ℤ → Option ℤ
removed_key [] key_ptr = key_ptr
removed_key (c ∷ cs) key_ptr = out_key key_ptr c.key

abbrev pub rest : Cells → Cells
rest [] = []
rest (c ∷ cs) = cs

-- `g` is `h` less the first element.
abbrev pub Freed : Heap → Cells → Heap → Type 0
Freed h [] g = g ≡ h
Freed h (c ∷ cs) g = g ≡ write h c.addr none

last_ne :
    (h : Heap) (c d : Cell) (ds : Cells) → Linked h (c ∷ d ∷ ds) → c.addr ≢ (last_cell d ds).addr
last_ne h c d ds (ne, at, out, s) = ne_of_has (d ∷ ds) out (last-at h d ds s).2

module _ (h : Heap) (key_ptr : Option ℤ) where
  sorted_remove-handle :
      (cs : Cells)
      → Linked h cs
      → Returns
          (λ r g.
            (r.0 ≡ removed_item cs)
            × (r.1 ≡ removed_key cs key_ptr)
            × IsList g r.2 (rest cs)
            × Freed h cs g)
          (sorted_remove (handle cs) key_ptr h)
  unfolding sorted_remove
  sorted_remove-handle [] s = (refl, refl, handle-IsList h [] s, refl)
  sorted_remove-handle (c ∷ []) (ne, at, out, s) =
      rw (==-false_of_ne ne, load-done h ne at, free-done h ne at, ==_refl c.addr)
        (refl, refl, handle-IsList _ [] tt, refl)
  sorted_remove-handle (c ∷ d ∷ ds) (ne, at, out, s) =
      rw
        (
          ==-false_of_ne ne,
          load-done h ne at,
          free-done h ne at,
          ==-false_of_ne (last_ne h c d ds (ne, at, out, s)),
        )
        (refl, refl, handle-IsList _ (d ∷ ds) (frame-write h c.addr none (d ∷ ds) s out), refl)

  -- `SortedRemove` takes the first element off, returns its item and key and deletes it; on an
  -- empty list it returns NULL and changes nothing.
  pub sorted_remove-first :
      {l : LinkedList} {cs : Cells}
      → IsList h l cs
      → Returns
          (λ r g.
            (r.0 ≡ removed_item cs)
            × (r.1 ≡ removed_key cs key_ptr)
            × IsList g r.2 (rest cs)
            × Freed h cs g)
          (sorted_remove l key_ptr h)
  sorted_remove-first {cs} is = rw (← handle_lem is) (sorted_remove-handle cs is.linked)

pub empty_list-IsList : (h : Heap) → IsList h empty_list []
unfolding empty_list
empty_list-IsList h = record { first = refl; last = refl; linked = tt }

abbrev pub is_nil : Cells → Bool
is_nil [] = true
is_nil (c ∷ cs) = false

pub is_empty-is_nil :
    {h : Heap} {l : LinkedList} (cs : Cells) → IsList h l cs → is_empty l ≡ is_nil cs
unfolding is_empty
is_empty-is_nil [] is = rw is.first
is_empty-is_nil (c ∷ cs) is = rw is.first (==-false_of_ne is.linked.0)
