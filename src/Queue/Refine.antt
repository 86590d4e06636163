-- ===== src/Queue/Refine.antt =====
-- list.cc implements the queue that the kernel modules work with.
use mathlib.Core.List.{map, map-append}
use ooplatingsistm.Base.{◌≡◌, refl, ap, ◌∙◌, Bool, true, false, [], ◌∷◌, ◌++◌}
use ooplatingsistm.LinkedList.Heap.{Ptr, Heap, Returns, Returns-mono}
use ooplatingsistm.LinkedList.Cells.{Cell, Cells, IsList, IsFresh}
use ooplatingsistm.LinkedList.Ends.{
  added, append-snoc, removed_item, rest, Freed, empty_list-IsList, is_empty-is_nil,
}
use ooplatingsistm.LinkedList.Walk.{remove-first}
use ooplatingsistm.LinkedList
use ooplatingsistm.LinkedList.{LinkedList}
use ooplatingsistm.Queue.{Queue, append, remove}

abbrev pub items : Cells → Queue
items = map λ (c : Cell). c.item

-- The list `l` in memory `h` holds the items of `q`, in order.
abbrev pub Implements : Heap → LinkedList → Queue → Type 0
Implements h l q = (cs : Cells) × IsList h l cs × (items cs ≡ q)

pub empty_list-Implements : (h : Heap) → Implements h LinkedList.empty_list []
empty_list-Implements h = ([], empty_list-IsList h, refl)

abbrev pub is_empty : Queue → Bool
is_empty [] = true
is_empty (t ∷ q) = false

-- `IsEmpty` tells whether the queue is empty.
pub is_empty-Implements :
    {h : Heap} {l : LinkedList} {q : Queue} → Implements h l q → LinkedList.is_empty l ≡ is_empty q
is_empty-Implements ([], is, e) = is_empty-is_nil [] is ∙ ap is_empty e
is_empty-Implements (c ∷ cs, is, e) = is_empty-is_nil (c ∷ cs) is ∙ ap is_empty e

-- `List::Append`, given a fresh element, puts the item at the end of the queue.
pub append-Implements :
    {h : Heap} {l : LinkedList} {q : Queue} (fresh item : Ptr)
    → Implements h l q
    → IsFresh h fresh
    → Returns (λ l' g. Implements g l' (append q item)) (LinkedList.append fresh l item h)
append-Implements {h} {l} fresh item (cs, is, e) f =
    Returns-mono _ _ (LinkedList.append fresh l item h) (append-snoc h fresh item is f)
      λ l' g (is', same). (
        cs ++ added fresh item ∷ [],
        is',
        map-append _ cs (added fresh item ∷ []) ∙ ap (λ r. r ++ item ∷ []) e,
      )

-- `List::Remove` takes the first item off the queue, and returns NULL if it is empty.
pub remove-Implements :
    {h : Heap} {l : LinkedList} {q : Queue}
    → Implements h l q
    → Returns (λ r g. (r.0 ≡ (remove q).0) × Implements g r.1 (remove q).1) (LinkedList.remove l h)
remove-Implements {h} {l} (cs, is, e) =
    rw (← e) (Returns-mono _ _ (LinkedList.remove l h) (remove-first is) (split cs))
  where
    split :
        (ds : Cells) (r : Ptr × LinkedList) (g : Heap)
        → (r.0 ≡ removed_item ds) × IsList g r.1 (rest ds) × Freed h ds g
        → (r.0 ≡ (remove (items ds)).0) × Implements g r.1 (remove (items ds)).1
    split [] (item, l') g (e, is', f) = (e, ([], is', refl))
    split (c ∷ ds) (item, l') g (e, is', f) = (e, (ds, is', refl))
