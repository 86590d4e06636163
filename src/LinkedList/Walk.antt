-- ===== src/LinkedList/Walk.antt =====
-- `Remove`, `Mapcar` and the destructor: what walks or empties a whole list.
use ooplatingsistm.Base.{
  ℕ, zero, suc, ◌<◌, ◌≡◌, ◌≢◌, refl, ap, inl, inr, none, [], ◌∷◌, arith, ◌==◌, if◌then◌else◌, All,
  length, Bool-cases, ==-false_of_ne,
}
use ooplatingsistm.LinkedList.Heap.{
  Ptr, null, Heap, write, done, Returns, Returns-bind, Returns-mono, load-done,
}
use ooplatingsistm.LinkedList.Cells.{Cell, Cells, has, first_addr, Linked, IsList}
use ooplatingsistm.LinkedList.Ends.{removed_item, rest, Freed, sorted_remove-first}
use ooplatingsistm.LinkedList.{LinkedList, sorted_remove, remove, map_loop, mapcar, destroy}

-- `Remove` takes the first item off the list and deletes its element; NULL if there is none.
pub remove-first :
    {h : Heap} {l : LinkedList} {cs : Cells}
    → IsList h l cs
    → Returns (λ r g. (r.0 ≡ removed_item cs) × IsList g r.1 (rest cs) × Freed h cs g) (remove l h)
unfolding remove
remove-first {h} {l} {cs} is =
    Returns-bind _ _ (sorted_remove l none h) _ (sorted_remove-first h none is)
      λ (item, key_ptr, l') g (e, _, is', f). (e, is', f)

-- The calls of `func` in order.
abbrev pub for_each : {S : Type 0} → (Ptr → S → S) → Cells → S → S
for_each func [] s = s
for_each func (c ∷ cs) s = for_each func cs (func c.item s)

module _ {S : Type 0} (func : Ptr → S → S) (h : Heap) where
  map_loop-for_each :
      (k : ℕ) (cs : Cells) (s : S)
      → Linked h cs
      → length cs < k
      → map_loop k func (first_addr cs) s h ≡ done (for_each func cs s) h
  unfolding map_loop
  map_loop-for_each zero cs s ok few = absurd (omega arith)
  map_loop-for_each (suc k) [] s ok few = refl
  map_loop-for_each (suc k) (c ∷ cs) s (ne, at, out, ok) few =
      rw (==-false_of_ne ne, load-done h ne at)
        (map_loop-for_each k cs (func c.item s) ok (omega arith))

  -- `Mapcar` calls the function on each item, first to last, and leaves the memory alone.
  pub mapcar-for_each :
      (fuel : ℕ) {l : LinkedList} {cs : Cells} (s : S)
      → IsList h l cs
      → length cs < fuel
      → mapcar fuel func l s h ≡ done (for_each func cs s) h
  unfolding mapcar
  mapcar-for_each fuel {cs} s is few = rw is.first (map_loop-for_each fuel cs s is.linked few)

-- The destructor stops behind the first NULL item: the cells that it deletes, and those it leaves.
abbrev pub deleted : Cells → Cells
deleted [] = []
deleted (c ∷ cs) = c ∷ (if c.item == null then [] else deleted cs)

abbrev pub left : Cells → Cells
left [] = []
left (c ∷ cs) = if c.item == null then cs else left cs

-- `g` is `h` less the elements of `cs`.
abbrev pub Without : Cells → Heap → Heap → Type 0
Without cs h g = (a : Ptr) → g a ≡ (if has a cs then none else h a)

-- The destructor deletes the elements up to the first NULL item, and those alone; what stands
-- behind that item is still linked.
pub destroy-deleted :
    (fuel : ℕ) {h : Heap} {l : LinkedList} (cs : Cells)
    → IsList h l cs
    → length cs < fuel
    → Returns (λ l' g. IsList g l' (left cs) × Without (deleted cs) h g) (destroy fuel l h)
unfolding destroy write
destroy-deleted zero cs is few = absurd (omega arith)
destroy-deleted (suc k) {h} {l} [] is few =
    Returns-bind _ _ (remove l h) _ (remove-first is)
      λ (item, l') g (e, is', f). rw e (is', λ a. ap (λ (m : Heap). m a) f)
destroy-deleted (suc k) {h} {l} (c ∷ cs) is few =
    Returns-bind _ _ (remove l h) _ (remove-first is) λ (item, l') g (e, is', f).
      rw e (elim (Bool-cases (c.item == null)) [
        | inl stop ↦ rw stop (is', λ a. ground (arith, ap (λ (m : Heap). m a) f))
        | inr more ↦ rw more (
            Returns-mono _ _ (destroy k l' g) (destroy-deleted k cs is' (omega arith))
              λ l'' g' (is'', w). (is'', λ a. ground (arith, w a, ap (λ (m : Heap). m a) f)))
      ])

no_null_item :
    (cs : Cells) → All (λ (c : Cell). c.item ≢ null) cs → (left cs ≡ []) × (deleted cs ≡ cs)
no_null_item [] items = (refl, refl)
no_null_item (c ∷ cs) (ne, items) =
    let (e, e') = no_null_item cs items in rw (==-false_of_ne ne) (e, ap (λ ds. c ∷ ds) e')

-- A list with no NULL item is deleted whole: no element leaks, and no other one is touched.
pub destroy-Without :
    (fuel : ℕ) {h : Heap} {l : LinkedList} (cs : Cells)
    → All (λ (c : Cell). c.item ≢ null) cs
    → IsList h l cs
    → length cs < fuel
    → Returns (λ l' g. IsList g l' [] × Without cs h g) (destroy fuel l h)
destroy-Without fuel {h} {l} cs items is few =
    let (e, e') = no_null_item cs items in
    Returns-mono _ _ (destroy fuel l h) (destroy-deleted fuel cs is few)
      λ l' g (is', w). (rw e at is', rw e' at w)
