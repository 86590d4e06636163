-- ===== src/LinkedList/Sorted.antt =====
-- `SortedInsert` into a sorted list: the list stays sorted.
use ooplatingsistm.Base.{
  ℕ, ◌≤◌, ◌≡◌, refl, ap, inl, inr, true, false, [], ◌∷◌, ◌++◌, ℤ, lt_int, arith, if◌then◌else◌, All,
  length, Bool-cases,
}
use ooplatingsistm.LinkedList.Heap.{Ptr, Heap, Returns, Returns-mono}
use ooplatingsistm.LinkedList.Cells.{
  Cell, cell, Cells, IsList, SameOutside, IsFresh, handle, handle_lem,
}
use ooplatingsistm.LinkedList.{LinkedList, sorted_insert}
use ooplatingsistm.LinkedList.Inserted.{insert, sorted_insert-handle}

-- The cells whose key is at most `k`, and those whose key is larger.
abbrev pub upto : ℤ → Cells → Cells
upto k [] = []
upto k (c ∷ cs) = if lt_int k c.key then upto k cs else c ∷ upto k cs

abbrev pub above : ℤ → Cells → Cells
above k [] = []
above k (c ∷ cs) = if lt_int k c.key then c ∷ above k cs else above k cs

-- No key of the list is below `k`.
abbrev pub Bound : ℤ → Cells → Type 0
Bound k = All λ (c : Cell). lt_int c.key k ≡ false

abbrev pub IsSorted : Cells → Type 0
IsSorted [] = Unit
IsSorted (c ∷ cs) = Bound c.key cs × IsSorted cs

Bound-mono : (j k : ℤ) (cs : Cells) → lt_int k j ≡ false → Bound k cs → Bound j cs
Bound-mono j k [] le b = tt
Bound-mono j k (c ∷ cs) le (b, bs) = (ground arith, Bound-mono j k cs le bs)

all_above :
    (j k : ℤ) (cs : Cells) → lt_int j k ≡ true → Bound k cs → (upto j cs ≡ []) × (above j cs ≡ cs)
all_above j k [] lt b = (refl, refl)
all_above j k (c ∷ cs) lt (b, bs) =
    let less : lt_int j c.key ≡ true = ground arith in
    let (e, e') = all_above j k cs lt bs in rw less (e, ap (λ ds. c ∷ ds) e')

-- In a sorted list that is behind every key that is not larger: equal keys keep their order.
insert-upto :
    (d : Cell) (cs : Cells) → IsSorted cs → insert d cs ≡ upto d.key cs ++ d ∷ above d.key cs
unfolding insert
insert-upto d [] s = refl
insert-upto d (c ∷ cs) (b, s) = elim (Bool-cases (lt_int d.key c.key)) [
  | inl less ↦ let (e, e') = all_above d.key c.key cs less b in rw (less, e, e')
  | inr more ↦ rw more (ap (λ ds. c ∷ ds) (insert-upto d cs s))
]

Bound-insert :
    (k : ℤ) (d : Cell) (cs : Cells) → lt_int d.key k ≡ false → Bound k cs → Bound k (insert d cs)
unfolding insert
Bound-insert k d [] le b = (le, tt)
Bound-insert k d (c ∷ cs) le (b, bs) = ground (arith, Bound-insert k d cs le bs)

insert-IsSorted : (d : Cell) (cs : Cells) → IsSorted cs → IsSorted (insert d cs)
unfolding insert
insert-IsSorted d [] s = (tt, tt)
insert-IsSorted d (c ∷ cs) (b, s) = elim (Bool-cases (lt_int d.key c.key)) [
  | inl less ↦
      let le : lt_int c.key d.key ≡ false = ground arith in
      rw less ((le, Bound-mono d.key c.key cs le b), (b, s))
  | inr more ↦ rw more (Bound-insert c.key d cs more b, insert-IsSorted d cs s)
]

-- `SortedInsert` into a sorted list links the new element behind the elements whose key is not
-- larger and in front of the others, so that the list stays sorted, equal keys stay first in
-- first out, and nothing but the list and the new element is written to.
pub sorted_insert-IsSorted :
    {h : Heap} {l : LinkedList} {cs : Cells} (fuel : ℕ) (fresh item : Ptr) (key : ℤ)
    → IsList h l cs
    → IsSorted cs
    → IsFresh h fresh
    → length cs ≤ fuel
    → let ds = upto key cs ++ cell fresh key item ∷ above key cs in
      Returns
        (λ l' g. IsList g l' ds × IsSorted ds × SameOutside (cell fresh key item ∷ cs) h g)
        (sorted_insert fuel fresh l item key h)
sorted_insert-IsSorted {h} {l} {cs} fuel fresh item key is sorted f few =
    let d = cell fresh key item in
    rw (← insert-upto d cs sorted, ← handle_lem is)
      (Returns-mono _ _ (sorted_insert fuel fresh (handle cs) item key h)
        (sorted_insert-handle h fuel fresh item key cs is.linked f few)
        λ l' g (is', same). (is', insert-IsSorted d cs sorted, same))
