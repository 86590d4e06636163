-- ===== src/LinkedList/Cells.antt =====
-- What a linked list stands for: its elements in order, each with its address.
use mathlib.Core.Bool.{or_assoc}
use ooplatingsistm.Base.{
  ◌≡◌, ◌≢◌, refl, sym, ◌∙◌, Bool, true, false, ◌||◌, Option, none, some, List, [], ◌∷◌, ◌++◌, ℤ,
  arith, ◌==◌,
}
use ooplatingsistm.LinkedList.Heap.{Ptr, null, ListElement, Heap, write}
use ooplatingsistm.LinkedList.{LinkedList}

pub record Cell : Type 0 where
  pub addr : Ptr
  pub key : ℤ
  pub item : Ptr

abbrev pub cell : Ptr → ℤ → Ptr → Cell
cell a k i = record { addr = a; key = k; item = i }

abbrev pub Cells : Type 0
Cells = List Cell

abbrev pub has : Ptr → Cells → Bool
has a [] = false
has a (c ∷ cs) = (c.addr == a) || has a cs

abbrev pub first_addr : Cells → Ptr
first_addr [] = null
first_addr (c ∷ cs) = c.addr

-- The last of a cell and those behind it.
abbrev pub last_cell : Cell → Cells → Cell
last_cell c [] = c
last_cell c (d ∷ ds) = last_cell d ds

abbrev pub last_addr : Cells → Ptr
last_addr [] = null
last_addr (c ∷ cs) = (last_cell c cs).addr

-- The element that a cell is, when `q` is the next one's address.
abbrev pub element : Cell → Ptr → ListElement
element c q = record { next = q; key = c.key; item = c.item }

-- From cell to cell the `next` pointers lead through distinct live elements to NULL.
abbrev pub Linked : Heap → Cells → Type 0
Linked h [] = Unit
Linked h (c ∷ cs) =
    (c.addr ≢ null)
    × (h c.addr ≡ some (element c (first_addr cs)))
    × (has c.addr cs ≡ false)
    × Linked h cs

pub record IsList (h : Heap) (l : LinkedList) (cs : Cells) : Type 0 where
  pub first : l.first ≡ first_addr cs
  pub last : l.last ≡ last_addr cs
  pub linked : Linked h cs

-- `g` differs from `h` at most at the addresses of `cs`.
abbrev pub SameOutside : Cells → Heap → Heap → Type 0
SameOutside cs h g = (a : Ptr) → has a cs ≡ false → g a ≡ h a

-- What `new` promises: an address in use by nobody.
pub record IsFresh (h : Heap) (p : Ptr) : Type 0 where
  pub ne_null : p ≢ null
  pub unused : h p ≡ none

pub has-append : (a : Ptr) (cs ds : Cells) → has a (cs ++ ds) ≡ (has a cs || has a ds)
has-append a [] ds = refl
has-append a (c ∷ cs) ds = rw (has-append a cs ds, or_assoc)

pub ne_of_has : {a b : Ptr} (cs : Cells) → has a cs ≡ false → has b cs ≡ true → a ≢ b
ne_of_has cs out in_cs e = cc

pub has-cons-false :
    {a : Ptr} (c : Cell) (cs : Cells) → has a (c ∷ cs) ≡ false → (a ≢ c.addr) × (has a cs ≡ false)
has-cons-false c cs o = ground arith

-- A change that spares the list's own addresses leaves it linked.
pub frame :
    (h g : Heap) (cs : Cells)
    → Linked h cs
    → ((a : Ptr) → has a cs ≡ true → g a ≡ h a)
    → Linked g cs
frame h g [] s same = tt
frame h g (c ∷ cs) (ne, at, out, s) same =
    (ne, ground (arith, same c.addr), out, frame h g cs s λ a i. same a (ground arith))

pub frame-write :
    (h : Heap) (a : Ptr) (e : Option ListElement) (cs : Cells)
    → Linked h cs
    → has a cs ≡ false
    → Linked (write h a e) cs
unfolding write
frame-write h a e cs s out = frame h (write h a e) cs s λ b i. ground arith

pub fresh-not-in : (h : Heap) {p : Ptr} (cs : Cells) → Linked h cs → h p ≡ none → has p cs ≡ false
fresh-not-in h [] s u = refl
fresh-not-in h (c ∷ cs) (ne, at, out, s) u = ground (arith, fresh-not-in h cs s u)

module _ (h : Heap) where
  pub last-at :
      (c : Cell) (cs : Cells)
      → Linked h (c ∷ cs)
      → ((last_cell c cs).addr ≢ null)
        × (h (last_cell c cs).addr ≡ some (element (last_cell c cs) null))
        × (has (last_cell c cs).addr (c ∷ cs) ≡ true)
  last-at c [] (ne, at, out, s) = (ne, at, ground arith)
  last-at c (d ∷ ds) (ne, at, out, s) = let (n, a, i) = last-at d ds s in (n, a, ground arith)

  -- To link a fresh cell behind the last one.
  pub Linked-snoc :
      (g : Heap) (c : Cell) (cs : Cells) (d : Cell)
      → Linked h (c ∷ cs)
      → d.addr ≢ null
      → has d.addr (c ∷ cs) ≡ false
      → g d.addr ≡ some (element d null)
      → g (last_cell c cs).addr ≡ some (element (last_cell c cs) d.addr)
      → ((a : Ptr) → a ≢ (last_cell c cs).addr → a ≢ d.addr → g a ≡ h a)
      → Linked g ((c ∷ cs) ++ d ∷ [])
  Linked-snoc g c [] d (ne, at, out, s) new off here there same =
      (ne, there, ground arith, (new, here, refl, tt))
  Linked-snoc g c (e ∷ es) d (ne, at, out, s) new off here there same = (
    ne,
    same c.addr (ne_of_has (e ∷ es) out (last-at e es s).2) (ground arith) ∙ at,
    rw (has-append c.addr (e ∷ es) (d ∷ [])) (ground arith),
    Linked-snoc g e es d s new (ground arith) here there same,
  )

pub last_cell-append : (c : Cell) (cs : Cells) (d : Cell) → last_cell c (cs ++ d ∷ []) ≡ d
last_cell-append c [] d = refl
last_cell-append c (e ∷ es) d = last_cell-append e es d

-- The `List` object of a list of cells.
abbrev pub handle : Cells → LinkedList
handle cs = record { first = first_addr cs; last = last_addr cs }

pub handle_lem : {h : Heap} {l : LinkedList} {cs : Cells} → IsList h l cs → handle cs ≡ l
handle_lem is = λ i. record { first = sym is.first i; last = sym is.last i }

pub handle-IsList : (h : Heap) (cs : Cells) → Linked h cs → IsList h (handle cs) cs
handle-IsList h cs s = record { first = refl; last = refl; linked = s }
