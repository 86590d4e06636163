-- ===== src/LinkedList/Inserted.antt =====
-- `SortedInsert`: where the new element goes.
use ooplatingsistm.Base.{
  ℕ, zero, suc, ◌≤◌, ◌<◌, ◌≡◌, ◌≢◌, refl, sym, ◌∙◌, inl, inr, false, some, [], ◌∷◌, ℤ, lt_int,
  arith, if◌then◌else◌, length, Bool-cases, ==-false_of_ne,
}
use ooplatingsistm.LinkedList.Heap.{
  Ptr, null, Heap, write, Returns, Returns-mono, load-done, set_next-done, write_ne, write_self,
  write_both_ne,
}
use ooplatingsistm.LinkedList.Cells.{
  Cell, cell, Cells, has, last_addr, element, Linked, IsList, SameOutside, IsFresh, handle,
  has-cons-false, frame-write, fresh-not-in, Linked-snoc,
}
use ooplatingsistm.LinkedList.{LinkedList, new_element, insert_loop, sorted_insert}

-- The specification: in front of the first cell with a larger key, else at the end.
unfoldable pub insert : Cell → Cells → Cells
insert d [] = d ∷ []
insert d (c ∷ cs) = if lt_int d.key c.key then d ∷ c ∷ cs else c ∷ insert d cs

has-insert : (a : Ptr) (d : Cell) (cs : Cells) → has a (insert d cs) ≡ (has a (d ∷ cs))
unfolding insert
has-insert a d [] = refl
has-insert a d (c ∷ cs) = ground (arith, has-insert a d cs)

-- What the insertion of `d` behind `c` reaches from the list `c ∷ cs`: the list `c ∷ r`.
record Inserted (h : Heap) (c d : Cell) (cs r : Cells) (p : Ptr) (l' : LinkedList) (g : Heap)
    : Type 0 where
  first : l'.first ≡ p
  last : l'.last ≡ last_addr (c ∷ r)
  linked : Linked g (c ∷ r)
  same : SameOutside (d ∷ c ∷ cs) h g

off_first : {a : Ptr} (c : Cell) (cs : Cells) → has a (c ∷ cs) ≡ false → c.addr ≢ a
off_first c cs o e = (has-cons-false c cs o).0 (sym e)

off_rest : (a : Ptr) (c : Cell) (cs : Cells) → has a (c ∷ cs) ≡ false → has a cs ≡ false
off_rest a c cs o = (has-cons-false c cs o).1

module _ (h : Heap) (l : LinkedList) (d : Cell) (ne_null : d.addr ≢ null)
    (at : h d.addr ≡ some (element d null)) where
  -- The loop ends at the last cell: the new one goes behind it.
  insert-last :
      (c : Cell)
      → Linked h (c ∷ [])
      → has d.addr (c ∷ []) ≡ false
      → Inserted h c d []
          (d ∷ [])
          l.first
          (record l { last = d.addr })
          (write h c.addr (some (element c d.addr)))
  insert-last c s new = record {
    first = refl;
    last = refl;
    linked =
        Linked-snoc h (write h c.addr (some (element c d.addr))) c [] d s ne_null new
          (write_ne h _ (λ e. off_first c [] new (sym e)) ∙ at) (write_self h c.addr _)
          λ a n m. write_ne h _ n;
    same = λ a o. write_ne h _ λ e. off_first c [] (off_rest a d (c ∷ []) o) (sym e);
  }

  -- The new cell goes between `c` and a larger `e`.
  insert-between :
      (c e : Cell) (es : Cells)
      → Linked h (c ∷ e ∷ es)
      → has d.addr (c ∷ e ∷ es) ≡ false
      → l.last ≡ last_addr (c ∷ e ∷ es)
      → Inserted h c d
          (e ∷ es)
          (d ∷ e ∷ es)
          l.first
          l
          (write (write h d.addr (some (element d e.addr))) c.addr (some (element c d.addr)))
  insert-between c e es s new last =
      let h' = write h d.addr (some (element d e.addr)) in
      let g = write h' c.addr (some (element c d.addr)) in
      let (ne, here, out, s') = s in
      let new' = off_rest d.addr c (e ∷ es) new in
      record {
        first = refl;
        last = last;
        linked = (
          ne,
          write_self h' c.addr _,
          ground arith,
          (
            ne_null,
            write_ne h' _ (λ q. off_first c (e ∷ es) new (sym q)) ∙ write_self h d.addr _,
            new',
            frame-write h' c.addr _ (e ∷ es) (frame-write h d.addr _ (e ∷ es) s' new') out,
          ),
        );
        same = λ a o.
            let (n, o') = has-cons-false d (c ∷ e ∷ es) o in
            write_both_ne h _ _ n (has-cons-false c (e ∷ es) o').0;
      }

  -- One round of the loop puts `c` in front of what the rest of it reaches.
  insert-further :
      (c e : Cell) (es : Cells) (l' : LinkedList) (g : Heap)
      → Linked h (c ∷ e ∷ es)
      → has d.addr (c ∷ e ∷ es) ≡ false
      → Inserted h e d es (insert d es) l.first l' g
      → Inserted h c d (e ∷ es) (e ∷ insert d es) l.first l' g
  insert-further c e es l' g s new i =
      let (ne, here, out, s') = s in
      let apart : has c.addr (d ∷ e ∷ es) ≡ false = ground (arith, off_first c (e ∷ es) new) in
      record {
        first = i.first;
        last = i.last;
        linked = (ne, i.same c.addr apart ∙ here, ground (arith, has-insert c.addr d es), i.linked);
        same = λ a o. i.same a (ground arith);
      }

  insert_loop-Inserted :
      (k : ℕ) (c : Cell) (cs : Cells)
      → Linked h (c ∷ cs)
      → has d.addr (c ∷ cs) ≡ false
      → l.last ≡ last_addr (c ∷ cs)
      → length cs < k
      → Returns (Inserted h c d cs (insert d cs) l.first) (insert_loop k d.addr l d.key c.addr h)
  unfolding insert_loop insert
  insert_loop-Inserted zero c cs s new last few = absurd (omega arith)
  insert_loop-Inserted (suc k) c [] s new last few =
      let linked = set_next-done h s.0 s.1 d.addr in
      rw (load-done h s.0 s.1, last, linked) (insert-last c s new)
  insert_loop-Inserted (suc k) c (e ∷ es) s new last few =
      let (ne, here, out, s') = s in
      rw (load-done h ne here, ==-false_of_ne s'.0, load-done h s'.0 s'.1)
        (elim (Bool-cases (lt_int d.key e.key)) [
          | inl less ↦
              let linked = set_next-done h ne_null at e.addr in
              let at_c = write_ne h (some (element d e.addr)) (off_first c (e ∷ es) new) ∙ here in
              let linked' =
                set_next-done (write h d.addr (some (element d e.addr))) ne at_c d.addr in
              rw (less, linked, linked') (insert-between c e es s new last)
          | inr more ↦ rw more (
              Returns-mono _ _ (insert_loop k d.addr l d.key e.addr h)
                (insert_loop-Inserted k e es s' (off_rest d.addr c (e ∷ es) new) last (omega arith))
                λ l' g i. insert-further c e es l' g s new i)
        ])

module _ (h : Heap) (fuel : ℕ) (fresh item : Ptr) (key : ℤ) where
  abbrev keyed : Cell
  keyed = cell fresh key item

  pub sorted_insert-handle :
      (cs : Cells)
      → Linked h cs
      → IsFresh h fresh
      → length cs ≤ fuel
      → Returns
          (λ l g. IsList g l (insert keyed cs) × SameOutside (keyed ∷ cs) h g)
          (sorted_insert fuel fresh (handle cs) item key h)
  unfolding sorted_insert insert
  sorted_insert-handle [] s f few = (
    record { first = refl; last = refl; linked = (f.ne_null, write_self h fresh _, refl, tt) },
    λ a o. write_ne h _ λ e. (has-cons-false keyed [] o).0 e,
  )
  sorted_insert-handle (c ∷ cs) s f few =
      let h' = write h fresh (some (new_element item key)) in
      let new = fresh-not-in h (c ∷ cs) s f.unused in
      let s' = frame-write h fresh (some (new_element item key)) (c ∷ cs) s new in
      let here = write_self h fresh (some (new_element item key)) in
      rw (==-false_of_ne s.0, load-done h' s'.0 s'.1)
        (elim (Bool-cases (lt_int key c.key)) [
          | inl less ↦
              rw (less, set_next-done h' f.ne_null here c.addr)
                (
                  record {
                    first = refl;
                    last = refl;
                    linked = (
                      f.ne_null,
                      write_self h' fresh _,
                      new,
                      frame-write h' fresh _ (c ∷ cs) s' new,
                    );
                  },
                  λ a o. let n = (has-cons-false keyed (c ∷ cs) o).0 in write_both_ne h _ _ n n,
                )
          | inr more ↦ rw more (
              Returns-mono _ _ (insert_loop fuel fresh (handle (c ∷ cs)) key c.addr h')
                (insert_loop-Inserted h' (handle (c ∷ cs)) keyed f.ne_null here fuel c cs s' new
                  refl (omega arith))
                λ l g i. (
                  record { first = i.first; last = i.last; linked = i.linked },
                  λ a o. i.same a o ∙ write_ne h _ (has-cons-false keyed (c ∷ cs) o).0,
                ))
        ])
