-- ===== src/LinkedList/Heap.antt =====
-- The memory that list.cc works on: list elements at addresses, and commands that read and write
-- them. A dereference of NULL or of a deleted element is a fault.
use ooplatingsistm.Base.{
  ℕ, ◌≡◌, ◌≢◌, ◌∙◌, Option, none, some, ℤ, arith, ◌==◌, if◌then◌else◌, ==-false_of_ne,
}

abbrev pub Ptr : Type 0
Ptr = ℕ

-- `NULL`.
abbrev pub null : Ptr
null = 0

-- `class ListElement`; the item is a `void *`.
pub record ListElement : Type 0 where
  pub next : Ptr
  pub key : ℤ
  pub item : Ptr

abbrev pub Heap : Type 0
Heap = Ptr → Option ListElement

unfoldable pub write : Heap → Ptr → Option ListElement → Heap
write h p c a = if a == p then c else h a

-- How a command ends: by a fault, for want of fuel, or with a result and the memory behind it.
pub data Run (A : Type 0) : Type 0 where
  out_of_fuel fault : Run A
  done : (result : A) (memory : Heap) → Run A

abbrev pub Cmd : Type 0 → Type 0
Cmd A = (memory : Heap) → Run A

abbrev pub pure : {A : Type 0} → A → Cmd A
pure result = λ memory. done result memory

-- What follows a command runs on the memory that it leaves.
abbrev pub continue : {A B : Type 0} → (A → Cmd B) → Run A → Run B
continue next out_of_fuel = out_of_fuel
continue next fault = fault
continue next (done result memory) = next result memory

infixl 5 ◌>>=◌ ◌>>◌
abbrev pub ◌>>=◌ : {A B : Type 0} → Cmd A → (A → Cmd B) → Cmd B
◌>>=◌ first next memory = continue next (first memory)

abbrev pub ◌>>◌ : {A B : Type 0} → Cmd A → Cmd B → Cmd B
◌>>◌ first second memory = continue (λ _. second) (first memory)

-- Total correctness: the command ends, without a fault, in a result and a memory that satisfy `Q`.
abbrev pub Returns : {A : Type 0} → (A → Heap → Type 0) → Run A → Type 0
Returns Q (done a h) = Q a h
Returns Q fault = ⊥
Returns Q out_of_fuel = ⊥

-- `new ListElement` at the address that `new` returned, and the writes of its members.
abbrev pub store : Ptr → ListElement → Cmd (Unit {0})
store p e h = done tt (write h p (some e))

-- `*p`.
unfoldable pub load : Ptr → Cmd ListElement
load p h = if p == null then fault else elim (h p) [ none ↦ fault | some e ↦ done e h ]

-- `p->next = q`.
unfoldable pub set_next : Ptr → Ptr → Cmd (Unit {0})
set_next p q = do e ← load p; store p (record e { next = q })

-- `delete p`.
unfoldable pub free : Ptr → Cmd (Unit {0})
free p = do _ ← load p; (λ h. done tt (write h p none))

module _ (h : Heap) {p : Ptr} {e : ListElement} (ne : p ≢ null) (at : h p ≡ some e) where
  pub load-done : load p h ≡ done e h
  unfolding load
  load-done = rw (==-false_of_ne ne, at)

  pub set_next-done :
      (q : Ptr) → set_next p q h ≡ done tt (write h p (some (record e { next = q })))
  unfolding set_next
  set_next-done q = rw load-done

  pub free-done : free p h ≡ done tt (write h p none)
  unfolding free
  free-done = rw load-done

pub write_self : (h : Heap) (p : Ptr) (c : Option ListElement) → write h p c p ≡ c
unfolding write
write_self h p c = ground arith

pub write_ne : (h : Heap) {p a : Ptr} (c : Option ListElement) → a ≢ p → write h p c a ≡ h a
unfolding write
write_ne h c ne = ground arith

pub write_both_ne :
    (h : Heap) {p q a : Ptr} (c d : Option ListElement)
    → a ≢ p
    → a ≢ q
    → write (write h p c) q d a ≡ h a
write_both_ne h c d ne ne' = write_ne _ d ne' ∙ write_ne h c ne

pub Returns-bind :
    {A B : Type 0} (P : A → Heap → Type 0) (Q : B → Heap → Type 0) (r : Run A) (k : A → Cmd B)
    → Returns P r
    → ((a : A) (h : Heap) → P a h → Returns Q (k a h))
    → Returns Q (continue k r)
Returns-bind P Q (done a h) k p next = next a h p
Returns-bind P Q fault k p next = absurd p
Returns-bind P Q out_of_fuel k p next = absurd p

pub Returns-mono :
    {A : Type 0} (P Q : A → Heap → Type 0) (r : Run A)
    → Returns P r
    → ((a : A) (h : Heap) → P a h → Q a h)
    → Returns Q r
Returns-mono P Q (done a h) p weaken = weaken a h p
Returns-mono P Q fault p weaken = absurd p
Returns-mono P Q out_of_fuel p weaken = absurd p
