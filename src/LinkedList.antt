-- ===== src/LinkedList.antt =====
-- list.h and list.cc: the singly linked list of `void *` items, over an explicit memory. A `List`
-- object lies outside the memory, so a method that updates one returns the new value. `fresh` is
-- the address that `new ListElement` returns; loops run on fuel.
pub mod Heap
pub mod Cells
pub mod Ends
pub mod Inserted
pub mod Sorted
pub mod Walk
mod Tests
use ooplatingsistm.Base.{
  ℕ, zero, suc, ◌≡◌, Bool, Option, none, some, ℤ, pos, lt_int, ◌==◌, if◌then◌else◌,
}
use Heap.{
  Ptr, null, ListElement, Cmd, done, out_of_fuel, pure, ◌>>=◌, ◌>>◌, store, load, set_next, free,
}

pub record LinkedList : Type 0 where
  pub first : Ptr
  pub last : Ptr

abbrev pub new_element : Ptr → ℤ → ListElement
new_element item_ptr sort_key = record { next = null; key = sort_key; item = item_ptr }

unfoldable pub empty_list : LinkedList
empty_list = record { first = null; last = null }

pub is_empty : LinkedList → Bool
is_empty l = l.first == null

pub append : (fresh : Ptr) → LinkedList → Ptr → Cmd LinkedList
unfolding is_empty
append fresh l item = do
  store fresh (new_element item (pos 0))
  if is_empty l
      then pure (record { first = fresh; last = fresh })
      else (set_next l.last fresh >> pure (record l { last = fresh }))

pub prepend : (fresh : Ptr) → LinkedList → Ptr → Cmd LinkedList
unfolding is_empty
prepend fresh l item = do
  store fresh (new_element item (pos 0))
  if is_empty l
      then pure (record { first = fresh; last = fresh })
      else (set_next fresh l.first >> pure (record l { first = fresh }))

-- The `for` loop of `SortedInsert` from `ptr`, and the code behind it.
insert_loop : ℕ → (fresh : Ptr) → LinkedList → ℤ → Ptr → Cmd LinkedList
insert_loop zero fresh l sort_key ptr = λ _. out_of_fuel
insert_loop (suc k) fresh l sort_key ptr = do
  e ← load ptr
  if e.next == null then (set_next l.last fresh >> pure (record l { last = fresh })) else do
    n ← load e.next
    if lt_int sort_key n.key
        then (do set_next fresh e.next; set_next ptr fresh; pure l)
        else insert_loop k fresh l sort_key e.next

pub sorted_insert : ℕ → (fresh : Ptr) → LinkedList → Ptr → ℤ → Cmd LinkedList
unfolding is_empty insert_loop
sorted_insert fuel fresh l item sort_key = do
  store fresh (new_element item sort_key)
  if is_empty l then pure (record { first = fresh; last = fresh }) else do
    e ← load l.first
    if lt_int sort_key e.key
        then (set_next fresh l.first >> pure (record l { first = fresh }))
        else insert_loop fuel fresh l sort_key l.first

-- `*keyPtr = key`, where `none` is a NULL `keyPtr` and `some` holds what it points at.
abbrev pub out_key : Option ℤ → ℤ → Option ℤ
out_key none key = none
out_key (some _) key = some key

-- The removed item (NULL if there was none), what `keyPtr` then points at, and the list.
pub sorted_remove : LinkedList → Option ℤ → Cmd (Ptr × Option ℤ × LinkedList)
unfolding is_empty
sorted_remove l key_ptr = if is_empty l then pure (null, key_ptr, l) else do
  e ← load l.first
  let rest =
      if l.first == l.last
      then record { first = null; last = null }
      else record l { first = e.next }
  free l.first
  pure (e.item, out_key key_ptr e.key, rest)

pub remove : LinkedList → Cmd (Ptr × LinkedList)
unfolding sorted_remove
remove l = do (item, _, rest) ← sorted_remove l none; pure (item, rest)

-- `func` acts on a state of its own: what it does beside the list.
map_loop : {S : Type 0} → ℕ → (Ptr → S → S) → Ptr → S → Cmd S
map_loop zero func ptr s = λ _. out_of_fuel
map_loop (suc k) func ptr s =
    if ptr == null then pure s else do e ← load ptr; map_loop k func e.next (func e.item s)

pub mapcar : {S : Type 0} → ℕ → (Ptr → S → S) → LinkedList → S → Cmd S
unfolding map_loop
mapcar fuel func l s = map_loop fuel func l.first s

-- `while (Remove() != NULL);`
pub destroy : ℕ → LinkedList → Cmd LinkedList
unfolding remove
destroy zero l = λ _. out_of_fuel
destroy (suc k) l = do (item, rest) ← remove l; if item == null then pure rest else destroy k rest
