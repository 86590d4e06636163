-- ===== src/Switch/Hosts/LoadStore.antt =====
-- The loads and the stores of SWITCH on the hosts that load and store, slot by slot.
use ooplatingsistm.Base.{
  ℕ, ◌≡◌, refl, ◌∙◌, inl, inr, Bool, true, false, not, ◌&&◌, ◌||◌, [], ◌∷◌, ◌==◌, arith, Bool-cases,
  ==_refl,
}
use ooplatingsistm.LinkedList.Heap.{Ptr}
use ooplatingsistm.Switch.Hosts.{Slots, Cpu, set_register, store_all, load_all}

-- Whether a slot, a register, or an offset is among the slots.
abbrev pub has : Slots → (ℕ × ℕ) → Bool
has [] p = false
has ((r, offset) ∷ slots) p = ((r == p.0) && (offset == p.1)) || has slots p

abbrev pub has_register : Slots → ℕ → Bool
has_register [] r = false
has_register ((q, offset) ∷ slots) r = (q == r) || has_register slots r

abbrev pub has_offset : Slots → ℕ → Bool
has_offset [] i = false
has_offset ((r, offset) ∷ slots) i = (offset == i) || has_offset slots i

-- No register and no offset stands there twice.
abbrev pub distinct : Slots → Bool
distinct [] = true
distinct ((r, offset) ∷ slots) =
    not (has_register slots r) && not (has_offset slots offset) && distinct slots

pub has-has_register :
    (slots : Slots) (p : ℕ × ℕ) → has slots p ≡ true → has_register slots p.0 ≡ true
has-has_register [] p h = cc
has-has_register ((r, offset) ∷ slots) p h = ground (arith, h, has-has_register slots p)

pub has-has_offset : (slots : Slots) (p : ℕ × ℕ) → has slots p ≡ true → has_offset slots p.1 ≡ true
has-has_offset [] p h = cc
has-has_offset ((r, offset) ∷ slots) p h = ground (arith, h, has-has_offset slots p)

pub load_all-kept :
    (slots : Slots) (t : Ptr) (c : Cpu) (r : ℕ)
    → has_register slots r ≡ false
    → (load_all slots t c).register r ≡ c.register r
unfolding load_all
load_all-kept [] t c r none_there = refl
load_all-kept ((q, offset) ∷ slots) t c r none_there =
    load_all-kept slots t (set_register q (c.blocks t offset) c) r (ground (arith, none_there))
    ∙ ground (arith, none_there)

pub load_all-loaded :
    (slots : Slots) (t : Ptr) (c : Cpu) (p : ℕ × ℕ)
    → distinct slots ≡ true
    → has slots p ≡ true
    → (load_all slots t c).register p.0 ≡ c.blocks t p.1
unfolding load_all
load_all-loaded [] t c p d there = cc
load_all-loaded ((q, offset) ∷ slots) t c p d there = elim (Bool-cases (has slots p)) [
  | inl later ↦
      load_all-loaded slots t (set_register q (c.blocks t offset) c) p (ground (arith, d)) later
  | inr first ↦
      load_all-kept slots t (set_register q (c.blocks t offset) c) p.0
        (ground (arith, d, there, first))
      ∙ ground (arith, there, first)
]

pub load_all-blocks : (slots : Slots) (t : Ptr) (c : Cpu) → (load_all slots t c).blocks ≡ c.blocks
unfolding load_all
load_all-blocks [] t c = refl
load_all-blocks ((q, offset) ∷ slots) t c = load_all-blocks slots t _

pub store_all-register :
    (slots : Slots) (t : Ptr) (c : Cpu) → (store_all slots t c).register ≡ c.register
unfolding store_all
store_all-register [] t c = refl
store_all-register ((r, offset) ∷ slots) t c = store_all-register slots t _

pub store_all-kept :
    (slots : Slots) (t u : Ptr) (c : Cpu) (i : ℕ)
    → ((u == t) && has_offset slots i) ≡ false
    → (store_all slots t c).blocks u i ≡ c.blocks u i
unfolding store_all
store_all-kept [] t u c i none_there = refl
store_all-kept ((r, offset) ∷ slots) t u c i none_there =
    store_all-kept slots t u _ i (ground (arith, none_there)) ∙ ground (arith, none_there)

pub store_all-stored :
    (slots : Slots) (t : Ptr) (c : Cpu) (p : ℕ × ℕ)
    → distinct slots ≡ true
    → has slots p ≡ true
    → (store_all slots t c).blocks t p.1 ≡ c.register p.0
unfolding store_all
store_all-stored [] t c p d there = cc
store_all-stored ((r, offset) ∷ slots) t c p d there = elim (Bool-cases (has slots p)) [
  | inl later ↦ store_all-stored slots t _ p (ground (arith, d)) later
  | inr first ↦
      store_all-kept slots t t _ p.1 (ground (arith, d, there, first))
      ∙ ground (arith, there, first, ==_refl t)
]
