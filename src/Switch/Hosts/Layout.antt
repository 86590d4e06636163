-- ===== src/Switch/Hosts/Layout.antt =====
-- The layout of a control block on the hosts that load and store: which registers SWITCH must keep, and
-- how the slots of SWITCH, StackAllocate and ThreadRoot fit together.
use ooplatingsistm.Base.{
  ℕ, ◌≡◌, refl, subst, if◌then◌else◌, ◌∙◌, Bool, true, false, ◌&&◌, ◌||◌, List, [], ◌∷◌, ◌==◌,
  arith, Bool-cases, inl, inr,
}
use ooplatingsistm.Switch.Hosts.{Slots, Host, Processor, mips_processor, snake_processor, host}
use ooplatingsistm.Switch.Hosts.LoadStore.{has, has_register, distinct}

abbrev pub among : List ℕ → ℕ → Bool
among [] r = false
among (q ∷ rs) r = (q == r) || among rs r

abbrev pub contains : Slots → Slots → Bool
contains slots [] = true
contains slots (p ∷ ps) = has slots p && contains slots ps

has-same : (slots : Slots) (q p : ℕ × ℕ) → q.0 ≡ p.0 → q.1 ≡ p.1 → has slots p ≡ has slots q
has-same slots q p r i = rw (r, i)

pub contains-has :
    (slots ps : Slots) (p : ℕ × ℕ) → contains slots ps ≡ true → has ps p ≡ true → has slots p ≡ true
contains-has slots [] p all there = cc
contains-has slots ((r, offset) ∷ ps) p all there = elim (Bool-cases (has ps p)) [
  | inl later ↦ contains-has slots ps p (ground (arith, all)) later
  | inr first ↦
      has-same slots (r, offset) p (ground (arith, there, first)) (ground (arith, there, first))
      ∙ ground (arith, all)
]

-- The slots that StackAllocate fills.
abbrev pub filled : Host → Slots
filled h = (h.link, h.pc) ∷ h.startup_pc ∷ h.initial_pc ∷ h.initial_arg ∷ h.when_done_pc ∷ []

-- The registers that the calling convention makes a function keep, the stack pointer among them, and
-- the one that holds the return address.
abbrev pub kept_registers : Processor → List ℕ
kept_registers mips_processor = 16 ∷ 17 ∷ 18 ∷ 19 ∷ 20 ∷ 21 ∷ 22 ∷ 23 ∷ 29 ∷ 30 ∷ 31 ∷ []
kept_registers snake_processor =
    2 ∷ 3 ∷ 4 ∷ 5 ∷ 6 ∷ 7 ∷ 8 ∷ 9 ∷ 10 ∷ 11 ∷ 12 ∷ 13 ∷ 14 ∷ 15 ∷ 16 ∷ 17 ∷ 18 ∷ 30 ∷ []

abbrev pub slot_of : Slots → ℕ → ℕ
slot_of [] r = 0
slot_of ((q, offset) ∷ slots) r = if q == r then offset else slot_of slots r

-- Each of the registers is loaded from where it is stored.
abbrev matched : (stores loads : Slots) → List ℕ → Bool
matched stores loads [] = true
matched stores loads (r ∷ rs) =
    has stores (r, slot_of loads r) && has loads (r, slot_of loads r) && matched stores loads rs

pub matched-has :
    (stores loads : Slots) (rs : List ℕ) (r : ℕ)
    → matched stores loads rs ≡ true
    → among rs r ≡ true
    → (has stores (r, slot_of loads r) ≡ true) × (has loads (r, slot_of loads r) ≡ true)
matched-has stores loads [] r all there = cc
matched-has stores loads (q ∷ rs) r all there = elim (Bool-cases (q == r)) [
  | inl here ↦
      let e : q ≡ r = ground (arith, here) in
      subst
        (λ x. (has stores (x, slot_of loads x) ≡ true) × (has loads (x, slot_of loads x) ≡ true)) e
        (ground (arith, all), ground (arith, all))
  | inr later ↦ matched-has stores loads rs r (ground (arith, all)) (ground (arith, there, later))
]

-- A layout that SWITCH, StackAllocate and ThreadRoot can share.
pub record Laid (h : Host) (rs : List ℕ) : Type 0 where
  pub stores_distinct : distinct h.stores ≡ true
  pub loads_distinct : distinct h.loads ≡ true
  pub all_matched : matched h.stores h.loads rs ≡ true
  pub filled_distinct : distinct (filled h) ≡ true
  pub in_loads : contains h.loads (filled h) ≡ true
  pub argument_free : has_register (filled h) h.old_thread ≡ false
  pub none_cleared : (r : ℕ) → has_register (filled h) r ≡ true → among h.cleared r ≡ false
  pub fence_read : h.checked_word ≡ h.fencepost_word

pub host-Laid : (m : Processor) → Laid (host m) (kept_registers m)
host-Laid mips_processor = record {
  stores_distinct = refl;
  loads_distinct = refl;
  all_matched = refl;
  filled_distinct = refl;
  in_loads = refl;
  argument_free = refl;
  none_cleared = λ r there. ground (arith, there);
  fence_read = refl;
}
host-Laid snake_processor = record {
  stores_distinct = refl;
  loads_distinct = refl;
  all_matched = refl;
  filled_distinct = refl;
  in_loads = refl;
  argument_free = refl;
  none_cleared = λ r there. refl;
  fence_read = refl;
}
