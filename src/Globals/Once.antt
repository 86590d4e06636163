-- ===== src/Globals/Once.antt =====
-- `delete` on one variable after the other: objects that are there are deleted once each.
use ooplatingsistm.Base.{
  ℕ, ◌≡◌, ◌≢◌, refl, sym, ap, ◌∙◌, Bool, true, false, not, ◌&&◌, ◌||◌, some, List, [], ◌∷◌, ◌==◌,
  if◌then◌else◌, arith, ==-false_of_ne, Bool-cases, Option-cases, Option, inl, inr, ==_refl,
}
use ooplatingsistm.LinkedList.Heap.{Ptr, null}
use ooplatingsistm.Globals.{
  Global, stats, interrupt, scheduler, timer, current_thread, machine, synch_disk, file_system,
  post_office, index, Globals, delete, delete_all,
}

abbrev pub among : List Global → Global → Bool
among [] g = false
among (h ∷ hs) g = (index h == index g) || among hs g

abbrev pub once : List Global → Bool
once [] = true
once (g ∷ gs) = not (among gs g) && once gs

-- Variables that are still to be deleted hold live objects.
abbrev pub Pending : List Global → Globals → Type 0
Pending gs s = (g : Global) → among gs g ≡ true → s.at g ≢ null → s.live (s.at g) ≡ true

global : ℕ → Global
global n =
    if n == 0
    then stats
    else if n == 1
    then interrupt
    else if n == 2
    then scheduler
    else if n == 3
    then timer
    else if n == 4
    then current_thread
    else if n == 5
    then machine
    else if n == 6
    then synch_disk
    else if n == 7
    then file_system
    else post_office

global-index : (g : Global) → global (index g) ≡ g
unfolding global
global-index stats = refl
global-index interrupt = refl
global-index scheduler = refl
global-index timer = refl
global-index current_thread = refl
global-index machine = refl
global-index synch_disk = refl
global-index file_system = refl
global-index post_office = refl

index_injective : (g h : Global) → index g ≡ index h → g ≡ h
index_injective g h e = sym (global-index g) ∙ ap global e ∙ global-index h

-- No variable holds the object of another one.
abbrev pub Apart : Globals → Type 0
Apart s = (g h : Global) → s.at g ≢ null → s.at g ≡ s.at h → index g ≡ index h

object_elsewhere :
    (s : Globals) (g h : Global)
    → Apart s
    → s.at h ≢ null
    → (index g == index h) ≡ false
    → (s.at h == s.at g) ≡ false
object_elsewhere s g h apart ne other =
    ==-false_of_ne λ (e : s.at h ≡ s.at g). let i = apart h g ne e in ground (arith, i, other)

among-same : (gs : List Global) (g h : Global) → index g ≡ index h → among gs g ≡ among gs h
among-same gs g h e = ap (among gs) (index_injective g h e)

delete-Pending :
    (g : Global) (gs : List Global) (s : Globals)
    → among gs g ≡ false
    → Apart s
    → Pending (g ∷ gs) s
    → Pending gs (record s { live = λ p. if p == s.at g then false else s.live p })
delete-Pending g gs s out apart pending h there ne =
    let other : (index g == index h) ≡ false =
      ==-false_of_ne λ e. let same = among-same gs g h e in ground (arith, same, out, there) in
    rw (object_elsewhere s g h apart ne other) (pending h (rw other there) ne)

-- A deletion of one variable leaves the object of another one alone.
delete-others :
    (s : Globals) (g h : Global) (gs : List Global)
    → Apart s
    → s.at h ≢ null
    → among gs g ≡ false
    → ((if s.at h == s.at g then false else s.live (s.at h)) && not (among gs h))
      ≡ (s.live (s.at h) && not ((index g == index h) || among gs h))
delete-others s g h gs apart ne out = elim (Bool-cases (index g == index h)) [
  | inl same ↦
      let e = index_injective g h (ground (arith, same)) in
      rw (same, ap s.at e, ==_refl (s.at h)) (ground arith)
  | inr other ↦ rw (other, object_elsewhere s g h apart ne other)
]

delete-unset : (g : Global) (s : Globals) → (s.at g == null) ≡ true → delete g s ≡ some s
unfolding delete
delete-unset g s unset = rw unset

delete-set :
    (g : Global) (s : Globals)
    → (s.at g == null) ≡ false
    → s.live (s.at g) ≡ true
    → delete g s ≡ some (record s { live = λ p. if p == s.at g then false else s.live p })
unfolding delete
delete-set g s set there = rw (set, there)

delete_all-step :
    (g : Global) (gs : List Global) (s u : Globals)
    → delete g s ≡ some u
    → delete_all (g ∷ gs) s ≡ delete_all gs u
unfolding delete_all
delete_all-step g gs s u e = rw (e, delete_all)

set_elsewhere :
    (g h : Global) (s : Globals)
    → (s.at g == null) ≡ true
    → s.at h ≢ null
    → (index g == index h) ≡ false
set_elsewhere g h s unset ne =
    ==-false_of_ne λ same. ne (ap s.at (sym (index_injective g h same)) ∙ ground (arith, unset))

pub delete_all-leaves :
    (gs : List Global) (s : Globals)
    → once gs ≡ true
    → Pending gs s
    → Apart s
    → (t : Globals) × (delete_all gs s ≡ some t)
      × ((g : Global) → s.at g ≢ null → t.live (s.at g) ≡ (s.live (s.at g) && not (among gs g)))
unfolding delete_all
delete_all-leaves [] s one pending apart = (s, refl, λ g ne. ground arith)
delete_all-leaves (g ∷ gs) s one pending apart = elim (Bool-cases (s.at g == null)) [
  | inl unset ↦
      let (t, e, kept) =
        delete_all-leaves gs s (ground (arith, one)) (λ h there. pending h (ground (arith, there)))
          apart in
      (
        t,
        delete_all-step g gs s s (delete-unset g s unset) ∙ e,
        λ h ne. kept h ne ∙ rw (set_elsewhere g h s unset ne),
      )
  | inr set ↦
      let s' = record s { live = λ p. if p == s.at g then false else s.live p } in
      let out : among gs g ≡ false = ground (arith, one) in
      let here =
        pending g (rw (==_refl (index g)) refl) (λ (z : s.at g ≡ null). ground (arith, set, z)) in
      let (t, e, kept) =
        delete_all-leaves gs s' (ground (arith, one)) (delete-Pending g gs s out apart pending)
          apart in
      (
        t,
        delete_all-step g gs s s' (delete-set g s set here) ∙ e,
        λ h ne. kept h ne ∙ delete-others s g h gs apart ne out,
      )
]

dead_kept :
    (s t : Globals) (p : Ptr)
    → ◌≡◌ {A = Option Globals} (some s) (some t)
    → s.live p ≡ false
    → t.live p ≡ false
dead_kept s t p e dead = cc

delete-dead :
    (g : Global) (s t : Globals) (p : Ptr)
    → delete g s ≡ some t
    → s.live p ≡ false
    → t.live p ≡ false
unfolding delete
delete-dead g s t p e dead = elim (Bool-cases (s.at g == null)) [
  | inl unset ↦ dead_kept s t p (sym (delete-unset g s unset) ∙ e) dead
  | inr set ↦ elim (Bool-cases (s.live (s.at g))) [
    | inl there ↦
        let s' = record s { live = λ q. if q == s.at g then false else s.live q } in
        dead_kept s' t p (sym (delete-set g s set there) ∙ e) (rw dead (ground arith))
    | inr gone ↦ ground (arith, set, gone, e)
  ]
]

-- Nothing that is dead comes back.
pub delete_all-dead :
    (gs : List Global) (s t : Globals) (p : Ptr)
    → delete_all gs s ≡ some t
    → s.live p ≡ false
    → t.live p ≡ false
unfolding delete_all
delete_all-dead [] s t p e dead = dead_kept s t p e dead
delete_all-dead (g ∷ gs) s t p e dead = elim (Option-cases (delete g s)) [
  | inl failed ↦ ground (arith, failed, e)
  | inr (u, went) ↦
      delete_all-dead gs u t p (sym (delete_all-step g gs s u went) ∙ e)
        (delete-dead g s u p went dead)
]

pub index_apart :
    (h g : Global) (gs : List Global) → among (h ∷ gs) g ≡ false → (index g == index h) ≡ false
index_apart h g gs out = ground (arith, out)
