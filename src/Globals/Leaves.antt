-- ===== src/Globals/Leaves.antt =====
-- What `Cleanup` deletes of the objects that `Initialize` has created, and what it leaves.
use ooplatingsistm.Base.{
  ℕ, zero, suc, ◌<◌, ◌≡◌, ◌≢◌, refl, ◌∙◌, Bool, true, false, not, ◌||◌, ◌&&◌, ap, Bool-cases, inl,
  inr, some, List, [], ◌∷◌, ◌==◌, arith,
}
use ooplatingsistm.LinkedList.Heap.{null}
use ooplatingsistm.Cmdline.{Build}
use ooplatingsistm.Globals.{
  Global, stats, interrupt, scheduler, timer, current_thread, machine, synch_disk, file_system,
  post_office, index, Globals, no_globals, create, create_all, created, deleted, cleanup,
}
use ooplatingsistm.Globals.Once.{among, once, delete_all-leaves, delete_all-dead, index_apart}

-- Each variable is NULL or holds a live object below the next address, and no two hold the same.
pub record Owned (s : Globals) : Type 0 where
  pub below : (g : Global) → s.at g < s.next
  pub alive : (g : Global) → s.at g ≢ null → s.live (s.at g) ≡ true
  pub null_dead : s.live null ≡ false
  pub apart : (g h : Global) → s.at g ≢ null → s.at g ≡ s.at h → index g ≡ index h

create-Owned : (g : Global) (s : Globals) → Owned s → Owned (create g s)
create-Owned g s o = record {
  below = λ h. let b = o.below h in ground (arith, b);
  alive = λ h ne. let b = o.below h in let a = o.alive h in ground (arith, b, a, ne);
  null_dead = let b = o.below stats in let d = o.null_dead in ground (arith, b, d);
  apart = λ h i ne e.
      let b = o.below h in
      let b' = o.below i in let a = o.apart h i in ground (arith, b, b', a, ne, e);
}

create_all-Owned : (gs : List Global) (s : Globals) → Owned s → Owned (create_all gs s)
unfolding create_all
create_all-Owned [] s o = o
create_all-Owned (g ∷ gs) s o = create_all-Owned gs (create g s) (create-Owned g s o)

abbrev pub take : ℕ → List Global → List Global
take zero gs = []
take (suc n) [] = []
take (suc n) (g ∷ gs) = g ∷ take n gs

among-take :
    (n : ℕ) (gs : List Global) (g : Global) → among (take n gs) g ≡ true → among gs g ≡ true
among-take zero gs g there = cc
among-take (suc n) [] g there = cc
among-take (suc n) (h ∷ gs) g there = ground (arith, there, among-take n gs g)

create_all-kept :
    (gs : List Global) (s : Globals) (g : Global)
    → Owned s
    → (among gs g || not (s.at g == null)) ≡ true
    → (create_all gs s).at g ≢ null
unfolding create_all
create_all-kept [] s g o there = ground (arith, there)
create_all-kept (h ∷ gs) s g o there =
    create_all-kept gs (create h s) g (create-Owned h s o)
      (let b = o.below g in ground (arith, there, b))

create_all-unset :
    (gs : List Global) (s : Globals) (g : Global)
    → among gs g ≡ false
    → s.at g ≡ null
    → (create_all gs s).at g ≡ null
unfolding create_all
create_all-unset [] s g out unset = unset
create_all-unset (h ∷ gs) s g out unset =
    create_all-unset gs (create h s) g (ground (arith, out)) (rw (index_apart h g gs out) unset)

no_globals-Owned : Owned no_globals
no_globals-Owned = record {
  below = λ g. omega arith;
  alive = λ g ne. absurd (ne refl);
  null_dead = refl;
  apart = λ g h ne e. absurd (ne refl);
}

-- The statistics and the main thread.
abbrev pub is_left : Global → Bool
is_left g = (index g == index stats) || (index g == index current_thread)

once-deleted : (b : Build) → once (deleted b) ≡ true
unfolding deleted
once-deleted b = ground arith

created-deleted :
    (b : Build) (random_yield : Bool) (g : Global)
    → among (created b random_yield) g ≡ true
    → not (among (deleted b) g) ≡ is_left g
unfolding created deleted
created-deleted b random_yield stats there = ground (arith, there)
created-deleted b random_yield interrupt there = ground (arith, there)
created-deleted b random_yield scheduler there = ground (arith, there)
created-deleted b random_yield timer there = ground (arith, there)
created-deleted b random_yield current_thread there = ground (arith, there)
created-deleted b random_yield machine there = ground (arith, there)
created-deleted b random_yield synch_disk there = ground (arith, there)
created-deleted b random_yield file_system there = ground (arith, there)
created-deleted b random_yield post_office there = ground (arith, there)

-- In every build, however many of its objects `Initialize` has created when `Cleanup` is called: it
-- deletes each of those once, but for the statistics and the main thread, which stay.
pub cleanup-leaves :
    (b : Build) (random_yield : Bool) (n : ℕ)
    → let gs = take n (created b random_yield) in
      let s = create_all gs no_globals in
      (t : Globals) × (cleanup b s ≡ some t)
      × ((g : Global) → t.live (s.at g) ≡ (among gs g && is_left g))
unfolding cleanup
cleanup-leaves b random_yield n =
    let gs = take n (created b random_yield) in
    let s = create_all gs no_globals in
    let owned = create_all-Owned gs no_globals no_globals-Owned in
    let (t, e, kept) =
      delete_all-leaves (deleted b) s (once-deleted b) (λ g there ne. owned.alive g ne)
        owned.apart in
    (
      t,
      e,
      λ g. elim (Bool-cases (among gs g)) [
        | inl there ↦
            let set = create_all-kept gs no_globals g no_globals-Owned (rw there) in
            kept g set
            ∙ rw (owned.alive g set, there)
                (created-deleted b random_yield g (among-take n (created b random_yield) g there))
        | inr out ↦
            ap t.live (create_all-unset gs no_globals g out refl)
            ∙ delete_all-dead (deleted b) s t null e owned.null_dead
            ∙ rw out
      ],
    )
