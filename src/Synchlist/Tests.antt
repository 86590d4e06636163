-- ===== src/Synchlist/Tests.antt =====
-- A list that holds thread 1's items 5 and 6, and an empty one, both with a lock that thread 2 waits
-- for.
use ooplatingsistm.Base.{arith, ◌≡◌, ◌≢◌, refl, none, [], ◌∷◌}
use ooplatingsistm.Program.{IntStatus, int_off}
use ooplatingsistm.Kernel.{Kernel, SynchList}
use ooplatingsistm.Kernel.Outcomes.{Succeeds}
use ooplatingsistm.Synch.Tests.{busy, two_threads}
use ooplatingsistm.Synchlist.{put_rest, take_rest, mapcar_rest}
use ooplatingsistm.Synchlist.Rest.{
  Released, put_rest-Released, take_rest-Released, mapcar_rest-Released,
}
use ooplatingsistm.Threadtest.Tests.{plain}

abbrev two_items : SynchList
two_items = record { list = 5 ∷ 6 ∷ []; lock = 0 }

abbrev no_items : SynchList
no_items = record { list = []; lock = 0 }

abbrev two_lists : Kernel IntStatus
two_lists = record (two_threads int_off) {
  ready_list = [];
  synch_lists = two_items ∷ no_items ∷ [];
}

waiter_exists : two_lists.thread 2 ≢ none
waiter_exists e = cc

put_rest-Released_example :
    Succeeds
      (λ _ j.
        (j.synch_lists ≡ record two_items { list = 5 ∷ 6 ∷ 7 ∷ [] } ∷ no_items ∷ [])
        × (j.taken ≡ [])
        × Released two_lists 0 busy j)
      (put_rest 0 7 two_lists)
put_rest-Released_example =
    put_rest-Released 0 7 two_lists two_items busy refl refl λ _. waiter_exists

take_rest-Released_example :
    Succeeds
      (λ _ j.
        (j.synch_lists ≡ record two_items { list = 6 ∷ [] } ∷ no_items ∷ [])
        × (j.taken ≡ (1, 5) ∷ [])
        × Released two_lists 0 busy j)
      (take_rest 0 two_lists)
take_rest-Released_example =
    take_rest-Released 0 two_lists 5 (6 ∷ []) two_items busy refl refl (omega arith) refl
      λ _. waiter_exists

mapcar_rest-Released_example :
    Succeeds
      (λ _ j.
        (j.output ≡ ("%d", 5 ∷ []) ∷ ("%d", 6 ∷ []) ∷ [])
        × (j.synch_lists ≡ two_items ∷ no_items ∷ [])
        × (j.taken ≡ [])
        × Released two_lists 0 busy j)
      (mapcar_rest 0 "%d" two_lists)
mapcar_rest-Released_example =
    mapcar_rest-Released 0 "%d" two_lists two_items busy refl refl λ _. waiter_exists
