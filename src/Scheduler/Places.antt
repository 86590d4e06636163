-- ===== src/Scheduler/Places.antt =====
-- How the operations of scheduler.cc move threads between their places.
use ooplatingsistm.Base.{◌+◌, ◌≡◌, ◌≢◌, refl, [], ◌∷◌, arith, same, count-append}
use ooplatingsistm.LinkedList.Heap.{Ptr, null}
use ooplatingsistm.Queue.{Queue, remove}
use ooplatingsistm.Thread.{ThreadStatus}
use ooplatingsistm.Kernel.{Kernel, ok}
use ooplatingsistm.Kernel.Outcomes.{Ensures}
use ooplatingsistm.Kernel.Places.{places, SamePlaces}
use ooplatingsistm.Scheduler.{change_status, ready_to_run, find_next_to_run, run, finish_run}

pub change_status-places :
    {D : Type 0} (k : Kernel D) (r : Ptr) (st : ThreadStatus)
    → Ensures (λ _ j. SamePlaces k j) (change_status r st k)
unfolding change_status
change_status-places k r st = ground arith

module _ {D : Type 0} (t : Ptr) (k : Kernel D) where
  pub ready_to_run-places :
      (r : Ptr) → Ensures (λ _ j. places t j ≡ places t k + same r t) (ready_to_run r k)
  unfolding ready_to_run
  ready_to_run-places r = ground (arith, count-append t k.ready_list (r ∷ []))

  pub find_next_to_run-places :
      t ≢ null → Ensures (λ n j. places t j + same n t ≡ places t k) (find_next_to_run k)
  unfolding find_next_to_run
  find_next_to_run-places ne = first k.ready_list refl
    where
      first :
          (q : Queue)
          → k.ready_list ≡ q
          → Ensures
              (λ n j. places t j + same n t ≡ places t k)
              (ok (remove q).0 (record k { ready_list = (remove q).1 }))
      first [] e = ground arith
      first (n ∷ q) e = ground arith

  pub run-places :
      (n : Ptr)
      → Ensures
          (λ _ j.
            (places t j + same k.current t ≡ places t k + same n t)
            × (j.to_be_destroyed ≡ k.to_be_destroyed))
          (run n k)
  unfolding run
  run-places n = ground arith

  pub finish_run-places :
      t ≢ null → Ensures (λ _ j. places t j + same k.to_be_destroyed t ≡ places t k) (finish_run k)
  unfolding finish_run
  finish_run-places ne = ground arith
