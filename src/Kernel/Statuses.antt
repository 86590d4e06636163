-- ===== src/Kernel/Statuses.antt =====
-- The status of a thread, and where it is.
use ooplatingsistm.Base.{ℕ, ◌+◌, ◌≤◌, ◌≡◌, ◌≢◌, Option, none, some, same, count}
use ooplatingsistm.LinkedList.Heap.{Ptr}
use ooplatingsistm.Thread.{Thread, ThreadStatus, running, ready, blocked}
use ooplatingsistm.Kernel.{Kernel}
use ooplatingsistm.Kernel.Places.{waiting}

abbrev pub status_of : Option Thread → Option ThreadStatus
status_of none = none
status_of (some c) = some c.status

module _ {D : Type 0} where
  -- How often a thread is in a place other than the processor.
  abbrev pub filed : Ptr → Kernel D → ℕ
  filed t k = count t k.ready_list + waiting t k + same k.to_be_destroyed t

  -- The status of a thread agrees with the place where it is, and it is in one at most; a thread
  -- that is ready is on the ready list.
  abbrev pub Placed : Ptr → Kernel D → Type 0
  Placed t k =
      (count t k.ready_list ≢ 0 → status_of (k.thread t) ≡ some ready)
      × (waiting t k ≢ 0 → status_of (k.thread t) ≡ some blocked)
      × (k.to_be_destroyed ≡ t → status_of (k.thread t) ≡ some blocked)
      × (filed t k ≤ 1)
      × (status_of (k.thread t) ≡ some ready → count t k.ready_list ≢ 0)

  -- The same, where no thread runs.
  abbrev pub Filed : Ptr → Kernel D → Type 0
  Filed t k = Placed t k × (status_of (k.thread t) ≢ some running)

  -- The same, where the current thread, and it alone, runs.
  abbrev pub Agrees : Ptr → Kernel D → Type 0
  Agrees t k =
      Placed t k
      × (k.current ≡ t → status_of (k.thread t) ≡ some running)
      × (status_of (k.thread t) ≡ some running → k.current ≡ t)
      × (k.current ≡ t → filed t k ≡ 0)
