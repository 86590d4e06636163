-- ===== src/Scheduler.antt =====
-- scheduler.h and scheduler.cc, with the destructor and the stack check of thread.cc that `Run`
-- calls, and SWITCH of switch.s: it saves what the old thread has still to do in its control block
-- and takes up what the new one has.
pub mod Places
pub mod Printing
use ooplatingsistm.Base.{
  ℕ, ◌≡◌, Bool, not, Option, none, some, List, [], ◌∷◌, ◌++◌, ◌==◌, if◌then◌else◌,
}
use ooplatingsistm.LinkedList.Heap.{Ptr, null}
use ooplatingsistm.Queue.{append, remove}
use ooplatingsistm.Program.{Frame, after_switch}
use ooplatingsistm.Thread.{Thread, ThreadStatus, running, ready, stack_intact, set_status}
use ooplatingsistm.Kernel.{Kernel, Cmd, Command, ok, pure, ◌>>=◌, ◌>>◌, deref, modify, assert}

abbrev pub update : (Ptr → Option Thread) → Ptr → Option Thread → Ptr → Option Thread
update f p t q = if q == p then t else f q

module _ {D : Type 0} where
  -- `*t`.
  unfoldable pub load_thread : Ptr → Cmd D Thread
  load_thread t k = deref (k.thread t) k

  abbrev pub store_thread : Ptr → Option Thread → Command D
  store_thread t c = modify λ k. record k { thread = update k.thread t c }

  -- `t->setStatus(st)`.
  unfoldable pub change_status : Ptr → ThreadStatus → Command D
  unfolding load_thread
  change_status t st = do c ← load_thread t; store_thread t (some (set_status st c))

  -- `Scheduler::ReadyToRun`.
  unfoldable pub ready_to_run : Ptr → Command D
  unfolding change_status
  ready_to_run t = do
    change_status t ready
    modify λ k. record k { ready_list = append k.ready_list t }

  -- `Scheduler::FindNextToRun`; NULL if nobody is ready.
  unfoldable pub find_next_to_run : Cmd D Ptr
  find_next_to_run k =
      ok (remove k.ready_list).0 (record k { ready_list = (remove k.ready_list).1 })

  -- `Thread::CheckOverflow`.
  unfoldable pub check_overflow : Ptr → Command D
  unfolding load_thread
  check_overflow t = do c ← load_thread t; assert (stack_intact c.stack)

  -- `delete t`, with `Thread::~Thread`.
  unfoldable pub destroy : Ptr → Command D
  unfolding load_thread
  destroy t = do load_thread t >>= λ _. λ k. assert (not (t == k.current)) k; store_thread t none

  abbrev pub push : Frame → Command D
  push f = modify λ k. record k { cpu = f ∷ k.cpu }

  -- `SWITCH(oldThread, nextThread)`.
  unfoldable pub switch : Ptr → Ptr → Command D
  unfolding load_thread
  switch old_thread next_thread = do
    old ← load_thread old_thread
    λ k. store_thread old_thread (some (record old { context = k.cpu })) k
    next ← load_thread next_thread
    modify λ k. record k { cpu = next.context }

  -- `Scheduler::Run` up to `SWITCH`, which comes back at the frame `after_switch`.
  unfoldable pub run : Ptr → Command D
  unfolding check_overflow change_status switch
  run next_thread k =
      let old_thread = k.current in
      (do
        check_overflow old_thread
        modify λ j. record j { current = next_thread }
        change_status next_thread running
        push after_switch
        switch old_thread next_thread)
        k

  -- The rest of `Scheduler::Run`, in the thread that was switched to.
  unfoldable pub finish_run : Command D
  unfolding destroy
  finish_run k =
      (if k.to_be_destroyed == null
          then pure tt
          else (do destroy k.to_be_destroyed; modify λ j. record j { to_be_destroyed = null }))
        k
