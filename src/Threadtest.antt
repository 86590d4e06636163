-- ===== src/Threadtest.antt =====
-- threadtest.cc: the bodies of the test procedures, and what `ThreadTest` calls for a test number.
-- `printf` is kept as its format and arguments; a procedure's address is a number.
pub mod Tests
mod Plain
mod Exclusion
use ooplatingsistm.Base.{ℕ, zero, suc, ◌+◌, List, [], ◌∷◌, ◌==◌, if◌then◌else◌}
use ooplatingsistm.Program.{Stmt, printf, call_yield, call_fork, call_acquire, call_release, Text}

abbrev pub simple_thread_addr : ℕ
simple_thread_addr = 0x1000

abbrev pub lock_thread1_addr : ℕ
lock_thread1_addr = 0x2000

abbrev pub lock_thread2_addr : ℕ
lock_thread2_addr = 0x3000

-- The `for` loop of `SimpleThread`: so many rounds from `num` on.
unfoldable pub simple_rounds : ℕ → (which num : ℕ) → List Stmt
simple_rounds zero which num = []
simple_rounds (suc n) which num =
    printf "*** thread %d looped %d times\n" (which ∷ num ∷ [])
    ∷ call_yield
    ∷ simple_rounds n which (num + 1)

unfoldable pub simple_thread : (which : ℕ) → List Stmt
unfolding simple_rounds
simple_thread which = simple_rounds 5 which 0

unfoldable pub thread_test1 : List Stmt
unfolding simple_thread
thread_test1 = call_fork "forked thread" simple_thread_addr 1 ∷ simple_thread 0

-- `locktest1` is the lock at position 0.
unfoldable pub lock_thread1 : (param : ℕ) → List Stmt
lock_thread1 param =
    printf "L1:0\n" []
    ∷ call_acquire 0
    ∷ printf "L1:1\n" []
    ∷ call_yield
    ∷ printf "L1:2\n" []
    ∷ call_release 0
    ∷ printf "L1:3\n" []
    ∷ []

unfoldable pub lock_thread2 : (param : ℕ) → List Stmt
lock_thread2 param =
    printf "L2:0\n" []
    ∷ call_acquire 0
    ∷ printf "L2:1\n" []
    ∷ call_yield
    ∷ printf "L2:2\n" []
    ∷ call_release 0
    ∷ printf "L2:3\n" []
    ∷ []

unfoldable pub lock_test1 : List Stmt
lock_test1 = call_fork "one" lock_thread1_addr 0 ∷ call_fork "two" lock_thread2_addr 0 ∷ []

-- `ThreadTest`.
unfoldable pub thread_test : (testnum : ℕ) → List Stmt
unfolding thread_test1 lock_test1
thread_test testnum =
    if testnum == 1
    then thread_test1
    else (if testnum == 2 then lock_test1 else printf "No test specified.\n" [] ∷ [])

-- The program's text.
unfoldable pub text : Text
unfolding simple_thread lock_thread1 lock_thread2
text func arg =
    if func == simple_thread_addr
    then simple_thread arg
    else (if func == lock_thread1_addr
        then lock_thread1 arg
        else (if func == lock_thread2_addr then lock_thread2 arg else []))
