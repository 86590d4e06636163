-- ===== src/Threadtest/Exclusion.antt =====
-- LockTest1 is well bracketed, so that its lock excludes.
use ooplatingsistm.Base.{ℕ, ◌≡◌, ◌≢◌, refl, true, [], arith, get_elem?}
use ooplatingsistm.Program.{int_off}
use ooplatingsistm.Machine.{Reach, here, run_until-Reach}
use ooplatingsistm.System.{initialize}
use ooplatingsistm.Kernel.Stacks.{stack_of}
use ooplatingsistm.Synch.Brackets.{holds, well_bracketed}
use ooplatingsistm.Synch.Exclusion.{held_of}
use ooplatingsistm.System.Exclusion.{list_lock, mutual_exclusion}
use ooplatingsistm.Threadtest.{text, thread_test}
use ooplatingsistm.Threadtest.Tests.{plain, after, garbage, image, setup}

text_bracketed : (func arg : ℕ) → well_bracketed (list_lock []) 0 (text func arg) ≡ true
unfolding text
text_bracketed func arg = ground arith

main_bracketed : well_bracketed (list_lock []) 0 (thread_test 2) ≡ true
unfolding thread_test
main_bracketed = refl

lock_test_reached : Reach image (initialize int_off garbage (setup 2)) (after 2 14)
unfolding after
lock_test_reached = run_until-Reach image 14 here

first_holds : holds (list_lock []) 0 (stack_of (after 2 14) 2) ≡ true
unfolding after
first_holds = refl

mutual_exclusion_example : (◌≡◌ {A = ℕ} 2 2) × (held_of (get_elem? (after 2 14).locks 0) ≢ 0)
mutual_exclusion_example =
    mutual_exclusion image 0 int_off garbage (setup 2) text_bracketed main_bracketed 2 2
      lock_test_reached first_holds first_holds
