-- ===== src/Threadtest/Plain.antt =====
-- The test programs call nothing that asserts, so no run of them fails an assertion.
use mathlib.Core.List.{map}
use ooplatingsistm.Base.{
  [], ◌∷◌, ℕ, arith, refl, ◌≡◌, ◌≢◌, List, ◌==◌, All, Bool, true, false, if◌then◌else◌,
}
use ooplatingsistm.Program.{int_off}
use ooplatingsistm.Kernel.{abort, ok}
use ooplatingsistm.Kernel.Frames.{IsPlain}
use ooplatingsistm.Machine.{step}
use ooplatingsistm.System.Safe.{PlainText, the_step, no_assertion_fails}
use ooplatingsistm.Kernel.{crash}
use ooplatingsistm.Kernel.Alive.{body_fits}
use ooplatingsistm.ThreadOps.Survival.{HandlersFit}
use ooplatingsistm.System.Alive.{sizes, no_crash}
use ooplatingsistm.Scheduler.Printing.{name_of, print}
use ooplatingsistm.System.Printing.{Reach-print}
use ooplatingsistm.System.Progress.{GoesOn, Reach-GoesOn}
use ooplatingsistm.Threadtest.{
  text, thread_test, simple_thread_addr, lock_thread1_addr, lock_thread2_addr,
}
use ooplatingsistm.Threadtest.Tests.{plain, after, garbage, image, setup, two_steps}

All-choice :
    {A : Type 0} (P : A → Type 0) (b : Bool) (xs ys : List A)
    → All P xs
    → All P ys
    → All P (if b then xs else ys)
All-choice P true xs ys x y = x
All-choice P false xs ys x y = y

text-PlainText : PlainText text
unfolding text
text-PlainText func arg =
    All-choice IsPlain (func == simple_thread_addr) _ _
      (tt, (tt, (tt, (tt, (tt, (tt, (tt, (tt, (tt, (tt, tt))))))))))
      (All-choice IsPlain (func == lock_thread1_addr) _ _
        (tt, (tt, (tt, (tt, (tt, (tt, (tt, tt)))))))
        (All-choice IsPlain (func == lock_thread2_addr) _ _
          (tt, (tt, (tt, (tt, (tt, (tt, (tt, tt))))))) tt))

thread_test-IsPlain : All IsPlain (thread_test 2)
unfolding thread_test
thread_test-IsPlain = (tt, (tt, tt))

no_assertion_fails_example : step image (after 2 2) ≢ abort
no_assertion_fails_example =
    no_assertion_fails image text-PlainText int_off garbage (setup 2) thread_test-IsPlain two_steps
      the_step

no_handlers : HandlersFit plain (sizes (setup 2))
no_handlers d e vs h = cc

text_fits : (func arg : ℕ) → body_fits (sizes (setup 2)) (text func arg) ≡ true
unfolding text
text_fits func arg = ground arith

main_fits : body_fits (sizes (setup 2)) (thread_test 2) ≡ true
unfolding thread_test
main_fits = refl

no_crash_example : step image (after 2 2) ≢ crash
no_crash_example =
    no_crash image int_off garbage (setup 2) no_handlers text_fits main_fits refl two_steps the_step

-- Main has forked two threads, and neither has run.
forked_ready : (after 2 2).ready_list ≢ []
unfolding after
forked_ready e = cc

Reach-GoesOn_example : GoesOn (step image (after 2 2))
Reach-GoesOn_example =
    Reach-GoesOn image int_off garbage (setup 2) no_handlers text_fits main_fits refl text-PlainText
      thread_test-IsPlain (omega arith) two_steps the_step forked_ready

Reach-print_example :
    print (after 2 2)
    ≡ ok
        (("Ready list contents:\n", [])
          ∷ map (λ t. ("%s, ", name_of ((after 2 2).thread t) ∷ [])) (after 2 2).ready_list)
        (after 2 2)
Reach-print_example =
    Reach-print image int_off garbage (setup 2) no_handlers text_fits main_fits refl two_steps
