-- ===== src/Main/Fuel.antt =====
-- The second loop of `main` ends: the fuel that `main` gives it is enough.
use ooplatingsistm.Base.{
  ℕ, zero, suc, ◌≤◌, ◌≡◌, ◌≢◌, Bool, some, List, [], ◌∷◌, length, arith, Option-cases, Bool-cases,
  inl, inr,
}
use ooplatingsistm.Debugging.{CString}
use ooplatingsistm.Cmdline.{Build, CLibrary, no_options, parse_options, parse_testnum}
use ooplatingsistm.Main.{
  Call, finish, returned, unfinished, thread_test, Trace, MainFlag, copyright_flag, run_flag,
  console_flag, copy_flag, print_flag, remove_flag, list_flag, dump_flag, performance_flag,
  mail_flag, no_main_flag, main_flag, perform, main_word, main_loop, finished, main,
}

module _ (returns : Call → Bool) where
  perform-ends :
      (cs : List Call) (rest : Trace)
      → rest.end ≢ unfinished
      → (perform returns cs rest).end ≢ unfinished
  unfolding perform
  perform-ends [] rest h = h
  perform-ends (c ∷ cs) rest h = ground (arith, perform-ends cs rest h)

  module _ {F : Type 0} (lib : CLibrary F) where
    main_word-shorter :
        (f : MainFlag) (argv left : List CString) (cs : List Call)
        → main_word returns lib f argv ≡ some (cs, left)
        → length left ≤ length argv
    unfolding main_word
    main_word-shorter copyright_flag argv left cs e = ground (arith, e)
    main_word-shorter run_flag [] left cs e = cc
    main_word-shorter run_flag (x ∷ argv) left cs e = ground (arith, e)
    main_word-shorter console_flag [] left cs e = ground (arith, e)
    main_word-shorter console_flag (x ∷ []) left cs e = cc
    main_word-shorter console_flag (x ∷ y ∷ argv) left cs e = ground (arith, e)
    main_word-shorter copy_flag [] left cs e = cc
    main_word-shorter copy_flag (x ∷ []) left cs e = cc
    main_word-shorter copy_flag (x ∷ y ∷ argv) left cs e = ground (arith, e)
    main_word-shorter print_flag [] left cs e = cc
    main_word-shorter print_flag (x ∷ argv) left cs e = ground (arith, e)
    main_word-shorter remove_flag [] left cs e = cc
    main_word-shorter remove_flag (x ∷ argv) left cs e = ground (arith, e)
    main_word-shorter list_flag argv left cs e = ground (arith, e)
    main_word-shorter dump_flag argv left cs e = ground (arith, e)
    main_word-shorter performance_flag argv left cs e = ground (arith, e)
    main_word-shorter mail_flag [] left cs e = cc
    main_word-shorter mail_flag (x ∷ argv) left cs e = ground (arith, e)
    main_word-shorter no_main_flag argv left cs e = ground (arith, e)

    main_loop-ends :
        (b : Build) (n : ℕ) (argv : List CString) (rest : Trace)
        → length argv ≤ n
        → rest.end ≢ unfinished
        → (main_loop returns lib b n argv rest).end ≢ unfinished
    unfolding main_loop
    main_loop-ends b n [] rest le h = h
    main_loop-ends b zero (a ∷ argv) rest le h = absurd (omega (arith, le))
    main_loop-ends b (suc n) (a ∷ argv) rest le h =
        elim (Option-cases (main_word returns lib (main_flag b a) argv)) [
          | inl failed ↦ rw (failed, main_loop) (λ e. cc)
          | inr ((cs, left), went) ↦
              let shorter = main_word-shorter (main_flag b a) argv left cs went in
              rw (went, main_loop)
                (perform-ends cs _ (main_loop-ends b n left rest (omega (arith, le, shorter)) h))
        ]

    finished-ends : (finished returns lib).end ≢ unfinished
    unfolding finished
    finished-ends = perform-ends (finish ∷ []) (record { calls = []; end = returned }) λ e. cc

    -- In every build and for every command line, `main` does not run out of the fuel that the model
    -- gives its loop: the loop passes over one argument at least in each round.
    pub main-ends :
        (b : Build) (argv : List CString) (testnum : ℕ)
        → (main returns lib b argv testnum).end ≢ unfinished
    unfolding main
    main-ends b argv testnum = elim (Option-cases (parse_options lib b argv (no_options lib))) [
      | inl failed ↦ rw (failed, main) (λ e. cc)
      | inr (o, parsed) ↦ elim (Bool-cases b.threads) [
        | inr off ↦
            rw (parsed, main, off)
              (main_loop-ends b (length argv) argv (finished returns lib) (omega arith)
                finished-ends)
        | inl on ↦ elim (Option-cases (parse_testnum lib.atoi argv testnum)) [
          | inl past ↦ rw (parsed, main, on, past) (λ e. cc)
          | inr (n, chosen) ↦
              rw (parsed, main, on, chosen)
                (perform-ends (thread_test n ∷ []) (finished returns lib) finished-ends)
        ]
      ]
    ]
