-- ===== src/Main/Commands.antt =====
-- What `main` makes of the commands on its command line.
use ooplatingsistm.Base.{
  ℕ, zero, suc, ◌≤◌, ◌≡◌, ◌≢◌, refl, ap, sym, ◌∙◌, Bool, true, false, some, List, [], ◌∷◌, ◌++◌,
  length, arith,
}
use ooplatingsistm.Debugging.{CString}
use ooplatingsistm.Cmdline.{
  Build, CLibrary, Options, no_options, parse_options, is_empty, is_q, second,
}
use ooplatingsistm.Cmdline.Testnum.{Word, print_words, chosen, parse_testnum-chosen}
use ooplatingsistm.Main.{
  Call, thread_test, finish, returned, null_read, Trace, main_flag, perform, main_word, main_loop,
  finished, main,
}
use ooplatingsistm.Main.Words.{
  arity, Command, bare, with_one, with_two, length-snoc, print_commands, all_asked, perform-append,
  bare_word, one_word, two_words, at_end, last_word,
}

module _ (returns : Call → Bool) where
  module _ {F : Type 0} (lib : CLibrary F) where
    loop_step :
        (b : Build) (n : ℕ) (a : CString) (argv left : List CString) (cs ds : List Call)
        (rest t : Trace)
        → main_word returns lib (main_flag b a) argv ≡ some (cs, left)
        → main_loop returns lib b n left rest ≡ perform returns ds t
        → main_loop returns lib b (suc n) (a ∷ argv) rest ≡ perform returns (cs ++ ds) t
    unfolding main_loop
    loop_step b n a argv left cs ds rest t e q =
        rw (e, main_loop) (ap (perform returns cs) q ∙ sym (perform-append returns cs ds t))

    -- The loop carries out the commands in order. A word that wants others and stands last fails the
    -- assertion, but for `-c`.
    pub main_loop-commands :
        {b : Build} (cs : List (Command b)) (n : ℕ) (a : CString) (rest : Trace)
        → arity (main_flag b a) ≢ 0
        → length (print_commands cs) ≤ n
        → (main_loop returns lib b n (print_commands cs) rest
            ≡ perform returns (all_asked lib.atoi cs) rest)
          × (main_loop returns lib b (suc n) (print_commands cs ++ a ∷ []) rest
              ≡ perform returns (all_asked lib.atoi cs) (at_end returns lib (main_flag b a) rest))
    unfolding main_loop print_commands all_asked perform
    main_loop-commands {b} [] n a rest ne le =
        (refl, last_word returns lib b n a rest (main_flag b a) refl ne)
    main_loop-commands {b} (bare c e ∷ cs) zero a rest ne le = absurd (omega (arith, le))
    main_loop-commands {b} (with_one c x e ∷ cs) zero a rest ne le = absurd (omega (arith, le))
    main_loop-commands {b} (with_two c x y e ∷ cs) zero a rest ne le = absurd (omega (arith, le))
    main_loop-commands {b} (bare c e ∷ cs) (suc n) a rest ne le =
        let (q, q') = main_loop-commands cs n a rest ne (omega (arith, le)) in
        let f = main_flag b c in
        (
          loop_step b n c _ _ _ _ rest _ (bare_word returns lib f _ e) q,
          loop_step b (suc n) c _ _ _ _ rest _ (bare_word returns lib f _ e) q',
        )
    main_loop-commands {b} (with_one c x e ∷ cs) (suc n) a rest ne le =
        let (q, q') = main_loop-commands cs n a rest ne (omega (arith, le)) in
        let f = main_flag b c in
        (
          loop_step b n c _ _ _ _ rest _ (one_word returns lib f x _ e) q,
          loop_step b (suc n) c _ _ _ _ rest _ (one_word returns lib f x _ e) q',
        )
    main_loop-commands {b} (with_two c x y e ∷ cs) (suc n) a rest ne le =
        let (q, q') = main_loop-commands cs n a rest ne (omega (arith, le)) in
        let f = main_flag b c in
        (
          loop_step b n c _ _ _ _ rest _ (two_words returns lib f x y _ e) q,
          loop_step b (suc n) c _ _ _ _ rest _ (two_words returns lib f x y _ e) q',
        )

    -- In a build without THREADS, if `Initialize` accepts the command line, `main` carries out the
    -- commands in order, up to the first that does not come back, and then calls `Finish`. A word
    -- that wants others and stands last fails the assertion, but for `-c`, which tests the console
    -- on the standard files and halts.
    pub main-commands :
        {b : Build} (cs : List (Command b)) (a : CString) (testnum : ℕ) (o o' : Options F)
        → b.threads ≡ false
        → arity (main_flag b a) ≢ 0
        → parse_options lib b (print_commands cs) (no_options lib) ≡ some o
        → parse_options lib b (print_commands cs ++ a ∷ []) (no_options lib) ≡ some o'
        → (main returns lib b (print_commands cs) testnum
            ≡ perform returns (all_asked lib.atoi cs) (finished returns lib))
          × (main returns lib b (print_commands cs ++ a ∷ []) testnum
              ≡ perform returns
                  (all_asked lib.atoi cs)
                  (at_end returns lib (main_flag b a) (finished returns lib)))
    unfolding main main_flag all_asked
    main-commands {b} cs a testnum o o' off ne e e' =
        let n = length (print_commands cs) in
        let (q, q') = main_loop-commands cs n a (finished returns lib) ne (omega arith) in
        (rw (main, e, off) q, rw (main, e', off, length-snoc (print_commands cs) a) q')

    -- In a build with THREADS, if `Initialize` accepts the command line, `main` calls `ThreadTest`
    -- with the number that its first loop has chosen, and then `Finish`, and nothing else, whatever
    -- other commands stand there. A choice without a number at the very end reads through NULL.
    pub main-threads :
        (b : Build) (ws : List Word) (a : CString) (testnum : ℕ) (o o' : Options F)
        → b.threads ≡ true
        → is_empty a ≡ false
        → is_q (second a) ≡ true
        → parse_options lib b (print_words ws) (no_options lib) ≡ some o
        → parse_options lib b (print_words ws ++ a ∷ []) (no_options lib) ≡ some o'
        → (main returns lib b (print_words ws) testnum
            ≡ perform returns
                (thread_test (chosen lib.atoi ws testnum) ∷ finish ∷ [])
                (record { calls = []; end = returned }))
          × (main returns lib b (print_words ws ++ a ∷ []) testnum
              ≡ record { calls = []; end = null_read })
    unfolding main perform finished
    main-threads b ws a testnum o o' on some_char q e e' =
        let (f, _, f'') =
          parse_testnum-chosen lib.atoi ws a (b'-' ∷ []) testnum some_char refl q refl in
        (
          rw (main, e, on, f)
              (sym (
                perform-append returns (thread_test (chosen lib.atoi ws testnum) ∷ []) (finish ∷ [])
                  _)),
          rw (main, e', on, f''),
        )
