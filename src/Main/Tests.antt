-- ===== src/Main/Tests.antt =====
-- Command lines of the build with everything and of the one with threads alone. All calls come back
-- but `Interrupt::Halt`, the user program and `Finish`.
use ooplatingsistm.Base.{◌≡◌, refl, Bool, true, false, List, [], ◌∷◌, ◌++◌, arith}
use ooplatingsistm.Cmdline.{init_flag, parse_options, dash, no_options}
use ooplatingsistm.Cmdline.Testnum.{Word, choose, plain, print_words, chosen}
use ooplatingsistm.Cmdline.Tests.{digits, everything, only_threads}
use ooplatingsistm.Main.{
  Call, start_process, halt, copy, thread_test, finish, returned, no_return, assertion_failed,
  null_read, main_flag, main_loop, perform, main, finished,
}
use ooplatingsistm.Main.Words.{Command, with_one, with_two, print_commands, all_asked, at_end}
use ooplatingsistm.Main.Commands.{main-commands, main-threads}

abbrev comes_back : Call → Bool
comes_back halt = false
comes_back (start_process file) = false
comes_back finish = false
comes_back _ = true

-- "-cp a b -x f"
abbrev commands : List (Command everything)
unfolding main_flag
commands =
    with_two (b'-' ∷ b'c' ∷ b'p' ∷ []) (b'a' ∷ []) (b'b' ∷ []) refl
    ∷ with_one (dash b'x') (b'f' ∷ []) refl
    ∷ []

copied_and_run : main comes_back digits everything (print_commands commands) 1 ≡ record {
  calls = copy (b'a' ∷ []) (b'b' ∷ []) ∷ start_process (b'f' ∷ []) ∷ [];
  end = no_return;
}
unfolding main main_loop perform parse_options init_flag main_flag print_commands commands
copied_and_run = refl

-- "-l", which lists the directory without the network, but sets its reliability with it.
list_fails :
    main comes_back digits everything (dash b'l' ∷ []) 1
    ≡ record { calls = []; end = assertion_failed }
unfolding main parse_options init_flag
list_fails = refl

main-commands_example :
    (main comes_back digits everything (print_commands commands) 1
      ≡ perform comes_back (all_asked digits.atoi commands) (finished comes_back digits))
    × (main comes_back digits everything (print_commands commands ++ dash b'c' ∷ []) 1
        ≡ perform comes_back (all_asked digits.atoi commands) (
            at_end comes_back digits
              (main_flag everything (dash b'c'))
              (finished comes_back digits)))
unfolding parse_options init_flag main_flag print_commands commands
main-commands_example =
    main-commands comes_back digits commands (dash b'c') 1 (no_options digits) (no_options digits)
      refl (omega arith) refl refl

-- "-z -q 2", and "-q" behind it.
abbrev words : List Word
words = plain (dash b'z') refl refl ∷ choose (dash b'q') (b'2' ∷ []) refl refl ∷ []

main-threads_example :
    (main comes_back digits only_threads (print_words words) 1
      ≡ perform comes_back
          (thread_test (chosen digits.atoi words 1) ∷ finish ∷ [])
          (record { calls = []; end = returned }))
    × (main comes_back digits only_threads (print_words words ++ dash b'q' ∷ []) 1
        ≡ record { calls = []; end = null_read })
unfolding parse_options init_flag print_words
main-threads_example =
    main-threads comes_back digits only_threads words (dash b'q') 1 (no_options digits)
      (no_options digits) refl refl refl refl refl
