-- ===== src/Main.antt =====
-- `main` of main.cc, for every build: the calls that it makes, in order. The program's other parts
-- and the hardware simulation, which it calls, are seen from outside; whether such a call returns is
-- a parameter.
pub mod Words
pub mod Commands
pub mod Fuel
mod Tests
use ooplatingsistm.Base.{
  ℕ, zero, suc, Bool, true, false, ◌&&◌, Option, none, some, List, [], ◌∷◌, ◌++◌, length,
  if◌then◌else◌,
}
use ooplatingsistm.Debugging.{CString}
use ooplatingsistm.Cmdline.{
  Build, CLibrary, str_eq, dash, Options, no_options, parse_options, parse_testnum,
}

pub data Call : Type 0 where
  print_copyright : Call
  start_process : CString → Call
  console_test : Option (CString × CString) → Call
  halt : Call
  copy : CString → CString → Call
  print_file remove_file : CString → Call
  list_directory print_filesystem performance_test : Call
  delay mail_test : ℕ → Call
  thread_test : ℕ → Call
  finish : Call

-- How `main` ends: it returns, an ASSERT fails, it reads through a NULL of `argv`, or a call does not
-- come back. `unfinished` is for a loop that has used up its fuel.
pub data End : Type 0 where
  returned assertion_failed null_read no_return unfinished : End

pub record Trace : Type 0 where
  pub calls : List Call
  pub end : End

-- The words that the second loop of `main` knows, each if the build has it.
pub data MainFlag : Type 0 where
  copyright_flag run_flag console_flag copy_flag print_flag remove_flag list_flag dump_flag :
      MainFlag
  performance_flag mail_flag no_main_flag : MainFlag

unfoldable pub main_flag : Build → CString → MainFlag
main_flag b a =
    if str_eq a (dash b'z')
    then copyright_flag
    else if b.user_program && str_eq a (dash b'x')
    then run_flag
    else if b.user_program && str_eq a (dash b'c')
    then console_flag
    else if b.filesys && str_eq a (b'-' ∷ b'c' ∷ b'p' ∷ [])
    then copy_flag
    else if b.filesys && str_eq a (dash b'p')
    then print_flag
    else if b.filesys && str_eq a (dash b'r')
    then remove_flag
    else if b.filesys && str_eq a (dash b'l')
    then list_flag
    else if b.filesys && str_eq a (dash b'D')
    then dump_flag
    else if b.filesys && str_eq a (dash b't')
    then performance_flag
    else if b.network && str_eq a (dash b'o')
    then mail_flag
    else no_main_flag

module _ (returns : Call → Bool) where
  -- The calls are made, one after the other, and then what `rest` says happens.
  unfoldable pub perform : List Call → Trace → Trace
  perform [] rest = rest
  perform (c ∷ cs) rest = elim (returns c) [
    | true ↦ let more = perform cs rest in record { calls = c ∷ more.calls; end = more.end }
    | false ↦ record { calls = c ∷ []; end = no_return }
  ]

  module _ {F : Type 0} (lib : CLibrary F) where
    -- What the body of the second loop does behind a word: its calls, and the arguments that are
    -- left. `none` is a failed ASSERT.
    unfoldable pub main_word : MainFlag → List CString → Option (List Call × List CString)
    main_word copyright_flag argv = some (print_copyright ∷ [], argv)
    main_word run_flag (x ∷ argv) = some (start_process x ∷ [], argv)
    main_word console_flag [] = some (console_test none ∷ halt ∷ [], [])
    main_word console_flag (x ∷ y ∷ argv) = some (console_test (some (x, y)) ∷ halt ∷ [], argv)
    main_word copy_flag (x ∷ y ∷ argv) = some (copy x y ∷ [], argv)
    main_word print_flag (x ∷ argv) = some (print_file x ∷ [], argv)
    main_word remove_flag (x ∷ argv) = some (remove_file x ∷ [], argv)
    main_word list_flag argv = some (list_directory ∷ [], argv)
    main_word dump_flag argv = some (print_filesystem ∷ [], argv)
    main_word performance_flag argv = some (performance_test ∷ [], argv)
    main_word mail_flag (x ∷ argv) = some (delay 2 ∷ mail_test (lib.atoi x) ∷ [], argv)
    main_word no_main_flag argv = some ([], argv)
    main_word _ _ = none

    -- The second loop, and `rest` behind it.
    unfoldable pub main_loop : Build → ℕ → List CString → Trace → Trace
    unfolding main_word
    main_loop b n [] rest = rest
    main_loop b zero (a ∷ argv) rest = record { calls = []; end = unfinished }
    main_loop b (suc n) (a ∷ argv) rest = elim (main_word (main_flag b a) argv) [
      | none ↦ record { calls = []; end = assertion_failed }
      | some (cs, left) ↦ perform cs (main_loop b n left rest)
    ]

    -- `currentThread->Finish()`.
    abbrev pub finished : Trace
    unfolding perform
    finished = perform (finish ∷ []) (record { calls = []; end = returned })

    -- Under THREADS the first loop leaves `argc` at 0, so that the second is not entered.
    unfoldable pub main : Build → List CString → (testnum : ℕ) → Trace
    main b argv testnum = elim (parse_options lib b argv (no_options lib)) [
      | none ↦ record { calls = []; end = assertion_failed }
      | some o ↦ elim b.threads [
        | true ↦ elim (parse_testnum lib.atoi argv testnum) [
          | none ↦ record { calls = []; end = null_read }
          | some n ↦ perform (thread_test n ∷ []) finished
        ]
        | false ↦ main_loop b (length argv) argv finished
      ]
    ]
