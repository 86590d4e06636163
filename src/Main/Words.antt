-- ===== src/Main/Words.antt =====
-- What the words of a command make the second loop of `main` do.
use ooplatingsistm.Base.{
  ℕ, suc, ◌≡◌, ◌≢◌, refl, ap, Bool, none, some, List, [], ◌∷◌, ◌++◌, length, arith,
}
use ooplatingsistm.Debugging.{CString}
use ooplatingsistm.Cmdline.{Build, CLibrary}
use ooplatingsistm.Main.{
  Call, print_copyright, start_process, console_test, halt, copy, print_file, remove_file,
  list_directory, print_filesystem, performance_test, delay, mail_test, assertion_failed, Trace,
  MainFlag, copyright_flag, run_flag, console_flag, copy_flag, print_flag, remove_flag, list_flag,
  dump_flag, performance_flag, mail_flag, no_main_flag, main_flag, perform, main_word, main_loop,
}

-- How many words belong to a command, and what it asks for.
abbrev pub arity : MainFlag → ℕ
arity run_flag = 1
arity console_flag = 2
arity copy_flag = 2
arity print_flag = 1
arity remove_flag = 1
arity mail_flag = 1
arity _ = 0

abbrev pub asked : (CString → ℕ) → MainFlag → (x y : CString) → List Call
asked atoi copyright_flag x y = print_copyright ∷ []
asked atoi run_flag x y = start_process x ∷ []
asked atoi console_flag x y = console_test (some (x, y)) ∷ halt ∷ []
asked atoi copy_flag x y = copy x y ∷ []
asked atoi print_flag x y = print_file x ∷ []
asked atoi remove_flag x y = remove_file x ∷ []
asked atoi list_flag x y = list_directory ∷ []
asked atoi dump_flag x y = print_filesystem ∷ []
asked atoi performance_flag x y = performance_test ∷ []
asked atoi mail_flag x y = delay 2 ∷ mail_test (atoi x) ∷ []
asked atoi no_main_flag x y = []

pub data Command (b : Build) : Type 0 where
  bare : (a : CString) → arity (main_flag b a) ≡ 0 → Command b
  with_one : (a x : CString) → arity (main_flag b a) ≡ 1 → Command b
  with_two : (a x y : CString) → arity (main_flag b a) ≡ 2 → Command b

pub length-snoc : (argv : List CString) (a : CString) → length (argv ++ a ∷ []) ≡ suc (length argv)
length-snoc [] a = refl
length-snoc (x ∷ argv) a = ap suc (length-snoc argv a)

module _ {b : Build} where
  unfoldable pub print_commands : List (Command b) → List CString
  print_commands [] = []
  print_commands (bare a n ∷ cs) = a ∷ print_commands cs
  print_commands (with_one a x n ∷ cs) = a ∷ x ∷ print_commands cs
  print_commands (with_two a x y n ∷ cs) = a ∷ x ∷ y ∷ print_commands cs

  unfoldable pub all_asked : (CString → ℕ) → List (Command b) → List Call
  all_asked atoi [] = []
  all_asked atoi (bare a n ∷ cs) = asked atoi (main_flag b a) [] [] ++ all_asked atoi cs
  all_asked atoi (with_one a x n ∷ cs) = asked atoi (main_flag b a) x [] ++ all_asked atoi cs
  all_asked atoi (with_two a x y n ∷ cs) = asked atoi (main_flag b a) x y ++ all_asked atoi cs

module _ (returns : Call → Bool) where
  pub perform-append :
      (cs ds : List Call) (rest : Trace)
      → perform returns (cs ++ ds) rest ≡ perform returns cs (perform returns ds rest)
  unfolding perform
  perform-append [] ds rest = refl
  perform-append (c ∷ cs) ds rest = ground (arith, perform-append cs ds rest)

  module _ {F : Type 0} (lib : CLibrary F) where
    pub bare_word :
        (f : MainFlag) (argv : List CString)
        → arity f ≡ 0
        → main_word returns lib f argv ≡ some (asked lib.atoi f [] [], argv)
    unfolding main_word
    bare_word copyright_flag argv n = refl
    bare_word list_flag argv n = refl
    bare_word dump_flag argv n = refl
    bare_word performance_flag argv n = refl
    bare_word no_main_flag argv n = refl
    bare_word run_flag argv n = absurd (omega (arith, n))
    bare_word console_flag argv n = absurd (omega (arith, n))
    bare_word copy_flag argv n = absurd (omega (arith, n))
    bare_word print_flag argv n = absurd (omega (arith, n))
    bare_word remove_flag argv n = absurd (omega (arith, n))
    bare_word mail_flag argv n = absurd (omega (arith, n))

    pub one_word :
        (f : MainFlag) (x : CString) (argv : List CString)
        → arity f ≡ 1
        → main_word returns lib f (x ∷ argv) ≡ some (asked lib.atoi f x [], argv)
    unfolding main_word
    one_word run_flag x argv n = refl
    one_word print_flag x argv n = refl
    one_word remove_flag x argv n = refl
    one_word mail_flag x argv n = refl
    one_word copyright_flag x argv n = absurd (omega (arith, n))
    one_word list_flag x argv n = absurd (omega (arith, n))
    one_word dump_flag x argv n = absurd (omega (arith, n))
    one_word performance_flag x argv n = absurd (omega (arith, n))
    one_word no_main_flag x argv n = absurd (omega (arith, n))
    one_word console_flag x argv n = absurd (omega (arith, n))
    one_word copy_flag x argv n = absurd (omega (arith, n))

    pub two_words :
        (f : MainFlag) (x y : CString) (argv : List CString)
        → arity f ≡ 2
        → main_word returns lib f (x ∷ y ∷ argv) ≡ some (asked lib.atoi f x y, argv)
    unfolding main_word
    two_words console_flag x y argv n = refl
    two_words copy_flag x y argv n = refl
    two_words run_flag x y argv n = absurd (omega (arith, n))
    two_words print_flag x y argv n = absurd (omega (arith, n))
    two_words remove_flag x y argv n = absurd (omega (arith, n))
    two_words mail_flag x y argv n = absurd (omega (arith, n))
    two_words copyright_flag x y argv n = absurd (omega (arith, n))
    two_words list_flag x y argv n = absurd (omega (arith, n))
    two_words dump_flag x y argv n = absurd (omega (arith, n))
    two_words performance_flag x y argv n = absurd (omega (arith, n))
    two_words no_main_flag x y argv n = absurd (omega (arith, n))

    -- A word that wants others stands last.
    abbrev pub at_end : MainFlag → Trace → Trace
    at_end console_flag rest = perform returns (console_test none ∷ halt ∷ []) rest
    at_end _ rest = record { calls = []; end = assertion_failed }

    pub last_word :
        (b : Build) (n : ℕ) (a : CString) (rest : Trace) (f : MainFlag)
        → main_flag b a ≡ f
        → arity f ≢ 0
        → main_loop returns lib b (suc n) (a ∷ []) rest ≡ at_end f rest
    unfolding main_loop
    last_word b n a rest run_flag e ne = rw (e, main_loop)
    last_word b n a rest console_flag e ne = rw (e, main_loop)
    last_word b n a rest copy_flag e ne = rw (e, main_loop)
    last_word b n a rest print_flag e ne = rw (e, main_loop)
    last_word b n a rest remove_flag e ne = rw (e, main_loop)
    last_word b n a rest mail_flag e ne = rw (e, main_loop)
    last_word b n a rest copyright_flag e ne = absurd (ne refl)
    last_word b n a rest list_flag e ne = absurd (ne refl)
    last_word b n a rest dump_flag e ne = absurd (ne refl)
    last_word b n a rest performance_flag e ne = absurd (ne refl)
    last_word b n a rest no_main_flag e ne = absurd (ne refl)
