-- ===== src/Cmdline.antt =====
-- The command line: the argument loop of `Initialize` (system.cc), and the one of `main` under THREADS
-- (main.cc), for every build. The C library is a parameter. `argv` is given without the program's
-- name.
use ooplatingsistm.Base.{
  ℕ, ◌≡◌, ◌≢◌, refl, Bool, true, false, ◌&&◌, not, Option, none, some, List, [], ◌∷◌, ◌++◌, arith,
  ◌==◌, ◌⊎◌, inl, inr, if◌then◌else◌, Bool-cases,
}
use ooplatingsistm.Debugging.{CString, debug_init, debug_is_enabled}
pub mod Parse
pub mod Testnum
pub mod Tests

-- Which macros the build defines.
pub record Build : Type 0 where
  pub threads : Bool
  pub user_program : Bool
  pub filesys_needed : Bool
  pub filesys : Bool
  pub network : Bool

-- `atoi`, `atof`, and the number 1, where `F` is the type `double`.
pub record CLibrary (F : Type 0) : Type 0 where
  pub atoi : CString → ℕ
  pub atof : CString → F
  pub one : F

-- `!strcmp(a, b)`.
abbrev pub str_eq : CString → CString → Bool
str_eq [] [] = true
str_eq [] (y ∷ b) = false
str_eq (x ∷ a) [] = false
str_eq (x ∷ a) (y ∷ b) = (x == y) && str_eq a b

-- "-" and a letter, and the words with two letters.
abbrev pub dash : ℕ → CString
dash letter = b'-' ∷ letter ∷ []

abbrev pub dash_d : CString
dash_d = dash b'd'

abbrev pub dash_rs : CString
dash_rs = b'-' ∷ b'r' ∷ b's' ∷ []

abbrev pub plus : CString
plus = b'+' ∷ []

-- The words that `Initialize` knows, each if the build has it.
pub data InitFlag : Type 0 where
  debug_flag random_flag single_step_flag format_flag reliability_flag identity_flag : InitFlag
  no_init_flag : InitFlag

unfoldable pub init_flag : Build → CString → InitFlag
init_flag b a =
    if str_eq a dash_d
    then debug_flag
    else if str_eq a dash_rs
    then random_flag
    else if b.user_program && str_eq a (dash b's')
    then single_step_flag
    else if b.filesys_needed && str_eq a (dash b'f')
    then format_flag
    else if b.network && str_eq a (dash b'l')
    then reliability_flag
    else if b.network && str_eq a (dash b'm')
    then identity_flag
    else no_init_flag

-- The local variables of `Initialize`, with the seed that was given to `RandomInit` last.
pub record Options (F : Type 0) : Type 0 where
  pub debug_args : CString
  pub random_yield : Bool
  pub seed : Option ℕ
  pub debug_user_prog : Bool
  pub format : Bool
  pub rely : F
  pub netname : ℕ

abbrev pub no_options : {F : Type 0} → CLibrary F → Options F
no_options lib = record {
  debug_args = [];
  random_yield = false;
  seed = none;
  debug_user_prog = false;
  format = false;
  rely = lib.one;
  netname = 0;
}

-- `argv[0][1]`; an empty argument has no such character.
abbrev pub second : CString → Option ℕ
second [] = none
second (x ∷ []) = some 0
second (x ∷ y ∷ s) = some y

abbrev pub is_q : Option ℕ → Bool
is_q none = false
is_q (some c) = c == b'q'

abbrev pub is_empty : CString → Bool
is_empty [] = true
is_empty (x ∷ s) = false

-- The loop of `Initialize` over the arguments; `none` is a failed ASSERT.
module _ {F : Type 0} (lib : CLibrary F) (b : Build) where
  unfoldable pub parse_options : List CString → Options F → Option (Options F)
  unfolding init_flag
  parse_options [] o = some o
  parse_options (a ∷ []) o = elim (init_flag b a) [
    | debug_flag ↦ some (record o { debug_args = plus })
    | random_flag ↦ none
    | single_step_flag ↦ some (record o { debug_user_prog = true })
    | format_flag ↦ some (record o { format = true })
    | reliability_flag ↦ none
    | identity_flag ↦ none
    | no_init_flag ↦ some o
  ]
  parse_options (a ∷ x ∷ argv) o = elim (init_flag b a) [
    | debug_flag ↦ parse_options argv (record o { debug_args = x })
    | random_flag ↦ parse_options argv (record o { random_yield = true; seed = some (lib.atoi x) })
    | single_step_flag ↦ parse_options (x ∷ argv) (record o { debug_user_prog = true })
    | format_flag ↦ parse_options (x ∷ argv) (record o { format = true })
    | reliability_flag ↦ parse_options argv (record o { rely = lib.atof x })
    | identity_flag ↦ parse_options argv (record o { netname = lib.atoi x })
    | no_init_flag ↦ parse_options (x ∷ argv) o
  ]

module _ (atoi : CString → ℕ) where
  -- The first loop of `main`: the value of `testnum`. `none` is a read through the NULL behind the
  -- last argument, or past the end of an empty one.
  unfoldable pub parse_testnum : List CString → ℕ → Option ℕ
  parse_testnum [] testnum = some testnum
  parse_testnum (a ∷ []) testnum =
      if is_empty a then none else (if is_q (second a) then none else some 1)
  parse_testnum (a ∷ b ∷ argv) testnum = elim (is_empty a) [
    | true ↦ none
    | false ↦ elim (is_q (second a)) [
      | true ↦ parse_testnum argv (atoi b)
      | false ↦ parse_testnum (b ∷ argv) 1
    ]
  ]
