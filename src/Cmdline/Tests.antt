-- ===== src/Cmdline/Tests.antt =====
-- The theorems on the command line at command lines.
use mathlib.Core.Option
use ooplatingsistm.Base.{ℕ, ◌-◌, ◌≡◌, refl, true, false, none, some, List, [], ◌∷◌, ◌++◌}
use ooplatingsistm.Debugging.{CString}
use ooplatingsistm.Cmdline.{
  Build, CLibrary, init_flag, dash, dash_rs, Options, no_options, parse_options,
}
use ooplatingsistm.Cmdline.Parse.{Opt, valued, alone, print, meaning, parse_options-print}
use ooplatingsistm.Cmdline.Testnum.{Word, choose}

-- `atoi` and `atof` on one digit, with the numbers for `double`.
abbrev pub digit : CString → ℕ
digit [] = 0
digit (c ∷ s) = c - b'0'

abbrev pub digits : CLibrary ℕ
digits = record { atoi = digit; atof = digit; one = 1 }

-- The file system with the network and user programs, and threads alone.
abbrev pub everything : Build
everything = record {
  threads = false;
  user_program = true;
  filesys_needed = true;
  filesys = true;
  network = true;
}

abbrev pub only_threads : Build
only_threads = record {
  threads = true;
  user_program = false;
  filesys_needed = false;
  filesys = false;
  network = false;
}

-- "-rs 7 -f -m 3 -x", and for threads alone "-rs 7 -f".
abbrev options : List (Opt everything)
unfolding init_flag
options =
    valued dash_rs (b'7' ∷ []) refl
    ∷ alone (dash b'f') refl
    ∷ valued (dash b'm') (b'3' ∷ []) refl
    ∷ alone (dash b'x') refl
    ∷ []

abbrev few_options : List (Opt only_threads)
unfolding init_flag
few_options = valued dash_rs (b'7' ∷ []) refl ∷ alone (dash b'f') refl ∷ []

netname_read :
    Option.map
      (λ (o : Options ℕ). o.netname)
      (parse_options digits everything (print options) (no_options digits))
    ≡ some 3
unfolding options parse_options print
netname_read = refl

parse_options-print_example :
    (parse_options digits everything (print options) (no_options digits)
      ≡ some (meaning digits everything options (no_options digits)))
    × (parse_options digits everything (print options ++ dash b'l' ∷ []) (no_options digits) ≡ none)
unfolding init_flag
parse_options-print_example =
    parse_options-print digits everything options (no_options digits) (dash b'l') refl

-- "-q 2"
abbrev words : List Word
words = choose (b'-' ∷ b'q' ∷ []) (b'2' ∷ []) refl refl ∷ []
