-- ===== src/Cmdline/Parse.antt =====
-- What the loop of `Initialize` makes of the command line.
use mathlib.Core.Option
use ooplatingsistm.Base.{
  ℕ, ◌≡◌, ◌≢◌, refl, ◌∙◌, Bool, true, false, Option, none, some, List, [], ◌∷◌, ◌++◌, arith, All,
}
use ooplatingsistm.Debugging.{CString, debug_init, debug_is_enabled}
use ooplatingsistm.Cmdline.{
  Build, CLibrary, InitFlag, debug_flag, random_flag, single_step_flag, format_flag,
  reliability_flag, identity_flag, no_init_flag, init_flag, dash_d, plus, Options, no_options,
  parse_options,
}

abbrev pub takes_value : InitFlag → Bool
takes_value debug_flag = true
takes_value random_flag = true
takes_value reliability_flag = true
takes_value identity_flag = true
takes_value _ = false

-- What is written on the command line: a word that takes a value, with it, or another word.
pub data Opt (b : Build) : Type 0 where
  valued : (a x : CString) → takes_value (init_flag b a) ≡ true → Opt b
  alone : (a : CString) → takes_value (init_flag b a) ≡ false → Opt b

module _ {b : Build} where
  unfoldable pub print : List (Opt b) → List CString
  print [] = []
  print (valued a x takes ∷ os) = a ∷ x ∷ print os
  print (alone a takes ∷ os) = a ∷ print os

  abbrev pub NotDebug : Opt b → Type 0
  NotDebug (valued a x takes) = init_flag b a ≢ debug_flag
  NotDebug (alone a takes) = Unit

-- What each word means by itself; the value counts where the word takes one.
abbrev pub set_option : {F : Type 0} → CLibrary F → InitFlag → CString → Options F → Options F
set_option lib debug_flag x o = record o { debug_args = x }
set_option lib random_flag x o = record o { random_yield = true; seed = some (lib.atoi x) }
set_option lib single_step_flag x o = record o { debug_user_prog = true }
set_option lib format_flag x o = record o { format = true }
set_option lib reliability_flag x o = record o { rely = lib.atof x }
set_option lib identity_flag x o = record o { netname = lib.atoi x }
set_option lib no_init_flag x o = o

module _ {F : Type 0} (lib : CLibrary F) (b : Build) where
  pub meaning : List (Opt b) → Options F → Options F
  meaning [] o = o
  meaning (valued a x takes ∷ os) o = meaning os (set_option lib (init_flag b a) x o)
  meaning (alone a takes ∷ os) o = meaning os (set_option lib (init_flag b a) [] o)

  valued_first :
      (a x : CString) (argv : List CString) (o : Options F) (f : InitFlag)
      → init_flag b a ≡ f
      → takes_value f ≡ true
      → parse_options lib b (a ∷ x ∷ argv) o ≡ parse_options lib b argv (set_option lib f x o)
  unfolding parse_options
  valued_first a x argv o debug_flag e takes = rw (e, parse_options)
  valued_first a x argv o random_flag e takes = rw (e, parse_options)
  valued_first a x argv o single_step_flag e takes = cc
  valued_first a x argv o format_flag e takes = cc
  valued_first a x argv o reliability_flag e takes = rw (e, parse_options)
  valued_first a x argv o identity_flag e takes = rw (e, parse_options)
  valued_first a x argv o no_init_flag e takes = cc

  alone_first :
      (a : CString) (argv : List CString) (o : Options F) (f : InitFlag)
      → init_flag b a ≡ f
      → takes_value f ≡ false
      → parse_options lib b (a ∷ argv) o ≡ parse_options lib b argv (set_option lib f [] o)
  unfolding parse_options
  alone_first a [] o single_step_flag e takes = rw (e, parse_options)
  alone_first a [] o format_flag e takes = rw (e, parse_options)
  alone_first a [] o no_init_flag e takes = rw (e, parse_options)
  alone_first a (x ∷ argv) o single_step_flag e takes = rw (e, parse_options)
  alone_first a (x ∷ argv) o format_flag e takes = rw (e, parse_options)
  alone_first a (x ∷ argv) o no_init_flag e takes = rw (e, parse_options)
  alone_first a argv o debug_flag e takes = cc
  alone_first a argv o random_flag e takes = cc
  alone_first a argv o reliability_flag e takes = cc
  alone_first a argv o identity_flag e takes = cc

  -- A word that takes a value stands last.
  abbrev pub at_end : InitFlag → Options F → Option (Options F)
  at_end debug_flag o = some (record o { debug_args = plus })
  at_end _ o = none

  valued_last :
      (a : CString) (o : Options F) (f : InitFlag)
      → init_flag b a ≡ f
      → takes_value f ≡ true
      → parse_options lib b (a ∷ []) o ≡ at_end f o
  unfolding parse_options
  valued_last a o debug_flag e takes = rw (e, parse_options)
  valued_last a o random_flag e takes = rw (e, parse_options)
  valued_last a o single_step_flag e takes = cc
  valued_last a o format_flag e takes = cc
  valued_last a o reliability_flag e takes = rw (e, parse_options)
  valued_last a o identity_flag e takes = rw (e, parse_options)
  valued_last a o no_init_flag e takes = cc

  -- In every build, the loop of `Initialize` reads back what was written on the command line. A
  -- word that takes a value and stands at the very end fails the assertion, but for `-d`, which
  -- turns all messages on.
  pub parse_options-print :
      (os : List (Opt b)) (o : Options F) (a : CString)
      → takes_value (init_flag b a) ≡ true
      → (parse_options lib b (print os) o ≡ some (meaning os o))
        × (parse_options lib b (print os ++ a ∷ []) o ≡ at_end (init_flag b a) (meaning os o))
  unfolding print meaning parse_options
  parse_options-print [] o a takes = (refl, valued_last a o (init_flag b a) refl takes)
  parse_options-print (valued c x t ∷ os) o a takes =
      let (e, e') = parse_options-print os (set_option lib (init_flag b c) x o) a takes in
      (
        valued_first c x (print os) o (init_flag b c) refl t ∙ e,
        valued_first c x (print os ++ a ∷ []) o (init_flag b c) refl t ∙ e',
      )
  parse_options-print (alone c t ∷ os) o a takes =
      let (e, e') = parse_options-print os (set_option lib (init_flag b c) [] o) a takes in
      (
        alone_first c (print os) o (init_flag b c) refl t ∙ e,
        alone_first c (print os ++ a ∷ []) o (init_flag b c) refl t ∙ e',
      )

  kept :
      (f : InitFlag) (x : CString) (o : Options F)
      → f ≢ debug_flag
      → (set_option lib f x o).debug_args ≡ o.debug_args
  kept debug_flag x o ne = absurd (ne refl)
  kept random_flag x o ne = refl
  kept single_step_flag x o ne = refl
  kept format_flag x o ne = refl
  kept reliability_flag x o ne = refl
  kept identity_flag x o ne = refl
  kept no_init_flag x o ne = refl

  no_debug :
      (os : List (Opt b)) (o : Options F)
      → All NotDebug os
      → (meaning os o).debug_args ≡ o.debug_args
  unfolding meaning
  no_debug [] o h = refl
  no_debug (valued a x takes ∷ os) o (ne, h) = no_debug os _ h ∙ kept (init_flag b a) x o ne
  no_debug (alone a takes ∷ os) o (_, h) =
      no_debug os _ h ∙ kept (init_flag b a) [] o λ e. ground (arith, takes, e)

  -- The debugging messages after `Initialize`, where no other option is `-d`: with no `-d` none is
  -- enabled, but under the flag zero; with a `-d` at the end of the command line all are.
  pub debug_is_enabled-parse_options :
      (os : List (Opt b)) (flag : ℕ)
      → All NotDebug os
      → flag ≢ 0
      → (Option.map
            (λ (o : Options F). debug_is_enabled (debug_init o.debug_args) flag)
            (parse_options lib b (print os) (no_options lib))
          ≡ some false)
        × (Option.map
              (λ (o : Options F). debug_is_enabled (debug_init o.debug_args) flag)
              (parse_options lib b (print os ++ dash_d ∷ []) (no_options lib))
            ≡ some true)
  unfolding debug_is_enabled debug_init init_flag
  debug_is_enabled-parse_options os flag none_asked ne =
      let (e, e') = parse_options-print os (no_options lib) dash_d refl in
      (rw (e, no_debug os (no_options lib) none_asked) (ground arith), rw e' (ground arith))
