-- ===== src/Cmdline/Testnum.antt =====
-- What the loop of `main` under THREADS makes of the command line.
use ooplatingsistm.Base.{ℕ, ◌≡◌, refl, ◌∙◌, true, false, none, some, List, [], ◌∷◌, ◌++◌, arith}
use ooplatingsistm.Debugging.{CString}
use ooplatingsistm.Cmdline.{second, is_q, is_empty, parse_testnum}

-- The words that the loop of `main` tells apart: one whose second character is `q` takes the next
-- word for the number of the test; any other stands alone.
pub data Word : Type 0 where
  choose : (a digits : CString) → is_empty a ≡ false → is_q (second a) ≡ true → Word
  plain : (a : CString) → is_empty a ≡ false → is_q (second a) ≡ false → Word

unfoldable pub print_words : List Word → List CString
print_words [] = []
print_words (choose a digits some_char q ∷ ws) = a ∷ digits ∷ print_words ws
print_words (plain a some_char not_q ∷ ws) = a ∷ print_words ws

module _ (atoi : CString → ℕ) where
  pub chosen : List Word → ℕ → ℕ
  chosen [] testnum = testnum
  chosen (choose a digits some_char q ∷ ws) testnum = chosen ws (atoi digits)
  chosen (plain a some_char not_q ∷ ws) testnum = chosen ws 1

  plain_first :
      (a : CString) (argv : List CString) (testnum : ℕ)
      → is_empty a ≡ false
      → is_q (second a) ≡ false
      → parse_testnum atoi (a ∷ argv) testnum ≡ parse_testnum atoi argv 1
  unfolding parse_testnum
  plain_first a [] testnum some_char not_q = rw (some_char, not_q)
  plain_first a (b ∷ argv) testnum some_char not_q = ground arith

  choose_first :
      (a digits : CString) (argv : List CString) (testnum : ℕ)
      → is_empty a ≡ false
      → is_q (second a) ≡ true
      → parse_testnum atoi (a ∷ digits ∷ argv) testnum ≡ parse_testnum atoi argv (atoi digits)
  unfolding parse_testnum
  choose_first a digits argv testnum some_char q = ground arith

  -- The loop of `main` takes the number of the last choice, unless another word follows it: that
  -- sets the number back to 1. A choice with no number behind it reads through NULL.
  pub parse_testnum-chosen :
      (ws : List Word) (a last : CString) (testnum : ℕ)
      → is_empty a ≡ false
      → is_empty last ≡ false
      → is_q (second a) ≡ true
      → is_q (second last) ≡ false
      → (parse_testnum atoi (print_words ws) testnum ≡ some (chosen ws testnum))
        × (parse_testnum atoi (print_words ws ++ last ∷ []) testnum ≡ some 1)
        × (parse_testnum atoi (print_words ws ++ a ∷ []) testnum ≡ none)
  unfolding print_words chosen parse_testnum
  parse_testnum-chosen [] a last testnum e e' q n = (refl, rw (e', n), rw (e, q))
  parse_testnum-chosen (choose b digits c r ∷ ws) a last testnum e e' q n =
      let (f, f', f'') = parse_testnum-chosen ws a last (atoi digits) e e' q n in
      (
        choose_first b digits (print_words ws) testnum c r ∙ f,
        choose_first b digits (print_words ws ++ last ∷ []) testnum c r ∙ f',
        choose_first b digits (print_words ws ++ a ∷ []) testnum c r ∙ f'',
      )
  parse_testnum-chosen (plain b c r ∷ ws) a last testnum e e' q n =
      let (f, f', f'') = parse_testnum-chosen ws a last 1 e e' q n in
      (
        plain_first b (print_words ws) testnum c r ∙ f,
        plain_first b (print_words ws ++ last ∷ []) testnum c r ∙ f',
        plain_first b (print_words ws ++ a ∷ []) testnum c r ∙ f'',
      )
