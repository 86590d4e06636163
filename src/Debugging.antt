-- ===== src/Debugging.antt =====
-- utility.cc: which debugging messages are enabled. A C string is the list of its characters'
-- codes, without the terminating zero.
use ooplatingsistm.Base.{
  ℕ, Bool, false, ◌||◌, Option, none, some, List, [], ◌∷◌, ◌++◌, ◌==◌, if◌then◌else◌,
}

abbrev pub CString : Type 0
CString = List ℕ

-- `strchr(s, c) != 0`: the terminating zero counts.
abbrev pub strchr : CString → ℕ → Bool
strchr [] c = c == 0
strchr (x ∷ s) c = (x == c) || strchr s c

-- `enableFlags`; `none` is NULL.
abbrev pub Flags : Type 0
Flags = Option CString

-- `DebugInit`.
unfoldable pub debug_init : CString → Flags
debug_init flag_list = some flag_list

-- `DebugIsEnabled`.
unfoldable pub debug_is_enabled : Flags → ℕ → Bool
debug_is_enabled none flag = false
debug_is_enabled (some flags) flag = strchr flags flag || strchr flags b'+'

-- `DEBUG`; `vprintf` is the text that `vfprintf` makes of a format and its arguments.
unfoldable pub debug :
    (vprintf : CString → List ℕ → CString)
    → Flags
    → (flag : ℕ) → (format : CString) → (args : List ℕ) → (stdout : CString) → CString
unfolding debug_is_enabled
debug vprintf flags flag format args stdout =
    if debug_is_enabled flags flag then stdout ++ vprintf format args else stdout
