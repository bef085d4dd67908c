-- ===== src/Loader.antt =====
-- How the loaders in examples/python/loader.c and examples/java/loader.c read the configuration that
-- libffi_init is given. A C string is the list of its characters, without its 0.

pub mod Digits
pub mod Java
pub mod Python
pub mod Split
use lua_resty_ffi.Common.{
  ℕ, ◌==◌, if◌then◌else◌, Bool, true, false, Option, none, some, List, [], ◌∷◌,
}
use mathlib.Core.Option

abbrev pub Str : Type 0
Str = List ℕ

-- strsep on a string: the piece before the separator, and what is left behind it.
unfoldable pub strsep : (sep : ℕ) → Str → Str × Option Str
strsep sep [] = ([], none)
strsep sep (x ∷ xs) =
    let rest = strsep sep xs in if x == sep then ([], some xs) else (x ∷ rest.0, rest.1)

-- strsep(&str, sep), where `str` may be NULL.
abbrev pub next_piece : (sep : ℕ) → Option Str → Option Str × Option Str
next_piece sep none = (none, none)
next_piece sep (some s) = (some (strsep sep s).0, (strsep sep s).1)

-- Whether the last character is '?', and the string without it. For the empty string the character
-- in front of it is read: that is a '/' behind a directory, and outside of the string else.
unfoldable pub unmark : (behind_dir : Bool) → Str → Option (Str × Bool)
unmark true [] = some ([], false)
unmark false [] = none
unmark behind_dir (x ∷ []) = if x == b'?' then some ([], true) else some (x ∷ [], false)
unmark behind_dir (x ∷ (y ∷ ys)) =
    Option.map (λ (r : Str × Bool). (x ∷ r.0, r.1)) (unmark behind_dir (y ∷ ys))
