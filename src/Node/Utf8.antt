-- ===== src/Node/Utf8.antt =====
-- Which bytes are UTF-8: what napi_create_string_utf8 is documented for, in
-- examples/nodejs/resty_ffi.cc.
use lua_resty_ffi.Common.{
  ℕ, zero, suc, leb, ◌==◌, ◌&&◌, if◌then◌else◌, Bool, true, false, Option, none, some, List, [],
  ◌∷◌,
}

abbrev within : ℕ → ℕ → ℕ → Bool
within lo hi x = leb lo x && leb x hi

-- How many bytes follow the first byte of a character, and the bounds of the next of them; no long
-- forms, no surrogates, and nothing above U+10FFFF.
abbrev lead : ℕ → Option (ℕ × ℕ × ℕ)
lead x =
    if within 0 127 x
    then some (0, 128, 191)
    else if within 194 223 x
    then some (1, 128, 191)
    else if x == 224
    then some (2, 160, 191)
    else if x == 237
    then some (2, 128, 159)
    else if within 225 239 x
    then some (2, 128, 191)
    else if x == 240
    then some (3, 144, 191)
    else if within 241 243 x
    then some (3, 128, 191)
    else if x == 244
    then some (3, 128, 143)
    else none

-- The rest of a text, of whose current character `k` bytes are missing, the next one within bounds.
abbrev goes_on : (k lo hi : ℕ) → List ℕ → Bool
goes_on zero lo hi [] = true
goes_on (suc k) lo hi [] = false
goes_on zero lo hi (x ∷ xs) = elim (lead x) [ none ↦ false | some (k, l, h) ↦ goes_on k l h xs ]
goes_on (suc k) lo hi (x ∷ xs) = let rest = goes_on k 128 191 xs in within lo hi x && rest

abbrev pub is_utf8 : List ℕ → Bool
is_utf8 = goes_on 0 128 191
