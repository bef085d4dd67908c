-- ===== src/Init/Hex.antt =====
-- The hexadecimal text of a build id.
use lua_resty_ffi.Common.{
  Option-cases, inl, inr, ℕ, zero, suc, ◌+◌, ◌*◌, ◌/◌, ◌%◌, ◌<◌, ◌≤◌, ◌≡◌, refl, ap, sym, ◌∙◌, true,
  some, List, [], ◌∷◌, ◌++◌, leb, length, length-append, arith,
}
use mathlib.Core.List.{append_assoc, append-nil}
use lua_resty_ffi.BuildId.{Mem, bytes, str_eq}
use lua_resty_ffi.Init.{hex_digit, hex_byte, print_hex}

abbrev pub hex : List ℕ → List ℕ
hex [] = []
hex (b ∷ bs) = hex_digit (b / 16) ∷ hex_digit (b % 16) ∷ hex bs

abbrev pub Bytes : List ℕ → Type 0
Bytes [] = Unit
Bytes (b ∷ bs) = (b < 256) × Bytes bs

hex_digit-inj : (a b : ℕ) → a < 16 → b < 16 → hex_digit a ≡ hex_digit b → a ≡ b
hex_digit-inj a b ha hb e = ground arith

-- Different build ids have different texts.
pub hex-injective : (xs ys : List ℕ) → Bytes xs → Bytes ys → hex xs ≡ hex ys → xs ≡ ys
hex-injective [] [] hx hy e = refl
hex-injective [] (y ∷ ys) hx hy e = cc
hex-injective (x ∷ xs) [] hx hy e = cc
hex-injective (x ∷ xs) (y ∷ ys) (hx, hxs) (hy, hys) e =
    let high : x / 16 ≡ y / 16 = hex_digit-inj (x / 16) (y / 16) (omega arith) (omega arith) (cc) in
    let low : x % 16 ≡ y % 16 = hex_digit-inj (x % 16) (y % 16) (omega arith) (omega arith) (cc) in
    let same : x ≡ y = omega arith in let rest : xs ≡ ys = hex-injective xs ys hxs hys (cc) in cc

pub str_eq→eq : (xs ys : List ℕ) → str_eq xs ys ≡ true → xs ≡ ys
str_eq→eq [] [] e = refl
str_eq→eq [] (y ∷ ys) e = cc
str_eq→eq (x ∷ xs) [] e = cc
str_eq→eq (x ∷ xs) (y ∷ ys) e = ground (arith, str_eq→eq xs ys)

pub str_eq_refl : (xs : List ℕ) → str_eq xs xs ≡ true
str_eq_refl [] = refl
str_eq_refl (x ∷ xs) = ground (arith, str_eq_refl xs)

-- With room for the text and its 0 the loop writes the text behind what is there.
pub print_hex-hex :
    (m : Mem) (capacity left addr : ℕ) (id buf : List ℕ)
    → bytes m addr left ≡ some id
    → length buf + 2 * left + 1 ≤ capacity
    → print_hex m capacity left addr buf ≡ some (buf ++ hex id)
unfolding print_hex bytes
print_hex-hex m capacity zero addr [] buf e room = ap some (sym (append-nil buf))
print_hex-hex m capacity zero addr (b ∷ bs) buf e room = cc
print_hex-hex m capacity (suc left) addr [] buf e room = elim (Option-cases (m addr)) [
  | inl e1 ↦ absurd (ground arith)
  | inr (b, e1) ↦ absurd (ground arith)
]
print_hex-hex m capacity (suc left) addr (b ∷ bs) buf e room =
    let first : m addr ≡ some b = ground arith in
    let others : bytes m (addr + 1) left ≡ some bs = ground arith in
    let fits : leb (length buf + 3) capacity ≡ true = ground arith in
    rw (first, fits)
      (print_hex-hex m capacity left (addr + 1) bs (buf ++ hex_byte b) others
          (omega (arith, length-append buf (hex_byte b)))
        ∙ ap some (append_assoc buf (hex_byte b) (hex bs)))
