-- ===== src/Loader/Digits.antt =====
-- Numbers as texts, as printf writes them and as sscanf and BigInt read them.
use lua_resty_ffi.Common.{
  ℕ, zero, suc, ◌+◌, ◌-◌, ◌*◌, ◌/◌, ◌%◌, ◌<◌, ◌≤◌, ◌≡◌, refl, ◌∙◌, ap, ◌&&◌, if◌then◌else◌, ltb,
  leb, true, Option, none, some, List, [], ◌∷◌, ◌++◌, arith, length, Bool-cases, inl, inr,
}
use lua_resty_ffi.Init.{hex_digit}
use lua_resty_ffi.Loader.{Str}

-- The digits of `n`, the highest first; a round for each of them.
unfoldable pub digits : (base fuel n : ℕ) → List ℕ
digits base zero n = []
digits base (suc fuel) n =
    let rest = digits base fuel (n / base) in if ltb n base then n ∷ [] else rest ++ (n % base) ∷ []

-- The text of digits, and the digit of a character.
abbrev pub chars : List ℕ → Str
chars [] = []
chars (d ∷ ds) = hex_digit d ∷ chars ds

abbrev pub digit_of : (base : ℕ) → ℕ → Option ℕ
digit_of base c =
    let d : ℕ =
      if leb b'0' c && leb c b'9'
      then c - b'0'
      else if leb b'a' c && leb c b'f'
      then c - 87
      else base in
    if ltb d base then some d else none

-- The number that the leading digits of a text stand for, and the rest of the text.
unfoldable pub read_digits : (base acc : ℕ) → Str → ℕ × Str
read_digits base acc [] = (acc, [])
read_digits base acc (c ∷ cs) = elim (digit_of base c) [
  | none ↦ (acc, c ∷ cs)
  | some d ↦ read_digits base (acc * base + d) cs
]

-- No digit starts the text.
abbrev pub NoDigit : ℕ → Str → Type 0
NoDigit base [] = Unit
NoDigit base (c ∷ cs) = digit_of base c ≡ none

read_digits_end :
    (base acc : ℕ) (rest : Str) → NoDigit base rest → read_digits base acc rest ≡ (acc, rest)
unfolding read_digits
read_digits_end base acc [] h = refl
read_digits_end base acc (c ∷ cs) h = rw (h, read_digits)

abbrev value : (base acc : ℕ) → List ℕ → ℕ
value base acc [] = acc
value base acc (d ∷ ds) = value base (acc * base + d) ds

value-append :
    (base acc : ℕ) (xs : List ℕ) (d : ℕ)
    → value base acc (xs ++ d ∷ []) ≡ value base acc xs * base + d
value-append base acc [] d = refl
value-append base acc (x ∷ xs) d = value-append base (acc * base + x) xs d

abbrev Below : ℕ → List ℕ → Type 0
Below base [] = Unit
Below base (d ∷ ds) = (d < base) × Below base ds

Below-append :
    (base : ℕ) (xs : List ℕ) (d : ℕ) → Below base xs → d < base → Below base (xs ++ d ∷ [])
Below-append base [] d h k = (k, tt)
Below-append base (x ∷ xs) d (p, h) k = (p, Below-append base xs d h k)

digit_of-hex_digit : (base d : ℕ) → base ≤ 16 → d < base → digit_of base (hex_digit d) ≡ some d
digit_of-hex_digit base d le lt = ground arith

read_digits-chars :
    (base acc : ℕ) (ds : List ℕ) (rest : Str)
    → base ≤ 16
    → Below base ds
    → NoDigit base rest
    → read_digits base acc (chars ds ++ rest) ≡ (value base acc ds, rest)
unfolding read_digits
read_digits-chars base acc [] rest le h stop = read_digits_end base acc rest stop
read_digits-chars base acc (d ∷ ds) rest le (p, h) stop =
    rw (digit_of-hex_digit base d le p, read_digits)
      (read_digits-chars base (acc * base + d) ds rest le h stop)

-- What division by the base gives.
pub record Base (base : ℕ) : Type 0 where
  pub small : base ≤ 16
  pub falls : (n : ℕ) → base ≤ n → n / base < n
  pub split : (n : ℕ) → n / base * base + n % base ≡ n
  pub rest : (n : ℕ) → n % base < base

pub Base-ten : Base 10
Base-ten = record {
  small = omega arith;
  falls = λ n le. omega arith;
  split = λ n. omega arith;
  rest = λ n. omega arith;
}

pub Base-sixteen : Base 16
Base-sixteen = record {
  small = omega arith;
  falls = λ n le. omega arith;
  split = λ n. omega arith;
  rest = λ n. omega arith;
}

module _ {base : ℕ} (b : Base base) where
  digits-value : (fuel n : ℕ) → n < fuel → value base 0 (digits base fuel n) ≡ n
  unfolding digits
  digits-value zero n h = absurd (omega arith)
  digits-value (suc fuel) n h = elim (Bool-cases (ltb n base)) [
    | inl one ↦ rw (one) (omega arith)
    | inr more ↦
        let le : base ≤ n = ground arith in
        let falls : n / base < n = b.falls n le in
        rw (more, value-append base 0 (digits base fuel (n / base)) (n % base))
          (ap (λ (k : ℕ). k * base + n % base) (digits-value fuel (n / base) (omega arith))
            ∙ b.split n)
  ]

  digits-Below : (fuel n : ℕ) → Below base (digits base fuel n)
  unfolding digits
  digits-Below zero n = tt
  digits-Below (suc fuel) n = elim (Bool-cases (ltb n base)) [
    | inl one ↦ rw one (ground arith, tt)
    | inr more ↦ rw more (
        Below-append base (digits base fuel (n / base)) (n % base) (digits-Below fuel (n / base))
          (b.rest n))
  ]

  -- What is printed is read back, with any text behind it that does not start with a digit.
  pub read_digits-digits :
      (fuel n : ℕ) (rest : Str)
      → n < fuel
      → NoDigit base rest
      → read_digits base 0 (chars (digits base fuel n) ++ rest) ≡ (n, rest)
  read_digits-digits fuel n rest h stop =
      read_digits-chars base 0 (digits base fuel n) rest b.small (digits-Below fuel n) stop
      ∙ ap (λ (k : ℕ). (k, rest)) (digits-value fuel n h)

append-cons : (xs : List ℕ) (x : ℕ) → (d : ℕ) × (ds : List ℕ) × (xs ++ x ∷ [] ≡ d ∷ ds)
append-cons [] x = (x, [], refl)
append-cons (y ∷ ys) x = (y, ys ++ x ∷ [], refl)

pub digits-cons : (base fuel n : ℕ) → (d : ℕ) × (ds : List ℕ) × (digits base (suc fuel) n ≡ d ∷ ds)
unfolding digits
digits-cons base fuel n = elim (Bool-cases (ltb n base)) [
  | inl one ↦ rw one (n, [], refl)
  | inr more ↦ rw more (append-cons (digits base fuel (n / base)) (n % base))
]

-- At most `k` digits for a number below `base` to the power of `k`.
abbrev pub power_of_ten : ℕ → ℕ
power_of_ten zero = 1
power_of_ten (suc k) = 10 * power_of_ten k

length-last : (xs : List ℕ) (x : ℕ) → length (xs ++ x ∷ []) ≡ length xs + 1
length-last [] x = refl
length-last (y ∷ ys) x = let e = length-last ys x in ground arith

length-chars : (ds : List ℕ) → length (chars ds) ≡ length ds
length-chars [] = refl
length-chars (d ∷ ds) = let e = length-chars ds in ground arith

length-digits : (k fuel n : ℕ) → n < power_of_ten (suc k) → length (digits 10 fuel n) ≤ suc k
unfolding digits
length-digits k zero n h = omega arith
length-digits zero (suc fuel) n h = let one : ltb n 10 ≡ true = ground arith in rw one (omega arith)
length-digits (suc k) (suc fuel) n h = elim (Bool-cases (ltb n 10)) [
  | inl one ↦ rw one (omega arith)
  | inr more ↦
      let ih = length-digits k fuel (n / 10) (omega arith) in
      rw (more, length-last (digits 10 fuel (n / 10)) (n % 10)) (omega arith)
]

pub length-chars-digits :
    (k fuel n : ℕ) → n < power_of_ten (suc k) → length (chars (digits 10 fuel n)) ≤ suc k
length-chars-digits k fuel n h = rw (length-chars (digits 10 fuel n)) (length-digits k fuel n h)
