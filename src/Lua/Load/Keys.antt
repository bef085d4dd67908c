-- ===== src/Lua/Load/Keys.antt =====
-- Keys of the table of runtimes, and looking them up.
use lua_resty_ffi.Common.{
  ℕ, ◌≡◌, ◌≢◌, refl, sym, ap, ◌∙◌, ◌&&◌, Bool, true, false, Option, none, some, List, [], ◌∷◌,
  arith, Bool-cases, inl, inr,
}
use lua_resty_ffi.Loader.{Str}
use lua_resty_ffi.Loader.Split.{NotIn, strsep-append, strsep_last}
use lua_resty_ffi.Loader.{strsep}
use lua_resty_ffi.Lua.Load.{same_text, key_of, lookup, without, forget}

pub some_inj {ℓ} : {A : Type ℓ} {x y : A} → some x ≡ some y → x ≡ y
some_inj e = cc

pub same_text_refl : (s : Str) → same_text s s ≡ true
same_text_refl [] = refl
same_text_refl (x ∷ xs) = ground (arith, same_text_refl xs)

pub eq_of_same_text : (s t : Str) → same_text s t ≡ true → s ≡ t
eq_of_same_text [] [] e = refl
eq_of_same_text [] (y ∷ ys) e = absurd (cc)
eq_of_same_text (x ∷ xs) [] e = absurd (cc)
eq_of_same_text (x ∷ xs) (y ∷ ys) e =
    let same = eq_of_same_text xs ys (ground arith) in let head : x ≡ y = ground arith in cc

pub lookup-without_same : (key : Str) (rs : List (Str × ℕ)) → lookup key (without key rs) ≡ none
lookup-without_same key [] = refl
lookup-without_same key (r ∷ rs) = elim (Bool-cases (same_text key r.0)) [
  | inl e ↦ rw e (lookup-without_same key rs)
  | inr e ↦ rw (e, e) (lookup-without_same key rs)
]

pub lookup-without :
    (k key : Str) (rs : List (Str × ℕ))
    → same_text k key ≡ false
    → lookup k (without key rs) ≡ lookup k rs
lookup-without k key [] ne = refl
lookup-without k key (r ∷ rs) ne = elim (Bool-cases (same_text key r.0)) [
  | inl e ↦
      let miss : same_text k r.0 ≡ false =
        ap (same_text k) (sym (eq_of_same_text key r.0 e)) ∙ ne in
      rw (e, miss) (lookup-without k key rs ne)
  | inr e ↦ rw (e, lookup-without k key rs ne)
]

-- What is found after a key is taken out has another key, and was there before.
pub found-without :
    (k key : Str) (rs : List (Str × ℕ)) {i : ℕ}
    → lookup k (without key rs) ≡ some i
    → (k ≢ key) × (lookup k rs ≡ some i)
found-without k key rs h = elim (Bool-cases (same_text k key)) [
  | inl e ↦ absurd (
      cc (
        ap (λ (x : Str). lookup x (without key rs)) (eq_of_same_text k key e),
        lookup-without_same key rs,
      ))
  | inr e ↦ (
    λ (q : k ≡ key). cc (ap (same_text k) q, same_text_refl k),
    sym (lookup-without k key rs e) ∙ h,
  )
]

pub found-forget :
    (k : Str) (key : Option Str) (rs : List (Str × ℕ)) {i : ℕ}
    → lookup k (forget key rs) ≡ some i
    → (key ≢ some k) × (lookup k rs ≡ some i)
found-forget k none rs h = (λ e. cc, h)
found-forget k (some key) rs h =
    let (ne, h') = found-without k key rs h in (λ e. ne (sym (some_inj e)), h')

-- Taking a key out keeps the others.
pub kept-forget :
    (k key : Str) (rs : List (Str × ℕ)) {o : Option Str} {i : ℕ}
    → o ≡ some key
    → k ≢ key
    → lookup k rs ≡ some i
    → lookup k (forget o rs) ≡ some i
kept-forget k key rs e ne hit = elim (Bool-cases (same_text k key)) [
  | inl same ↦ absurd (ne (eq_of_same_text k key same))
  | inr other ↦ rw e (lookup-without k key rs other ∙ hit)
]

-- A key tells the library and the configuration, for libraries without '&'.
pub key_of-strsep :
    (lib : Str) (cfg : Option Str) → NotIn b'&' lib → strsep b'&' (key_of lib cfg) ≡ (lib, cfg)
key_of-strsep lib none h = strsep_last b'&' lib h
key_of-strsep lib (some cfg) h = strsep-append b'&' lib cfg h

abbrev pub same_cfg : Option Str → Option Str → Bool
same_cfg none none = true
same_cfg (some c) (some d) = same_text c d
same_cfg _ _ = false

pub same_cfg_refl : (c : Option Str) → same_cfg c c ≡ true
same_cfg_refl none = refl
same_cfg_refl (some c) = same_text_refl c

pub eq_of_same_cfg : (c d : Option Str) → same_cfg c d ≡ true → c ≡ d
eq_of_same_cfg none none e = refl
eq_of_same_cfg none (some d) e = absurd (cc)
eq_of_same_cfg (some c) none e = absurd (cc)
eq_of_same_cfg (some c) (some d) e = ap some (eq_of_same_text c d e)

pub same_text-key_of :
    (lib lib' : Str) (cfg cfg' : Option Str)
    → NotIn b'&' lib
    → NotIn b'&' lib'
    → same_text (key_of lib cfg) (key_of lib' cfg') ≡ (same_text lib lib' && same_cfg cfg cfg')
same_text-key_of lib lib' cfg cfg' h h' =
    elim (Bool-cases (same_text (key_of lib cfg) (key_of lib' cfg'))) [
      | inl e ↦
          let pieces : (lib, cfg) ≡ (lib', cfg') =
            sym (key_of-strsep lib cfg h)
            ∙ ap (strsep b'&') (eq_of_same_text (key_of lib cfg) (key_of lib' cfg') e)
            ∙ key_of-strsep lib' cfg' h' in
          let l : lib ≡ lib' = ap (λ (x : Str × Option Str). x.0) pieces in
          let c : cfg ≡ cfg' = ap (λ (x : Str × Option Str). x.1) pieces in
          let one : same_text lib lib' ≡ true = ap (same_text lib) (sym l) ∙ same_text_refl lib in
          let two : same_cfg cfg cfg' ≡ true = ap (same_cfg cfg) (sym c) ∙ same_cfg_refl cfg in
          ground arith
      | inr e ↦ elim (Bool-cases (same_text lib lib' && same_cfg cfg cfg')) [
        | inr f ↦ e ∙ sym f
        | inl f ↦
            let l : lib ≡ lib' = eq_of_same_text lib lib' (ground arith) in
            let c : cfg ≡ cfg' = eq_of_same_cfg cfg cfg' (ground arith) in
            let k : key_of lib cfg ≡ key_of lib' cfg' =
              ap (λ (x : Str). key_of x cfg) l ∙ ap (key_of lib') c in
            absurd (cc (ap (same_text (key_of lib cfg)) k, same_text_refl (key_of lib cfg)))
      ]
    ]
