-- ===== src/Node/Loader/Calls.antt =====
-- Which JavaScript function libffi_init of examples/nodejs/loader.cc calls, and what it returns.
use lua_resty_ffi.Common.{
  ℕ, suc, ◌≡◌, ◌≢◌, refl, ◌∙◌, ap, sym, ◌||◌, ◌==◌, if◌then◌else◌, Bool, true, false, Option, none,
  some, List, [], ◌∷◌, ◌++◌, arith, Bool-cases, inl, inr,
}
use mathlib.Core.List.{append-nil}
use lua_resty_ffi.Loader.{Str}
use lua_resty_ffi.Loader.Split.{NotIn, NotIn-marked, marked, unmark-marked, config}
use lua_resty_ffi.Loader.Digits.{
  digits, chars, read_digits, digits-cons, read_digits-digits, Base-sixteen,
}
use lua_resty_ffi.Node.Loader.{pointer_text, message, split, bigint_of, Call, plan_of, js_plan}

split-cons : (sep : ℕ) (xs : Str) → (p : Str) × (ps : List Str) × (split sep xs ≡ p ∷ ps)
unfolding split
split-cons sep [] = ([], [], refl)
split-cons sep (x ∷ xs) =
    let (p, ps, e) = split-cons sep xs in
    elim (Bool-cases (x == sep)) [
      | inl hit ↦ ([], p ∷ ps, rw (e, split, hit))
      | inr miss ↦ (x ∷ p, ps, rw (e, split, miss))
    ]

split-append :
    (sep : ℕ) (p rest : Str) → NotIn sep p → split sep (p ++ sep ∷ rest) ≡ p ∷ split sep rest
unfolding split
split-append sep [] rest h =
    let (q, qs, e) = split-cons sep rest in
    let hit : (sep == sep) ≡ true = ground arith in rw (e, split, hit)
split-append sep (x ∷ xs) rest (ne, h) =
    let miss : (x == sep) ≡ false = ground arith in rw (split-append sep xs rest h, split, miss)

split_one : (sep : ℕ) (p : Str) → NotIn sep p → split sep p ≡ p ∷ []
unfolding split
split_one sep [] h = refl
split_one sep (x ∷ xs) (ne, h) =
    let miss : (x == sep) ≡ false = ground arith in rw (split_one sep xs h, split, miss)

abbrev pub has_comma : Str → Bool
has_comma [] = false
has_comma (x ∷ xs) = (x == b',') || has_comma xs

split_commas :
    (xs : Str)
    → has_comma xs ≡ true
    → (p q : Str) × (ps : List Str) × (split b',' xs ≡ p ∷ (q ∷ ps))
unfolding split
split_commas [] h = cc
split_commas (x ∷ xs) h = elim (Bool-cases (x == b',')) [
  | inl hit ↦ let (p, ps, e) = split-cons b',' xs in ([], p, ps, rw (e, split, hit))
  | inr miss ↦
      let (p, q, ps, e) = split_commas xs (ground arith) in (x ∷ p, q, ps, rw (e, split, miss))
]

NotIn-comma : (xs : Str) → has_comma xs ≡ false → NotIn b',' xs
NotIn-comma [] h = tt
NotIn-comma (x ∷ xs) h = (ground arith, NotIn-comma xs (ground arith))

NotIn-chars : (ds : List ℕ) → NotIn b',' (chars ds)
NotIn-chars [] = tt
NotIn-chars (d ∷ ds) = (ground arith, NotIn-chars ds)

NotIn-pointer_text : (p : ℕ) → p ≢ 0 → NotIn b',' (pointer_text p)
NotIn-pointer_text p ne =
    let some_p : (p == 0) ≡ false = ground arith in
    rw some_p (omega arith, (omega arith, NotIn-chars (digits 16 (suc p) p)))

-- The pointer comes through.
bigint_of-chars :
    (ds : List ℕ) (d : ℕ) (ds' : List ℕ) (n : ℕ)
    → ds ≡ d ∷ ds'
    → read_digits 16 0 (chars ds ++ []) ≡ (n, [])
    → bigint_of (b'0' ∷ (b'x' ∷ chars ds)) ≡ some n
unfolding bigint_of
bigint_of-chars ds d ds' n e r =
    let r' : read_digits 16 0 (chars (d ∷ ds')) ≡ (n, []) =
      ap (λ (cs : List ℕ). read_digits 16 0 (chars cs)) (sym e)
      ∙ ap (read_digits 16 0) (sym (append-nil (chars ds)))
      ∙ r in
    rw e (rw (r', bigint_of) (ap some (ap (λ (x : ℕ × Str). x.0) r')))

bigint_of-pointer_text : (p : ℕ) → p ≢ 0 → bigint_of (pointer_text p) ≡ some p
bigint_of-pointer_text p ne =
    let some_p : (p == 0) ≡ false = ground arith in
    let (d, ds, e) = digits-cons 16 p p in
    rw some_p (
      bigint_of-chars (digits 16 (suc p) p) d ds p e
        (read_digits-digits Base-sixteen (suc p) p [] (omega arith) tt))

-- What the handler calls for a configuration without further parts.
abbrev pub the_call : ℕ → Str → Bool → Str → Call
the_call tq name reload func = record { tq = tq; name = name; reload = reload; func = some func }

-- What the handler calls, by what stands behind the function.
abbrev pub expected : Call → Option Str → Option Call
expected c none = some c
expected c (some rest) = if has_comma rest then some c else none

module _ (tq : ℕ) (m : Str) (c : ℕ) (reload : Bool) (func : Str) (some_tq : tq ≢ 0)
    (hm : NotIn b',' (m ++ c ∷ [])) (ne : c ≢ b'?') (hf : NotIn b',' func) where
  abbrev target : Str
  target = marked (m ++ c ∷ []) reload

  target-NotIn : NotIn b',' target
  target-NotIn = NotIn-marked b',' (m ++ c ∷ []) reload (omega arith) hm

  split-message :
      (rest : Str)
      → split b',' (pointer_text tq ++ b',' ∷ (target ++ b',' ∷ rest))
        ≡ pointer_text tq ∷ (target ∷ split b',' rest)
  split-message rest =
      split-append b',' (pointer_text tq) (target ++ b',' ∷ rest) (NotIn-pointer_text tq some_tq)
      ∙ ap (λ ps. pointer_text tq ∷ ps) (split-append b',' target rest target-NotIn)

  -- The message that is sent for `module?,func` makes JavaScript call that function of that module
  -- with that task queue, the module loaded again if it has the '?'. With one more part, a
  -- configuration, nothing is called, since an exception comes first; with two more parts and more the
  -- function is called, and all of them are dropped.
  pub js_plan-config :
      (rest : Option Str)
      → js_plan (message tq (some (config target func rest)))
        ≡ expected (the_call tq (m ++ c ∷ []) reload func) rest
  unfolding js_plan plan_of
  js_plan-config none = rw (
    split-message func,
    split_one b',' func hf,
    js_plan,
    plan_of,
    bigint_of-pointer_text tq some_tq,
    unmark-marked true m c reload ne,
  )
  js_plan-config (some rest) = elim (Bool-cases (has_comma rest)) [
    | inl more ↦
        let (p, q, ps, e) = split_commas rest more in
        rw (
          split-message (func ++ b',' ∷ rest),
          split-append b',' func rest hf,
          e,
          more,
          js_plan,
          plan_of,
          bigint_of-pointer_text tq some_tq,
          unmark-marked true m c reload ne,
        )
    | inr one ↦ rw (
      split-message (func ++ b',' ∷ rest),
      split-append b',' func rest hf,
      split_one b',' rest (NotIn-comma rest one),
      one,
      js_plan,
      plan_of,
    )
  ]
