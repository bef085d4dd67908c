-- ===== src/Lua/Load/Tables.antt =====
-- What holds of the tables of runtimes in every state that Lua can reach.
use lua_resty_ffi.Common.{
  ℕ, Bool, ◌≢◌, ◌+◌, ◌<◌, ◌==◌, ◌≡◌, refl, sym, ap, ◌∙◌, not, true, false, Option, none, some, [],
  ◌∷◌, arith, Bool-cases, Option-cases, inl, inr,
}
use lua_resty_ffi.Common.Int.{is_nonzero}
use lua_resty_ffi.Loader.{Str}
use lua_resty_ffi.Lua.Load.{
  same_text, key_of, Nffi, Libs, Answers, lookup, is_pin, ffi_load, Opts, set_nffi, create_nffi,
  can_start, load_ffi, forget, unload_nffi,
}
use lua_resty_ffi.Lua.Load.Keys.{
  some_inj, same_text_refl, eq_of_same_text, found-forget, kept-forget,
}

-- The cached runtimes are those that are not finished, each under its own key.
pub record Inv (libs : Libs) : Type 0 where
  pub cached :
      (key : Str) {i : ℕ}
      → lookup key libs.runtimes ≡ some i
      → (n : Nffi) × (libs.nffis i ≡ some n) × (n.finished ≡ false) × (n.key ≡ some key)
  pub live :
      (i : ℕ) {n : Nffi}
      → libs.nffis i ≡ some n
      → n.finished ≡ false
      → (key : Str) × (n.key ≡ some key) × (lookup key libs.runtimes ≡ some i)
  pub made : (i : ℕ) {n : Nffi} → libs.nffis i ≡ some n → i < libs.queues

-- The calls that Lua makes: an unload is of a runtime that was loaded.
pub data Reach : Libs → Type 0 where
  begins :
      Reach (record {
        initialised = false;
        runtimes = [];
        pin_libs = [];
        nffis = λ i. none;
        queues = 0;
      })
  loads :
      {libs : Libs} (a : Answers) (lib : Str) (cfg : Option Str) (opts : Option Opts)
      → Reach libs
      → Reach (load_ffi a lib cfg opts libs).1
  unloads : {libs : Libs} (i : ℕ) → Reach libs → Reach (unload_nffi i libs)

-- One more runtime, in the table and under its key.
pub put-Inv :
    (key : Str) (nffi : Nffi) (libs : Libs)
    → nffi.finished ≡ false
    → nffi.key ≡ some key
    → lookup key libs.runtimes ≡ none
    → Inv libs
    → Inv (record libs {
      nffis = set_nffi libs.nffis libs.queues nffi;
      runtimes = (key, libs.queues) ∷ libs.runtimes;
      queues = libs.queues + 1;
    })
put-Inv key nffi libs unfinished under miss inv = record {
  cached = cached;
  live = live;
  made = made;
}
  where
    live :
        (i : ℕ) {n : Nffi}
        → set_nffi libs.nffis libs.queues nffi i ≡ some n
        → n.finished ≡ false
        → (k : Str) × (n.key ≡ some k) × (lookup k ((key, libs.queues) ∷ libs.runtimes) ≡ some i)
    live i {n} e go = elim (Bool-cases (libs.queues == i)) [
      | inl here ↦
          let new : nffi ≡ n = some_inj (rw here at e) in
          (key, ap Nffi.key (sym new) ∙ under, rw (same_text_refl key) (ground arith))
      | inr there ↦
          let (k, k_at, hit) = inv.live i {n = n} (rw there at e) go in
          elim (Bool-cases (same_text k key)) [
            | inl same ↦
                absurd (cc (ap (λ (x : Str). lookup x libs.runtimes) (eq_of_same_text k key same)))
            | inr other ↦ (k, k_at, rw (other, hit))
          ]
    ]

    cached :
        (k : Str) {i : ℕ}
        → lookup k ((key, libs.queues) ∷ libs.runtimes) ≡ some i
        → (n : Nffi) × (set_nffi libs.nffis libs.queues nffi i ≡ some n)
          × (n.finished ≡ false)
          × (n.key ≡ some k)
    cached k {i} h = elim (Bool-cases (same_text k key)) [
      | inl same ↦
          (nffi, ground arith, unfinished, under ∙ ap some (sym (eq_of_same_text k key same)))
      | inr other ↦
          let (n, e, f, g) = inv.cached k {i = i} (ground arith) in
          let lt = inv.made i e in (n, ground arith, f, g)
    ]

    made :
        (i : ℕ) {n : Nffi} → set_nffi libs.nffis libs.queues nffi i ≡ some n → i < libs.queues + 1
    made i {n} h = elim (Bool-cases (libs.queues == i)) [
      | inl e ↦ ground arith
      | inr e ↦ let lt = inv.made i {n = n} (ground arith) in omega arith
    ]

pub queue-Inv : (libs : Libs) → Inv libs → Inv (record libs { queues = libs.queues + 1 })
queue-Inv libs inv = record {
  cached = inv.cached;
  live = inv.live;
  made = λ i h. let lt = inv.made i h in omega arith;
}

pub init-Inv : (libs : Libs) → Inv libs → Inv (record libs { initialised = true })
init-Inv libs inv = record { cached = inv.cached; live = inv.live; made = inv.made }

-- Pinning leaves the tables alone.
pub pin-Inv : (lib : Str) (pin : Bool) (libs : Libs) → Inv libs → Inv (ffi_load lib pin libs)
pin-Inv lib pin libs inv = record { cached = inv.cached; live = inv.live; made = inv.made }

pub create_nffi-Inv :
    (a : Answers) (lib key : Str) (opts : Option Opts) (libs : Libs)
    → lookup key libs.runtimes ≡ none
    → Inv libs
    → Inv (create_nffi a lib key opts libs).1
unfolding create_nffi
create_nffi-Inv a lib key opts libs miss inv = elim (Bool-cases (not a.found)) [
  | inl e ↦ rw e (queue-Inv libs inv)
  | inr e ↦ elim (Bool-cases (not a.has_init)) [
    | inl g ↦ rw (e, g) (pin-Inv lib (is_pin opts) _ (queue-Inv libs inv))
    | inr g ↦ elim (Bool-cases (is_nonzero a.start_rc)) [
      | inl f ↦ rw (e, g, f) (pin-Inv lib (is_pin opts) _ (queue-Inv libs inv))
      | inr f ↦ rw (e, g, f) (pin-Inv lib (is_pin opts) _ (put-Inv key _ libs refl refl miss inv))
    ]
  ]
]

pub load_ffi-Inv :
    (a : Answers) (lib : Str) (cfg : Option Str) (opts : Option Opts) (libs : Libs)
    → Inv libs
    → Inv (load_ffi a lib cfg opts libs).1
unfolding load_ffi
load_ffi-Inv a lib cfg opts libs inv = elim (Bool-cases (can_start a libs)) [
  | inr e ↦ rw (e, load_ffi) inv
  | inl e ↦ elim (Option-cases (lookup (key_of lib cfg) libs.runtimes)) [
    | inl miss ↦
        rw (e, miss, load_ffi)
          (create_nffi-Inv a lib (key_of lib cfg) opts (record libs { initialised = true }) miss
            (init-Inv libs inv))
    | inr (i, hit) ↦ rw (e, hit, load_ffi) (init-Inv libs inv)
  ]
]

-- A runtime that is finished, and no longer in the table.
pub take-Inv :
    (i : ℕ) (n : Nffi) (libs : Libs)
    → libs.nffis i ≡ some n
    → n.finished ≡ false
    → Inv libs
    → Inv (record libs {
      nffis = set_nffi libs.nffis i (record n { finished = true; key = none; handle = none });
      runtimes = forget n.key libs.runtimes;
    })
take-Inv i n libs e unfinished inv = record { cached = cached; live = live; made = made }
  where
    gone : Nffi
    gone = record n { finished = true; key = none; handle = none }

    cached :
        (k : Str) {j : ℕ}
        → lookup k (forget n.key libs.runtimes) ≡ some j
        → (m : Nffi) × (set_nffi libs.nffis i gone j ≡ some m)
          × (m.finished ≡ false)
          × (m.key ≡ some k)
    cached k {j} h =
        let (ne, h') = found-forget k n.key libs.runtimes h in
        let (m, e', f, g) = inv.cached k h' in
        elim (Bool-cases (i == j)) [
          | inl here ↦
              let i_j : i ≡ j = ground arith in
              let same : some n ≡ some m = sym e ∙ ap libs.nffis i_j ∙ e' in
              absurd (ne (ap Nffi.key (some_inj same) ∙ g))
          | inr there ↦ (m, ground arith, f, g)
        ]

    live :
        (j : ℕ) {m : Nffi}
        → set_nffi libs.nffis i gone j ≡ some m
        → m.finished ≡ false
        → (k : Str) × (m.key ≡ some k) × (lookup k (forget n.key libs.runtimes) ≡ some j)
    live j {m} at_j go = elim (Bool-cases (i == j)) [
      | inl here ↦
          let new : gone ≡ m = some_inj (rw here at at_j) in absurd (cc (ap Nffi.finished new))
      | inr there ↦
          let (k, k_at, hit) = inv.live j {n = m} (rw there at at_j) go in
          let (k', k'_at, hit') = inv.live i e unfinished in
          let apart : k ≢ k' = λ (q : k ≡ k').
            let same : i ≡ j =
              some_inj (sym hit' ∙ ap (λ (x : Str). lookup x libs.runtimes) (sym q) ∙ hit) in
            ground arith in
          (k, k_at, kept-forget k k' libs.runtimes k'_at apart hit)
    ]

    made : (j : ℕ) {m : Nffi} → set_nffi libs.nffis i gone j ≡ some m → j < libs.queues
    made j {m} h = elim (Bool-cases (i == j)) [
      | inl here ↦ let lt = inv.made i e in let i_j : i ≡ j = ground arith in omega arith
      | inr there ↦ inv.made j {n = m} (ground arith)
    ]

pub unload_nffi-Inv : (i : ℕ) (libs : Libs) → Inv libs → Inv (unload_nffi i libs)
unfolding unload_nffi
unload_nffi-Inv i libs inv = elim (Option-cases (libs.nffis i)) [
  | inl e ↦ rw (e, unload_nffi) inv
  | inr (n, e) ↦ elim (Bool-cases n.finished) [
    | inl f ↦ rw (e, f, unload_nffi) inv
    | inr f ↦ rw (e, f, unload_nffi) (take-Inv i n libs e f inv)
  ]
]

pub Reach-Inv : {libs : Libs} → Reach libs → Inv libs
Reach-Inv begins = record {
  cached = λ key h. absurd (cc);
  live = λ i h go. absurd (cc);
  made = λ i h. absurd (cc);
}
Reach-Inv (loads {libs} a lib cfg opts r) = load_ffi-Inv a lib cfg opts libs (Reach-Inv r)
Reach-Inv (unloads {libs} i r) = unload_nffi-Inv i libs (Reach-Inv r)
