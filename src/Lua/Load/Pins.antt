-- ===== src/Lua/Load/Pins.antt =====
-- Which libraries stay open while runtimes are loaded and unloaded.
use lua_resty_ffi.Common.{
  ℕ, ◌<◌, ◌==◌, ◌≡◌, refl, sym, ap, ◌∙◌, Bool, not, true, false, Option, none, some, List, [], ◌∷◌,
  ◌||◌, arith, Bool-cases, Option-cases, inl, inr, if◌then◌else◌,
}
use lua_resty_ffi.Common.Int.{is_nonzero}
use lua_resty_ffi.Loader.{Str}
use lua_resty_ffi.Lua.Load.{
  same_text, key_of, Opts, Nffi, Libs, loaded, Answers, lookup, max_queue_of, is_pin, create_nffi,
  can_start, load_ffi, unload_nffi,
}
use lua_resty_ffi.Lua.Load.Keys.{some_inj, same_text_refl}
use lua_resty_ffi.Lua.Load.Shared.{loaded_inj}
use lua_resty_ffi.Lua.Load.Tables.{Reach, Reach-Inv, loads, unloads}

-- What Lua does from one state on: any loads and unloads.
pub data Later (libs : Libs) : Libs → Type 0 where
  now : Later libs libs
  loads_more :
      {libs' : Libs} (a : Answers) (lib : Str) (cfg : Option Str) (opts : Option Opts)
      → Later libs libs'
      → Later libs (load_ffi a lib cfg opts libs').1
  unloads_one : {libs' : Libs} (i : ℕ) → Later libs libs' → Later libs (unload_nffi i libs')

abbrev pub pinned : Str → List Str → Bool
pinned lib [] = false
pinned lib (x ∷ xs) = same_text lib x || pinned lib xs

-- Whether a runtime was unloaded on the way.
abbrev pub unloaded : {libs libs' : Libs} → ℕ → Later libs libs' → Bool
unloaded i now = false
unloaded i (loads_more a lib cfg opts l) = unloaded i l
unloaded i (unloads_one j l) = (j == i) || unloaded i l

-- What is known of the runtime `i` that was loaded from `lib`, unloaded since or not.
record Kept (i : ℕ) (lib key : Str) (pin gone : Bool) (libs : Libs) : Type 0 where
  at : Nffi
  here : libs.nffis i ≡ some at
  finished : at.finished ≡ gone
  handle : at.handle ≡ (if gone then none else some lib)
  under : gone ≡ false → at.key ≡ some key
  pins : pin ≡ true → pinned lib libs.pin_libs ≡ true

module _ (i : ℕ) (lib key : Str) (pin gone : Bool) where
  carry :
      {libs libs' : Libs}
      → libs'.nffis i ≡ libs.nffis i
      → (pinned lib libs.pin_libs ≡ true → pinned lib libs'.pin_libs ≡ true)
      → Kept i lib key pin gone libs
      → Kept i lib key pin gone libs'
  carry same more k = record {
    at = k.at;
    here = same ∙ k.here;
    finished = k.finished;
    handle = k.handle;
    under = k.under;
    pins = λ e. more (k.pins e);
  }

  pinned_more :
      (l : Str) (p : Bool) (xs : List Str)
      → pinned lib xs ≡ true
      → pinned lib (if p then l ∷ xs else xs) ≡ true
  pinned_more l true xs h = ground (arith, h)
  pinned_more l false xs h = h

  -- A new runtime is another one.
  create-Kept :
      (a : Answers) (l k : Str) (opts : Option Opts) (libs : Libs)
      → i < libs.queues
      → Kept i lib key pin gone libs
      → Kept i lib key pin gone (create_nffi a l k opts libs).1
  unfolding create_nffi
  create-Kept a l k opts libs lt kept =
      let more = pinned_more l (is_pin opts) libs.pin_libs in
      elim (Bool-cases (not a.found)) [
        | inl e ↦ rw e (carry refl (λ h. h) kept)
        | inr e ↦ elim (Bool-cases (not a.has_init)) [
          | inl g ↦ rw (e, g) (carry refl more kept)
          | inr g ↦ elim (Bool-cases (is_nonzero a.start_rc)) [
            | inl f ↦ rw (e, g, f) (carry refl more kept)
            | inr f ↦
                let other : (libs.queues == i) ≡ false = ground arith in
                rw (e, g, f) (carry (rw other refl) more kept)
          ]
        ]
      ]

  load-Kept :
      (a : Answers) (l : Str) (cfg : Option Str) (opts : Option Opts) (libs : Libs)
      → i < libs.queues
      → Kept i lib key pin gone libs
      → Kept i lib key pin gone (load_ffi a l cfg opts libs).1
  unfolding load_ffi
  load-Kept a l cfg opts libs lt kept = elim (Bool-cases (can_start a libs)) [
    | inr e ↦ rw (e, load_ffi) kept
    | inl e ↦
        let begun = carry {libs' = record libs { initialised = true }} refl (λ h. h) kept in
        elim (Option-cases (lookup (key_of l cfg) libs.runtimes)) [
          | inl miss ↦ rw (e, miss, load_ffi) (create-Kept a l (key_of l cfg) opts _ lt begun)
          | inr (j, hit) ↦ rw (e, hit, load_ffi) begun
        ]
  ]

unload-Kept :
    (i : ℕ) (lib key : Str) (pin gone : Bool) (j : ℕ) (libs : Libs)
    → Kept i lib key pin gone libs
    → Kept i lib key pin ((j == i) || gone) (unload_nffi j libs)
unfolding unload_nffi
unload-Kept i lib key pin gone j libs kept = elim (Bool-cases (j == i)) [
  | inr e ↦ rw e (elsewhere e)
  | inl e ↦
      let j_i : j ≡ i = ground arith in
      let at_j : libs.nffis j ≡ some kept.at = ap libs.nffis j_i ∙ kept.here in
      elim (Bool-cases kept.at.finished) [
        | inl f ↦ rw e (again f at_j)
        | inr f ↦ rw e (first e f at_j)
      ]
]
  where
    elsewhere : (j == i) ≡ false → Kept i lib key pin gone (unload_nffi j libs)
    elsewhere e = elim (Option-cases (libs.nffis j)) [
      | inl f ↦ rw (f, unload_nffi) kept
      | inr (n, f) ↦ elim (Bool-cases n.finished) [
        | inl g ↦ rw (f, g, unload_nffi) kept
        | inr g ↦ rw (f, g, unload_nffi) (carry i lib key pin gone (rw e refl) (λ h. h) kept)
      ]
    ]

    again :
        kept.at.finished ≡ true
        → libs.nffis j ≡ some kept.at
        → Kept i lib key pin true (unload_nffi j libs)
    again f at_j =
        let over : gone ≡ true = sym kept.finished ∙ f in
        rw (at_j, f, unload_nffi)
          (record {
            at = kept.at;
            here = kept.here;
            finished = f;
            handle = kept.handle ∙ rw over refl;
            under = λ e. absurd (cc);
            pins = kept.pins;
          })

    first :
        (j == i) ≡ true
        → kept.at.finished ≡ false
        → libs.nffis j ≡ some kept.at
        → Kept i lib key pin true (unload_nffi j libs)
    first e f at_j =
        rw (at_j, f, unload_nffi)
          (record {
            at = record kept.at { finished = true; key = none; handle = none };
            here = rw e refl;
            finished = refl;
            handle = refl;
            under = λ e. absurd (cc);
            pins = kept.pins;
          })

-- While only loads and unloads happen.
Later-Kept :
    {libs libs' : Libs} (i : ℕ) (lib key : Str) (pin : Bool)
    → Reach libs
    → Kept i lib key pin false libs
    → (l : Later libs libs') → Reach libs' × Kept i lib key pin (unloaded i l) libs'
Later-Kept i lib key pin r kept now = (r, kept)
Later-Kept i lib key pin r kept (loads_more {libs'} a lib' cfg opts l) =
    let (r', kept') = Later-Kept i lib key pin r kept l in
    let lt = (Reach-Inv r').made i kept'.here in
    (
      loads a lib' cfg opts r',
      load-Kept i lib key pin (unloaded i l) a lib' cfg opts libs' lt kept',
    )
Later-Kept i lib key pin r kept (unloads_one {libs'} j l) =
    let (r', kept') = Later-Kept i lib key pin r kept l in
    (unloads j r', unload-Kept i lib key pin (unloaded i l) j libs' kept')

-- A load that makes a new runtime.
new-Kept :
    (a : Answers) (lib : Str) (cfg : Option Str) (opts : Option Opts) (libs : Libs) {libs' : Libs}
    {i : ℕ}
    → load_ffi a lib cfg opts libs ≡ (loaded i, libs')
    → lookup (key_of lib cfg) libs.runtimes ≡ none
    → Kept i lib (key_of lib cfg) (is_pin opts) false libs'
unfolding load_ffi create_nffi
new-Kept a lib cfg opts libs {libs'} {i} h miss = elim (Bool-cases (can_start a libs)) [
  | inr never ↦ absurd (cc (rw (never, load_ffi) at h))
  | inl starts ↦ elim (Bool-cases (not a.found)) [
    | inl e ↦ absurd (cc (rw (starts, miss, e, load_ffi, create_nffi) at h))
    | inr e ↦ elim (Bool-cases (not a.has_init)) [
      | inl g ↦ absurd (cc (rw (starts, miss, e, g, load_ffi, create_nffi) at h))
      | inr g ↦ elim (Bool-cases (is_nonzero a.start_rc)) [
        | inl f ↦ absurd (cc (rw (starts, miss, e, g, f, load_ffi, create_nffi) at h))
        | inr f ↦
            let (same, made) =
              loaded_inj (rw (starts, miss, e, g, f, load_ffi, create_nffi) at h) in
            let pins = ap Libs.pin_libs made in
            let new : (libs.queues == i) ≡ true = ground arith in
            record {
              at = record {
                finished = false;
                key = some (key_of lib cfg);
                handle = some lib;
                max_queue = max_queue_of opts;
              };
              here = sym (ap (λ (x : Libs). x.nffis i) made) ∙ rw new refl;
              finished = refl;
              handle = refl;
              under = λ go. refl;
              pins = λ p. ap (pinned lib) (sym pins) ∙ rw (p, same_text_refl lib) refl;
            }
      ]
    ]
  ]
]

-- A load that makes a new runtime, in a state that Lua can reach, and any loads and unloads after it.
-- Until the runtime is unloaded it stays in the table under its key, unfinished, and its handle keeps
-- its library open, whatever else is loaded and unloaded; from its unload on it is finished and has
-- no handle. Unless the load asked to unpin the library, the library stays open for good.
pub stays_open :
    (a : Answers) (lib : Str) (cfg : Option Str) (opts : Option Opts) {libs libs' libs'' : Libs}
    {i : ℕ}
    → Reach libs
    → load_ffi a lib cfg opts libs ≡ (loaded i, libs')
    → lookup (key_of lib cfg) libs.runtimes ≡ none
    → (l : Later libs' libs'')
    → ((n : Nffi) × (libs''.nffis i ≡ some n)
        × (n.finished ≡ unloaded i l)
        × (n.handle ≡ (if unloaded i l then none else some lib)))
      × (unloaded i l ≡ false → lookup (key_of lib cfg) libs''.runtimes ≡ some i)
      × (is_pin opts ≡ true → pinned lib libs''.pin_libs ≡ true)
stays_open a lib cfg opts {libs} {libs'} {libs''} {i} r h miss l =
    let reach : Reach libs' = rw h at (loads a lib cfg opts r) in
    let (r', k) =
      Later-Kept i lib (key_of lib cfg) (is_pin opts) reach (new-Kept a lib cfg opts libs h miss)
        l in
    (
      (k.at, k.here, k.finished, k.handle),
      λ e.
          let (key, at_key, hit) = (Reach-Inv r').live i k.here (k.finished ∙ e) in
          let same : key ≡ key_of lib cfg = some_inj (sym at_key ∙ k.under e) in
          ap (λ (x : Str). lookup x libs''.runtimes) (sym same) ∙ hit,
      k.pins,
    )
