-- ===== src/Lua/Load/Shared.antt =====
-- Which calls of load_ffi share a runtime.
use lua_resty_ffi.Common.{
  ℕ, ◌+◌, ◌==◌, ◌≡◌, refl, sym, ap, ◌∙◌, if◌then◌else◌, ◌&&◌, ◌⊎◌, not, Bool, true, false, Option,
  none, some, arith, Bool-cases, Option-cases, inl, inr, ==_refl,
}
use lua_resty_ffi.Common.Int.{is_nonzero}
use lua_resty_ffi.Loader.{Str}
use lua_resty_ffi.Loader.Split.{NotIn}
use lua_resty_ffi.Lua.Load.{
  same_text, key_of, Opts, Nffi, Libs, Loaded, loaded, Answers, lookup, create_nffi, can_start,
  load_ffi,
}
use lua_resty_ffi.Lua.Load.Keys.{
  some_inj, same_text_refl, eq_of_same_text, same_text-key_of, same_cfg,
}
use lua_resty_ffi.Lua.Load.Tables.{Inv, Reach, Reach-Inv, loads}

pub loaded_inj :
    {i j : ℕ} {m n : Libs} → ◌≡◌ {A = Loaded × Libs} (loaded i, m) (loaded j, n) → (i ≡ j) × (m ≡ n)
loaded_inj e = (cc (ap (λ (r : Loaded × Libs). r.0) e), ap (λ (r : Loaded × Libs). r.1) e)

-- What a load comes to that returns a runtime: it stood in the table, or is the one of a new queue.
load_ffi-loaded :
    (a : Answers) (lib : Str) (cfg : Option Str) (opts : Option Opts) (libs : Libs) {libs' : Libs}
    {i : ℕ}
    → load_ffi a lib cfg opts libs ≡ (loaded i, libs')
    → ((lookup (key_of lib cfg) libs.runtimes ≡ some i)
        × (libs'.queues ≡ libs.queues)
        × (lookup (key_of lib cfg) libs'.runtimes ≡ some i))
      ⊎ ((lookup (key_of lib cfg) libs.runtimes ≡ none)
          × (i ≡ libs.queues)
          × (libs'.queues ≡ libs.queues + 1)
          × (lookup (key_of lib cfg) libs'.runtimes ≡ some i))
unfolding load_ffi create_nffi
load_ffi-loaded a lib cfg opts libs {libs'} {i} h = elim (Bool-cases (can_start a libs)) [
  | inr never ↦ absurd (cc (rw (never, load_ffi) at h))
  | inl starts ↦ elim (Option-cases (lookup (key_of lib cfg) libs.runtimes)) [
    | inr (j, hit) ↦
        let (same, now) = loaded_inj (rw (starts, hit, load_ffi) at h) in
        let queues = ap Libs.queues now in
        let table : libs.runtimes ≡ libs'.runtimes = ap Libs.runtimes now in
        inl (
          hit ∙ ap some same,
          sym queues,
          ap (lookup (key_of lib cfg)) (sym table) ∙ hit ∙ ap some same,
        )
    | inl miss ↦ elim (Bool-cases (not a.found)) [
      | inl e ↦ absurd (cc (rw (starts, miss, e, load_ffi, create_nffi) at h))
      | inr e ↦ elim (Bool-cases (not a.has_init)) [
        | inl g ↦ absurd (cc (rw (starts, miss, e, g, load_ffi, create_nffi) at h))
        | inr g ↦ elim (Bool-cases (is_nonzero a.start_rc)) [
          | inl f ↦ absurd (cc (rw (starts, miss, e, g, f, load_ffi, create_nffi) at h))
          | inr f ↦
              let (same, now) =
                loaded_inj (rw (starts, miss, e, g, f, load_ffi, create_nffi) at h) in
              let table = ap Libs.runtimes now in
              inr (
                miss,
                sym same,
                sym (ap Libs.queues now),
                ap (lookup (key_of lib cfg)) (sym table)
                    ∙ rw (same_text_refl (key_of lib cfg)) (ap some same),
              )
        ]
      ]
    ]
  ]
]

-- Runtimes in the table are the same where their keys are.
cached_agree :
    (libs : Libs)
    → Inv libs
    → (k k' : Str) {i j : ℕ} → lookup k libs.runtimes ≡ some i
    → lookup k' libs.runtimes ≡ some j
    → (i == j) ≡ same_text k k'
cached_agree libs inv k k' {i} {j} at_i at_j = elim (Bool-cases (same_text k k')) [
  | inl e ↦
      let i_j : i ≡ j =
        some_inj
          (sym at_i ∙ ap (λ (x : Str). lookup x libs.runtimes) (eq_of_same_text k k' e) ∙ at_j) in
      ap (λ (x : ℕ). i == x) (sym i_j) ∙ ==_refl i ∙ sym e
  | inr e ↦ elim (Bool-cases (i == j)) [
    | inr f ↦ f ∙ sym e
    | inl f ↦
        let i_j : i ≡ j = ground arith in
        let (m, m_at, _, m_key) = inv.cached k at_i in
        let (n, n_at, _, n_key) = inv.cached k' at_j in
        let m_n : m ≡ n = some_inj (sym m_at ∙ ap libs.nffis i_j ∙ n_at) in
        let k_k' : k ≡ k' = some_inj (sym m_key ∙ ap Nffi.key m_n ∙ n_key) in
        absurd (cc (ap (same_text k) k_k', same_text_refl k))
  ]
]

-- A runtime in the table is not the next one.
new_apart :
    (libs : Libs)
    → Inv libs
    → (k k' : Str) {i : ℕ} → lookup k libs.runtimes ≡ some i
    → lookup k' libs.runtimes ≡ none
    → ((i == libs.queues) ≡ false) × (same_text k k' ≡ false)
new_apart libs inv k k' {i} at_i miss =
    let (n, e, _, _) = inv.cached k at_i in
    let lt = inv.made i e in
    (
      ground arith,
      elim (Bool-cases (same_text k k')) [
        | inr f ↦ f
        | inl f ↦ absurd (cc (ap (λ (x : Str). lookup x libs.runtimes) (eq_of_same_text k k' f)))
      ],
    )

load_ffi-table :
    (a : Answers) (lib : Str) (cfg : Option Str) (opts : Option Opts) (libs : Libs) {libs' : Libs}
    {i : ℕ}
    → load_ffi a lib cfg opts libs ≡ (loaded i, libs')
    → lookup (key_of lib cfg) libs'.runtimes ≡ some i
load_ffi-table a lib cfg opts libs h = elim (load_ffi-loaded a lib cfg opts libs h) [
  | inl (_, _, e) ↦ e
  | inr (_, _, _, e) ↦ e
]

when_same : {m n : ℕ} (b : Bool) → m ≡ n → (if b then m else n) ≡ n
when_same true e = e
when_same false e = refl

-- Two loads, one after the other, in a state that Lua can reach, that both return a runtime, of
-- libraries whose names have no '&'. They return the same runtime just where library and
-- configuration are the same; the second one creates no task queue then. What the first one
-- returns is not finished.
pub load_ffi-shares :
    (a a' : Answers) (lib lib' : Str) (cfg cfg' : Option Str) (opts opts' : Option Opts)
    {libs libs' libs'' : Libs} {i j : ℕ}
    → Reach libs
    → load_ffi a lib cfg opts libs ≡ (loaded i, libs')
    → load_ffi a' lib' cfg' opts' libs' ≡ (loaded j, libs'')
    → NotIn b'&' lib
    → NotIn b'&' lib'
    → ((i == j) ≡ (same_text lib lib' && same_cfg cfg cfg'))
      × ((if i == j then libs''.queues else libs'.queues) ≡ libs'.queues)
      × (n : Nffi) × (libs'.nffis i ≡ some n)
      × (n.finished ≡ false)
load_ffi-shares a a' lib lib' cfg cfg' opts opts' {libs} {libs'} {libs''} {i} {j} r h h' amp amp' =
    let inv : Inv libs' = rw h at (Reach-Inv (loads a lib cfg opts r)) in
    let at_i = load_ffi-table a lib cfg opts libs h in
    let (n, e, f, g) = inv.cached (key_of lib cfg) at_i in
    let keys = same_text-key_of lib lib' cfg cfg' amp amp' in
    elim (load_ffi-loaded a' lib' cfg' opts' libs' h') [
      | inl (hit, queues, _) ↦
          let agree = cached_agree libs' inv (key_of lib cfg) (key_of lib' cfg') at_i hit in
          (agree ∙ keys, when_same (i == j) queues, n, e, f)
      | inr (miss, new, queues, _) ↦
          let (apart, other) = new_apart libs' inv (key_of lib cfg) (key_of lib' cfg') at_i miss in
          let differ : (i == j) ≡ false = ap (λ (x : ℕ). i == x) new ∙ apart in
          (differ ∙ sym other ∙ keys, rw differ refl, n, e, f)
    ]
