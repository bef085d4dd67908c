-- ===== src/Loader/Python.antt =====
-- examples/python/loader.c: which module and function libffi_init calls, with which configuration.
pub mod Outcome
pub mod Start
use lua_resty_ffi.Common.{
  ℕ, ◌≡◌, ◌≢◌, refl, ◌==◌, if◌then◌else◌, Bool, true, false, Option, none, some, [], ◌∷◌, ◌++◌,
  arith,
}
use mathlib.Core.Option
use lua_resty_ffi.Loader.{Str, strsep, next_piece, unmark}
use lua_resty_ffi.Loader.Split.{
  NotIn, NotIn-append, NotIn-marked, marked, unmark-marked, config, strsep-config,
}

-- state_t, without the task queue; a field may be NULL.
pub record State : Type 0 where
  pub module_path : Option Str
  pub func : Option Str
  pub cfg : Option Str

-- The part of libffi_init that fills the state.
unfoldable pub split_state : Option Str → State
unfolding strsep
split_state cfg =
    let first = next_piece b',' cfg in
    let second = next_piece b',' first.1 in
    record { module_path = first.0; func = second.0; cfg = second.1 }

-- strrchr(module, '/'): what stands before the last '/' and behind it; `none` where there is none.
unfoldable pub split_dir : Str → Option (Str × Str)
split_dir [] = none
split_dir (x ∷ xs) = elim (split_dir xs) [
  | some r ↦ some (x ∷ r.0, r.1)
  | none ↦ if x == b'/' then some ([], xs) else none
]

-- What `init` imports: the directory for sys.path, the module, and whether it is loaded again (with
-- Python 3.8 or later).
pub record Target : Type 0 where
  pub dir : Option Str
  pub name : Str
  pub reload : Bool

abbrev with_dir : Option Str → Option (Str × Bool) → Option Target
with_dir dir = Option.map (λ (r : Str × Bool). record { dir = dir; name = r.0; reload = r.1 })

-- The part of `init` before the first call of Python; `none` is a fault.
unfoldable pub init_target : State → Option Target
unfolding split_dir unmark
init_target state = elim state.module_path [
  | none ↦ none
  | some path ↦ elim (split_dir path) [
    | none ↦ with_dir none (unmark false path)
    | some r ↦ with_dir (some r.0) (unmark true r.1)
  ]
]

split_dir-none : (n : Str) → NotIn b'/' n → split_dir n ≡ none
unfolding split_dir
split_dir-none [] h = refl
split_dir-none (x ∷ xs) (ne, h) = ground (arith, split_dir-none xs h)

split_dir-append : (d n : Str) → NotIn b'/' n → split_dir (d ++ b'/' ∷ n) ≡ some (d, n)
unfolding split_dir
split_dir-append [] n h = ground (arith, split_dir-none n h)
split_dir-append (x ∷ xs) n h = ground (arith, split_dir-append xs n h)

-- The path of a module in a directory, or without one.
abbrev pub path : Option Str → Str → Str
path none n = n
path (some d) n = d ++ b'/' ∷ n

abbrev pub dir_of : Option Str → Str
dir_of none = []
dir_of (some d) = d

NotIn-path :
    (d : Option Str) (n : Str) → NotIn b',' (dir_of d) → NotIn b',' n → NotIn b',' (path d n)
NotIn-path none n h k = k
NotIn-path (some d) n h k = NotIn-append b',' d (b'/' ∷ n) h (omega arith, k)

init_target-path :
    (d : Option Str) (m : Str) (c : ℕ) (reload : Bool) (func cfg : Option Str)
    → c ≢ b'?'
    → NotIn b'/' (m ++ c ∷ [])
    → init_target (record {
      module_path = some (path d (marked (m ++ c ∷ []) reload));
      func = func;
      cfg = cfg;
    })
      ≡ some (record { dir = d; name = m ++ c ∷ []; reload = reload })
unfolding init_target
init_target-path none m c reload func cfg ne h = rw (
  split_dir-none (marked (m ++ c ∷ []) reload)
      (NotIn-marked b'/' (m ++ c ∷ []) reload (omega arith) h),
  init_target,
  unmark-marked false m c reload ne,
)
init_target-path (some d) m c reload func cfg ne h = rw (
  split_dir-append d (marked (m ++ c ∷ []) reload)
      (NotIn-marked b'/' (m ++ c ∷ []) reload (omega arith) h),
  init_target,
  unmark-marked true m c reload ne,
)

-- A configuration `dir/module?,func,rest` is read back as its parts, with or without the directory,
-- the '?' and the rest, if the directory, the module and the function have no comma, and the module
-- is not empty, has no '/' and does not itself end in '?'.
pub init_target-config :
    (d : Option Str) (m : Str) (c : ℕ) (reload : Bool) (func : Str) (rest : Option Str)
    → NotIn b',' (dir_of d)
    → NotIn b',' (m ++ c ∷ [])
    → NotIn b'/' (m ++ c ∷ [])
    → c ≢ b'?'
    → NotIn b',' func
    → let state = split_state (some (config (path d (marked (m ++ c ∷ []) reload)) func rest)) in
      (init_target state ≡ some (record { dir = d; name = m ++ c ∷ []; reload = reload }))
      × (state.func ≡ some func)
      × (state.cfg ≡ rest)
unfolding split_state
init_target-config d m c reload func rest hd hm slash ne hf =
    let p : Str = path d (marked (m ++ c ∷ []) reload) in
    let (s, e, k) =
      strsep-config p func rest
        (NotIn-path d (marked (m ++ c ∷ []) reload) hd
          (NotIn-marked b',' (m ++ c ∷ []) reload (omega arith) hm))
        hf in
    rw (e, k) (init_target-path d m c reload (some func) rest ne slash, refl, refl)
