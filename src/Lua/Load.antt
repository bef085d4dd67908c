-- ===== src/Lua/Load.antt =====
-- resty_ffi.lua: ngx.load_ffi, with the table of runtimes that it keeps and unload takes runtimes
-- out of, and the handles of ffi.load that keep the libraries open. What ffi.load,
-- lua_resty_ffi_init and libffi_init answer are arguments. A task queue is numbered by the order of
-- creation, and so is the table of a runtime, by its queue.
pub mod Keys
pub mod Pins
pub mod Shared
pub mod Tables
use lua_resty_ffi.Common.{
  ℕ, zero, suc, ◌+◌, ◌==◌, if◌then◌else◌, ◌&&◌, not, Bool, true, false, Option, none, some, List,
  [], ◌∷◌, ◌++◌,
}
use lua_resty_ffi.Common.Int.{ℤ, pos, is_nonzero}
use lua_resty_ffi.Loader.{Str}

abbrev pub same_text : Str → Str → Bool
same_text [] [] = true
same_text (x ∷ xs) (y ∷ ys) = (x == y) && same_text xs ys
same_text _ _ = false

-- The key of a runtime in the table.
abbrev pub key_of : (lib : Str) → (cfg : Option Str) → Str
key_of lib none = lib
key_of lib (some cfg) = lib ++ b'&' ∷ cfg

-- opts, as far as it is not for ffi.load. An `unpin` that is nil is false.
pub record Opts : Type 0 where
  pub max_queue : Option ℤ
  pub unpin : Bool

abbrev pub default_max_queue : Option ℤ → ℤ
default_max_queue none = pos 65536
default_max_queue (some n) = n

abbrev pub max_queue_of : Option Opts → ℤ
max_queue_of none = pos 65536
max_queue_of (some o) = default_max_queue o.max_queue

abbrev pub is_pin : Option Opts → Bool
is_pin none = true
is_pin (some o) = not o.unpin

-- The table of a runtime. After an unload the key and the handle are nil. A handle is the name of the
-- library that it keeps open.
pub record Nffi : Type 0 where
  pub finished : Bool
  pub key : Option Str
  pub handle : Option Str
  pub max_queue : ℤ

-- `queues` counts the task queues that were created, and `pin_libs` has the names of the libraries
-- whose handle is kept for good.
pub record Libs : Type 0 where
  pub initialised : Bool
  pub runtimes : List (Str × ℕ)
  pub pin_libs : List Str
  pub nffis : ℕ → Option Nffi
  pub queues : ℕ

-- `throws` is a Lua error.
pub data Loaded : Type 0 where
  throws : Loaded
  loaded : ℕ → Loaded
  failed_start : ℤ → Loaded

-- Whether nginx has the symbols itself, what lua_resty_ffi_init returns (not 0 also where its library
-- is not found), whether ffi.load finds the library, whether that has the symbol libffi_init, and what
-- its libffi_init returns.
pub record Answers : Type 0 where
  pub has_symbols : Bool
  pub init_rc : ℤ
  pub found : Bool
  pub has_init : Bool
  pub start_rc : ℤ

abbrev pub lookup : Str → List (Str × ℕ) → Option ℕ
lookup key [] = none
lookup key (r ∷ rs) = if same_text key r.0 then some r.1 else lookup key rs

abbrev pub without : Str → List (Str × ℕ) → List (Str × ℕ)
without key [] = []
without key (r ∷ rs) = if same_text key r.0 then without key rs else r ∷ without key rs

abbrev pub set_nffi : (ℕ → Option Nffi) → ℕ → Nffi → (ℕ → Option Nffi)
set_nffi h i n j = if i == j then some n else h j

-- ffi_load, where ffi.load finds the library.
abbrev pub ffi_load : (lib : Str) → (is_pin : Bool) → Libs → Libs
ffi_load lib pin libs = record libs {
  pin_libs = if pin then lib ∷ libs.pin_libs else libs.pin_libs;
}

-- From the creation of the task queue on. Where libffi_init fails nothing refers to the new table.
unfoldable pub create_nffi : Answers → (lib key : Str) → (opts : Option Opts) → Libs → Loaded × Libs
create_nffi a lib key opts libs =
    let queue = libs.queues in
    let created : Libs = record libs { queues = queue + 1 } in
    let opened = ffi_load lib (is_pin opts) created in
    let nffi : Nffi = record {
      finished = false;
      key = some key;
      handle = some lib;
      max_queue = max_queue_of opts;
    } in
    let made : Libs = record opened {
      nffis = set_nffi libs.nffis queue nffi;
      runtimes = (key, queue) ∷ libs.runtimes;
    } in
    if not a.found
    then (throws, created)
    else if not a.has_init
    then (throws, opened)
    else if is_nonzero a.start_rc
    then (failed_start a.start_rc, opened)
    else (loaded queue, made)

-- The first lines, which may throw.
abbrev pub can_start : Answers → Libs → Bool
can_start a libs =
    if libs.initialised then true else if a.has_symbols then true else not (is_nonzero a.init_rc)

unfoldable pub load_ffi :
    Answers → (lib : Str) → (cfg : Option Str) → (opts : Option Opts) → Libs → Loaded × Libs
unfolding create_nffi
load_ffi a lib cfg opts libs =
    if can_start a libs
    then elim (lookup (key_of lib cfg) libs.runtimes) [
      | some i ↦ (loaded i, record libs { initialised = true })
      | none ↦ create_nffi a lib (key_of lib cfg) opts (record libs { initialised = true })
    ]
    else (throws, libs)

-- unload, as far as the tables go.
abbrev pub forget : Option Str → List (Str × ℕ) → List (Str × ℕ)
forget none rs = rs
forget (some key) rs = without key rs

unfoldable pub unload_nffi : ℕ → Libs → Libs
unload_nffi i libs = elim (libs.nffis i) [
  | none ↦ libs
  | some n ↦ if n.finished then libs else record libs {
    nffis = set_nffi libs.nffis i (record n { finished = true; key = none; handle = none });
    runtimes = forget n.key libs.runtimes;
  }
]
