-- ===== src/Loader/Python/Start.antt =====
-- examples/python/loader.c: libffi_init as a whole. What the calls of the
-- Python C API answer are arguments, and the calls themselves are recorded in order; `sys` and its
-- `path` are always there.
use lua_resty_ffi.Common.{
  ℕ, if◌then◌else◌, Bool, true, false, Option, none, some, List, [], ◌∷◌, ◌++◌,
}
use lua_resty_ffi.Common.Int.{ℤ, pos}
use lua_resty_ffi.Loader.{Str}
use lua_resty_ffi.Loader.Python.{State, split_state, init_target, Target}

-- The objects that libffi_init gets references to.
pub data Obj : Type 0 where
  sys_ref sys_path_ref folder_path_ref name_ref module_ref func_ref args_ref value_ref : Obj

-- `gains` is a new reference from a call, `drops` is Py_DECREF.
pub data Event : Type 0 where
  lock unlock initialize save_thread ensure release reloads prints_error restore_thread finalize :
      Event
  gains drops : Obj → Event
  inserts_path looks_up imports : Str → Event
  calls : (func : Str) → (cfg : Option Str) → (tq : ℕ) → Event

-- What the calls answer: PyImport_GetModule, PyImport_Import, PyImport_ReloadModule and
-- PyObject_GetAttrString, whether they give an object; PyCallable_Check; and PyObject_CallObject, the
-- object's number as an int, `none` for an exception.
-- `modern` is Python 3.8 or later.
pub record Python : Type 0 where
  pub modern : Bool
  pub cached : Bool
  pub imported : Bool
  pub reloaded : Bool
  pub has_func : Bool
  pub callable : Bool
  pub value : Option ℤ

abbrev pub use_dir : Option Str → List Event
use_dir none = []
use_dir (some dir) =
    gains sys_ref ∷ gains sys_path_ref ∷ gains folder_path_ref ∷ inserts_path dir ∷ []

abbrev pub gained : Bool → Obj → List Event
gained true o = gains o ∷ []
gained false o = []

-- Whether there is a module, and the calls.
unfoldable pub load_module : Python → Target → Bool × List Event
load_module py t =
    if py.modern
    then (if py.cached
        then (if t.reload
            then (
              py.reloaded,
              looks_up t.name ∷ (gains module_ref ∷ (reloads ∷ gained py.reloaded module_ref)),
            )
            else (true, looks_up t.name ∷ (gains module_ref ∷ [])))
        else (py.imported, looks_up t.name ∷ (imports t.name ∷ gained py.imported module_ref)))
    else (py.imported, imports t.name ∷ gained py.imported module_ref)

-- From PyObject_CallObject on.
abbrev pub call_value : Option ℤ → ℤ × List Event
call_value (some n) = (n, gains value_ref ∷ drops value_ref ∷ [])
call_value none = (pos 1, drops func_ref ∷ drops module_ref ∷ prints_error ∷ [])

unfoldable pub call_func : Python → (func : Str) → (cfg : Option Str) → (tq : ℕ) → ℤ × List Event
call_func py func cfg tq =
    if py.has_func
    then (if py.callable
        then (
          (call_value py.value).0,
          gains func_ref
              ∷ gains args_ref
              ∷ calls func cfg tq
              ∷ drops args_ref
              ∷ (call_value py.value).1,
        )
        else (pos 1, gains func_ref ∷ drops func_ref ∷ drops module_ref ∷ []))
    else (pos 1, prints_error ∷ drops module_ref ∷ [])

-- PyObject_GetAttrString faults on NULL.
unfoldable pub run_func :
    Python → (loaded : Bool) → (func cfg : Option Str) → (tq : ℕ) → Option (ℤ × List Event)
unfolding call_func
run_func py false func cfg tq = some (pos 1, prints_error ∷ [])
run_func py true none cfg tq = none
run_func py true (some func) cfg tq = some (call_func py func cfg tq)

-- The calls between PyGILState_Ensure and PyGILState_Release, those of `run_func` being given.
abbrev pub steps : Python → Target → List Event → List Event
steps py t run =
    use_dir t.dir ++ (gains name_ref ∷ ((load_module py t).1 ++ (drops name_ref ∷ run)))

-- `none` is a fault.
unfoldable pub init : Python → State → (tq : ℕ) → Option (ℤ × List Event)
unfolding load_module run_func
init py state tq = elim (init_target state) [
  | none ↦ none
  | some t ↦ elim (run_func py (load_module py t).0 state.func state.cfg tq) [
    | none ↦ none
    | some r ↦ some (r.0, ensure ∷ (steps py t r.1 ++ release ∷ []))
  ]
]

abbrev pub initialized : (done : Bool) → List Event
initialized true = []
initialized false = initialize ∷ save_thread ∷ []

-- `started` says that mainThreadState is set.
unfoldable pub libffi_init :
    Python → (started : Bool) → (cfg : Option Str) → (tq : ℕ) → Option (ℤ × List Event)
unfolding init
libffi_init py started cfg tq = elim (init py (split_state cfg) tq) [
  | none ↦ none
  | some r ↦ some (r.0, lock ∷ (initialized started ++ (r.1 ++ unlock ∷ [])))
]

-- ffi_python_fini, where the library is unloaded.
unfoldable pub ffi_python_fini : (started : Bool) → List Event
ffi_python_fini false = []
ffi_python_fini true = restore_thread ∷ (finalize ∷ [])
