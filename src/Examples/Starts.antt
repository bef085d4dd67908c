-- ===== src/Examples/Starts.antt =====
-- Starts of the loaders: `a/b?,f,c` in Python, and `a.b,f,c` in a JVM, with and without 51 options.
use lua_resty_ffi.Common.{
  ℕ, zero, suc, ◌+◌, ◌≡◌, refl, true, false, none, some, List, [], ◌∷◌, arith,
}
use lua_resty_ffi.Common.Int.{ℤ, pos}
use lua_resty_ffi.Loader.{Str}
use lua_resty_ffi.Loader.Python.{Target}
use lua_resty_ffi.Loader.Python.Start as Py
use lua_resty_ffi.Loader.Python.Outcome as Python
use lua_resty_ffi.Loader.Java.{slashed, options, java_opts, spaced, Unspaced}
use lua_resty_ffi.Loader.Java.Start as Jv
use lua_resty_ffi.Loader.Java.Outcome as Java
use lua_resty_ffi.Loader.Java.Events as Ev

abbrev python_cfg : Str
python_cfg = b'a' ∷ (b'/' ∷ (b'b' ∷ (b'?' ∷ (b',' ∷ (b'f' ∷ (b',' ∷ (b'c' ∷ [])))))))

-- The module is there and is loaded again; its function returns 7.
abbrev python : Py.Python
python = record {
  modern = true;
  cached = true;
  imported = false;
  reloaded = true;
  has_func = true;
  callable = true;
  value = some (pos 7);
}

libffi_init_outcome_example :
    (es : List Py.Event) × (Py.libffi_init python false (some python_cfg) 26
      ≡ some (pos 7, Python.whole false es))
    × Python.NoLock es
    × (Python.called es ≡ (b'f' ∷ [], some (b'c' ∷ []), 26) ∷ [])
libffi_init_outcome_example =
    Python.libffi_init_outcome python false 26 (some (b'a' ∷ [])) [] b'b' true (b'f' ∷ [])
      (some (b'c' ∷ [])) (omega arith, tt) (omega arith, tt) (omega arith, tt) (omega arith)
      (omega arith, tt)

abbrev python_target : Target
python_target = record { dir = some (b'a' ∷ []); name = b'b' ∷ []; reload = true }

libffi_init_references_example :
    (rc : ℤ) × (es : List Py.Event) × (Py.libffi_init python false (some python_cfg) 26
      ≡ some (rc, es))
    × ((o : Py.Obj)
        → Python.gained_of o es ≡ Python.dropped_of o es + Python.kept python python_target o)
libffi_init_references_example =
    Python.libffi_init_references python false 26 (some (b'a' ∷ [])) [] b'b' true (b'f' ∷ [])
      (some (b'c' ∷ [])) (omega arith, tt) (omega arith, tt) (omega arith, tt) (omega arith)
      (omega arith, tt)

abbrev jvm : Jv.Jvm
jvm = record {
  printed = true;
  created = true;
  class_found = true;
  method_found = true;
  result = pos 5;
  threw = false;
}

abbrev java_cfg : Str
java_cfg = b'a' ∷ (b'.' ∷ (b'b' ∷ (b',' ∷ (b'f' ∷ (b',' ∷ (b'c' ∷ []))))))

libffi_init-called_example :
    (es : List Jv.Event) × (Jv.libffi_init jvm false (some (b'.' ∷ [])) none java_cfg 26
      ≡ some (pos 5, (true, Jv.lock ∷ es)))
    × (Ev.called es ≡ (b'a' ∷ (b'/' ∷ (b'b' ∷ [])), b'f' ∷ [], some (b'c' ∷ []), 26) ∷ [])
    × (Ev.unlocks es ≡ 2)
    × ((copy : Jv.Copy)
        → Ev.allocated_of copy es
          ≡ Ev.freed_of copy es + Ev.left jvm false (some (b'.' ∷ [])) none false copy)
unfolding slashed options java_opts
libffi_init-called_example =
    Java.libffi_init-called jvm false (some (b'.' ∷ [])) none 26 (b'a' ∷ (b'.' ∷ [])) b'b' false
      (b'f' ∷ []) (some (b'c' ∷ [])) (omega arith, (omega arith, (omega arith, tt))) (omega arith)
      (omega arith, tt) (λ h. refl)

-- `n` times the option `-a`.
abbrev copies : ℕ → List Str
copies zero = []
copies (suc n) = (b'-' ∷ (b'a' ∷ [])) ∷ copies n

copies-Unspaced : (n : ℕ) → Unspaced (copies n)
copies-Unspaced zero = tt
copies-Unspaced (suc n) = ((omega arith, (omega arith, tt)), copies-Unspaced n)

libffi_init_too_many_example :
    Jv.libffi_init jvm false none (some (spaced (b'-' ∷ (b'a' ∷ [])) (copies 50))) java_cfg 26
    ≡ none
libffi_init_too_many_example =
    Java.libffi_init_too_many jvm none (b'-' ∷ (b'a' ∷ [])) (copies 50) java_cfg 26
      (copies-Unspaced 51) (omega arith) refl
