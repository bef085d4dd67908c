-- ===== src/Loader/Java/Events.antt =====
-- The events of a libffi_init of examples/java/loader.c on every branch: calls, copies, unlocks.
use lua_resty_ffi.Common.{
  ℕ, ◌+◌, ◌==◌, ◌≡◌, refl, if◌then◌else◌, ◌&&◌, ◌||◌, not, Bool, true, false, Option, none, some,
  List, [], ◌∷◌, ◌++◌, arith, ◌∙◌, ap, Bool-cases, inl, inr,
}
use lua_resty_ffi.Common.Int.{ℤ, pos}
use lua_resty_ffi.Loader.{Str}
use lua_resty_ffi.Loader.Java.{options, Target, call_target}
use lua_resty_ffi.Loader.Java.Start.{
  Copy, path, opts, orig_cfg, Event, lock, unlock, allocates, frees, creates_vm, finds_class,
  finds_method, calls, Jvm, allocated, create_vm, start_vm, passed, failed_start, call_method,
  call_class, with_vm, libffi_init,
}

abbrev pub called : List Event → List (Str × Str × Option Str × ℕ)
called [] = []
called (calls c m t tq ∷ es) = (c, m, t, tq) ∷ called es
called (_ ∷ es) = called es

abbrev pub unlocks : List Event → ℕ
unlocks [] = 0
unlocks (unlock ∷ es) = 1 + unlocks es
unlocks (_ ∷ es) = unlocks es

-- Copies of strings.
abbrev number : Copy → ℕ
number path = 0
number opts = 1
number orig_cfg = 2

abbrev pub allocated_of : Copy → List Event → ℕ
allocated_of m [] = 0
allocated_of m (allocates p ∷ es) = (if number m == number p then 1 else 0) + allocated_of m es
allocated_of m (_ ∷ es) = allocated_of m es

abbrev pub freed_of : Copy → List Event → ℕ
freed_of m [] = 0
freed_of m (frees p ∷ es) = (if number m == number p then 1 else 0) + freed_of m es
freed_of m (_ ∷ es) = freed_of m es

-- Whether JNI_CreateJavaVM is called, and whether there is a JVM.
abbrev pub tried : Jvm → (class_path : Option Str) → Bool
tried jvm none = true
tried jvm (some _) = jvm.printed

abbrev pub has_vm : Jvm → (running : Bool) → (class_path : Option Str) → Bool
has_vm jvm running class_path = running || (tried jvm class_path && jvm.created)

-- Whether the method is called.
abbrev pub reaches : Jvm → (running : Bool) → (class_path : Option Str) → Bool
reaches jvm running class_path =
    has_vm jvm running class_path && (jvm.class_found && jvm.method_found)

-- How many copies are left.
abbrev pub left :
    Jvm → (running : Bool) → (class_path java_opts : Option Str) → (dynamic : Bool) → Copy → ℕ
left jvm running class_path java_opts dynamic path = 0
left jvm running class_path none dynamic opts = 0
left jvm running class_path (some _) dynamic opts =
    if not running && tried jvm class_path then 1 else 0
left jvm running class_path java_opts dynamic orig_cfg =
    if reaches jvm running class_path && not dynamic then 1 else 0

-- The events, where JAVA_OPTS does not have too many options.
abbrev start_events : Jvm → (running : Bool) → (class_path java_opts : Option Str) → List Event
start_events jvm true class_path java_opts = []
start_events jvm false none java_opts =
    allocated java_opts opts ++ (creates_vm (options none java_opts).0 ∷ [])
start_events jvm false (some class_path) java_opts =
    if jvm.printed
    then allocates path
      ∷ (allocated java_opts opts
          ++ (creates_vm (options (some class_path) java_opts).0 ∷ (frees path ∷ [])))
    else []

abbrev class_events : Jvm → Target → (method cfg : Str) → ℕ → ℤ × List Event
class_events jvm t method cfg tq =
    if jvm.class_found
    then (
      (call_method jvm t method cfg tq).0,
      finds_class t.class ∷ (finds_method method ∷ (call_method jvm t method cfg tq).1),
    )
    else (pos 1, finds_class t.class ∷ failed_start.1)

abbrev pub events :
    Jvm
    → (running : Bool) → (class_path java_opts : Option Str) → Target
    → (method cfg : Str) → ℕ
    → List Event
events jvm running class_path java_opts t method cfg tq =
    start_events jvm running class_path java_opts
    ++ (if has_vm jvm running class_path
        then allocates orig_cfg ∷ (class_events jvm t method cfg tq).1
        else unlock ∷ [])

module _ (jvm : Jvm) (running : Bool) (class_path java_opts : Option Str) (t : Target)
    (method cfg : Str) (tq : ℕ) where
  abbrev pub all : List Event
  all = events jvm running class_path java_opts t method cfg tq

  pub all-called :
      called all
      ≡ (if reaches jvm running class_path then (t.class, method, passed t cfg, tq) ∷ [] else [])
  unfolding call_method
  all-called = ground arith

  pub all-unlocks : unlocks all ≡ (if reaches jvm running class_path then 2 else 1)
  unfolding call_method
  all-unlocks = ground arith

  pub all-left :
      (m : Copy)
      → allocated_of m all ≡ freed_of m all + left jvm running class_path java_opts t.dynamic m
  unfolding call_method
  all-left m = ground arith

call_class-events :
    (jvm : Jvm) (t : Target) (method cfg : Str) (tq : ℕ)
    → t.method ≡ some method
    → call_class jvm t cfg tq ≡ some (class_events jvm t method cfg tq)
unfolding call_class
call_class-events jvm t method cfg tq e = elim (Bool-cases jvm.class_found) [
  | inl found ↦ rw (found, e, call_class)
  | inr missed ↦ rw (missed, call_class)
]

with_vm-events :
    (jvm : Jvm) (t : Target) (method cfg : Str) (tq : ℕ) (before : List Event)
    → call_target cfg ≡ some t
    → t.method ≡ some method
    → with_vm jvm cfg tq before
      ≡ some (
        (class_events jvm t method cfg tq).0,
        (true, lock ∷ (before ++ allocates orig_cfg ∷ (class_events jvm t method cfg tq).1)),
      )
with_vm-events jvm t method cfg tq before e k =
    rw (e, with_vm, call_class-events jvm t method cfg tq k)

class_events-code :
    (jvm : Jvm) (t : Target) (method cfg : Str) (tq : ℕ)
    → (class_events jvm t method cfg tq).0
      ≡ (if jvm.class_found && jvm.method_found then jvm.result else pos 1)
unfolding call_method
class_events-code jvm t method cfg tq = ground arith

-- What is run to have a JVM.
start_vm-events :
    (jvm : Jvm) (class_path java_opts : Option Str)
    → (options class_path java_opts).1 ≡ none
    → start_vm jvm class_path java_opts
      ≡ some (has_vm jvm false class_path, start_events jvm false class_path java_opts)
unfolding start_vm create_vm
start_vm-events jvm none java_opts fits = rw (fits, create_vm, start_vm)
start_vm-events jvm (some class_path) java_opts fits = rw (fits, create_vm, start_vm) (ground arith)

pub libffi_init-events :
    (jvm : Jvm) (running : Bool) (class_path java_opts : Option Str) (t : Target) (method cfg : Str)
    (tq : ℕ)
    → (running ≡ false → (options class_path java_opts).1 ≡ none)
    → call_target cfg ≡ some t
    → t.method ≡ some method
    → libffi_init jvm running class_path java_opts cfg tq
      ≡ some (
        if reaches jvm running class_path then jvm.result else pos 1,
        (
          has_vm jvm running class_path,
          lock ∷ events jvm running class_path java_opts t method cfg tq,
        ),
      )
unfolding libffi_init
libffi_init-events jvm true class_path java_opts t method cfg tq fits e k =
    with_vm-events jvm t method cfg tq [] e k
    ∙ ap
        (λ rc.
          some (rc, (true, lock ∷ (allocates orig_cfg ∷ (class_events jvm t method cfg tq).1))))
        (class_events-code jvm t method cfg tq)
libffi_init-events jvm false class_path java_opts t method cfg tq fits e k =
    let before = start_events jvm false class_path java_opts in
    elim (Bool-cases (has_vm jvm false class_path)) [
      | inl has ↦
          rw (start_vm-events jvm class_path java_opts (fits refl), libffi_init, has)
            (with_vm-events jvm t method cfg tq before e k
              ∙ ap
                  (λ rc. some (
                    rc,
                    (
                      true,
                      lock ∷ (before ++ allocates orig_cfg ∷ (class_events jvm t method cfg tq).1),
                    ),
                  ))
                  (class_events-code jvm t method cfg tq))
      | inr none_there ↦
          rw (start_vm-events jvm class_path java_opts (fits refl), libffi_init, none_there)
    ]
