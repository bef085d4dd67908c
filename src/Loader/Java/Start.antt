-- ===== src/Loader/Java/Start.antt =====
-- examples/java/loader.c: libffi_init as a whole. What the calls of the JVM answer are arguments, and
-- the calls themselves are recorded in order, with the allocations and the calls of the mutex.
use lua_resty_ffi.Common.{
  ℕ, if◌then◌else◌, Bool, true, false, Option, none, some, List, [], ◌∷◌, ◌++◌,
}
use lua_resty_ffi.Common.Int.{ℤ, pos}
use lua_resty_ffi.Loader.{Str}
use lua_resty_ffi.Loader.Java.{options, Target, call_target}

-- The strings that libffi_init allocates.
pub data Copy : Type 0 where
  path opts orig_cfg : Copy

pub data Event : Type 0 where
  lock unlock deletes_ref describes : Event
  allocates frees : Copy → Event
  creates_vm : List Str → Event
  finds_class : Str → Event
  finds_method : Str → Event
  makes_string : Option Str → Event
  calls : (class method : Str) → (text : Option Str) → (tq : ℕ) → Event

-- The answers: whether asprintf, JNI_CreateJavaVM, FindClass and GetStaticMethodID succeed, what
-- CallStaticIntMethod returns, and whether there is an exception then.
pub record Jvm : Type 0 where
  pub printed : Bool
  pub created : Bool
  pub class_found : Bool
  pub method_found : Bool
  pub result : ℤ
  pub threw : Bool

abbrev pub allocated : Option Str → Copy → List Event
allocated none m = []
allocated (some _) m = allocates m ∷ []

abbrev pub freed : Option Str → Copy → List Event
freed none m = []
freed (some _) m = frees m ∷ []

-- From the environment variable JAVA_OPTS on. `opts` is freed where it is not NULL; it points into
-- the copy of JAVA_OPTS then, not at its first byte, and that is a fault.
unfoldable pub create_vm : Jvm → (class_path java_opts : Option Str) → Option (Bool × List Event)
create_vm jvm class_path java_opts = elim (options class_path java_opts).1 [
  | some _ ↦ none
  | none ↦ some (
    jvm.created,
    allocated java_opts opts
        ++ (creates_vm (options class_path java_opts).0 ∷ freed class_path path),
  )
]

-- Whether there is a JVM then, and the events.
unfoldable pub start_vm : Jvm → (class_path java_opts : Option Str) → Option (Bool × List Event)
unfolding create_vm
start_vm jvm none java_opts = create_vm jvm none java_opts
start_vm jvm (some class_path) java_opts =
    if jvm.printed
    then elim (create_vm jvm (some class_path) java_opts) [
      | none ↦ none
      | some r ↦ some (r.0, allocates path ∷ r.1)
    ]
    else some (false, [])

-- The string that the method gets, made from the copy of the whole configuration or from the rest.
abbrev pub string_events : Target → (cfg : Str) → List Event
string_events t cfg =
    if t.dynamic then makes_string (some cfg) ∷ frees orig_cfg ∷ [] else makes_string t.cfg ∷ []

abbrev pub passed : Target → (cfg : Str) → Option Str
passed t cfg = if t.dynamic then some cfg else t.cfg

abbrev pub failed_start : ℤ × List Event
failed_start = (pos 1, frees orig_cfg ∷ unlock ∷ [])

unfoldable pub call_method : Jvm → Target → (method cfg : Str) → (tq : ℕ) → ℤ × List Event
call_method jvm t method cfg tq =
    if jvm.method_found
    then (
      jvm.result,
      string_events t cfg
          ++ (calls t.class method (passed t cfg) tq
              ∷ (deletes_ref
                  ∷ ((if jvm.threw then describes ∷ [] else []) ++ unlock ∷ (unlock ∷ [])))),
    )
    else failed_start

-- GetStaticMethodID faults on NULL.
unfoldable pub call_class : Jvm → Target → (cfg : Str) → (tq : ℕ) → Option (ℤ × List Event)
unfolding call_method
call_class jvm t cfg tq =
    if jvm.class_found
    then elim t.method [
      | none ↦ none
      | some method ↦ some (
        (call_method jvm t method cfg tq).0,
        finds_class t.class ∷ (finds_method method ∷ (call_method jvm t method cfg tq).1),
      )
    ]
    else some (failed_start.0, finds_class t.class ∷ failed_start.1)

-- From the copy of the configuration on.
abbrev pub with_vm : Jvm → (cfg : Str) → (tq : ℕ) → List Event → Option (ℤ × (Bool × List Event))
with_vm jvm cfg tq before = elim (call_target cfg) [
  | none ↦ none
  | some t ↦ elim (call_class jvm t cfg tq) [
    | none ↦ none
    | some r ↦ some (r.0, (true, lock ∷ (before ++ allocates orig_cfg ∷ r.1)))
  ]
]

-- `running` says that `vm` is not NULL, before and, in the answer, after the call. The configuration
-- is not NULL; `none` is a fault.
unfoldable pub libffi_init :
    Jvm
    → (running : Bool) → (class_path java_opts : Option Str) → (cfg : Str) → (tq : ℕ)
    → Option (ℤ × (Bool × List Event))
unfolding start_vm call_class
libffi_init jvm true class_path java_opts cfg tq = with_vm jvm cfg tq []
libffi_init jvm false class_path java_opts cfg tq = elim (start_vm jvm class_path java_opts) [
  | none ↦ none
  | some r ↦
      if r.0 then with_vm jvm cfg tq r.1 else some (pos 1, (false, lock ∷ (r.1 ++ unlock ∷ [])))
]
