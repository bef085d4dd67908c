-- ===== src/Loader/Java/Outcome.antt =====
-- What libffi_init of examples/java/loader.c calls and returns, the copies that it leaves, and how
-- often it gives the mutex back.
use lua_resty_ffi.Common.{
  ℕ, suc, ◌+◌, ◌≡◌, ◌≢◌, refl, if◌then◌else◌, Bool, true, false, Option, none, some, List, [], ◌∷◌,
  ◌++◌, arith, ◌∙◌, length, ◌<◌, zero,
}
use lua_resty_ffi.Common.Int.{pos}
use lua_resty_ffi.Loader.{Str}
use lua_resty_ffi.Loader.Split.{NotIn, marked, config}
use lua_resty_ffi.Loader.Java.{
  options, Target, call_target-config, slashed, loader_class, spaced, Unspaced, left_over, room,
  options-spaced,
}
use lua_resty_ffi.Loader.Java.Start.{Copy, Event, lock, Jvm, create_vm, start_vm, libffi_init}
use lua_resty_ffi.Loader.Java.Events.{
  called, unlocks, allocated_of, freed_of, tried, has_vm, reaches, left, libffi_init-events,
  all-called, all-unlocks, all-left,
}

module _ (jvm : Jvm) (running : Bool) (class_path java_opts : Option Str) (tq : ℕ) (m : Str) (c : ℕ)
    (dynamic : Bool) (method : Str) (rest : Option Str) (hm : NotIn b',' (m ++ c ∷ []))
    (ne : c ≢ b'?') (hf : NotIn b',' method) where
  abbrev cfg : Str
  cfg = config (marked (m ++ c ∷ []) dynamic) method rest

  -- The class and the string.
  abbrev class : Str
  class = if dynamic then loader_class else slashed (m ++ c ∷ [])

  abbrev text : Option Str
  text = if dynamic then some cfg else rest

  -- A start with a configuration `class?,method,rest`, the '?' and the rest optional, while the JVM
  -- runs or all options of JAVA_OPTS fit, whatever the JVM answers. If the JVM runs or can be created
  -- and has the class and the method, the method is called once, with the rest and the task queue,
  -- and its number is returned; with the '?' it is the method of resty/ffi/Loader, with the whole
  -- configuration. Else nothing is called, and 1 is returned. The mutex is given back once where 1 is
  -- returned so, but twice after a call. The copy of the class path is freed; the copy of JAVA_OPTS is
  -- never freed, and the one of the configuration not after a call without the '?'.
  pub libffi_init-called :
      (running ≡ false → (options class_path java_opts).1 ≡ none)
      → (es : List Event) × (libffi_init jvm running class_path java_opts cfg tq
          ≡ some (
            if reaches jvm running class_path then jvm.result else pos 1,
            (has_vm jvm running class_path, lock ∷ es),
          ))
        × (called es
            ≡ (if reaches jvm running class_path then (class, method, text, tq) ∷ [] else []))
        × (unlocks es ≡ (if reaches jvm running class_path then 2 else 1))
        × ((copy : Copy)
            → allocated_of copy es
              ≡ freed_of copy es + left jvm running class_path java_opts dynamic copy)
  libffi_init-called fits =
      let t : Target = record {
        dynamic = dynamic;
        class = class;
        method = some method;
        cfg = text;
      } in
      (
        _,
        libffi_init-events jvm running class_path java_opts t method cfg tq fits
            (call_target-config m c dynamic method rest hm ne hf) refl,
        all-called jvm running class_path java_opts t method cfg tq ∙ ground arith,
        all-unlocks jvm running class_path java_opts t method cfg tq,
        all-left jvm running class_path java_opts t method cfg tq,
      )

left_over-some :
    (n : ℕ) (p : Str) (ps : List Str)
    → n < length (p ∷ ps)
    → (rest : Str) × (left_over n p ps ≡ some rest)
left_over-some zero p ps h = (_, refl)
left_over-some (suc n) p [] h = absurd (omega arith)
left_over-some (suc n) p (q ∷ qs) h = left_over-some n q qs (omega arith)

-- A first start with more options in JAVA_OPTS than fit, with a single space between any two, faults,
-- where asprintf succeeds or CLASSPATH is not set, whatever JNI_CreateJavaVM answers and whatever the
-- configuration: free gets a pointer into the copy of JAVA_OPTS that is not its first byte.
pub libffi_init_too_many :
    (jvm : Jvm) (class_path : Option Str) (p : Str) (ps : List Str) (cfg : Str) (tq : ℕ)
    → Unspaced (p ∷ ps)
    → room class_path < length (p ∷ ps)
    → tried jvm class_path ≡ true
    → libffi_init jvm false class_path (some (spaced p ps)) cfg tq ≡ none
unfolding libffi_init start_vm create_vm
libffi_init_too_many jvm none p ps cfg tq h many t =
    let (rest, e) = left_over-some (room none) p ps many in
    rw (options-spaced none p ps h, e, create_vm, start_vm, libffi_init)
libffi_init_too_many jvm (some class_path) p ps cfg tq h many t =
    let (rest, e) = left_over-some (room (some class_path)) p ps many in
    rw (options-spaced (some class_path) p ps h, e, t, create_vm, start_vm, libffi_init)
