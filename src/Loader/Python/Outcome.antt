-- ===== src/Loader/Python/Outcome.antt =====
-- What libffi_init of examples/python/loader.c calls and returns, and the references it keeps.
use lua_resty_ffi.Common.{
  ℕ, ◌+◌, ◌==◌, ◌≡◌, ◌≢◌, if◌then◌else◌, ◌&&◌, Bool, true, false, Option, none, some, List, [], ◌∷◌,
  ◌++◌, arith, ◌∙◌, ap,
}
use mathlib.Core.List.{append_assoc}
use lua_resty_ffi.Common.Int.{ℤ, pos}
use lua_resty_ffi.Loader.{Str}
use lua_resty_ffi.Loader.Split.{NotIn, marked, config}
use lua_resty_ffi.Loader.Python.{Target, path, dir_of, init_target-config}
use lua_resty_ffi.Loader.Python.Start.{
  Obj, sys_ref, sys_path_ref, folder_path_ref, name_ref, module_ref, func_ref, args_ref, value_ref,
  Event, lock, unlock, ensure, release, prints_error, gains, drops, calls, Python, steps,
  load_module, call_func, run_func, init, initialized, libffi_init,
}

-- The calls of functions among the events.
abbrev pub called : List Event → List (Str × Option Str × ℕ)
called [] = []
called (calls f c t ∷ es) = (f, c, t) ∷ called es
called (_ ∷ es) = called es

-- Whether a module is found, and whether a function of it is called.
abbrev pub loads : Python → (reload : Bool) → Bool
loads py reload =
    if py.modern && py.cached then (if reload then py.reloaded else true) else py.imported

abbrev pub runs : Python → (reload : Bool) → Bool
runs py reload = loads py reload && (py.has_func && py.callable)

abbrev pub answer : Option ℤ → ℤ
answer none = pos 1
answer (some n) = n

abbrev pub takes_lock : Event → Bool
takes_lock lock = true
takes_lock unlock = true
takes_lock ensure = true
takes_lock release = true
takes_lock _ = false

abbrev pub NoLock : List Event → Type 0
NoLock [] = Unit
NoLock (e ∷ es) = (takes_lock e ≡ false) × NoLock es

-- What is run of a function, where there is one.
abbrev run : Python → Target → Str → Option Str → ℕ → ℤ × List Event
run py t func cfg tq =
    if (load_module py t).0 then call_func py func cfg tq else (pos 1, prints_error ∷ [])

abbrev inner : Python → Target → Str → Option Str → ℕ → List Event
inner py t func cfg tq = steps py t (run py t func cfg tq).1

inner-called :
    (py : Python) (t : Target) (func : Str) (cfg : Option Str) (tq : ℕ)
    → called (inner py t func cfg tq) ≡ (if runs py t.reload then (func, cfg, tq) ∷ [] else [])
unfolding load_module call_func
inner-called py t func cfg tq = ground arith

NoLock-append : (xs ys : List Event) → NoLock xs → NoLock ys → NoLock (xs ++ ys)
NoLock-append [] ys h k = k
NoLock-append (x ∷ xs) ys (e, h) k = (e, NoLock-append xs ys h k)

inner-NoLock :
    (py : Python) (t : Target) (func : Str) (cfg : Option Str) (tq : ℕ)
    → NoLock (inner py t func cfg tq)
unfolding load_module call_func
inner-NoLock py t func cfg tq = ground arith

-- References to an object.
abbrev number : Obj → ℕ
number sys_ref = 0
number sys_path_ref = 1
number folder_path_ref = 2
number name_ref = 3
number module_ref = 4
number func_ref = 5
number args_ref = 6
number value_ref = 7

abbrev pub gained_of : Obj → List Event → ℕ
gained_of o [] = 0
gained_of o (gains p ∷ es) = (if number o == number p then 1 else 0) + gained_of o es
gained_of o (_ ∷ es) = gained_of o es

abbrev pub dropped_of : Obj → List Event → ℕ
dropped_of o [] = 0
dropped_of o (drops p ∷ es) = (if number o == number p then 1 else 0) + dropped_of o es
dropped_of o (_ ∷ es) = dropped_of o es

-- Whether the function is called and returns an object.
abbrev pub returns : Python → (reload : Bool) → Bool
returns py reload = elim py.value [ none ↦ false | some _ ↦ runs py reload ]

abbrev pub kept : Python → Target → Obj → ℕ
kept py t sys_ref = elim t.dir [ none ↦ 0 | some _ ↦ 1 ]
kept py t sys_path_ref = elim t.dir [ none ↦ 0 | some _ ↦ 1 ]
kept py t folder_path_ref = elim t.dir [ none ↦ 0 | some _ ↦ 1 ]
kept py t module_ref =
    (if py.modern && (py.cached && t.reload) then 1 else 0) + (if returns py t.reload then 1 else 0)
kept py t func_ref = if returns py t.reload then 1 else 0
kept py t _ = 0

inner-kept :
    (py : Python) (t : Target) (func : Str) (cfg : Option Str) (tq : ℕ) (o : Obj)
    → gained_of o (inner py t func cfg tq) ≡ dropped_of o (inner py t func cfg tq) + kept py t o
unfolding load_module call_func
inner-kept py t func cfg tq o = ground arith

run-answer :
    (py : Python) (t : Target) (func : Str) (cfg : Option Str) (tq : ℕ)
    → (run py t func cfg tq).0 ≡ (if runs py t.reload then answer py.value else pos 1)
unfolding load_module call_func
run-answer py t func cfg tq = ground arith

gained_of-append :
    (o : Obj) (xs ys : List Event) → gained_of o (xs ++ ys) ≡ gained_of o xs + gained_of o ys
gained_of-append o [] ys = omega arith
gained_of-append o (x ∷ xs) ys = ground (arith, gained_of-append o xs ys)

dropped_of-append :
    (o : Obj) (xs ys : List Event) → dropped_of o (xs ++ ys) ≡ dropped_of o xs + dropped_of o ys
dropped_of-append o [] ys = omega arith
dropped_of-append o (x ∷ xs) ys = ground (arith, dropped_of-append o xs ys)

-- All events, those under the GIL being given.
abbrev pub whole : (started : Bool) → List Event → List Event
whole started es = lock ∷ (initialized started ++ ensure ∷ (es ++ release ∷ (unlock ∷ [])))

whole-kept :
    (o : Obj) (started : Bool) (es : List Event) (n : ℕ)
    → gained_of o es ≡ dropped_of o es + n
    → gained_of o (whole started es) ≡ dropped_of o (whole started es) + n
whole-kept o true es n e =
    rw
      (
        gained_of-append o es (release ∷ (unlock ∷ [])),
        dropped_of-append o es (release ∷ (unlock ∷ [])),
      )
      (omega arith)
whole-kept o false es n e =
    rw
      (
        gained_of-append o es (release ∷ (unlock ∷ [])),
        dropped_of-append o es (release ∷ (unlock ∷ [])),
      )
      (omega arith)

run_func-run :
    (py : Python) (t : Target) (func : Str) (cfg : Option Str) (tq : ℕ)
    → run_func py (load_module py t).0 (some func) cfg tq ≡ some (run py t func cfg tq)
unfolding run_func
run_func-run py t func cfg tq = ground arith

module _ (py : Python) (started : Bool) (tq : ℕ) (d : Option Str) (m : Str) (c : ℕ) (reload : Bool)
    (func : Str) (rest : Option Str) (hd : NotIn b',' (dir_of d)) (hm : NotIn b',' (m ++ c ∷ []))
    (slash : NotIn b'/' (m ++ c ∷ [])) (ne : c ≢ b'?') (hf : NotIn b',' func) where
  abbrev cfg : Str
  cfg = config (path d (marked (m ++ c ∷ []) reload)) func rest

  abbrev target : Target
  target = record { dir = d; name = m ++ c ∷ []; reload = reload }

  libffi_init-whole :
      libffi_init py started (some cfg) tq
      ≡ some ((run py target func rest tq).0, whole started (inner py target func rest tq))
  unfolding libffi_init init
  libffi_init-whole =
      let (t, f, r) = init_target-config d m c reload func rest hd hm slash ne hf in
      rw (t, f, r, run_func-run py target func rest tq, init, libffi_init)
        (ap
          (λ es. some ((run py target func rest tq).0, lock ∷ (initialized started ++ ensure ∷ es)))
          (append_assoc (inner py target func rest tq) (release ∷ []) (unlock ∷ [])))

  -- A start with a configuration `dir/module?,func,rest`, the directory, the '?' and the rest
  -- optional, whatever Python answers: the mutex is held from the first call to the last and the GIL
  -- from the one after the initialisation to the last but one. If there is a module, which with
  -- Python 3.8 or later is loaded again if it was there and has the '?', and a callable `func` in it,
  -- then it is called once, with the rest and the task queue, and its number is returned, 1 for an
  -- exception. Else nothing is
  -- called, and 1 is returned.
  pub libffi_init_outcome :
      (es : List Event) × (libffi_init py started (some cfg) tq
        ≡ some (if runs py reload then answer py.value else pos 1, whole started es))
      × NoLock es
      × (called es ≡ (if runs py reload then (func, rest, tq) ∷ [] else []))
  libffi_init_outcome = (
    inner py target func rest tq,
    libffi_init-whole
        ∙ ap (λ rc. some (rc, whole started (inner py target func rest tq)))
            (run-answer py target func rest tq),
    inner-NoLock py target func rest tq,
    inner-called py target func rest tq,
  )

  -- The references that such a start keeps: `sys`, its path and the directory's name with a
  -- directory; the module, if the function returns an object, and once more if it was there and has
  -- the '?', with Python 3.8 or later; the function, if it returns an object; and no others.
  pub libffi_init_references :
      (rc : ℤ) × (es : List Event) × (libffi_init py started (some cfg) tq ≡ some (rc, es))
      × ((o : Obj) → gained_of o es ≡ dropped_of o es + kept py target o)
  libffi_init_references = (
    _,
    _,
    libffi_init-whole,
    λ o.
        whole-kept o started (inner py target func rest tq) (kept py target o)
          (inner-kept py target func rest tq o),
  )
