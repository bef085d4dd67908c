-- ===== src/Node/Thread/Scopes.antt =====
-- thread_fn of examples/nodejs/loader.cc against the order in which Node.js and V8 are to be called,
-- and the objects that each call needs.
use lua_resty_ffi.Common.{
  ◌≡◌, refl, ◌∙◌, Bool, true, false, not, ◌&&◌, ◌||◌, Option, none, some, List, [], ◌∷◌, ◌++◌,
  if◌then◌else◌,
}
use lua_resty_ffi.Common.Int.{ℤ}
use lua_resty_ffi.Loader.{Str}
use lua_resty_ffi.Node.Thread.{
  Object, result, platform, setup, locker, isolate_scope, handle_scope, context_scope, Event,
  setup_args, initialize_once, initialize_platform, initialize, create_setup, load_environment,
  spin_event_loop, stop, dispose, dispose_platform, tear_down, constructs, destroys, reports,
  reports_exit, NodeAnswers, report, block, with_setup, with_platform, thread_fn,
}

-- How far Node.js and V8 are, by the last of the calls that change it.
pub data Stage : Type 0 where
  fresh with_args once_initialized platform_set v8_running setup_tried environment_tried : Stage
  loop_done stopped v8_disposed platform_disposed torn_down : Stage

-- The objects that are alive, the last constructed first; `late_setup` says that the setup, which owns
-- the isolate, was destroyed after V8 was disposed of.
pub record Machine : Type 0 where
  pub stage : Stage
  pub live : List Object
  pub late_setup : Bool

abbrev same_object : Object → Object → Bool
same_object result result = true
same_object platform platform = true
same_object setup setup = true
same_object locker locker = true
same_object isolate_scope isolate_scope = true
same_object handle_scope handle_scope = true
same_object context_scope context_scope = true
same_object _ _ = false

abbrev same_objects : List Object → List Object → Bool
same_objects [] [] = true
same_objects (x ∷ xs) (y ∷ ys) = same_object x y && same_objects xs ys
same_objects _ _ = false

-- With the setup, and inside the isolate: locked, entered, with a scope for handles and a context.
abbrev set_up : List Object
set_up = setup ∷ platform ∷ result ∷ []

abbrev inside : List Object
inside = context_scope ∷ handle_scope ∷ isolate_scope ∷ locker ∷ set_up

abbrev gone : Stage → Bool
gone v8_disposed = true
gone platform_disposed = true
gone torn_down = true
gone _ = false

abbrev is_setup : Object → Bool
is_setup setup = true
is_setup _ = false

abbrev moves : Stage → (needs : List Object) → Machine → Option Machine
moves stage needs m = if same_objects m.live needs then some (record m { stage = stage }) else none

-- The calls that are allowed in each stage.
abbrev call : Event → Stage → Machine → Option Machine
call setup_args fresh m = moves with_args [] m
call initialize_once with_args m = moves once_initialized [] m
call initialize_platform once_initialized m = moves platform_set (platform ∷ result ∷ []) m
call initialize platform_set m = moves v8_running (platform ∷ result ∷ []) m
call create_setup v8_running m = moves setup_tried (platform ∷ result ∷ []) m
call load_environment setup_tried m = moves environment_tried inside m
call spin_event_loop environment_tried m = moves loop_done inside m
call stop loop_done m = moves stopped inside m
call dispose stopped m = moves v8_disposed set_up m
call dispose_platform v8_disposed m = moves platform_disposed set_up m
call tear_down platform_disposed m = moves torn_down set_up m
call (reports e) stage m = some m
call (reports_exit rc) stage m = some m
call _ _ m = none

abbrev destroy : Object → List Object → Machine → Option Machine
destroy x [] m = none
destroy x (y ∷ ys) m =
    if same_object x y
    then some (record m { live = ys; late_setup = m.late_setup || (is_setup x && gone m.stage) })
    else none

abbrev after : Event → Machine → Option Machine
after (constructs x) m = some (record m { live = x ∷ m.live })
after (destroys x) m = destroy x m.live m
after e m = call e m.stage m

-- The machine after the events; `none` where one is out of order or lacks an object.
abbrev pub run : Machine → List Event → Option Machine
run m [] = some m
run m (e ∷ es) = elim (after e m) [ none ↦ none | some m' ↦ run m' es ]

abbrev pub begin : Machine
begin = record { stage = fresh; live = []; late_setup = false }

-- Where the thread ends.
abbrev pub last_stage : NodeAnswers → Stage
last_stage a =
    if a.early_return
    then once_initialized
    else if not a.has_setup
    then setup_tried
    else if not a.loaded
    then environment_tried
    else torn_down

abbrev pub runs : NodeAnswers → Bool
runs a = not a.early_return && a.has_setup && a.loaded

run-report :
    (m : Machine) (es : List Str) (xs ys : List Event)
    → run m ((report es ++ xs) ++ ys) ≡ run m (xs ++ ys)
run-report m [] xs ys = refl
run-report m (e ∷ es) xs ys = run-report m es xs ys

-- The machine when InitializeOncePerProcess has returned, and when there is no setup.
abbrev once : Machine
once = record { stage = once_initialized; live = result ∷ []; late_setup = false }

abbrev no_setup : Machine
no_setup = record { stage = setup_tried; live = platform ∷ result ∷ []; late_setup = false }

abbrev answers : List Str → List Str → ℤ → (early_return has_setup loaded : Bool) → NodeAnswers
answers es fs rc early_return has_setup loaded = record {
  errors = es;
  early_return = early_return;
  exit_code = rc;
  has_setup = has_setup;
  setup_errors = fs;
  loaded = loaded;
}

abbrev Ends : NodeAnswers → Type 0
Ends a =
    run begin (thread_fn a) ≡ some (record { stage = last_stage a; live = []; late_setup = runs a })

by_answers :
    (es fs : List Str) (rc : ℤ) (early_return has_setup loaded : Bool)
    → Ends (answers es fs rc early_return has_setup loaded)
unfolding thread_fn with_platform with_setup block
by_answers es fs rc true has_setup loaded =
    run-report once es (reports_exit rc ∷ []) (destroys result ∷ [])
by_answers es fs rc false false loaded =
    run-report once es (with_platform (answers es fs rc false false loaded)) (destroys result ∷ [])
    ∙ run-report no_setup fs (destroys platform ∷ []) (destroys result ∷ [])
by_answers es fs rc false true false =
    run-report once es (with_platform (answers es fs rc false true false)) (destroys result ∷ [])
by_answers es fs rc false true true =
    run-report once es (with_platform (answers es fs rc false true true)) (destroys result ∷ [])

-- Whatever Node.js and V8 answer, each of their calls comes in the stage and with the objects alive that
-- it needs: Node.js is initialized once, the platform and V8 after it and with a platform alive, the
-- environment is loaded, its loop run and it is stopped inside the locked and entered isolate with a
-- context, and V8, then its platform, then Node.js are ended after all that is left. Of the owning
-- pointers and the scopes the thread leaves none alive, and destroys the last constructed first. It
-- ends with V8 and Node.js ended exactly if nothing kept Node.js from running, and otherwise leaves
-- them as they were when a step failed; where it ends them, the setup, which owns the isolate, is
-- destroyed only after V8 was disposed of.
pub thread_fn_ends :
    (a : NodeAnswers)
    → run begin (thread_fn a)
      ≡ some (record { stage = last_stage a; live = []; late_setup = runs a })
thread_fn_ends a =
    by_answers a.errors a.setup_errors a.exit_code a.early_return a.has_setup a.loaded
