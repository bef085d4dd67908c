-- ===== src/Node/Thread.antt =====
-- examples/nodejs/loader.cc: thread_fn, the thread that embeds Node.js. The calls of Node.js and V8 are
-- recorded in order, with what is constructed and destroyed; what they answer is an argument. What the
-- JavaScript text that is loaded does is in Node/Loader. Local texts and vectors are left out.
pub mod Scopes
use lua_resty_ffi.Common.{
  ◌≡◌, refl, ap, ◌∙◌, Bool, Bool-cases, Option-cases, inl, inr, true, false, not, ◌&&◌, ◌||◌,
  Option, none, some, List, [], ◌∷◌, ◌++◌, if◌then◌else◌, arith,
}
use lua_resty_ffi.Common.Int.{ℤ}
use lua_resty_ffi.Loader.{Str}

-- The objects on the thread's stack that act when they go: `result`, `platform` and `setup` own what
-- they point to, and the others are the scopes of V8.
pub data Object : Type 0 where
  result platform setup locker isolate_scope handle_scope context_scope : Object

pub data Event : Type 0 where
  setup_args initialize_once initialize_platform initialize create_setup : Event
  load_environment spin_event_loop stop dispose dispose_platform tear_down : Event
  constructs destroys : Object → Event
  reports : Str → Event
  reports_exit : ℤ → Event

-- The answers: of InitializeOncePerProcess the errors, `early_return` and the exit code, of
-- CommonEnvironmentSetup::Create whether there is a setup, and the errors, and of LoadEnvironment
-- whether there is a value.
pub record NodeAnswers : Type 0 where
  pub errors : List Str
  pub early_return : Bool
  pub exit_code : ℤ
  pub has_setup : Bool
  pub setup_errors : List Str
  pub loaded : Bool

-- An object that lives until the end of its scope, or to a return from it.
abbrev pub scope : Object → List Event → List Event
scope x body = constructs x ∷ (body ++ destroys x ∷ [])

abbrev pub report : List Str → List Event
report [] = []
report (e ∷ es) = reports e ∷ report es

-- The inner block, up to its end or the return in it.
unfoldable pub block : NodeAnswers → List Event
block a = scope locker (
    scope isolate_scope (
      scope handle_scope (
        scope context_scope
          (load_environment ∷ (if a.loaded then spin_event_loop ∷ stop ∷ [] else [])))))

unfoldable pub with_setup : NodeAnswers → List Event
unfolding block
with_setup a =
    scope setup (block a ++ (if a.loaded then dispose ∷ dispose_platform ∷ tear_down ∷ [] else []))

unfoldable pub with_platform : NodeAnswers → List Event
unfolding with_setup
with_platform a = scope platform (
    initialize_platform
    ∷ initialize
    ∷ create_setup
    ∷ (if a.has_setup then with_setup a else report a.setup_errors))

unfoldable pub thread_fn : NodeAnswers → List Event
unfolding with_platform
thread_fn a =
    setup_args
    ∷ initialize_once
    ∷ scope result (
        report a.errors
        ++ (if a.early_return then reports_exit a.exit_code ∷ [] else with_platform a))
