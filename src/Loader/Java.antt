-- ===== src/Loader/Java.antt =====
-- examples/java/loader.c: the options for the JVM, and which class and method libffi_init calls, with
-- which configuration.
pub mod Events
pub mod Outcome
pub mod Start
use lua_resty_ffi.Common.{
  ℕ, zero, suc, ◌-◌, ◌≡◌, ◌≢◌, refl, ap, ◌==◌, if◌then◌else◌, Bool, true, false, Option, none, some,
  List, [], ◌∷◌, ◌++◌, arith, take,
}
use lua_resty_ffi.Loader.{Str, strsep, next_piece, unmark}
use lua_resty_ffi.Loader.Split.{
  NotIn, NotIn-marked, marked, unmark-marked, config, strsep-config, strsep-append, strsep_last,
}

abbrev pub max_opts : ℕ
max_opts = 50

-- The loop over JAVA_OPTS, with room for `left` more options: the options, and what `opts` is then.
unfoldable pub java_opts : (left : ℕ) → Option Str → List Str × Option Str
unfolding strsep
java_opts zero opts = ([], opts)
java_opts (suc left) none = ([], none)
java_opts (suc left) (some s) =
    let rest = java_opts left (strsep b' ' s).1 in ((strsep b' ' s).0 ∷ rest.0, rest.1)

-- "-Djava.class.path="
abbrev class_path_option : Str
class_path_option =
    b'-' ∷ b'D' ∷ b'j' ∷ b'a' ∷ b'v' ∷ b'a' ∷ b'.' ∷ b'c' ∷ b'l' ∷ b'a' ∷ b's' ∷ b's' ∷ b'.' ∷ b'p'
    ∷ b'a' ∷ b't' ∷ b'h' ∷ b'=' ∷ []

-- All options, by the two environment variables, and what `opts` is when it is freed.
unfoldable pub options : (class_path opts : Option Str) → List Str × Option Str
unfolding java_opts
options none opts = java_opts max_opts opts
options (some class_path) opts =
    let rest = java_opts (max_opts - 1) opts in ((class_path_option ++ class_path) ∷ rest.0, rest.1)

-- What is called: `dynamic` by the class resty/ffi/Loader, with the whole configuration.
pub record Target : Type 0 where
  pub dynamic : Bool
  pub class : Str
  pub method : Option Str
  pub cfg : Option Str

-- "resty/ffi/Loader"
abbrev pub loader_class : Str
loader_class =
    b'r' ∷ b'e' ∷ b's' ∷ b't' ∷ b'y' ∷ b'/' ∷ b'f' ∷ b'f' ∷ b'i' ∷ b'/' ∷ b'L' ∷ b'o' ∷ b'a' ∷ b'd'
    ∷ b'e' ∷ b'r' ∷ []

-- The loop over the name of the class.
unfoldable pub slashed : Str → Str
slashed [] = []
slashed (x ∷ xs) = (if x == b'.' then b'/' else x) ∷ slashed xs

-- libffi_init between the creation of the JVM and the call of FindClass, for a configuration that is
-- not NULL; `none` is a fault.
unfoldable pub call_target : Str → Option Target
unfolding strsep unmark slashed
call_target cfg =
    let first = strsep b',' cfg in
    let second = next_piece b',' first.1 in
    elim (unmark false first.0) [
      | none ↦ none
      | some r ↦ some (record {
        dynamic = r.1;
        class = if r.1 then loader_class else slashed first.0;
        method = second.0;
        cfg = if r.1 then some cfg else second.1;
      })
    ]

-- A configuration `class?,method,rest` or `class,method,rest`, the rest optional, in which class and
-- method have no comma and the class is not empty and does not itself end in '?': the method is read
-- back; with the '?' the class is resty/ffi/Loader, which gets the whole configuration; without it
-- the class is the given one with its dots as slashes, which gets the rest.
pub call_target-config :
    (m : Str) (c : ℕ) (dynamic : Bool) (method : Str) (rest : Option Str)
    → NotIn b',' (m ++ c ∷ [])
    → c ≢ b'?'
    → NotIn b',' method
    → call_target (config (marked (m ++ c ∷ []) dynamic) method rest)
      ≡ some (record {
        dynamic = dynamic;
        class = if dynamic then loader_class else slashed (m ++ c ∷ []);
        method = some method;
        cfg = if dynamic then some (config (marked (m ++ c ∷ []) dynamic) method rest) else rest;
      })
unfolding call_target
call_target-config m c true method rest hm ne hf =
    let (s, e, k) =
      strsep-config (marked (m ++ c ∷ []) true) method rest
        (NotIn-marked b',' (m ++ c ∷ []) true (omega arith) hm) hf in
    rw (e, call_target, unmark-marked false m c true ne, e, k)
call_target-config m c false method rest hm ne hf =
    let (s, e, k) = strsep-config (m ++ c ∷ []) method rest hm hf in
    rw (e, call_target, unmark-marked false m c false ne, e, k)

-- Options as JAVA_OPTS has them: one and more, with a space between any two.
abbrev pub spaced : Str → List Str → Str
spaced p [] = p
spaced p (q ∷ qs) = p ++ b' ' ∷ spaced q qs

abbrev pub Unspaced : List Str → Type 0
Unspaced [] = Unit
Unspaced (p ∷ ps) = NotIn b' ' p × Unspaced ps

-- What is left of JAVA_OPTS behind the first `n` options.
abbrev pub left_over : ℕ → Str → List Str → Option Str
left_over zero p ps = some (spaced p ps)
left_over (suc n) p [] = none
left_over (suc n) p (q ∷ qs) = left_over n q qs

java_opts-spaced :
    (left : ℕ) (p : Str) (ps : List Str)
    → Unspaced (p ∷ ps)
    → java_opts left (some (spaced p ps)) ≡ (take left (p ∷ ps), left_over left p ps)
unfolding java_opts
java_opts-spaced zero p ps h = refl
java_opts-spaced (suc zero) p [] (h, hs) = rw (strsep_last b' ' p h, java_opts)
java_opts-spaced (suc (suc left)) p [] (h, hs) = rw (strsep_last b' ' p h, java_opts)
java_opts-spaced (suc left) p (q ∷ qs) (h, hs) =
    rw (strsep-append b' ' p (spaced q qs) h, java_opts, java_opts-spaced left q qs hs)

-- The options that are asked for.
abbrev pub all_options : (class_path : Option Str) → List Str → List Str
all_options none opts = opts
all_options (some class_path) opts = (class_path_option ++ class_path) ∷ opts

-- How many of them may come from JAVA_OPTS.
abbrev pub room : (class_path : Option Str) → ℕ
room none = max_opts
room (some _) = max_opts - 1

-- With JAVA_OPTS set to options without spaces, one space between any two, the JVM gets the class
-- path, if there is one, and then these options in order, cut to the first 50 of all. When it is
-- freed, `opts` is NULL if all options fit, and points into the copy of JAVA_OPTS, at the first
-- option that was left out, if not.
pub options-spaced :
    (class_path : Option Str) (p : Str) (ps : List Str)
    → Unspaced (p ∷ ps)
    → options class_path (some (spaced p ps))
      ≡ (take max_opts (all_options class_path (p ∷ ps)), left_over (room class_path) p ps)
unfolding options
options-spaced none p ps h = java_opts-spaced max_opts p ps h
options-spaced (some class_path) p ps h =
    ap (λ (r : List Str × Option Str). ((class_path_option ++ class_path) ∷ r.0, r.1))
      (java_opts-spaced (max_opts - 1) p ps h)
