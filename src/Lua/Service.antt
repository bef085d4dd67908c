-- ===== src/Lua/Service.antt =====
-- What a loaded runtime promises, without its memory: the specification of resty_ffi.lua and
-- ngx_http_lua_ffi.c together, as the sequences of actions that may be seen.
use lua_resty_ffi.Common.{
  ℕ, ◌==◌, if◌then◌else◌, ◌≡◌, Option-cases, inl, inr, Option, none, some, List, [], ◌∷◌, ◌++◌,
}

-- `abandoned` is a runtime that Lua has unloaded while its threads were not told.
pub data Mode : Type 0 where
  in_service abandoned ending at_end : Mode

-- The requests that wait, oldest first.
pub record Service : Type 0 where
  pub mode : Mode
  pub waiting : List ℕ

-- A request is queued, refused, or turned down after the unload; the unload goes through, or not, or
-- has been before; a poll gets a request, NULL for the end, or waits; something else happens.
pub data Action : Type 0 where
  takes : ℕ → Action
  refused turned_down unloaded unload_lost unloaded_before : Action
  hands_out : ℕ → Action
  told_end waits other : Action

abbrev taken : Mode → (x : ℕ) → List ℕ → Option Service
taken mode x [] = none
taken mode x (y ∷ ys) = if x == y then some (record { mode = mode; waiting = ys }) else none

abbrev if_empty : List ℕ → Service → Option Service
if_empty [] S = some S
if_empty (_ ∷ _) S = none

-- What is allowed, and what comes of it. After the end no poll is.
unfoldable pub accept : Mode → List ℕ → Action → Option Service
accept in_service xs (takes x) = some (record { mode = in_service; waiting = xs ++ x ∷ [] })
accept in_service xs refused = some (record { mode = in_service; waiting = xs })
accept in_service xs turned_down = none
accept in_service xs unloaded = some (record { mode = ending; waiting = xs })
accept in_service xs unload_lost = some (record { mode = abandoned; waiting = xs })
accept in_service xs unloaded_before = none
accept in_service xs (hands_out x) = taken in_service x xs
accept in_service xs told_end = none
accept in_service xs waits = if_empty xs (record { mode = in_service; waiting = xs })
accept mode xs turned_down = some (record { mode = mode; waiting = xs })
accept mode xs unloaded_before = some (record { mode = mode; waiting = xs })
accept mode xs other = some (record { mode = mode; waiting = xs })
accept abandoned xs (hands_out x) = taken abandoned x xs
accept abandoned xs waits = if_empty xs (record { mode = abandoned; waiting = xs })
accept ending xs (hands_out x) = taken ending x xs
accept ending xs told_end = if_empty xs (record { mode = at_end; waiting = xs })
accept mode xs _ = none

abbrev pub then_accept : Option Service → Action → Option Service
then_accept none a = none
then_accept (some S) a = accept S.mode S.waiting a

unfoldable pub serve : Service → List Action → Option Service
unfolding accept
serve S [] = some S
serve S (a ∷ acts) = elim (accept S.mode S.waiting a) [ none ↦ none | some T ↦ serve T acts ]

pub serve-append :
    (S : Service) (acts : List Action) (a : Action)
    → serve S (acts ++ a ∷ []) ≡ then_accept (serve S acts) a
unfolding serve
serve-append S [] a = elim (Option-cases (accept S.mode S.waiting a)) [
  | inl e ↦ rw (e, serve)
  | inr (T, e) ↦ rw (e, serve)
]
serve-append S (b ∷ acts) a = elim (Option-cases (accept S.mode S.waiting b)) [
  | inl e ↦ rw (e, serve)
  | inr (T, e) ↦ rw (e, serve) (serve-append T acts a)
]
