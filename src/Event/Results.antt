-- ===== src/Event/Results.antt =====
-- What the event handler of ngx_http_lua_ffi.c pushes for the coroutine.
use mathlib.Core.Path.{fun_ext}
use lua_resty_ffi.Common.{
  ap, ◌∙◌, Bool-cases, inl, inr, ℕ, suc, ◌≤◌, ◌≡◌, ◌≢◌, refl, true, false, Option, some, List, [],
  ◌∷◌, ◌++◌, arith, ◌==◌, if◌then◌else◌, length, take,
}
use mathlib.Core.List.{append_assoc}
use lua_resty_ffi.Common.Int.{ℤ, pos, is_nonzero}
use lua_resty_ffi.Store.{Ptr, null, FfiTaskCtx, LuaValue, boolean, integer, string, nil, Store}
use lua_resty_ffi.Store.Commands.{ok, deref, Live, load_buf, push}
use lua_resty_ffi.Event.{until_nul, push_rsp, push_results}

-- No byte of the list is 0.
abbrev pub NoNul : List ℕ → Type 0
NoNul [] = Unit
NoNul (x ∷ xs) = (x ≢ 0) × NoNul xs

until_nul-append : (xs rest : List ℕ) → NoNul xs → until_nul (xs ++ 0 ∷ rest) ≡ some xs
unfolding until_nul
until_nul-append [] rest h = refl
until_nul-append (x ∷ xs) rest (h, hs) = ground (arith, until_nul-append xs rest hs)

-- The response that a context stands for: nil for NULL, the first `rsp_len` bytes, or, where the
-- length is 0, the C string.
pub data Payload (c : FfiTaskCtx) (bufs : Ptr → Option (List ℕ)) : LuaValue → Type 0 where
  missing : c.rsp ≡ null → Payload c bufs nil
  sized :
      (b : List ℕ) (n : ℕ)
      → Live bufs c.rsp b
      → c.rsp_len ≡ pos (suc n)
      → suc n ≤ length b
      → Payload c bufs (string (take (suc n) b))
  c_string :
      (xs rest : List ℕ)
      → Live bufs c.rsp (xs ++ 0 ∷ rest)
      → c.rsp_len ≡ pos 0
      → NoNul xs
      → Payload c bufs (string xs)

-- What the coroutine receives: `true, res, nil` or `false, rc, res`.
abbrev pub results : ℤ → LuaValue → List LuaValue
results rc v =
    if is_nonzero rc then boolean false ∷ integer rc ∷ v ∷ [] else boolean true ∷ v ∷ nil ∷ []

-- The memory with more values on the stack of `l`.
abbrev pub pushed : Ptr → List LuaValue → Store → Store
pushed l vs s = record s { stacks = λ a. if l == a then s.stacks a ++ vs else s.stacks a }

push_rsp-Payload :
    (l : Ptr) (c : FfiTaskCtx) (s : Store) {v : LuaValue}
    → Payload c s.bufs v
    → push_rsp l c s ≡ push l v s
unfolding push_rsp load_buf deref
push_rsp-Payload l c s (missing e) = ground arith
push_rsp-Payload l c s (sized b n live e le) = ground (arith, live.ne_null, live.holds)
push_rsp-Payload l c s (c_string xs rest live e h) =
    ground (arith, live.ne_null, live.holds, until_nul-append xs rest h)

pushed-pushed :
    (l : Ptr) (vs ws : List LuaValue) (s : Store)
    → pushed l ws (pushed l vs s) ≡ pushed l (vs ++ ws) s
pushed-pushed l vs ws s =
    ap (λ (m : Ptr → List LuaValue). record s { stacks = m })
      (fun_ext λ a. elim (Bool-cases (l == a)) [
        | inl e ↦ rw e (append_assoc (s.stacks a) vs ws)
        | inr e ↦ rw e
      ])

-- Exactly three values are pushed, the number that the resumption is told: `true, res, nil` for
-- code 0 and `false, rc, res` for any other, `res` being the response, or nil where there is none.
pub push_results-pushed :
    (l : Ptr) (c : FfiTaskCtx) (s : Store) {v : LuaValue}
    → Payload c s.bufs v
    → push_results l c s ≡ ok tt (pushed l (results c.rc v) s)
unfolding push_results push
push_results-pushed l c s {v} p = elim (Bool-cases (is_nonzero c.rc)) [
  | inl e ↦
      let flag : Store = pushed l (boolean false ∷ []) s in
      let code : Store = pushed l (integer c.rc ∷ []) flag in
      rw (e, push_rsp-Payload l c code p)
        (ap (ok tt) (pushed-pushed l _ (v ∷ []) flag ∙ pushed-pushed l _ (integer c.rc ∷ v ∷ []) s))
  | inr e ↦
      let flag : Store = pushed l (boolean true ∷ []) s in
      rw (e, push_rsp-Payload l c flag p)
        (ap (ok tt) (pushed-pushed l _ (nil ∷ []) flag ∙ pushed-pushed l _ (v ∷ nil ∷ []) s))
]
