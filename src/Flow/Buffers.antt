-- ===== src/Flow/Buffers.antt =====
-- The copy of a request or of a response in a buffer of its own.
use lua_resty_ffi.Common.{ℕ, ◌≡◌, ◌≢◌, refl, ap, Option, none, some, List, arith}
use lua_resty_ffi.Store.{Ptr, null, Task, FfiTaskCtx, CoCtx, LuaCtx, Store}
use lua_resty_ffi.Store.Commands.{write}
use lua_resty_ffi.Queue.Laws.{ctx_at, event_at}
use lua_resty_ffi.Task.Free.{without}
use lua_resty_ffi.Lua.{request_ptr, request_len}
use lua_resty_ffi.Lua.Life.Request.{with_request, with_request-tasks, with_request-ctxs}
use lua_resty_ffi.Flow.{Flow, Fresh, Room, Request, Asked, set}
use lua_resty_ffi.Flow.Sound.{Sound, Sound-frame}

-- A new buffer, and what was there.
with_request-others :
    (buf : Ptr) (bytes : Option (List ℕ)) (s : Store) (p : Ptr)
    → Room s buf bytes
    → s.bufs p ≢ none
    → (with_request buf bytes s).bufs p ≡ s.bufs p
unfolding with_request write
with_request-others buf none s p room here = refl
with_request-others buf (some bytes) s p (ne, unused) here = ground arith

with_request-owner :
    (buf : Ptr) (bytes : Option (List ℕ)) (s : Store) (owner : Ptr → Ptr) (a p : Ptr)
    → Room s buf bytes
    → p ≢ null
    → s.bufs p ≢ none
    → set owner (request_ptr buf bytes) a p ≡ owner p
with_request-owner buf none s owner a p room ne here = ground arith
with_request-owner buf (some bytes) s owner a p (_, unused) ne here = ground arith

pub request_ptr_apart :
    (buf : Ptr) (bytes : Option (List ℕ)) (s : Store) (p : Ptr)
    → Room s buf bytes
    → p ≢ null
    → s.bufs p ≢ none
    → p ≢ request_ptr buf bytes
request_ptr_apart buf none s p room ne here = ne
request_ptr_apart buf (some bytes) s p (_, unused) ne here = ground arith

pub with_request-coros :
    (buf : Ptr) (bytes : Option (List ℕ)) (s : Store) → (with_request buf bytes s).coros ≡ s.coros
unfolding with_request
with_request-coros buf none s = refl
with_request-coros buf (some bytes) s = refl

pub with_request-done :
    (buf : Ptr) (bytes : Option (List ℕ)) (s : Store) → (with_request buf bytes s).done ≡ s.done
unfolding with_request
with_request-done buf none s = refl
with_request-done buf (some bytes) s = refl

pub with_request-Asked :
    (buf : Ptr) (bytes : Option (List ℕ)) (s : Store)
    → buf ≢ null
    → Asked (request_ptr buf bytes) (request_len bytes) (with_request buf bytes s).bufs bytes
unfolding with_request write
with_request-Asked buf none s ne = (refl, refl)
with_request-Asked buf (some bytes) s ne = (ne, ground arith, refl)

-- A request keeps its buffers when a new one is allocated.
pub Sound-with_request :
    {s : Store} {owner : Ptr → Ptr} {q : Request} {b : Ptr} {d : FfiTaskCtx} (buf a : Ptr)
    (bytes : Option (List ℕ))
    → Room s buf bytes
    → Sound s owner q b d
    → Sound (with_request buf bytes s) (set owner (request_ptr buf bytes) a) q b d
Sound-with_request {s} {owner} {q} {b} {d} buf a bytes room o =
    Sound-frame (ap (λ (m : Ptr → Option FfiTaskCtx). m b) (with_request-ctxs buf bytes s))
      (ap (λ (m : Ptr → Option Task). ctx_at m b) (with_request-tasks buf bytes s))
      (ap (λ (m : Ptr → Option Task). event_at m b) (with_request-tasks buf bytes s))
      (λ h. (
        with_request-others buf bytes s d.req room (o.req h).0,
        with_request-owner buf bytes s owner a d.req room h (o.req h).0,
      ))
      (λ h. (
        with_request-others buf bytes s d.rsp room (o.rsp h).0,
        with_request-owner buf bytes s owner a d.rsp room h (o.rsp h).0,
      ))
      (λ live. ap (λ (m : Ptr → Option CoCtx). m d.wait_co_ctx) (with_request-coros buf bytes s)) o

pub Fresh-Room :
    {F : Flow} {r fresh buf : Ptr} {ctx : LuaCtx} {co : CoCtx} (bytes : Option (List ℕ))
    → Fresh F r fresh buf ctx co
    → Room F.store buf bytes
Fresh-Room none n = tt
Fresh-Room (some bytes) n = (n.buf_ne, n.buf_unused)

-- A request that was refused gives its buffer back.
pub without-with_request :
    (buf : Ptr) (bytes : Option (List ℕ)) (s : Store) (p : Ptr)
    → s.bufs buf ≡ none
    → s.bufs p ≢ none
    → without (request_ptr buf bytes) (with_request buf bytes s).bufs p ≡ s.bufs p
unfolding with_request write
without-with_request buf none s p unused here = refl
without-with_request buf (some bytes) s p unused here = ground arith
