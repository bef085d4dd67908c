-- ===== src/Event.antt =====
-- ngx_http_lua_ffi.c, what runs in the event loop when a response has arrived: the event handler,
-- the resumption of the request, and the cleanup handler of a coroutine.
pub mod Deliver
pub mod Discard
pub mod Results
pub mod Resume
pub mod Run
use lua_resty_ffi.Common.{
  ℕ, zero, suc, ◌==◌, if◌then◌else◌, true, not, Option, none, some, List, [], ◌∷◌, leb, length,
  take,
}
use mathlib.Core.Option
use lua_resty_ffi.Common.Int.{ℤ, pos, negsuc, is_nonzero}
use lua_resty_ffi.Nginx.{Rc, ngx_error, ngx_again, ngx_done}
use lua_resty_ffi.Store.{
  Ptr, null, FfiTaskCtx, LuaCtx, wev_handler, ffi_resume, no_handler, ffi_event_handler, no_cleanup,
  boolean, integer, string, nil, run_thread, finalize_request, run_posted_threads, run_phases,
  run_posted_requests,
}
use lua_resty_ffi.Store.Commands.{
  Cmd, ok, fault, pure, expect, ◌>>=◌, ◌>>◌, write, load_task, load_ctx, load_buf, load_co, set_ctx,
  set_co, call, push,
}
use lua_resty_ffi.Task.{task_free}

load_lua_ctx : Ptr → Cmd LuaCtx
load_lua_ctx r s = expect (s.lua_ctxs r) s

set_lua_ctx : Ptr → (LuaCtx → LuaCtx) → Cmd (Unit {0})
unfolding load_lua_ctx
set_lua_ctx r f = do
  c ← load_lua_ctx r
  λ s. ok tt (record s { lua_ctxs = write s.lua_ctxs r (some (f c)) })

-- `run_rc` is what ngx_http_lua_run_thread returns, `posted_rc` what
-- ngx_http_lua_run_posted_threads does. The module context is there.
resume_with : (r : Ptr) → (run_rc posted_rc : Rc) → Cmd Rc
unfolding load_lua_ctx set_lua_ctx
resume_with r run_rc posted_rc = do
  set_lua_ctx r (λ c. record c { resume_handler = wev_handler })
  call (run_thread r 3)
  elim run_rc [
    | ngx_again ↦ do call (run_posted_threads r); pure posted_rc
    | ngx_done ↦ do call (finalize_request r ngx_done); call (run_posted_threads r); pure posted_rc
    | rc ↦ do
      ctx ← load_lua_ctx r
      if ctx.entered_content_phase
          then (do call (finalize_request r rc); pure ngx_done)
          else pure rc
  ]

unfoldable pub resume : (r : Ptr) → (run_rc posted_rc : Rc) → Cmd Rc
unfolding resume_with
resume r run_rc posted_rc s = elim (s.lua_ctxs r) [
  | none ↦ ok ngx_error s
  | some _ ↦ resume_with r run_rc posted_rc s
]

-- The bytes before the first 0; `none` where there is none.
unfoldable pub until_nul : List ℕ → Option (List ℕ)
until_nul [] = none
until_nul (x ∷ xs) = if x == 0 then some [] else Option.map (λ ys. x ∷ ys) (until_nul xs)

-- lua_pushlstring reads `len` bytes, as a size_t, and lua_pushstring reads up to a 0: a fault where
-- the buffer ends before.
push_bytes : Ptr → List ℕ → (len : ℤ) → Cmd (Unit {0})
unfolding until_nul
push_bytes l b (pos zero) = elim (until_nul b) [
  | none ↦ λ s. fault
  | some str ↦ push l (string str)
]
push_bytes l b (pos (suc n)) =
    if leb (suc n) (length b) then push l (string (take (suc n) b)) else λ s. fault
push_bytes l b (negsuc n) = λ s. fault

unfoldable pub push_rsp : Ptr → FfiTaskCtx → Cmd (Unit {0})
unfolding push_bytes
push_rsp l c = if c.rsp == null then push l nil else do b ← load_buf c.rsp; push_bytes l b c.rsp_len

-- The values for the coroutine: the flag, the code if there is one, the response, and a last nil.
unfoldable pub push_results : Ptr → FfiTaskCtx → Cmd (Unit {0})
push_results l c = do
  push l (boolean (not (is_nonzero c.rc)))
  if is_nonzero c.rc then push l (integer c.rc) else pure tt
  push_rsp l c
  if is_nonzero c.rc then pure tt else push l nil

-- The handler from lua_pushboolean on, for the request `r` and the Lua thread `l`.
deliver : (ffi_ctx r l : Ptr) → FfiTaskCtx → (run_rc posted_rc : Rc) → Cmd (Unit {0})
unfolding set_lua_ctx load_lua_ctx
deliver ffi_ctx r l c run_rc posted_rc = do
  push_results l c
  set_lua_ctx r (λ ctx. record ctx { cur_co_ctx = c.wait_co_ctx })
  set_co c.wait_co_ctx (λ co. record co { cleanup = no_cleanup })
  task_free ffi_ctx
  ctx ← load_lua_ctx r
  if ctx.entered_content_phase then (do resume r run_rc posted_rc; pure tt) else (do
    set_lua_ctx r (λ ctx. record ctx { resume_handler = ffi_resume })
    call (run_phases r))
  call (run_posted_requests r)

-- ngx_http_lua_ffi_event_handler; `get_req` is ngx_http_lua_get_req.
unfoldable pub event_handler :
    (get_req : Ptr → Ptr) → (run_rc posted_rc : Rc) → (ffi_ctx : Ptr) → Cmd (Unit {0})
unfolding deliver
event_handler get_req run_rc posted_rc ffi_ctx = do
  c ← load_ctx ffi_ctx
  if c.is_abort then task_free ffi_ctx else do
    w ← load_co c.wait_co_ctx
    if get_req w.co == null then task_free ffi_ctx else λ s. elim (s.lua_ctxs (get_req w.co)) [
      | none ↦ task_free ffi_ctx s
      | some _ ↦ deliver ffi_ctx (get_req w.co) w.co c run_rc posted_rc s
    ]

-- What nginx does with the event of a task that it took, `event->handler(event)`: through a handler
-- that is not set this is a fault.
unfoldable pub run_event :
    (get_req : Ptr → Ptr) → (run_rc posted_rc : Rc) → (task : Ptr) → Cmd (Unit {0})
unfolding event_handler
run_event get_req run_rc posted_rc task = do
  t ← load_task task
  elim t.handler [
    | no_handler ↦ λ s. fault
    | ffi_event_handler ↦ event_handler get_req run_rc posted_rc t.event_data
  ]

-- ngx_http_lua_ffi_cleanup, on the coroutine context that is torn down.
unfoldable pub cleanup : Ptr → Cmd (Unit {0})
cleanup co = do ctx ← load_co co; set_ctx ctx.cleanup_data (λ c. record c { is_abort = true })
