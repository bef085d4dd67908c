-- ===== src/Task.antt =====
-- ngx_http_lua_ffi.c, the life of one task: allocation, creation for the current coroutine, reading
-- the request, and release with the request and response buffers.
pub mod Free
use lua_resty_ffi.Common.{◌==◌, if◌then◌else◌, Bool, false, Option, none, some}
use lua_resty_ffi.Common.Int.{ℤ, pos}
use lua_resty_ffi.Store.{Ptr, null, Task, FfiTaskCtx, no_handler, ffi_event_handler, ffi_cleanup}
use lua_resty_ffi.Store.Commands.{
  Cmd, ok, pure, ◌>>=◌, ◌>>◌, write, load_task, load_ctx, set_task, set_ctx, set_co, free_buf,
  free_block,
}

-- What ngx_calloc leaves in the two parts of the block.
abbrev pub zero_task : Task
zero_task = record {
  id = 0;
  next = null;
  ctx = null;
  active = false;
  handler = no_handler;
  event_data = null;
}

abbrev pub zero_ctx : FfiTaskCtx
zero_ctx = record {
  wait_co_ctx = null;
  rc = pos 0;
  req = null;
  req_len = pos 0;
  rsp = null;
  rsp_len = pos 0;
  is_abort = false;
}

-- `fresh` is what ngx_calloc returns.
unfoldable pub task_alloc : (fresh : Ptr) → Cmd Ptr
task_alloc fresh = if fresh == null then pure null else λ s. ok fresh (record s {
  tasks = write s.tasks fresh (some (record zero_task { ctx = fresh }));
  ctxs = write s.ctxs fresh (some zero_ctx);
})

-- `if (p) free(p);`
free_unless_null : Ptr → Cmd (Unit {0})
free_unless_null p = if p == null then pure tt else free_buf p

unfoldable pub task_free : Ptr → Cmd (Unit {0})
unfolding free_unless_null
task_free ctx = do c ← load_ctx ctx; free_unless_null c.req; free_unless_null c.rsp; free_block ctx

-- The part of ngx_http_lua_ffi_create_task behind the check of the module context.
create_for : (cur_co_ctx fresh : Ptr) → Cmd Ptr
unfolding task_alloc
create_for cur_co_ctx fresh = do
  task ← task_alloc fresh
  if task == null then pure null else do
    t ← load_task task
    set_ctx t.ctx (λ c. record c { wait_co_ctx = cur_co_ctx })
    set_co cur_co_ctx (λ c. record c { cleanup = ffi_cleanup; cleanup_data = t.ctx })
    set_task task (λ u. record u { handler = ffi_event_handler; event_data = t.ctx })
    pure task

-- `r` is the request; its module context may be missing.
unfoldable pub create_task : (r fresh : Ptr) → Cmd Ptr
unfolding create_for
create_task r fresh s = elim (s.lua_ctxs r) [
  | none ↦ ok null s
  | some ctx ↦ create_for ctx.cur_co_ctx fresh s
]

-- `want_len` says that `len` is not NULL; the length is what is written through it.
unfoldable pub get_req : Ptr → (want_len : Bool) → Cmd (Ptr × Option ℤ)
get_req tsk want_len = do
  task ← load_task tsk
  c ← load_ctx task.ctx
  pure (c.req, if want_len then some c.req_len else none)
