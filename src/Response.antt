-- ===== src/Response.antt =====
-- ngx_http_lua_ffi.c, the way of a response into nginx: ngx_thread_pool_notify_inject and
-- ngx_http_lua_ffi_respond.
pub mod Inject
use lua_resty_ffi.Common.Int.{ℤ}
use lua_resty_ffi.Store.{Ptr, null, Queue, notify}
use lua_resty_ffi.Store.Commands.{Cmd, ok, ◌>>=◌, ◌>>◌, load_task, set_task, set_ctx, call}
use lua_resty_ffi.Queue.{append}

load_done : Cmd Queue
load_done s = ok s.done s

store_done : Queue → Cmd (Unit {0})
store_done q s = ok tt (record s { done = q })

-- The lines between ngx_spinlock and ngx_unlock are one step.
unfoldable pub notify_inject : Ptr → Cmd (Unit {0})
unfolding load_done store_done
notify_inject task = do
  set_task task (λ t. record t { next = null })
  q ← load_done
  q' ← append q task
  store_done q'
  call notify

unfoldable pub respond : Ptr → (rc : ℤ) → (rsp : Ptr) → (rsp_len : ℤ) → Cmd (Unit {0})
respond tsk rc rsp rsp_len = do
  task ← load_task tsk
  set_ctx task.ctx (λ c. record c { rc = rc; rsp = rsp; rsp_len = rsp_len })
  notify_inject tsk
