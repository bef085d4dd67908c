-- ===== src/RoundTrip.antt =====
-- One request from the coroutine that makes it back to that coroutine, through
-- ngx_http_lua_ffi_task_post, ngx_http_lua_ffi_task_poll, ngx_http_lua_ffi_get_req,
-- ngx_http_lua_ffi_respond and ngx_http_lua_ffi_event_handler.
pub mod Answered
pub mod Whole
use lua_resty_ffi.Common.{
  ◌≡◌, ◌≢◌, refl, sym, ap, ◌∙◌, Bool, true, false, Option, some, none, List, [], ◌∷◌, ◌++◌, arith,
  ◌==◌, if◌then◌else◌, ℕ,
}
use mathlib.Core.Option
use mathlib.Core.List.{append_assoc}
use lua_resty_ffi.Common.Int.{ℤ}
use lua_resty_ffi.Nginx.{Rc, ngx_ok, failed}
use lua_resty_ffi.Store.{
  Ptr, null, Task, FfiTaskCtx, CoCtx, LuaCtx, LuaValue, FfiTaskQueue, Store, notify,
  run_posted_requests, no_cleanup,
}
use lua_resty_ffi.Store.Commands.{ok, Live, write, deref, load_task, load_ctx}
use lua_resty_ffi.Queue.Chain.{Tasks, has, IsQueue, Chain-frame, ne_of_has, not-has_of_none}
use lua_resty_ffi.Queue.Laws.{ctx_at, Live_of_ctx}
use lua_resty_ffi.Task.{get_req}
use lua_resty_ffi.Task.Free.{Owns, without}
use lua_resty_ffi.TaskQueue.{PostCalls, returned, empty_queue, task_post}
use lua_resty_ffi.TaskQueue.Post.{IsTaskQueue, Posted, accepts}
use lua_resty_ffi.TaskQueue.Poll.{enters, poll, polled, poll_first}
use lua_resty_ffi.TaskQueue.TaskPost.{new_task, new_ctx, tied, created, readied, task_post-Posted}
use lua_resty_ffi.Response.{respond}
use lua_resty_ffi.Response.Inject.{answered, respond-append}
use lua_resty_ffi.Event.{event_handler}
use lua_resty_ffi.Event.Results.{Payload, results}
use lua_resty_ffi.Event.Deliver.{Wanted, Delivered, handed_over, event_handler-delivers}

-- What a runtime answers: the code, the response, and the buffers at that time.
pub record Answer : Type 0 where
  pub rc : ℤ
  pub rsp : Ptr
  pub rsp_len : ℤ
  pub bufs : Ptr → Option (List ℕ)

-- The context of the request `req` of the coroutine `w` with its answer.
abbrev pub answered_ctx : (w req : Ptr) → (req_len : ℤ) → Answer → FfiTaskCtx
answered_ctx w req req_len a = answered (new_ctx w req req_len) a.rc a.rsp a.rsp_len

-- The request and the response are buffers of their own, and the response stands for `v`.
pub record WellAnswered (w req : Ptr) (req_len : ℤ) (a : Answer) (v : LuaValue) : Type 0 where
  pub kept : req ≢ null → a.bufs req ≢ none
  pub rsp : a.rsp ≢ null → a.bufs a.rsp ≢ none
  pub apart : req ≢ null → req ≢ a.rsp
  pub payload : Payload (answered_ctx w req req_len a) a.bufs v

-- What the coroutine and the memory come to, from `s` to `s'`.
pub record Returned (fresh req : Ptr) (a : Answer) (r : Ptr) (co : CoCtx) (ctx : LuaCtx)
    (v : LuaValue) (run_rc : Rc) (ys : List Ptr) (s s' : Store) : Type 0 where
  pub stack : s'.stacks co.co ≡ s.stacks co.co ++ results a.rc v
  pub calls :
      s'.calls ≡ s.calls ++ (notify ∷ (handed_over r ctx run_rc ++ run_posted_requests r ∷ []))
  pub other_stacks : (m : Ptr) → co.co ≢ m → s'.stacks m ≡ s.stacks m
  pub gone : s'.ctxs fresh ≡ none
  pub bufs : s'.bufs ≡ without a.rsp (without req a.bufs)
  pub tasks : (b : Ptr) → has b ys ≡ false → s'.tasks b ≡ s.tasks b
