-- ===== src/Store.antt =====
-- The memory that ngx_http_lua_ffi.c works on: its structs as records, kept in maps by address,
-- and the command monad, in which a read or write through NULL or through an address that holds no
-- live object is a fault. A task and its context are one allocation (`task->ctx = task + 1` and
-- `task - 1`), so both are named by the address of that block.
pub mod Commands
use lua_resty_ffi.Common.{ℕ, Bool, Option, List}
use lua_resty_ffi.Common.Int.{ℤ}
use lua_resty_ffi.Nginx.{Rc}

abbrev pub Ptr : Type 0
Ptr = ℕ

abbrev pub null : Ptr
null = 0

-- The event handlers that this code installs in a task.
pub data Handler : Type 0 where
  no_handler ffi_event_handler : Handler

-- The cleanup handlers that this code installs in a coroutine.
pub data Cleanup : Type 0 where
  no_cleanup ffi_cleanup : Cleanup

-- Who resumes a request when it is next run.
pub data ResumeHandler : Type 0 where
  unset wev_handler ffi_resume : ResumeHandler

-- ngx_thread_task_t, as far as this code uses it; `handler` and `event_data` are those of `event`.
pub record Task : Type 0 where
  pub id : ℕ
  pub next : Ptr
  pub ctx : Ptr
  pub active : Bool
  pub handler : Handler
  pub event_data : Ptr

-- `is_abort` is a one-bit field that is only set and tested.
pub record FfiTaskCtx : Type 0 where
  pub wait_co_ctx : Ptr
  pub rc : ℤ
  pub req : Ptr
  pub req_len : ℤ
  pub rsp : Ptr
  pub rsp_len : ℤ
  pub is_abort : Bool

-- ngx_http_lua_co_ctx_t: the Lua thread, and what is run when the coroutine is torn down.
pub record CoCtx : Type 0 where
  pub co : Ptr
  pub cleanup : Cleanup
  pub cleanup_data : Ptr

-- ngx_http_lua_ctx_t of a request.
pub record LuaCtx : Type 0 where
  pub cur_co_ctx : Ptr
  pub entered_content_phase : Bool
  pub resume_handler : ResumeHandler

-- What is pushed on a Lua stack.
pub data LuaValue : Type 0 where
  boolean : Bool → LuaValue
  integer : ℤ → LuaValue
  string : List ℕ → LuaValue
  nil : LuaValue

-- A pointer to a `next` field or to the `first` field of the queue itself.
pub data Slot : Type 0 where
  queue_first : Slot
  next_of : Ptr → Slot

-- ngx_task_queue_t, and the queue behind ngx_thread_pool_done, which has the same fields.
pub record Queue : Type 0 where
  pub first : Ptr
  pub last : Slot

-- ffi_task_queue_t; `locked` is the state of `mtx`, `signals` how often `cond` was signalled.
pub record FfiTaskQueue : Type 0 where
  pub locked : Bool
  pub queue : Queue
  pub waiting : ℤ
  pub signals : ℕ
  pub max_queue : ℤ

-- The calls into nginx that hand control to it, in order.
pub data Call : Type 0 where
  run_thread : Ptr → ℕ → Call
  finalize_request : Ptr → Rc → Call
  run_posted_threads : Ptr → Call
  run_phases : Ptr → Call
  run_posted_requests : Ptr → Call
  notify : Call

-- `bufs` holds the malloc()ed char arrays, `lua_ctxs` the module context of each request, `stacks`
-- what was pushed for each Lua thread, oldest first. `tq` is the one task queue at hand, `none`
-- when it is not allocated, and `done` the queue behind ngx_thread_pool_done.
pub record Store : Type 0 where
  pub tasks : Ptr → Option Task
  pub ctxs : Ptr → Option FfiTaskCtx
  pub bufs : Ptr → Option (List ℕ)
  pub coros : Ptr → Option CoCtx
  pub lua_ctxs : Ptr → Option LuaCtx
  pub stacks : Ptr → List LuaValue
  pub tq : Option FfiTaskQueue
  pub done : Queue
  pub calls : List Call
