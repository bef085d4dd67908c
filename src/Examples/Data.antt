-- ===== src/Examples/Data.antt =====
-- A memory with two queued tasks, at 20 and 30, an idle one at 10, a coroutine at 5 of the request 3,
-- and the same memory before anything is queued.
use lua_resty_ffi.Common.{refl, true, none, some, [], ◌∷◌, arith, ◌==◌, if◌then◌else◌}
use lua_resty_ffi.Common.Int.{pos}
use lua_resty_ffi.Nginx.{ngx_ok}
use lua_resty_ffi.Store.{
  Ptr, Task, FfiTaskCtx, CoCtx, LuaCtx, next_of, FfiTaskQueue, Store, ffi_cleanup, unset,
}
use lua_resty_ffi.Store.Commands.{Live}
use lua_resty_ffi.Queue.Chain.{IsQueue}
use lua_resty_ffi.Task.{zero_ctx}
use lua_resty_ffi.Task.Free.{Owns}
use lua_resty_ffi.TaskQueue.{PostCalls, empty_queue, zero_tq}
use lua_resty_ffi.TaskQueue.Post.{IsTaskQueue}
use lua_resty_ffi.TaskQueue.TaskPost.{new_task}

abbrev pub in_queue : Ptr → Ptr → Task
in_queue p q = record (new_task p) { next = q; active = true }

abbrev pub ctx : FfiTaskCtx
ctx = record zero_ctx { wait_co_ctx = 5; req = 100; req_len = pos 2; rsp = 200; rsp_len = pos 1 }

abbrev pub co : CoCtx
co = record { co = 7; cleanup = ffi_cleanup; cleanup_data = 20 }

abbrev pub lua_ctx : LuaCtx
lua_ctx = record { cur_co_ctx = 5; entered_content_phase = true; resume_handler = unset }

abbrev pub tq : FfiTaskQueue
tq = record zero_tq {
  queue = record { first = 20; last = next_of 30 };
  waiting = pos 2;
  max_queue = pos 3;
}

abbrev pub idle : Store
idle = record {
  tasks = λ a. if a == 10 then some (new_task 10) else none;
  ctxs = λ a. if a == 20 then some ctx else if a == 10 then some ctx else none;
  bufs = λ a.
      if a == 100 then some (104 ∷ 105 ∷ 0 ∷ []) else if a == 200 then some (111 ∷ []) else none;
  coros = λ a. if a == 5 then some co else none;
  lua_ctxs = λ a. if a == 3 then some lua_ctx else none;
  stacks = λ _. [];
  tq = none;
  done = empty_queue;
  calls = [];
}

abbrev pub busy : Store
busy = record idle {
  tasks = λ a.
      if a == 20
      then some (in_queue 20 30)
      else if a == 30
      then some (in_queue 30 0)
      else if a == 10
      then some (new_task 10)
      else none;
  tq = some tq;
}

abbrev pub calls : PostCalls
calls = record { mutex_lock = ngx_ok; cond_signal = ngx_ok; mutex_unlock = ngx_ok }

pub live_10 : Live busy.tasks 10 (new_task 10)
live_10 = record { ne_null = omega arith; holds = refl }

pub live_20 : Live busy.tasks 20 (in_queue 20 30)
live_20 = record { ne_null = omega arith; holds = refl }

pub live_30 : Live busy.tasks 30 (in_queue 30 0)
live_30 = record { ne_null = omega arith; holds = refl }

pub live_co : Live idle.coros 5 co
live_co = record { ne_null = omega arith; holds = refl }

pub busy-IsQueue : IsQueue busy.tasks tq.queue (20 ∷ 30 ∷ [])
busy-IsQueue = record {
  chain = (in_queue 20 30, refl, live_20, (in_queue 30 0, refl, live_30, refl));
  last = refl;
  distinct = (refl, (refl, tt));
}

pub busy-IsTaskQueue : IsTaskQueue busy tq (20 ∷ 30 ∷ [])
busy-IsTaskQueue = record { present = refl; unlocked = refl; queue = busy-IsQueue }

pub busy-Owns : Owns busy 20 ctx
busy-Owns = record {
  ctx = record { ne_null = omega arith; holds = refl };
  task = λ e. cc;
  req = λ h e. cc;
  rsp = λ h e. cc;
  apart = λ h. omega arith;
}

-- ngx_http_lua_get_req for the one Lua thread.
abbrev pub request_of : Ptr → Ptr
request_of l = if l == 7 then 3 else 0

abbrev open_tq : FfiTaskQueue
open_tq = record zero_tq { max_queue = pos 3 }

abbrev pub open_queue : Store
open_queue = record idle { tq = some open_tq }
