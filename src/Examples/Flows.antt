-- ===== src/Examples/Flows.antt =====
-- One request of the coroutine at 5 that is accepted, polled, answered and taken.
use lua_resty_ffi.Common.{◌≡◌, refl, Option, true, false, some, none, [], ◌∷◌, arith}
use lua_resty_ffi.Common.Int.{pos, ◌+ℤ◌, ◌-ℤ◌}
use lua_resty_ffi.Nginx.{Rc, ngx_ok, ngx_done}
use lua_resty_ffi.Store.{null, FfiTaskCtx, Store, string}
use lua_resty_ffi.Store.Commands.{
  ok, deref, write, load_task, load_ctx, load_tq, set_task, set_ctx, set_co, set_tq, call,
}
use lua_resty_ffi.Queue.{append, remove}
use lua_resty_ffi.Task.{create_task, get_req}
use lua_resty_ffi.Task.Free.{Owns}
use lua_resty_ffi.TaskQueue.{post, task_post, task_poll, task_finish}
use lua_resty_ffi.TaskQueue.TaskPost.{new_ctx}
use lua_resty_ffi.TaskQueue.Poll.{enters, poll}
use lua_resty_ffi.Response.{respond, notify_inject}
use lua_resty_ffi.Event.{run_event, cleanup}
use lua_resty_ffi.Event.Results.{c_string, missing}
use lua_resty_ffi.Lua.{Reply, Runtime, runtime_post, runtime_unload}
use lua_resty_ffi.Lua.Life.Request.{with_request}
use lua_resty_ffi.Flow.{
  Flow, Asked, Fresh, loaded, Reach, start, later, posts, polls, responds, takes, unloads,
}
use lua_resty_ffi.Flow.Gone.{Fate}
use lua_resty_ffi.Flow.Safety.{event_handler_returns, held_returns, cleanup_returns}
use lua_resty_ffi.Flow.Returns.{PollAnswers, worker_returns, poll_returns}
use lua_resty_ffi.Examples.Data.{request_of, idle, calls, live_co, lua_ctx, co}

first-Fresh : Fresh (loaded idle (pos 3)) 3 40 300 lua_ctx co
first-Fresh = record {
  ctx_of = refl;
  co_of = live_co;
  runs = λ a c out here alive. absurd (omega (arith, out));
  fresh_ne = omega arith;
  unused = refl;
  buf_ne = omega arith;
  buf_unused = refl;
}

asked : (F : Flow) × Reach request_of idle (pos 3) F
unfolding runtime_post task_post create_task post append deref write load_task load_ctx load_tq
    set_task set_ctx set_co set_tq ◌+ℤ◌
asked = (_, later start (posts calls 3 40 300 (some (104 ∷ 105 ∷ [])) first-Fresh refl refl))

polled : (F : Flow) × Reach request_of idle (pos 3) F
unfolding asked poll task_poll remove deref write load_task load_ctx load_tq set_task set_tq ◌-ℤ◌
polled = (_, later asked.1 (polls (enters ngx_ok) ngx_ok refl refl refl))

answered : (F : Flow) × Reach request_of idle (pos 3) F
unfolding asked polled respond notify_inject with_request append deref write load_task load_ctx
    set_task set_ctx call
answered = (
  _,
  later polled.1 (
      responds 40 (pos 0) 400 (some (111 ∷ 107 ∷ [])) (pos 0) refl (omega arith, refl)
        (c_string (111 ∷ 107 ∷ []) [] (record { ne_null = omega arith; holds = refl }) refl
          (omega arith, (omega arith, tt)))
        refl),
)

taken : (F : Flow) × Reach request_of idle (pos 3) F
unfolding asked polled answered
taken = (
  _,
  later answered.1
      (takes (40 ∷ []) refl (_, refl, record { ne_null = omega arith; holds = refl }, refl)),
)

event_handler_returns_example :
    (c : FfiTaskCtx) × (o : Owns taken.0.store 40 c) × (c.wait_co_ctx ≡ 5)
    × (c.rc ≡ pos 0)
    × (c.is_abort ≡ false)
    × (s' : Store) × (run_event request_of ngx_done ngx_ok 40 taken.0.store ≡ ok tt s')
    × Fate request_of ngx_done ngx_ok 40 c (string (111 ∷ 107 ∷ [])) taken.0.store s' o
unfolding taken answered polled asked
event_handler_returns_example = event_handler_returns taken.1 ngx_done ngx_ok refl

held_returns_example :
    ((c : FfiTaskCtx) × (polled.0.store.ctxs 40 ≡ some c)
      × (c.wait_co_ctx ≡ 5)
      × (get_req 40 true polled.0.store ≡ ok (c.req, some c.req_len) polled.0.store)
      × Asked c.req c.req_len polled.0.store.bufs (some (104 ∷ 105 ∷ [])))
    × (s' : Store) × (respond 40 (pos 1) null (pos 0) polled.0.store ≡ ok tt s')
unfolding polled asked write with_request
held_returns_example = held_returns polled.1 40 (pos 1) 400 none (pos 0) refl tt (missing refl)

cleanup_returns_example :
    cleanup 5 asked.0.store
    ≡ ok tt (record asked.0.store {
      ctxs =
          write asked.0.store.ctxs 40 (some (record (new_ctx 5 300 (pos 2)) { is_abort = true }));
    })
unfolding asked write
cleanup_returns_example = cleanup_returns asked.1 40 (omega arith) refl refl

-- The runtime is unloaded while the request waits in the task queue.
unloaded : (F : Flow) × Reach request_of idle (pos 3) F
unfolding asked runtime_unload task_post task_finish create_task post append deref write load_task
    load_ctx load_tq set_task set_ctx set_co set_tq ◌+ℤ◌
unloaded = (_, later asked.1 (unloads calls 41 (omega arith) refl refl refl))

worker_returns_example :
    ((reply : Reply) × (s' : Store) × (runtime_post calls 3 40 300 none
          (loaded idle (pos 3)).runtime
          (loaded idle (pos 3)).store
        ≡ ok reply s'))
    × ((result : Runtime × Option Rc) × (s' : Store) × (runtime_unload calls 40
            (loaded idle (pos 3)).runtime
            (loaded idle (pos 3)).store
          ≡ ok result s'))
worker_returns_example =
    worker_returns {get_req_of = request_of} {s = idle} start calls 3 40 300 none first-Fresh refl

poll_returns_example : PollAnswers (enters ngx_ok) ngx_ok unloaded.0 unloaded.0.queued
unfolding unloaded asked
poll_returns_example = poll_returns unloaded.1 (enters ngx_ok) ngx_ok refl refl (λ e. absurd (cc))
