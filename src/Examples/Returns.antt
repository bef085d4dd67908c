-- ===== src/Examples/Returns.antt =====
-- A request of the coroutine at 5 that goes all the way, and the end of a queue of two requests.
use lua_resty_ffi.Common.{◌≡◌, refl, true, false, none, some, [], ◌∷◌, arith}
use lua_resty_ffi.Common.Int.{pos}
use lua_resty_ffi.Nginx.{ngx_ok, ngx_done}
use lua_resty_ffi.Store.{Ptr, Store, string}
use lua_resty_ffi.Store.Commands.{ok}
use lua_resty_ffi.Queue.Chain.{IsQueue, has}
use lua_resty_ffi.Task.{get_req}
use lua_resty_ffi.TaskQueue.{returned, empty_queue, task_post, task_finish}
use lua_resty_ffi.TaskQueue.Poll.{enters, poll}
use lua_resty_ffi.TaskQueue.Drain.{drain}
use lua_resty_ffi.TaskQueue.Finish.{task_finish-drain}
use lua_resty_ffi.Response.{respond}
use lua_resty_ffi.Event.{run_event}
use lua_resty_ffi.Event.Results.{sized}
use lua_resty_ffi.RoundTrip.{Answer, WellAnswered, Returned}
use lua_resty_ffi.RoundTrip.Whole.{round_trip}
use lua_resty_ffi.Examples.Data.{
  request_of, open_queue, idle, busy, co, lua_ctx, calls, in_queue, live_20, live_30, live_co,
  busy-IsTaskQueue,
}

abbrev answer : Answer
answer = record { rc = pos 0; rsp = 200; rsp_len = pos 1; bufs = idle.bufs }

answer-WellAnswered : WellAnswered 5 100 (pos 2) answer (string (111 ∷ []))
answer-WellAnswered = record {
  kept = λ h e. cc;
  rsp = λ h e. cc;
  apart = λ h. omega arith;
  payload = sized (111 ∷ []) 0 (record { ne_null = omega arith; holds = refl }) refl (omega arith);
}

round_trip_example :
    (s1 : Store) × (task_post calls 3 40 100 (pos 2) open_queue ≡ ok ngx_ok s1)
    × (s2 : Store) × (poll (enters ngx_ok) ngx_ok s1 ≡ ok (returned 40) s2)
    × (get_req 40 true s2 ≡ ok (100, some (pos 2)) s2)
    × (s2.bufs ≡ idle.bufs)
    × (s3 : Store) × (respond 40 (pos 0) 200 (pos 1) (record s2 { bufs = idle.bufs }) ≡ ok tt s3)
    × IsQueue s3.tasks s3.done (40 ∷ [])
    × (s4 : Store) × (run_event request_of ngx_done ngx_ok 40 (record s3 { done = empty_queue })
        ≡ ok tt s4)
    × Returned 40 100 answer 3 co lua_ctx (string (111 ∷ [])) ngx_done [] open_queue s4
round_trip_example =
    round_trip calls request_of ngx_done ngx_ok 40 100 (pos 2) answer [] open_queue (omega arith)
      refl (omega arith) refl live_co
      (record {
        present = refl;
        unlocked = refl;
        queue = record { chain = refl; last = refl; distinct = tt };
      })
      refl refl (record { chain = refl; last = refl; distinct = tt }) answer-WellAnswered

task_finish-drain_example :
    (s' : Store) × (task_finish calls 50 busy ≡ ok ngx_ok s')
    × (s'' : Store) × (drain 3 s' ≡ ok (20 ∷ 30 ∷ [], true) s'')
    × (s''.tq ≡ none)
    × ((a : Ptr) → has a (20 ∷ 30 ∷ []) ≡ false → s''.tasks a ≡ busy.tasks a)
task_finish-drain_example =
    task_finish-drain calls 50 (20 ∷ 30 ∷ []) busy (omega arith) refl busy-IsTaskQueue
      (record { mutex_lock = refl; cond_signal = refl; mutex_unlock = refl })
      (in_queue 20 30, live_20, omega arith, (in_queue 30 0, live_30, omega arith, tt))
