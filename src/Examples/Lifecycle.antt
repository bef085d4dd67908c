-- ===== src/Examples/Lifecycle.antt =====
-- The theorems on a task's life at the memories of Data: the task at 20 waits for the coroutine at 5,
-- whose Lua thread 7 runs for the request 3.
use lua_resty_ffi.Common.{◌≡◌, ◌≢◌, refl, false, some, [], ◌∷◌, arith, ◌==◌, if◌then◌else◌}
use lua_resty_ffi.Common.Int.{pos}
use lua_resty_ffi.Nginx.{ngx_ok, ngx_again, ngx_done}
use lua_resty_ffi.Store.{Ptr, null, Store, next_of, string, notify}
use lua_resty_ffi.Store.Commands.{ok, ◌>>◌, write}
use lua_resty_ffi.Queue.Chain.{IsQueue, has}
use lua_resty_ffi.Task.Free.{freed}
use lua_resty_ffi.Queue.Laws.{ctx_at, event_at}
use lua_resty_ffi.Response.{respond}
use lua_resty_ffi.Response.Inject.{answered, respond-append}
use lua_resty_ffi.Event.{event_handler, cleanup}
use lua_resty_ffi.Event.Results.{Payload, sized}
use lua_resty_ffi.Event.Deliver.{Wanted, Delivered, event_handler-delivers}
use lua_resty_ffi.Event.Discard.{cleanup-event_handler}
use lua_resty_ffi.Examples.Data.{in_queue, busy, ctx, co, lua_ctx, live_co, busy-Owns}

-- ngx_http_lua_get_req for the one Lua thread, and where its request is gone.
abbrev request_of : Ptr → Ptr
request_of l = if l == 7 then 3 else 0

abbrev no_request_of : Ptr → Ptr
no_request_of l = 0

busy-Wanted : Wanted request_of busy ctx co lua_ctx
busy-Wanted = record {
  not_aborted = refl;
  co = live_co;
  request = λ e. omega (arith, e);
  module_ctx = refl;
}

busy-Payload : Payload ctx busy.bufs (string (111 ∷ []))
busy-Payload =
    sized (111 ∷ []) 0 (record { ne_null = omega arith; holds = refl }) refl (omega arith)

event_handler-delivers_example :
    (s' : Store) × (event_handler request_of ngx_again ngx_done 20 busy ≡ ok tt s')
    × Delivered 20 ctx 3 co lua_ctx (string (111 ∷ [])) ngx_again busy s'
event_handler-delivers_example =
    event_handler-delivers request_of ngx_again ngx_done busy busy-Owns busy-Wanted busy-Payload

cleanup-event_handler_example :
    (cleanup 5 >> event_handler request_of ngx_ok ngx_ok 20) busy ≡ ok tt (freed 20 ctx busy)
cleanup-event_handler_example =
    cleanup-event_handler busy live_co refl busy-Owns request_of ngx_ok ngx_ok

-- The task at 20 was answered, and the one at 10 is.
abbrev done_20 : Store
done_20 = record busy {
  tasks = write busy.tasks 20 (some (in_queue 20 null));
  done = record { first = 20; last = next_of 20 };
}

respond-append_example :
    (s' : Store) × (respond 10 (pos 0) 200 (pos 1) done_20 ≡ ok tt s')
    × IsQueue s'.tasks s'.done (20 ∷ 10 ∷ [])
    × (s'.ctxs 10 ≡ some (answered ctx (pos 0) 200 (pos 1)))
    × ((a : Ptr) → a ≢ 10 → s'.ctxs a ≡ done_20.ctxs a)
    × ((a : Ptr) → a ≢ 10 → has a (20 ∷ []) ≡ false → s'.tasks a ≡ done_20.tasks a)
    × ((a : Ptr) → ctx_at s'.tasks a ≡ ctx_at done_20.tasks a)
    × ((a : Ptr) → event_at s'.tasks a ≡ event_at done_20.tasks a)
    × (s'
        ≡ record done_20 { tasks = s'.tasks; ctxs = s'.ctxs; done = s'.done; calls = notify ∷ [] })
unfolding write
respond-append_example =
    respond-append 10 (pos 0) 200 (pos 1) done_20 (record { ne_null = omega arith; holds = refl })
      (record { ne_null = omega arith; holds = refl }) (20 ∷ [])
      (record {
        chain = (in_queue 20 null, refl, record { ne_null = omega arith; holds = refl }, refl);
        last = refl;
        distinct = (refl, tt);
      })
      refl
