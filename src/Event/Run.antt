-- ===== src/Event/Run.antt =====
-- What nginx calls for a task that it has taken.
use lua_resty_ffi.Common.{◌≡◌, ◌≢◌, some, arith}
use lua_resty_ffi.Nginx.{Rc}
use lua_resty_ffi.Store.{Ptr, null, ffi_event_handler, Store}
use lua_resty_ffi.Store.Commands.{load_task, deref}
use lua_resty_ffi.Queue.Laws.{event_at, Live_of_event}
use lua_resty_ffi.Event.{event_handler, run_event}

-- The event of a task that ngx_http_lua_ffi_create_task made runs the event handler on its context.
pub run_event-handler :
    (get_req : Ptr → Ptr) (run_rc posted_rc : Rc) {a c : Ptr} (s : Store)
    → a ≢ null
    → event_at s.tasks a ≡ some (ffi_event_handler, c)
    → run_event get_req run_rc posted_rc a s ≡ event_handler get_req run_rc posted_rc c s
unfolding run_event load_task deref
run_event-handler get_req run_rc posted_rc s ne e =
    let (t, l, handler, its_ctx) = Live_of_event {h = s.tasks} ne e in
    ground (arith, l.ne_null, l.holds, handler, its_ctx)
