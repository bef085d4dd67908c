-- ===== src/Event/Discard.antt =====
-- The event handler of ngx_http_lua_ffi.c where nobody waits for the response any more.
use mathlib.Core.Path.{fun_ext}
use lua_resty_ffi.Common.{ap, ◌≡◌, refl, ◌∙◌, true, false, Option, some, none, arith}
use lua_resty_ffi.Nginx.{Rc}
use lua_resty_ffi.Store.{Ptr, null, FfiTaskCtx, CoCtx, Store}
use lua_resty_ffi.Store.Commands.{
  ◌>>◌, ok, write, deref, Live, load_ctx, load_co, set_ctx, write-Live,
}
use lua_resty_ffi.Task.{task_free}
use lua_resty_ffi.Task.Free.{Owns, freed, without, task_free-freed}
use lua_resty_ffi.Event.{event_handler, cleanup}

module _ (get_req : Ptr → Ptr) (run_rc posted_rc : Rc) {f : Ptr} {c : FfiTaskCtx} (s : Store)
    (o : Owns s f c) where
  aborted : c.is_abort ≡ true → event_handler get_req run_rc posted_rc f s ≡ task_free f s
  unfolding event_handler load_ctx deref
  aborted a = ground (arith, o.ctx.ne_null, o.ctx.holds)

  no_request :
      {w : CoCtx}
      → c.is_abort ≡ false
      → Live s.coros c.wait_co_ctx w
      → get_req w.co ≡ null
      → event_handler get_req run_rc posted_rc f s ≡ task_free f s
  unfolding event_handler load_ctx load_co deref
  no_request a l e = ground (arith, o.ctx.ne_null, o.ctx.holds, l.ne_null, l.holds)

  no_context :
      {w : CoCtx}
      → c.is_abort ≡ false
      → Live s.coros c.wait_co_ctx w
      → s.lua_ctxs (get_req w.co) ≡ none
      → event_handler get_req run_rc posted_rc f s ≡ task_free f s
  unfolding event_handler load_ctx load_co deref
  no_context a l e = ground (arith, o.ctx.ne_null, o.ctx.holds, l.ne_null, l.holds)

  -- Nobody waits: the coroutine was torn down, or its request or that one's module context is gone.
  pub data Unwanted : Type 0 where
    abort : c.is_abort ≡ true → Unwanted
    request_gone :
        {w : CoCtx}
        → c.is_abort ≡ false
        → Live s.coros c.wait_co_ctx w
        → get_req w.co ≡ null
        → Unwanted
    context_gone :
        {w : CoCtx}
        → c.is_abort ≡ false
        → Live s.coros c.wait_co_ctx w
        → s.lua_ctxs (get_req w.co) ≡ none
        → Unwanted

  -- Where nobody waits for a response, the handler only gives back the task, its context and their
  -- buffers, which the task owns: nothing is pushed on a Lua stack, no coroutine or request is
  -- touched, and nginx is not called. Nobody waits if the coroutine was torn down, or if its
  -- request or that one's module context is gone.
  pub event_handler-freed :
      Unwanted → event_handler get_req run_rc posted_rc f s ≡ ok tt (freed f c s)
  event_handler-freed (abort a) = aborted a ∙ task_free-freed s o
  event_handler-freed (request_gone a l e) = no_request a l e ∙ task_free-freed s o
  event_handler-freed (context_gone a l e) = no_context a l e ∙ task_free-freed s o

module _ {p f : Ptr} {w : CoCtx} {c : FfiTaskCtx} (s : Store) (l : Live s.coros p w)
    (e : w.cleanup_data ≡ f) (o : Owns s f c) where
  -- The memory once the coroutine is torn down.
  unfoldable pub torn : Store
  torn = record s { ctxs = write s.ctxs f (some (record c { is_abort = true })) }

  pub cleanup-torn : cleanup p s ≡ ok tt torn
  unfolding cleanup load_co set_ctx load_ctx deref torn
  cleanup-torn = ground (arith, l.ne_null, l.holds, o.ctx.ne_null, o.ctx.holds)

  torn-Owns : Owns torn f (record c { is_abort = true })
  unfolding torn
  torn-Owns = record {
    ctx = write-Live _ o.ctx;
    task = o.task;
    req = o.req;
    rsp = o.rsp;
    apart = o.apart;
  }

  freed-torn : freed f (record c { is_abort = true }) torn ≡ freed f c s
  unfolding freed torn write
  freed-torn =
      ap
        (λ (m : Ptr → Option FfiTaskCtx). record s {
          tasks = write s.tasks f none;
          ctxs = m;
          bufs = without c.rsp (without c.req s.bufs);
        })
        (fun_ext λ a. ground arith)

  -- A coroutine that is torn down while its task is out: the cleanup handler marks the context, and
  -- when the response comes, the event handler gives back the task, its context and the buffers,
  -- and nothing else has changed.
  pub cleanup-event_handler :
      (get_req : Ptr → Ptr) (run_rc posted_rc : Rc)
      → (cleanup p >> event_handler get_req run_rc posted_rc f) s ≡ ok tt (freed f c s)
  cleanup-event_handler get_req run_rc posted_rc = rw cleanup-torn (
      event_handler-freed get_req run_rc posted_rc torn torn-Owns (abort refl)
      ∙ ap (ok tt) freed-torn)
