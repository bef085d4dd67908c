-- ===== src/Flow/Safety.antt =====
-- What is so in every reachable state of the requests of a runtime.
use lua_resty_ffi.Common.{ℕ, ◌≡◌, ◌∙◌, ap, true, false, Option, some, List, ◌∷◌, arith}
use lua_resty_ffi.Common.Int.{ℤ}
use lua_resty_ffi.Nginx.{Rc}
use lua_resty_ffi.Store.{Ptr, FfiTaskCtx, LuaValue, Store}
use lua_resty_ffi.Store.Commands.{ok, write, deref, load_task, load_ctx}
use lua_resty_ffi.Queue.Chain.{has}
use lua_resty_ffi.Flow.Count.{count-has}
use lua_resty_ffi.Queue.Laws.{Live_of_ctx}
use lua_resty_ffi.Task.{zero_ctx, get_req}
use lua_resty_ffi.Task.Free.{Owns}
use lua_resty_ffi.Response.{respond}
use lua_resty_ffi.Response.Inject.{answered}
use lua_resty_ffi.Event.{run_event, cleanup}
use lua_resty_ffi.Event.Run.{run_event-handler}
use lua_resty_ffi.Event.Results.{Payload}
use lua_resty_ffi.Event.Discard.{torn, cleanup-torn}
use lua_resty_ffi.Lua.{request_ptr}
use lua_resty_ffi.Lua.Life.Request.{with_request}
use lua_resty_ffi.Flow.{Flow, count, Out, Room, Asked, Reach}
use lua_resty_ffi.Flow.Sound.{Sound-Owns}
use lua_resty_ffi.Flow.Invariant.{sound_at}
use lua_resty_ffi.Flow.Gone.{Fate, handler-Fate}
use lua_resty_ffi.Flow.Answers.{respond-returns}
use lua_resty_ffi.Flow.Steps.{Reach-Inv}

module _ {get_req_of : Ptr → Ptr} {s : Store} {max_queue : ℤ} {F : Flow}
    (reach : Reach get_req_of s max_queue F) where
  -- In every reachable state the event of the oldest of the taken tasks runs the event handler on the
  -- context of that task, and the handler returns, whatever the run of the request answers. The context names the coroutine that made the request and holds the
  -- code that the runtime gave, and it is marked as aborted exactly if that coroutine was torn down.
  -- Either somebody waits, and the code and the value that the runtime gave are delivered to that
  -- coroutine, or nobody does, and the memory is given back and nothing else happens.
  pub event_handler_returns :
      (run_rc posted_rc : Rc) {a : Ptr} {rest : List Ptr}
      → F.taken ≡ a ∷ rest
      → (c : FfiTaskCtx) × (o : Owns F.store a c) × (c.wait_co_ctx ≡ (F.about a).by)
        × (c.rc ≡ (F.about a).code)
        × (c.is_abort ≡ (F.about a).torn)
        × (s' : Store) × (run_event get_req_of run_rc posted_rc a F.store ≡ ok tt s')
        × Fate get_req_of run_rc posted_rc a c (F.about a).value F.store s' o
  event_handler_returns run_rc posted_rc {a} e =
      let (c, o) = (Reach-Inv reach).each a (ground (arith, ap (count a) e)) in
      let (s', ran, fate) =
        handler-Fate get_req_of run_rc posted_rc (F.about a).value F.store (Sound-Owns o)
          (λ f. let (co, l, _, _) = o.waits f in (co, l)) o.payload in
      (
        c,
        Sound-Owns o,
        o.by,
        o.code,
        o.abort,
        s',
        run_event-handler get_req_of run_rc posted_rc F.store o.ctx.ne_null o.event ∙ ran,
        fate,
      )

  -- In every reachable state a runtime that holds a request reads it back: get_req returns NULL and 0
  -- for a request without bytes, and otherwise a buffer that holds exactly the bytes that the coroutine
  -- passed, and their number; the context names that coroutine. The runtime can answer it: with a
  -- response that is a new buffer or NULL, and whose bytes stand for a value, by their length or by a
  -- 0 among them, respond returns.
  pub held_returns :
      (a : Ptr) (rc : ℤ) (buf : Ptr) (rsp : Option (List ℕ)) (rsp_len : ℤ) {v : LuaValue}
      → has a F.held ≡ true
      → Room F.store buf rsp
      → Payload
          (answered zero_ctx rc (request_ptr buf rsp) rsp_len)
          (with_request buf rsp F.store).bufs
          v
      → ((c : FfiTaskCtx) × (F.store.ctxs a ≡ some c)
          × (c.wait_co_ctx ≡ (F.about a).by)
          × (get_req a true F.store ≡ ok (c.req, some c.req_len) F.store)
          × Asked c.req c.req_len F.store.bufs (F.about a).req)
        × (s' : Store) × (respond a rc (request_ptr buf rsp) rsp_len (with_request buf rsp F.store)
            ≡ ok tt s')
  unfolding get_req load_task load_ctx deref
  held_returns a rc buf rsp rsp_len held room stands =
      let inv = Reach-Inv reach in
      let (c, o) = inv.each a (omega (arith, count-has a F.held held)) in
      let (t, l, e) = Live_of_ctx {h = F.store.tasks} o.ctx.ne_null o.task in
      let (s', ran, _) = respond-returns inv a rc buf rsp rsp_len held room stands in
      (
        (
          c,
          o.ctx.holds,
          o.by,
          ground (arith, l.ne_null, l.holds, o.ctx.ne_null, o.ctx.holds),
          o.asked,
        ),
        s',
        ran,
      )

  -- In every reachable state a coroutine whose request is on its way can be torn down: the cleanup
  -- handler returns, and only the mark in the context of that request changes.
  pub cleanup_returns :
      (a : Ptr) {c : FfiTaskCtx}
      → Out F a
      → F.store.ctxs a ≡ some c
      → c.is_abort ≡ false
      → cleanup (F.about a).by F.store
        ≡ ok tt
            (record F.store { ctxs = write F.store.ctxs a (some (record c { is_abort = true })) })
  unfolding torn
  cleanup_returns a out here alive =
      let o = sound_at (Reach-Inv reach) a out here in
      let (co, l, _, mine) = o.waits alive in
      rw (← o.by) (cleanup-torn F.store l mine (Sound-Owns o))
