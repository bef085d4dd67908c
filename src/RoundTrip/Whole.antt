-- ===== src/RoundTrip/Whole.antt =====
-- One request from its coroutine to a runtime and back.
use lua_resty_ffi.Common.{
  ◌≡◌, ◌≢◌, refl, sym, ◌∙◌, true, false, some, none, List, [], ◌∷◌, ◌++◌, arith,
}
use lua_resty_ffi.Common.Int.{ℤ}
use lua_resty_ffi.Nginx.{Rc, ngx_ok, failed}
use lua_resty_ffi.Store.{Ptr, null, FfiTaskCtx, CoCtx, LuaCtx, LuaValue, FfiTaskQueue, Queue, Store}
use lua_resty_ffi.Store.Commands.{ok, Live}
use lua_resty_ffi.Queue.Chain.{Tasks, has, has-append, IsQueue, not-has_of_none}
use lua_resty_ffi.Queue.Laws.{Live_of_ctx}
use lua_resty_ffi.Task.{get_req}
use lua_resty_ffi.TaskQueue.{PostCalls, returned, empty_queue, task_post}
use lua_resty_ffi.TaskQueue.Post.{IsTaskQueue, accepts}
use lua_resty_ffi.TaskQueue.Poll.{enters, poll, polled, poll_first}
use lua_resty_ffi.TaskQueue.TaskPost.{new_task, new_ctx, task_post-Posted}
use lua_resty_ffi.Response.{respond}
use lua_resty_ffi.Response.Inject.{respond-append}
use lua_resty_ffi.Event.{run_event}
use lua_resty_ffi.Event.Run.{run_event-handler}
use lua_resty_ffi.RoundTrip.{Answer, WellAnswered, Returned}
use lua_resty_ffi.TaskQueue.Queued.{
  seen-task, seen-event, seen-bufs, seen-ctx, seen-get_req, seen-IsQueue,
}
use lua_resty_ffi.RoundTrip.Answered.{answer-returns}

module _ (calls : PostCalls) (get_req_of : Ptr → Ptr) (run_rc posted_rc : Rc) (fresh req : Ptr)
    (req_len : ℤ) (a : Answer) {v : LuaValue} {ctx : LuaCtx} {co : CoCtx} {tp : FfiTaskQueue}
    (ys : List Ptr) (s : Store) (ne : fresh ≢ null) (unused : s.tasks fresh ≡ none)
    (request : get_req_of co.co ≢ null) (here : s.lua_ctxs (get_req_of co.co) ≡ some ctx)
    (l : Live s.coros ctx.cur_co_ctx co) (is : IsTaskQueue s tp [])
    (room : accepts calls (new_task fresh) tp ≡ true) (u : failed calls.mutex_unlock ≡ false)
    (done : IsQueue s.tasks s.done ys) (well : WellAnswered ctx.cur_co_ctx req req_len a v) where
  abbrev r : Ptr
  r = get_req_of co.co

  out : has fresh ys ≡ false
  out = not-has_of_none s.tasks fresh ys s.done.first unused done.chain

  queued-task : {h : Tasks} {q : Queue} → IsQueue h q (ys ++ fresh ∷ []) → h fresh ≢ none
  queued-task {h} {q} queue gone = ground (
    arith,
    has-append fresh ys (fresh ∷ []),
    not-has_of_none h fresh (ys ++ fresh ∷ []) q.first gone queue.chain,
  )

  -- The way of the request: what each of the calls returns, in turn.
  abbrev Way : Type 0
  Way =
      (s1 : Store) × (task_post calls r fresh req req_len s ≡ ok ngx_ok s1)
      × (s2 : Store) × (poll (enters ngx_ok) ngx_ok s1 ≡ ok (returned fresh) s2)
      × (get_req fresh true s2 ≡ ok (req, some req_len) s2)
      × (s2.bufs ≡ s.bufs)
      × (s3 : Store) × (respond fresh a.rc a.rsp a.rsp_len (record s2 { bufs = a.bufs }) ≡ ok tt s3)
      × IsQueue s3.tasks s3.done (ys ++ fresh ∷ [])
      × (s4 : Store) × (run_event get_req_of run_rc posted_rc fresh
            (record s3 { done = empty_queue })
          ≡ ok tt s4)
      × Returned fresh req a r co ctx v run_rc ys s s4

  -- A request goes all the way. The coroutine is alive and its request has a module context, the
  -- new block is not in use, the task queue is idle with room for a task, and the calls of its
  -- mutex and condition variable succeed. Then the request is accepted, the task is what the next
  -- poll returns, the runtime reads back the request and its length, no buffer has changed on the way, its answer is queued behind
  -- the answers `ys`, and the handler of the task's event, called once nginx has taken the answered
  -- tasks, is the event handler on the context of the task: it puts
  -- exactly the values of the answer on the stack of the coroutine that asked and gives the request
  -- back to nginx, once. Nothing leaks: the task, its context and both buffers are gone, and no
  -- other task has changed but those in `ys`. Between the poll and the answer the runtime may do
  -- what it likes to the buffers, as long as the request and the response are allocated and apart.
  pub round_trip : Way
  round_trip =
      let (s1, tp1, posts, p) =
        task_post-Posted calls r fresh req req_len [] s here l ne unused is u room in
      let (t, live, e) = Live_of_ctx ne (seen-task r fresh req req_len ctx co s p) in
      let own : t.ctx ≢ null = λ (n : t.ctx ≡ null). ne (sym e ∙ n) in
      let (q, polls, is2) = poll_first (enters ngx_ok) ngx_ok s1 p.tq live refl refl own in
      let tq : FfiTaskQueue = polled (enters ngx_ok) tp1 q in
      let s2 : Store = record s1 { tq = some tq } in
      let c : FfiTaskCtx = new_ctx ctx.cur_co_ctx req req_len in
      let live_ctx : Live s1.ctxs t.ctx c =
        rw e (record { ne_null = ne; holds = seen-ctx r fresh req req_len ctx co s p }) in
      let (s3, responds, queue, with_ctx, others, outside, _, kept, rest) =
        respond-append fresh a.rc a.rsp a.rsp_len (record s2 { bufs = a.bufs }) live live_ctx ys
          (seen-IsQueue r fresh req req_len ctx co s p ys out (λ b i. refl) done) out in
      let (s4, handles, back) =
        answer-returns get_req_of run_rc posted_rc fresh req req_len a ctx co ys s ne unused request
          here well p l tq (rw e at with_ctx) (queued-task queue) rest outside in
      (
        s1,
        posts,
        s2,
        polls,
        seen-get_req r fresh req req_len ctx co s p tq ne,
        seen-bufs r fresh req req_len ctx co s p,
        s3,
        responds,
        queue,
        s4,
        run_event-handler get_req_of run_rc posted_rc (record s3 { done = empty_queue }) ne
              (kept fresh ∙ seen-event r fresh req req_len ctx co s p)
            ∙ handles,
        back,
      )
