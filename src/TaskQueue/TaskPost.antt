-- ===== src/TaskQueue/TaskPost.antt =====
-- ngx_http_lua_ffi_task_post of ngx_http_lua_ffi.c: what a request leaves behind when it is queued
-- and when it is turned away.
use lua_resty_ffi.Common.{
  ℕ, Option, ◌≡◌, ◌≢◌, refl, sym, ap, ◌∙◌, Bool, true, false, some, none, List, [], ◌∷◌, ◌++◌,
  arith, if◌then◌else◌,
}
use lua_resty_ffi.Common.Int.{ℤ, pos, ◌+ℤ◌}
use lua_resty_ffi.Nginx.{ngx_ok, ngx_error, failed}
use lua_resty_ffi.Store.{
  Ptr, null, Task, FfiTaskCtx, CoCtx, LuaCtx, FfiTaskQueue, Store, ffi_event_handler, ffi_cleanup,
}
use lua_resty_ffi.Store.Commands.{
  ok, fault, write, deref, Live, load_task, load_ctx, load_co, set_task, set_ctx, set_co,
}
use lua_resty_ffi.Queue.Chain.{has, Chain-frame, ne_of_has, not-has_of_none}
use lua_resty_ffi.Queue.Laws.{event_at}
use lua_resty_ffi.Event.{cleanup}
use lua_resty_ffi.Task.{zero_task, zero_ctx, create_task, task_free, get_req}
use lua_resty_ffi.Task.Free.{freed, without, task_free-freed}
use lua_resty_ffi.TaskQueue.{PostCalls, post, task_post}
use lua_resty_ffi.TaskQueue.Post.{IsTaskQueue, Posted, accepts, post_outcome}

-- A new task, ready for a post, and its context.
abbrev pub new_task : Ptr → Task
new_task p = record zero_task { ctx = p; handler = ffi_event_handler; event_data = p }

abbrev pub new_ctx : (cur_co_ctx req : Ptr) → (req_len : ℤ) → FfiTaskCtx
new_ctx cur_co_ctx req req_len = record zero_ctx {
  wait_co_ctx = cur_co_ctx;
  req = req;
  req_len = req_len;
}

-- The coroutine, tied to the context at `p`.
abbrev pub tied : CoCtx → Ptr → CoCtx
tied co p = record co { cleanup = ffi_cleanup; cleanup_data = p }

module _ (r fresh req : Ptr) (req_len : ℤ) (ctx : LuaCtx) (co : CoCtx) (s : Store) where
  -- The memory after ngx_http_lua_ffi_create_task.
  unfoldable pub created : Store
  created = record s {
    tasks =
        write (write s.tasks fresh (some (record zero_task { ctx = fresh }))) fresh
          (some (new_task fresh));
    ctxs =
        write (write s.ctxs fresh (some zero_ctx)) fresh
          (some (record zero_ctx { wait_co_ctx = ctx.cur_co_ctx }));
    coros = write s.coros ctx.cur_co_ctx (some (tied co fresh));
  }

  -- The memory that the post sees.
  unfoldable pub readied : Store
  unfolding created
  readied = record created {
    ctxs = write created.ctxs fresh (some (new_ctx ctx.cur_co_ctx req req_len));
  }

  module _ (here : s.lua_ctxs r ≡ some ctx) (l : Live s.coros ctx.cur_co_ctx co)
      (ne : fresh ≢ null) where
    create_task_lem : create_task r fresh s ≡ ok fresh created
    unfolding create_task created load_task set_task set_ctx set_co deref write
    create_task_lem = ground (arith, l.ne_null, l.holds)

    task_post-ok :
        (calls : PostCalls) (s' : Store)
        → post calls fresh readied ≡ ok ngx_ok s'
        → task_post calls r fresh req req_len s ≡ ok ngx_ok s'
    unfolding task_post readied load_task set_ctx deref write
    task_post-ok calls s' e = ground (arith, create_task_lem, e)

    task_post-error :
        (calls : PostCalls) (s' s'' : Store)
        → post calls fresh readied ≡ ok ngx_error s'
        → task_free fresh s' ≡ ok tt s''
        → task_post calls r fresh req req_len s ≡ ok ngx_error s''
    unfolding task_post readied load_task set_ctx deref write
    task_post-error calls s' s'' e f = ground (arith, create_task_lem, e, f)

module _ (calls : PostCalls) (r fresh req : Ptr) (req_len : ℤ) {ctx : LuaCtx} {co : CoCtx}
    {tp : FfiTaskQueue} (xs : List Ptr) (s : Store) (here : s.lua_ctxs r ≡ some ctx)
    (l : Live s.coros ctx.cur_co_ctx co) (ne : fresh ≢ null) (unused : s.tasks fresh ≡ none)
    (is : IsTaskQueue s tp xs) (u : failed calls.mutex_unlock ≡ false) where
  abbrev seen : Store
  seen = readied r fresh req req_len ctx co s

  readied-outside : (a : Ptr) → a ≢ fresh → seen.tasks a ≡ s.tasks a
  unfolding readied created write
  readied-outside a h = ground arith

  out : has fresh xs ≡ false
  out = not-has_of_none s.tasks fresh xs tp.queue.first unused is.queue.chain

  readied-IsTaskQueue : IsTaskQueue seen tp xs
  unfolding readied created
  readied-IsTaskQueue = record {
    present = is.present;
    unlocked = is.unlocked;
    queue = record {
      chain =
          Chain-frame xs tp.queue.first (λ a i. readied-outside a (ne_of_has a fresh xs i out))
            is.queue.chain;
      last = is.queue.last;
      distinct = is.queue.distinct;
    };
  }

  readied-Live : Live seen.tasks fresh (new_task fresh)
  unfolding readied created write
  readied-Live = record { ne_null = ne; holds = ground arith }

  -- The post of the new task, by its answer.
  posted :
      (b : Bool)
      → accepts calls (new_task fresh) tp ≡ b
      → (s' : Store) × (tp' : FfiTaskQueue) × (post calls fresh seen
          ≡ ok (if b then ngx_ok else ngx_error) s')
        × Posted seen tp xs fresh b s' tp'
  posted b e = rw (← e) (post_outcome calls fresh xs seen readied-IsTaskQueue readied-Live out u)

  module _ {b : Bool} {s' : Store} {tp' : FfiTaskQueue} (p : Posted seen tp xs fresh b s' tp') where
    posted-ctx : s'.ctxs fresh ≡ some (new_ctx ctx.cur_co_ctx req req_len)
    unfolding readied created write
    posted-ctx = ap (λ (x : Store). x.ctxs fresh) p.rest ∙ (ground arith)

    posted-coro : s'.coros ctx.cur_co_ctx ≡ some (tied co fresh)
    unfolding readied created write
    posted-coro = ap (λ (x : Store). x.coros ctx.cur_co_ctx) p.rest ∙ (ground arith)

    posted-bufs : s'.bufs ≡ s.bufs
    unfolding readied created
    posted-bufs = ap (λ (x : Store). x.bufs) p.rest

    posted-other-ctxs : (a : Ptr) → a ≢ fresh → s'.ctxs a ≡ s.ctxs a
    unfolding readied created write
    posted-other-ctxs a h = ap (λ (x : Store). x.ctxs a) p.rest ∙ (ground arith)

    posted-other-coros : (v : Ptr) → ctx.cur_co_ctx ≢ v → s'.coros v ≡ s.coros v
    unfolding readied created write
    posted-other-coros v h = ap (λ (x : Store). x.coros v) p.rest ∙ (ground arith)

    posted-done : s'.done ≡ s.done
    unfolding readied created
    posted-done = ap (λ (x : Store). x.done) p.rest

    posted-event : event_at s'.tasks fresh ≡ some (ffi_event_handler, fresh)
    posted-event = ground (arith, p.events fresh, readied-Live.holds)

    posted-get_req : get_req fresh true s' ≡ ok (req, some req_len) s'
    unfolding get_req load_task load_ctx deref
    posted-get_req = ground (arith, p.ctxs fresh, readied-Live.holds, posted-ctx)

    posted-task : s'.tasks fresh ≢ none
    posted-task gone = ground (arith, p.ctxs fresh, readied-Live.holds)

  module _ {s' : Store} {tp' : FfiTaskQueue} (p : Posted seen tp xs fresh false s' tp') where
    freed-tasks :
        (a : Ptr) → (freed fresh (new_ctx ctx.cur_co_ctx req req_len) s').tasks a ≡ s.tasks a
    unfolding freed write
    freed-tasks a = ground (arith, unused, p.outside a, readied-outside a)

    freed-ctxs :
        s.ctxs fresh ≡ none
        → (a : Ptr) → (freed fresh (new_ctx ctx.cur_co_ctx req req_len) s').ctxs a ≡ s.ctxs a
    unfolding freed write
    freed-ctxs unused_ctx a = ground (arith, posted-other-ctxs p a)

    freed-IsTaskQueue : IsTaskQueue (freed fresh (new_ctx ctx.cur_co_ctx req req_len) s') tp' xs
    unfolding freed write
    freed-IsTaskQueue = record {
      present = p.tq.present;
      unlocked = p.tq.unlocked;
      queue = record {
        chain =
            Chain-frame xs tp'.queue.first (λ a i. ground (arith, ne_of_has a fresh xs i out))
              p.tq.queue.chain;
        last = p.tq.queue.last;
        distinct = p.tq.queue.distinct;
      };
    }

    freed-cleanup :
        cleanup ctx.cur_co_ctx (freed fresh (new_ctx ctx.cur_co_ctx req req_len) s') ≡ fault
    unfolding cleanup load_co set_ctx load_ctx deref write freed
    freed-cleanup = ground (arith, l.ne_null, posted-coro p)

  pub task_post-Posted :
      accepts calls (new_task fresh) tp ≡ true
      → (s' : Store) × (tp' : FfiTaskQueue) × (task_post calls r fresh req req_len s ≡ ok ngx_ok s')
        × Posted seen tp xs fresh true s' tp'
  task_post-Posted e =
      let (s', tp', posts, p) = posted true e in
      (s', tp', task_post-ok r fresh req req_len ctx co s here l ne calls s' posts, p)

  -- A request of a live coroutine that is accepted, the new block being one that is not in use:
  -- where the mutex can be locked and given back, there is room and the signal is sent, the task
  -- becomes the last of the queue, which counts one more, its context names the coroutine, the
  -- request and its length, the coroutine has the cleanup handler for that context, the task's
  -- event has the event handler and that context, and a runtime that gets the task reads back the request and its length.
  pub task_post_queued :
      accepts calls (new_task fresh) tp ≡ true
      → (s' : Store) × (tp' : FfiTaskQueue) × (task_post calls r fresh req req_len s ≡ ok ngx_ok s')
        × IsTaskQueue s' tp' (xs ++ fresh ∷ [])
        × (tp'.waiting ≡ tp.waiting +ℤ pos 1)
        × (s'.ctxs fresh ≡ some (new_ctx ctx.cur_co_ctx req req_len))
        × (s'.coros ctx.cur_co_ctx ≡ some (tied co fresh))
        × (event_at s'.tasks fresh ≡ some (ffi_event_handler, fresh))
        × (get_req fresh true s' ≡ ok (req, some req_len) s')
  task_post_queued e =
      let (s', tp', posts, p) = task_post-Posted e in
      (
        s',
        tp',
        posts,
        p.tq,
        p.waiting,
        posted-ctx p,
        posted-coro p,
        posted-event p,
        posted-get_req p,
      )

  -- A request of a live coroutine that is turned away, because the mutex cannot be locked, there is
  -- no room or the signal fails, the new block being one that is not in use and the unlock
  -- succeeding: the call answers NGX_ERROR, the queue, its count and every task and context are as
  -- before, the request's buffer is given back, and no other coroutine and no answered task changes.
  -- The coroutine keeps the cleanup handler for the context that was freed: to tear it down is a
  -- fault.
  pub task_post_refused :
      accepts calls (new_task fresh) tp ≡ false
      → (req ≢ null → s.bufs req ≢ none)
      → s.ctxs fresh ≡ none
      → (s' : Store) × (tp' : FfiTaskQueue) × (task_post calls r fresh req req_len s
          ≡ ok ngx_error s')
        × IsTaskQueue s' tp' xs
        × (tp'.waiting ≡ tp.waiting)
        × ((a : Ptr) → s'.tasks a ≡ s.tasks a)
        × ((a : Ptr) → s'.ctxs a ≡ s.ctxs a)
        × (s'.bufs ≡ without req s.bufs)
        × ((p : Ptr) → ctx.cur_co_ctx ≢ p → s'.coros p ≡ s.coros p)
        × (s'.done ≡ s.done)
        × (cleanup ctx.cur_co_ctx s' ≡ fault)
  unfolding freed
  task_post_refused e buf unused_ctx =
      let (s', tp', posts, p) = posted false e in
      let gone = task_free-freed s' (record {
        ctx = record { ne_null = ne; holds = posted-ctx p };
        task = posted-task p;
        req = λ h g. buf h (ap (λ (m : Ptr → Option (List ℕ)). m req) (sym (posted-bufs p)) ∙ g);
        rsp = λ h. absurd (h refl);
        apart = λ h. h;
      }) in
      (
        freed fresh (new_ctx ctx.cur_co_ctx req req_len) s',
        tp',
        task_post-error r fresh req req_len ctx co s here l ne calls s' _ posts gone,
        freed-IsTaskQueue p,
        p.waiting,
        freed-tasks p,
        freed-ctxs p unused_ctx,
        ap (without req) (posted-bufs p),
        posted-other-coros p,
        posted-done p,
        freed-cleanup p,
      )
