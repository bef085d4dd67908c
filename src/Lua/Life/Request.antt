-- ===== src/Lua/Life/Request.antt =====
-- What a request and the unload of resty_ffi.lua do to the task queue of a runtime that is not
-- finished.
use lua_resty_ffi.Common.{
  ◌≡◌, ◌≢◌, refl, ap, ◌∙◌, true, false, Option, none, some, List, [], ◌∷◌, ◌++◌, arith,
  if◌then◌else◌, ℕ,
}
use lua_resty_ffi.Nginx.{Rc, failed}
use lua_resty_ffi.Store.{Ptr, null, CoCtx, LuaCtx, FfiTaskQueue, Store}
use lua_resty_ffi.Store.Commands.{ok, write}
use lua_resty_ffi.Queue.Chain.{Tasks, has, not-has_of_none, ne_of_has}
use lua_resty_ffi.Queue.Laws.{ctx_at}
use lua_resty_ffi.Task.Free.{without}
use lua_resty_ffi.TaskQueue.{PostCalls, task_post}
use lua_resty_ffi.TaskQueue.Post.{IsTaskQueue, accepts}
use lua_resty_ffi.TaskQueue.TaskPost.{
  new_task, created, readied, task_post-Posted, task_post_refused,
}
use lua_resty_ffi.Lua.{Runtime, yields, queue_full, request_ptr, request_len, runtime_post}
use lua_resty_ffi.Lua.Life.{Given}

-- The memory with a copy of the request.
unfoldable pub with_request : Ptr → Option (List ℕ) → Store → Store
with_request buf none s = s
with_request buf (some bytes) s = record s { bufs = write s.bufs buf (some (bytes ++ 0 ∷ [])) }

pub with_request-tq :
    (buf : Ptr) (req : Option (List ℕ)) (s : Store) → (with_request buf req s).tq ≡ s.tq
unfolding with_request
with_request-tq buf none s = refl
with_request-tq buf (some bytes) s = refl

pub with_request-tasks :
    (buf : Ptr) (req : Option (List ℕ)) (s : Store) → (with_request buf req s).tasks ≡ s.tasks
unfolding with_request
with_request-tasks buf none s = refl
with_request-tasks buf (some bytes) s = refl

pub with_request-ctxs :
    (buf : Ptr) (req : Option (List ℕ)) (s : Store) → (with_request buf req s).ctxs ≡ s.ctxs
unfolding with_request
with_request-ctxs buf none s = refl
with_request-ctxs buf (some bytes) s = refl

pub with_request-buf :
    (buf : Ptr) (req : Option (List ℕ)) (s : Store)
    → request_ptr buf req ≢ null
    → (with_request buf req s).bufs (request_ptr buf req) ≢ none
unfolding with_request write
with_request-buf buf none s ne = absurd (ne refl)
with_request-buf buf (some bytes) s ne = ground arith

pub with_request-Given :
    {r fresh buf : Ptr} {ctx : LuaCtx} {co : CoCtx} (req : Option (List ℕ)) (s : Store)
    → Given s r fresh buf ctx co
    → Given (with_request buf req s) r fresh buf ctx co
unfolding with_request
with_request-Given none s g = g
with_request-Given (some bytes) s g = record {
  ctx_of = g.ctx_of;
  co_of = g.co_of;
  fresh_ne = g.fresh_ne;
  unused = g.unused;
  unused_ctx = g.unused_ctx;
  buf_ne = g.buf_ne;
}

pub runtime_post-task_post :
    (calls : PostCalls) (r fresh buf : Ptr) (req : Option (List ℕ)) (self : Runtime) (s : Store)
    {rc : Rc} {s' : Store}
    → buf ≢ null
    → self.finished ≡ false
    → task_post calls r fresh (request_ptr buf req) (request_len req) (with_request buf req s)
      ≡ ok rc s'
    → runtime_post calls r fresh buf req self s ≡ ok (if failed rc then queue_full else yields) s'
unfolding runtime_post with_request
runtime_post-task_post calls r fresh buf none self s ne go e = ground arith
runtime_post-task_post calls r fresh buf (some bytes) self s ne go e = ground arith

module _ (calls : PostCalls) (r fresh buf : Ptr) (req : Option (List ℕ)) (self : Runtime)
    {ctx : LuaCtx} {co : CoCtx} {tp : FfiTaskQueue} (xs : List Ptr) (s : Store)
    (g : Given s r fresh buf ctx co) (go : self.finished ≡ false) (is : IsTaskQueue s tp xs)
    (u : failed calls.mutex_unlock ≡ false) where
  abbrev mid : Store
  mid = with_request buf req s

  mid-Given : Given mid r fresh buf ctx co
  mid-Given = with_request-Given req s g

  mid-IsTaskQueue : IsTaskQueue mid tp xs
  mid-IsTaskQueue = record {
    present = with_request-tq buf req s ∙ is.present;
    unlocked = is.unlocked;
    queue = rw (with_request-tasks buf req s) is.queue;
  }

  outside : (a : Ptr) → has a xs ≡ true → a ≢ fresh
  outside a i =
      ne_of_has a fresh xs i
        (not-has_of_none s.tasks fresh xs tp.queue.first g.unused is.queue.chain)

  readied-ctxs :
      (a : Ptr)
      → has a xs ≡ true
      → ctx_at (readied r fresh (request_ptr buf req) (request_len req) ctx co mid).tasks a
        ≡ ctx_at s.tasks a
  unfolding readied created write
  readied-ctxs a i = ground (arith, outside a i, with_request-tasks buf req s)

  readied-ctx :
      ctx_at (readied r fresh (request_ptr buf req) (request_len req) ctx co mid).tasks fresh
      ≡ some fresh
  unfolding readied created write
  readied-ctx = ground arith

  pub runtime_post_queued :
      accepts calls (new_task fresh) tp ≡ true
      → (s' : Store) × (tp' : FfiTaskQueue) × (runtime_post calls r fresh buf req self s
          ≡ ok yields s')
        × IsTaskQueue s' tp' (xs ++ fresh ∷ [])
        × (ctx_at s'.tasks fresh ≡ some fresh)
        × ((a : Ptr) → has a xs ≡ true → ctx_at s'.tasks a ≡ ctx_at s.tasks a)
  runtime_post_queued e =
      let (s', tp', posts, p) =
        task_post-Posted calls r fresh (request_ptr buf req) (request_len req) xs mid
          mid-Given.ctx_of mid-Given.co_of g.fresh_ne mid-Given.unused mid-IsTaskQueue u e in
      (
        s',
        tp',
        runtime_post-task_post calls r fresh buf req self s g.buf_ne go posts,
        p.tq,
        p.ctxs fresh ∙ readied-ctx,
        λ a i. p.ctxs a ∙ readied-ctxs a i,
      )

  pub runtime_post_refused :
      accepts calls (new_task fresh) tp ≡ false
      → (s' : Store) × (tp' : FfiTaskQueue) × (runtime_post calls r fresh buf req self s
          ≡ ok queue_full s')
        × IsTaskQueue s' tp' xs
        × ((a : Ptr) → s'.tasks a ≡ s.tasks a)
        × ((a : Ptr) → s'.ctxs a ≡ mid.ctxs a)
        × (s'.bufs ≡ without (request_ptr buf req) mid.bufs)
        × ((p : Ptr) → ctx.cur_co_ctx ≢ p → s'.coros p ≡ mid.coros p)
        × (s'.done ≡ mid.done)
  runtime_post_refused e =
      let (s', tp', posts, is', _, same, ctxs, bufs, coros, done, _) =
        task_post_refused calls r fresh (request_ptr buf req) (request_len req) xs mid
          mid-Given.ctx_of mid-Given.co_of g.fresh_ne mid-Given.unused mid-IsTaskQueue u e
          (with_request-buf buf req s) mid-Given.unused_ctx in
      (
        s',
        tp',
        runtime_post-task_post calls r fresh buf req self s g.buf_ne go posts,
        is',
        λ a. same a ∙ ap (λ (m : Tasks). m a) (with_request-tasks buf req s),
        ctxs,
        bufs,
        coros,
        done,
      )
