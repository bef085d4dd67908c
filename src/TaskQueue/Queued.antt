-- ===== src/TaskQueue/Queued.antt =====
-- The memory after ngx_http_lua_ffi_task_post has queued a request, as the rest of its way needs it.
use lua_resty_ffi.Common.{◌≡◌, ◌≢◌, ap, ◌∙◌, true, false, some, List, arith}
use lua_resty_ffi.Common.Int.{ℤ}
use lua_resty_ffi.Store.{Ptr, null, ffi_event_handler, CoCtx, LuaCtx, FfiTaskQueue, Store}
use lua_resty_ffi.Store.Commands.{ok, write, deref, load_task, load_ctx}
use lua_resty_ffi.Queue.Chain.{has, IsQueue, IsQueue-frame, ne_of_has}
use lua_resty_ffi.Queue.Laws.{ctx_at, event_at}
use lua_resty_ffi.Task.{get_req}
use lua_resty_ffi.TaskQueue.Post.{Posted}
use lua_resty_ffi.TaskQueue.TaskPost.{new_ctx, tied, created, readied}

module _ (r fresh req : Ptr) (req_len : ℤ) (ctx : LuaCtx) (co : CoCtx) (s : Store) where
  abbrev seen : Store
  seen = readied r fresh req req_len ctx co s

  abbrev w : Ptr
  w = ctx.cur_co_ctx

  module _ {s1 : Store} {tp tp1 : FfiTaskQueue} {xs : List Ptr}
      (p : Posted seen tp xs fresh true s1 tp1) where
    pub seen-task : ctx_at s1.tasks fresh ≡ some fresh
    unfolding readied created write
    seen-task = p.ctxs fresh ∙ (ground arith)

    pub seen-event : event_at s1.tasks fresh ≡ some (ffi_event_handler, fresh)
    unfolding readied created write
    seen-event = p.events fresh ∙ (ground arith)

    pub seen-ctx : s1.ctxs fresh ≡ some (new_ctx w req req_len)
    unfolding readied created write
    seen-ctx = ap (λ (x : Store). x.ctxs fresh) p.rest ∙ (ground arith)

    pub seen-coro : s1.coros w ≡ some (tied co fresh)
    unfolding readied created write
    seen-coro = ap (λ (x : Store). x.coros w) p.rest ∙ (ground arith)

    pub seen-lua_ctxs : s1.lua_ctxs ≡ s.lua_ctxs
    unfolding readied created
    seen-lua_ctxs = ap (λ (x : Store). x.lua_ctxs) p.rest

    pub seen-stacks : s1.stacks ≡ s.stacks
    unfolding readied created
    seen-stacks = ap (λ (x : Store). x.stacks) p.rest

    pub seen-bufs : s1.bufs ≡ s.bufs
    unfolding readied created
    seen-bufs = ap (λ (x : Store). x.bufs) p.rest

    pub seen-calls : s1.calls ≡ s.calls
    unfolding readied created
    seen-calls = ap (λ (x : Store). x.calls) p.rest

    pub seen-done : s1.done ≡ s.done
    unfolding readied created
    seen-done = ap (λ (x : Store). x.done) p.rest

    pub seen-other_ctxs : (b : Ptr) → b ≢ fresh → s1.ctxs b ≡ s.ctxs b
    unfolding readied created write
    seen-other_ctxs b h = ap (λ (x : Store). x.ctxs b) p.rest ∙ (ground arith)

    pub seen-other_coros : (v : Ptr) → w ≢ v → s1.coros v ≡ s.coros v
    unfolding readied created write
    seen-other_coros v h = ap (λ (x : Store). x.coros v) p.rest ∙ (ground arith)

    pub seen-outside : (b : Ptr) → b ≢ fresh → has b xs ≡ false → s1.tasks b ≡ s.tasks b
    unfolding readied created write
    seen-outside b h o = p.outside b h o ∙ (ground arith)

    pub seen-ctx_ats : (b : Ptr) → b ≢ fresh → ctx_at s1.tasks b ≡ ctx_at s.tasks b
    unfolding readied created write
    seen-ctx_ats b h = p.ctxs b ∙ (ground arith)

    pub seen-events : (b : Ptr) → b ≢ fresh → event_at s1.tasks b ≡ event_at s.tasks b
    unfolding readied created write
    seen-events b h = p.events b ∙ (ground arith)

    pub seen-get_req :
        (tq : FfiTaskQueue)
        → fresh ≢ null
        → get_req fresh true (record s1 { tq = some tq })
          ≡ ok (req, some req_len) (record s1 { tq = some tq })
    unfolding get_req load_task load_ctx deref
    seen-get_req tq ne = ground (arith, seen-task, seen-ctx)

    pub seen-IsQueue :
        (ys : List Ptr)
        → has fresh ys ≡ false
        → ((b : Ptr) → has b ys ≡ true → has b xs ≡ false)
        → IsQueue s.tasks s.done ys
        → IsQueue s1.tasks s1.done ys
    seen-IsQueue ys out apart is =
        rw seen-done
          (IsQueue-frame ys (λ b i. seen-outside b (ne_of_has b fresh ys i out) (apart b i)) is)
