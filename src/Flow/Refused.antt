-- ===== src/Flow/Refused.antt =====
-- A request that ngx_http_lua_ffi_task_post turns away.
use lua_resty_ffi.Common.{ℕ, ◌≡◌, ◌≢◌, refl, sym, ap, ◌∙◌, false, Option, List}
use lua_resty_ffi.Store.{Ptr, FfiTaskCtx, CoCtx, LuaCtx, FfiTaskQueue, Store}
use lua_resty_ffi.Queue.Chain.{IsQueue-frame}
use lua_resty_ffi.TaskQueue.Post.{IsTaskQueue}
use mathlib.Core.Option
use lua_resty_ffi.Lua.{request_ptr}
use lua_resty_ffi.Task.Free.{without}
use lua_resty_ffi.Lua.Life.Request.{with_request, with_request-ctxs}
use lua_resty_ffi.Flow.{Flow, Fresh}
use lua_resty_ffi.Flow.Buffers.{without-with_request, with_request-coros, with_request-done}
use lua_resty_ffi.Flow.Sound.{Sound, Sound-frame}
use lua_resty_ffi.Flow.Serves.{serving}
use lua_resty_ffi.Flow.Invariant.{Inv}

module _ {F : Flow} (inv : Inv F) (r fresh buf : Ptr) (req : Option (List ℕ)) {ctx : LuaCtx}
    {co : CoCtx} (n : Fresh F r fresh buf ctx co) where
  abbrev w : Ptr
  w = ctx.cur_co_ctx

  abbrev mid : Store
  mid = with_request buf req F.store

  abbrev ptr : Ptr
  ptr = request_ptr buf req

  module _ {s : Store} {tp : FfiTaskQueue} (is : IsTaskQueue s tp F.queued)
      (tasks : (b : Ptr) → s.tasks b ≡ F.store.tasks b) (ctxs : (b : Ptr) → s.ctxs b ≡ mid.ctxs b)
      (bufs_back : s.bufs ≡ without ptr mid.bufs)
      (coros : (v : Ptr) → w ≢ v → s.coros v ≡ mid.coros v) (same_done : s.done ≡ mid.done) where
    kept-Sound :
        (b : Ptr) {d : FfiTaskCtx}
        → (d.is_abort ≡ false → w ≢ d.wait_co_ctx)
        → Sound F.store F.owner (F.about b) b d
        → Sound s F.owner (F.about b) b d
    kept-Sound b {d} runs o =
        Sound-frame
          (ctxs b ∙ ap (λ (m : Ptr → Option FfiTaskCtx). m b) (with_request-ctxs buf req F.store))
          (ap (Option.map (λ t. t.ctx)) (tasks b))
          (ap (Option.map (λ t. (t.handler, t.event_data))) (tasks b))
          (λ h. (
            rw bufs_back (without-with_request buf req F.store d.req n.buf_unused (o.req h).0),
            refl,
          ))
          (λ h. (
            rw bufs_back (without-with_request buf req F.store d.rsp n.buf_unused (o.rsp h).0),
            refl,
          ))
          (λ live.
            coros d.wait_co_ctx (runs live)
            ∙ ap (λ (m : Ptr → Option CoCtx). m d.wait_co_ctx) (with_request-coros buf req F.store))
          o

    pub refused-Inv : Inv (record F { store = s })
    refused-Inv = record {
      serves = serving is;
      done =
          rw (same_done ∙ with_request-done buf req F.store)
            (IsQueue-frame F.done (λ b i. tasks b) inv.done);
      each = λ b out.
          let (d, o) = inv.each b out in
          (d, kept-Sound b (λ live e. n.runs b d out o.ctx.holds live (sym e)) o);
      once = inv.once;
      counted = inv.counted;
      fifo = inv.fifo;
      order = inv.order;
      clean = λ b z.
          ctxs b
          ∙ ap (λ (m : Ptr → Option FfiTaskCtx). m b) (with_request-ctxs buf req F.store)
          ∙ inv.clean b z;
    }
