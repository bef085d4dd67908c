-- ===== src/Flow/Accepted.antt =====
-- A request that ngx_http_lua_ffi_task_post accepts.
use lua_resty_ffi.Common.{
  ℕ, ◌+◌, ◌≡◌, ◌≢◌, refl, sym, ap, ◌∙◌, Bool-cases, inl, inr, true, false, Option, List, [], ◌∷◌,
  ◌++◌, ◌==◌, ==_refl, arith,
}
use mathlib.Core.List.{append_assoc}
use lua_resty_ffi.Common.Int.{ℤ, pos}
use lua_resty_ffi.Store.{Ptr, Task, FfiTaskCtx, CoCtx, LuaCtx, nil, FfiTaskQueue, Store}
use lua_resty_ffi.Queue.Chain.{has, IsQueue-frame}
use lua_resty_ffi.TaskQueue.Post.{Posted}
use lua_resty_ffi.TaskQueue.TaskPost.{new_ctx, tied, readied}
use lua_resty_ffi.TaskQueue.Queued.{
  seen-task, seen-ctx, seen-coro, seen-bufs, seen-done, seen-outside, seen-ctx_ats, seen-event,
  seen-events, seen-other_ctxs, seen-other_coros,
}
use lua_resty_ffi.Event.Results.{missing}
use lua_resty_ffi.Lua.{request_ptr, request_len}
use lua_resty_ffi.Lua.Life.{Given}
use lua_resty_ffi.Lua.Life.Request.{
  with_request, with_request-tasks, with_request-ctxs, with_request-buf,
}
use lua_resty_ffi.Flow.{Flow, Request, one, in_flight, Out, set, Fresh}
use lua_resty_ffi.Flow.Buffers.{
  with_request-Asked, Sound-with_request, Fresh-Room, with_request-done,
}
use lua_resty_ffi.Flow.Count.{count-append, count-has, has-count}
use lua_resty_ffi.Flow.Sound.{Sound, Sound-frame, some_task}
use lua_resty_ffi.Flow.Serves.{serving}
use lua_resty_ffi.Flow.Invariant.{Inv, not_out}

module _ {F : Flow} (inv : Inv F) (r fresh buf : Ptr) (req : Option (List ℕ)) {ctx : LuaCtx}
    {co : CoCtx} (n : Fresh F r fresh buf ctx co) where
  abbrev w : Ptr
  w = ctx.cur_co_ctx

  abbrev mid : Store
  mid = with_request buf req F.store

  abbrev ptr : Ptr
  ptr = request_ptr buf req

  abbrev len : ℤ
  len = request_len req

  abbrev seen : Store
  seen = readied r fresh ptr len ctx co mid

  abbrev owner' : Ptr → Ptr
  owner' = set F.owner (request_ptr buf req) fresh

  abbrev asked : Request
  asked = record { by = w; torn = false; req = req; code = pos 0; value = nil }

  abbrev after : Store → Flow
  after s = record F {
    store = s;
    queued = F.queued ++ fresh ∷ [];
    accepted = F.accepted ++ fresh ∷ [];
    owner = owner';
    about = set F.about fresh asked;
  }

  -- The new block is no request.
  fresh_out : in_flight F fresh ≡ 0
  fresh_out = not_out inv fresh n.fresh_ne (λ e. some_task F.store.tasks fresh e n.unused)

  pub fresh-Given : Given F.store r fresh buf ctx co
  fresh-Given = record {
    ctx_of = n.ctx_of;
    co_of = n.co_of;
    fresh_ne = n.fresh_ne;
    unused = n.unused;
    unused_ctx = inv.clean fresh fresh_out;
    buf_ne = n.buf_ne;
  }

  grows : (s : Store) (b : Ptr) → in_flight (after s) b ≡ in_flight F b + one (fresh == b)
  grows s b = ground (arith, count-append b F.queued (fresh ∷ []))

  module _ {s : Store} {tp tp' : FfiTaskQueue} (p : Posted seen tp F.queued fresh true s tp') where
    bufs : s.bufs ≡ mid.bufs
    bufs = seen-bufs r fresh ptr len ctx co mid p

    done : s.done ≡ F.store.done
    done = seen-done r fresh ptr len ctx co mid p ∙ with_request-done buf req F.store

    other-tasks : (b : Ptr) → b ≢ fresh → has b F.queued ≡ false → s.tasks b ≡ F.store.tasks b
    other-tasks b ne o =
        seen-outside r fresh ptr len ctx co mid p b ne o
        ∙ ap (λ (m : Ptr → Option Task). m b) (with_request-tasks buf req F.store)

    other-Sound :
        (b : Ptr) {d : FfiTaskCtx}
        → b ≢ fresh
        → (d.is_abort ≡ false → w ≢ d.wait_co_ctx)
        → Sound F.store F.owner (F.about b) b d
        → Sound s owner' (F.about b) b d
    other-Sound b {d} ne runs o =
        let o' : Sound mid owner' (F.about b) b d =
          Sound-with_request buf fresh req (Fresh-Room req n) o in
        Sound-frame (seen-other_ctxs r fresh ptr len ctx co mid p b ne)
          (seen-ctx_ats r fresh ptr len ctx co mid p b ne)
          (seen-events r fresh ptr len ctx co mid p b ne)
          (λ h. (ap (λ (m : Ptr → Option (List ℕ)). m d.req) bufs, refl))
          (λ h. (ap (λ (m : Ptr → Option (List ℕ)). m d.rsp) bufs, refl))
          (λ live. seen-other_coros r fresh ptr len ctx co mid p d.wait_co_ctx (runs live)) o'

    own-Sound : Sound s owner' asked fresh (new_ctx w ptr len)
    own-Sound = record {
      ctx = record { ne_null = n.fresh_ne; holds = seen-ctx r fresh ptr len ctx co mid p };
      task = seen-task r fresh ptr len ctx co mid p;
      event = seen-event r fresh ptr len ctx co mid p;
      asked = rw bufs (with_request-Asked buf req F.store n.buf_ne);
      req = λ h. (rw bufs (with_request-buf buf req F.store h), ground arith);
      rsp = λ h. absurd (h refl);
      apart = λ h. h;
      by = refl;
      abort = refl;
      code = refl;
      payload = missing refl;
      waits = λ live. (
        tied co fresh,
        record { ne_null = n.co_of.ne_null; holds = seen-coro r fresh ptr len ctx co mid p },
        refl,
        refl,
      );
    }

    own-each : (d : FfiTaskCtx) × Sound s owner' asked fresh d
    own-each = (new_ctx w ptr len, own-Sound)

    after-each :
        (b : Ptr)
        → Out (after s) b
        → (d : FfiTaskCtx) × Sound s owner' (set F.about fresh asked b) b d
    after-each b o = elim (Bool-cases (fresh == b)) [
      | inl same ↦ let eq : fresh ≡ b = ground arith in rw (← eq, ==_refl) own-each
      | inr ne ↦
          let out : Out F b = ground (arith, grows s b) in
          let (d, o) = inv.each b out in
          rw ne
            (d, other-Sound b (ground arith) (λ live e. n.runs b d out o.ctx.holds live (sym e)) o)
    ]

    pub posted-Inv : Inv (after s)
    posted-Inv = record {
      serves = serving p.tq;
      done = rw done (
          IsQueue-frame F.done
            (λ b i.
              other-tasks b (λ e. ground (arith, count-has b F.done i, fresh_out))
                (has-count b F.queued (omega (arith, count-has b F.done i, inv.once b))))
            inv.done);
      each = after-each;
      once = λ b. ground (arith, grows s b, inv.once b, fresh_out);
      counted =
          λ b. omega (arith, grows s b, inv.counted b, count-append b F.accepted (fresh ∷ []));
      fifo = rw inv.fifo (append_assoc F.polled F.queued (fresh ∷ []));
      order = inv.order;
      clean = λ b z.
          seen-other_ctxs r fresh ptr len ctx co mid p b (λ e. ground (arith, grows s b))
          ∙ ap (λ (m : Ptr → Option FfiTaskCtx). m b) (with_request-ctxs buf req F.store)
          ∙ inv.clean b (omega (arith, grows s b));
    }
