-- ===== src/Response/Inject.antt =====
-- ngx_http_lua_ffi_respond of ngx_http_lua_ffi.c: a response ends up last among the finished tasks.
use lua_resty_ffi.Common.{◌≡◌, ◌≢◌, refl, ◌∙◌, false, some, List, [], ◌∷◌, ◌++◌, arith}
use lua_resty_ffi.Common.Int.{ℤ}
use lua_resty_ffi.Store.{Ptr, null, Task, FfiTaskCtx, Queue, notify, Store}
use lua_resty_ffi.Store.Commands.{
  ok, write, deref, Live, write-Live, load_task, set_task, set_ctx, call,
}
use lua_resty_ffi.Queue.{append}
use lua_resty_ffi.Queue.Chain.{Tasks, has, last_slot, IsQueue, Chain-frame, ne_of_has}
use lua_resty_ffi.Queue.Laws.{
  linked, appended, append_lem, ctx_at, ctx_at-linked, event_at, event_at-linked, linked_outside,
}
use lua_resty_ffi.Response.{notify_inject, respond}

-- The context with the response in it.
abbrev pub answered : FfiTaskCtx → (rc : ℤ) → (rsp : Ptr) → (rsp_len : ℤ) → FfiTaskCtx
answered c rc rsp rsp_len = record c { rc = rc; rsp = rsp; rsp_len = rsp_len }

module _ (tsk : Ptr) (rc : ℤ) (rsp : Ptr) (rsp_len : ℤ) {t : Task} {c : FfiTaskCtx} (s : Store)
    (l : Live s.tasks tsk t) (lc : Live s.ctxs t.ctx c) where
  -- The memory before the task is linked in.
  ready : Store
  ready = record s {
    tasks = write s.tasks tsk (some (record t { next = null }));
    ctxs = write s.ctxs t.ctx (some (answered c rc rsp rsp_len));
  }

  respond-ready :
      (q : Queue) (g : Tasks)
      → append s.done tsk ready ≡ ok q (record ready { tasks = g })
      → respond tsk rc rsp rsp_len s
        ≡ ok tt (record ready { tasks = g; done = q; calls = s.calls ++ notify ∷ [] })
  unfolding respond notify_inject ready load_task set_task set_ctx call deref write
  respond-ready q g e = ground (arith, l.ne_null, l.holds, lc.ne_null, lc.holds)

  ready_outside : (a : Ptr) → a ≢ tsk → ready.tasks a ≡ s.tasks a
  unfolding ready write
  ready_outside a ne = ground arith

  ctx_at-ready : (a : Ptr) → ctx_at ready.tasks a ≡ ctx_at s.tasks a
  unfolding ready write
  ctx_at-ready a = ground (arith, l.holds)

  event_at-ready : (a : Ptr) → event_at ready.tasks a ≡ event_at s.tasks a
  unfolding ready write
  event_at-ready a = ground (arith, l.holds)

  ready-Live : Live ready.tasks tsk (record t { next = null })
  unfolding ready
  ready-Live = write-Live (record t { next = null }) l

  module _ (xs : List Ptr) (is : IsQueue s.tasks s.done xs) (out : has tsk xs ≡ false) where
    ready-IsQueue : IsQueue ready.tasks s.done xs
    ready-IsQueue = record {
      chain =
          Chain-frame xs s.done.first (λ a i. ready_outside a (ne_of_has a tsk xs i out)) is.chain;
      last = is.last;
      distinct = is.distinct;
    }

    -- A response to a live task that is not yet among the finished tasks `xs` always goes through:
    -- the task becomes the last finished one, its context holds the response, the event loop is
    -- notified once, and no task outside of `xs`, no task's context pointer or event, no other context and no
    -- other memory changes.
    pub respond-append :
        (s' : Store) × (respond tsk rc rsp rsp_len s ≡ ok tt s')
        × IsQueue s'.tasks s'.done (xs ++ tsk ∷ [])
        × (s'.ctxs t.ctx ≡ some (answered c rc rsp rsp_len))
        × ((a : Ptr) → a ≢ t.ctx → s'.ctxs a ≡ s.ctxs a)
        × ((a : Ptr) → a ≢ tsk → has a xs ≡ false → s'.tasks a ≡ s.tasks a)
        × ((a : Ptr) → ctx_at s'.tasks a ≡ ctx_at s.tasks a)
        × ((a : Ptr) → event_at s'.tasks a ≡ event_at s.tasks a)
        × (s' ≡ record s {
          tasks = s'.tasks;
          ctxs = s'.ctxs;
          done = s'.done;
          calls = s.calls ++ notify ∷ [];
        })
    unfolding ready write
    respond-append =
        let g : Tasks = linked ready.tasks (last_slot xs) tsk in
        let (e, q) = append_lem tsk xs ready ready-IsQueue ready-Live refl out in
        (
          _,
          respond-ready (appended s.done tsk) g e,
          q,
          ground arith,
          λ a ne. ground arith,
          λ a ne o. linked_outside ready.tasks xs tsk a o ∙ ready_outside a ne,
          λ a. ctx_at-linked ready.tasks (last_slot xs) tsk a ∙ ctx_at-ready a,
          λ a. event_at-linked ready.tasks (last_slot xs) tsk a ∙ event_at-ready a,
          refl,
        )
