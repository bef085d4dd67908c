-- ===== src/Event/Deliver.antt =====
-- The event handler of ngx_http_lua_ffi.c where the coroutine waits for the response.
use lua_resty_ffi.Common.{
  Bool-cases, inl, inr, ◌≡◌, ◌≢◌, refl, true, false, some, none, List, [], ◌∷◌, ◌++◌, arith,
  if◌then◌else◌,
}
use mathlib.Core.List.{append_assoc}
use lua_resty_ffi.Nginx.{Rc}
use lua_resty_ffi.Store.{
  Ptr, null, FfiTaskCtx, CoCtx, LuaCtx, LuaValue, Call, run_phases, run_posted_requests, Store,
  no_cleanup, ffi_resume, wev_handler,
}
use lua_resty_ffi.Store.Commands.{ok, write, deref, Live, load_ctx, load_co, set_co, call}
use lua_resty_ffi.Task.{task_free}
use lua_resty_ffi.Task.Free.{Owns, freed, without, task_free-freed}
use lua_resty_ffi.Event.{event_handler}
use lua_resty_ffi.Event.Results.{Payload, results, pushed, push_results-pushed}
use lua_resty_ffi.Event.Resume.{resume_calls, resumed, resume_lem}

-- Somebody waits: the coroutine was not torn down, and its request has a module context.
pub record Wanted (get_req : Ptr → Ptr) (s : Store) (c : FfiTaskCtx) (w : CoCtx) (ctx : LuaCtx)
    : Type 0 where
  pub not_aborted : c.is_abort ≡ false
  pub co : Live s.coros c.wait_co_ctx w
  pub request : get_req w.co ≢ null
  pub module_ctx : s.lua_ctxs (get_req w.co) ≡ some ctx

-- The module context of a request that is about to be resumed.
abbrev pub current : FfiTaskCtx → LuaCtx → LuaCtx
current c ctx = record ctx { cur_co_ctx = c.wait_co_ctx }

-- The memory with the values pushed and the coroutine made current.
abbrev before_free : FfiTaskCtx → (r : Ptr) → CoCtx → LuaCtx → LuaValue → Store → Store
before_free c r w ctx v s = record (pushed w.co (results c.rc v) s) {
  lua_ctxs = write s.lua_ctxs r (some (current c ctx));
  coros = write s.coros c.wait_co_ctx (some (record w { cleanup = no_cleanup }));
}

-- The memory when the coroutine is about to be resumed.
unfoldable pub answered :
    (f : Ptr) → FfiTaskCtx → (r : Ptr) → CoCtx → LuaCtx → LuaValue → Store → Store
answered f c r w ctx v s = freed f c (before_free c r w ctx v s)

-- The calls into nginx that give the request back to it.
abbrev pub handed_over : (r : Ptr) → LuaCtx → (run_rc : Rc) → List Call
handed_over r ctx run_rc =
    if ctx.entered_content_phase then resume_calls r true run_rc else run_phases r ∷ []

-- The outcome of a delivery.
pub record Delivered (f : Ptr) (c : FfiTaskCtx) (r : Ptr) (w : CoCtx) (ctx : LuaCtx) (v : LuaValue)
    (run_rc : Rc) (s s' : Store) : Type 0 where
  pub stack : s'.stacks w.co ≡ s.stacks w.co ++ results c.rc v
  pub other_stacks : (l : Ptr) → w.co ≢ l → s'.stacks l ≡ s.stacks l
  pub task : s'.tasks ≡ write s.tasks f none
  pub ctxs : s'.ctxs ≡ write s.ctxs f none
  pub bufs : s'.bufs ≡ without c.rsp (without c.req s.bufs)
  pub coro : s'.coros c.wait_co_ctx ≡ some (record w { cleanup = no_cleanup })
  pub other_coros : (p : Ptr) → c.wait_co_ctx ≢ p → s'.coros p ≡ s.coros p
  pub tq : s'.tq ≡ s.tq
  pub done : s'.done ≡ s.done
  pub module_ctx :
      s'.lua_ctxs r
      ≡ some (record (current c ctx) {
        resume_handler = if ctx.entered_content_phase then wev_handler else ffi_resume;
      })
  pub calls : s'.calls ≡ s.calls ++ (handed_over r ctx run_rc ++ run_posted_requests r ∷ [])

module _ (get_req : Ptr → Ptr) (run_rc posted_rc : Rc) {f : Ptr} {c : FfiTaskCtx} {w : CoCtx}
    {ctx : LuaCtx} {v : LuaValue} (s : Store) (o : Owns s f c) (a : Wanted get_req s c w ctx)
    (p : Payload c s.bufs v) where
  abbrev r : Ptr
  r = get_req w.co

  abbrev ready : Store
  ready = answered f c r w ctx v s

  answered-ctx : ready.lua_ctxs r ≡ some (current c ctx)
  unfolding answered freed write
  answered-ctx = ground arith

  freed_answer : task_free f (before_free c r w ctx v s) ≡ ok tt ready
  unfolding answered
  freed_answer =
      task_free-freed _
        (record { ctx = o.ctx; task = o.task; req = o.req; rsp = o.rsp; apart = o.apart })

  deliver_content :
      ctx.entered_content_phase ≡ true
      → event_handler get_req run_rc posted_rc f s
        ≡ ok tt (record (resumed r (current c ctx) run_rc ready) {
          calls = (resumed r (current c ctx) run_rc ready).calls ++ run_posted_requests r ∷ [];
        })
  unfolding event_handler load_ctx load_co set_co call deref
  deliver_content e = ground (
    arith,
    o.ctx.ne_null,
    o.ctx.holds,
    a.not_aborted,
    a.co.ne_null,
    a.co.holds,
    a.request,
    a.module_ctx,
    push_results-pushed w.co c s p,
    freed_answer,
    answered-ctx,
    resume_lem r run_rc posted_rc ready answered-ctx,
  )

  deliver_phases :
      ctx.entered_content_phase ≡ false
      → event_handler get_req run_rc posted_rc f s
        ≡ ok tt (record ready {
          lua_ctxs =
              write ready.lua_ctxs r
                (some (record (current c ctx) { resume_handler = ffi_resume }));
          calls = (ready.calls ++ run_phases r ∷ []) ++ run_posted_requests r ∷ [];
        })
  unfolding event_handler load_ctx load_co set_co call deref
  deliver_phases e = ground (
    arith,
    o.ctx.ne_null,
    o.ctx.holds,
    a.not_aborted,
    a.co.ne_null,
    a.co.holds,
    a.request,
    a.module_ctx,
    push_results-pushed w.co c s p,
    freed_answer,
    answered-ctx,
  )

  -- A response for a waiting coroutine always goes through, the task owning its context and
  -- buffers: exactly the values of its code and payload go on the stack of its Lua thread, its
  -- cleanup handler is taken off and it becomes the current one, the task, its context and their
  -- buffers are given back, no other coroutine and no queue changes, and the request goes back to
  -- nginx, resumed at once if its content
  -- phase was entered and through the phases otherwise, and then the posted requests are run.
  pub event_handler-delivers :
      (s' : Store) × (event_handler get_req run_rc posted_rc f s ≡ ok tt s')
      × Delivered f c r w ctx v run_rc s s'
  unfolding answered freed write
  event_handler-delivers = elim (Bool-cases ctx.entered_content_phase) [
    | inl e ↦ (
      _,
      deliver_content e,
      record {
        stack = ground arith;
        other_stacks = λ l ne. ground arith;
        task = refl;
        ctxs = refl;
        bufs = refl;
        coro = ground arith;
        other_coros = λ p ne. ground arith;
        tq = refl;
        done = refl;
        module_ctx = ground arith;
        calls = rw e (append_assoc s.calls (resume_calls r true run_rc) _);
      },
    )
    | inr e ↦ (
      _,
      deliver_phases e,
      record {
        stack = ground arith;
        other_stacks = λ l ne. ground arith;
        task = refl;
        ctxs = refl;
        bufs = refl;
        coro = ground arith;
        other_coros = λ p ne. ground arith;
        tq = refl;
        done = refl;
        module_ctx = ground arith;
        calls = rw e (append_assoc s.calls (run_phases r ∷ []) _);
      },
    )
  ]
