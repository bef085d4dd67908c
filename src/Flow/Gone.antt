-- ===== src/Flow/Gone.antt =====
-- What the event handler does to the memory, whether or not somebody waits.
use lua_resty_ffi.Common.{
  ◌≡◌, ◌≢◌, refl, Bool-cases, Option-cases, inl, inr, false, none, arith, ◌==◌,
}
use lua_resty_ffi.Nginx.{Rc}
use lua_resty_ffi.Store.{Ptr, null, FfiTaskCtx, CoCtx, LuaCtx, LuaValue, Store}
use lua_resty_ffi.Store.Commands.{ok, Live, write}
use lua_resty_ffi.Task.Free.{Owns, freed, without}
use lua_resty_ffi.Event.{event_handler}
use lua_resty_ffi.Event.Results.{Payload}
use lua_resty_ffi.Event.Deliver.{Wanted, Delivered, event_handler-delivers}
use lua_resty_ffi.Event.Discard.{Unwanted, abort, request_gone, context_gone, event_handler-freed}

-- A task is gone, with its context and its buffers; its coroutine may have changed.
pub record Gone (a : Ptr) (c : FfiTaskCtx) (s s' : Store) : Type 0 where
  pub tasks : s'.tasks ≡ write s.tasks a none
  pub ctxs : s'.ctxs ≡ write s.ctxs a none
  pub bufs : s'.bufs ≡ without c.rsp (without c.req s.bufs)
  pub coros : (p : Ptr) → (c.is_abort ≡ false → c.wait_co_ctx ≢ p) → s'.coros p ≡ s.coros p
  pub tq : s'.tq ≡ s.tq
  pub done : s'.done ≡ s.done

-- How the event handler comes out: the response is delivered to the coroutine, or nobody waits.
pub data Fate (get_req : Ptr → Ptr) (run_rc posted_rc : Rc) (a : Ptr) (c : FfiTaskCtx)
    (v : LuaValue) (s s' : Store) (o : Owns s a c) : Type 0 where
  delivered :
      {co : CoCtx} {ctx : LuaCtx}
      → Wanted get_req s c co ctx
      → Delivered a c (get_req co.co) co ctx v run_rc s s'
      → Fate get_req run_rc posted_rc a c v s s' o
  discarded :
      Unwanted get_req run_rc posted_rc s o
      → s' ≡ freed a c s
      → Fate get_req run_rc posted_rc a c v s s' o

module _ (get_req : Ptr → Ptr) (run_rc posted_rc : Rc) {a : Ptr} {c : FfiTaskCtx} (v : LuaValue)
    (s : Store) (o : Owns s a c) where
  abbrev Returns : Type 0
  Returns =
      (s' : Store) × (event_handler get_req run_rc posted_rc a s ≡ ok tt s')
      × Fate get_req run_rc posted_rc a c v s s' o

  let_go : Unwanted get_req run_rc posted_rc s o → Returns
  let_go n = (freed a c s, event_handler-freed get_req run_rc posted_rc s o n, discarded n refl)

  hand_over : {co : CoCtx} {ctx : LuaCtx} → Wanted get_req s c co ctx → Payload c s.bufs v → Returns
  hand_over w p =
      let (s', e, d) = event_handler-delivers get_req run_rc posted_rc s o w p in
      (s', e, delivered w d)

  -- The handler of a task with its context and buffers returns, where the coroutine that it waits
  -- for is there.
  pub handler-Fate :
      (c.is_abort ≡ false → (co : CoCtx) × Live s.coros c.wait_co_ctx co)
      → Payload c s.bufs v
      → Returns
  handler-Fate waits p = elim (Bool-cases c.is_abort) [
    | inl gone ↦ let_go (abort gone)
    | inr alive ↦
        let (co, l) = waits alive in
        elim (Bool-cases (get_req co.co == null)) [
          | inl no_request ↦ let_go (request_gone alive l (ground arith))
          | inr request ↦ elim (Option-cases (s.lua_ctxs (get_req co.co))) [
            | inl no_context ↦ let_go (context_gone alive l no_context)
            | inr (ctx, there) ↦
                hand_over
                  (record {
                    not_aborted = alive;
                    co = l;
                    request = ground arith;
                    module_ctx = there;
                  })
                  p
          ]
        ]
  ]

pub Fate-Gone :
    {get_req : Ptr → Ptr} {run_rc posted_rc : Rc} {a : Ptr} {c : FfiTaskCtx} {v : LuaValue}
    {s s' : Store} {o : Owns s a c}
    → Fate get_req run_rc posted_rc a c v s s' o
    → Gone a c s s'
unfolding freed
Fate-Gone (delivered w d) = record {
  tasks = d.task;
  ctxs = d.ctxs;
  bufs = d.bufs;
  coros = λ p ne. d.other_coros p (ne w.not_aborted);
  tq = d.tq;
  done = d.done;
}
Fate-Gone (discarded n e) = rw e (record {
  tasks = refl;
  ctxs = refl;
  bufs = refl;
  coros = λ p ne. refl;
  tq = refl;
  done = refl;
})
