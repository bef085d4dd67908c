-- ===== src/Flow/Answers.antt =====
-- The step of a runtime: a response to a request that it holds.
use lua_resty_ffi.Common.{
  ℕ, ◌<◌, ◌≡◌, ◌≢◌, ◌⊎◌, refl, sym, ap, ◌∙◌, Bool-cases, inl, inr, true, false, Option, some, List,
  [], ◌∷◌, ◌++◌, ◌==◌, ==_refl, arith,
}
use mathlib.Core.List.{append_assoc}
use lua_resty_ffi.Common.Int.{ℤ}
use lua_resty_ffi.Store.{Ptr, null, notify, Task, FfiTaskCtx, CoCtx, LuaValue, Store}
use lua_resty_ffi.Store.Commands.{ok, ok_inj, Live}
use lua_resty_ffi.Queue.Chain.{has, IsQueue}
use lua_resty_ffi.Queue.Laws.{ctx_at, event_at, Live_of_ctx}
use lua_resty_ffi.Task.{zero_ctx}
use lua_resty_ffi.Response.{respond}
use lua_resty_ffi.Response.Inject.{answered, respond-append}
use lua_resty_ffi.Event.Results.{Payload}
use lua_resty_ffi.Lua.{request_ptr}
use lua_resty_ffi.Lua.Life.Request.{
  with_request, with_request-tq, with_request-tasks, with_request-ctxs, with_request-buf,
}
use lua_resty_ffi.Flow.{Flow, Request, count, drop_one, in_flight, Out, set, Room}
use lua_resty_ffi.Flow.Buffers.{Sound-with_request, request_ptr_apart, with_request-done}
use lua_resty_ffi.Flow.Count.{count-append, count-has, has-count, count-drop_one}
use lua_resty_ffi.Flow.Sound.{Sound, Sound-frame, Payload-frame}
use lua_resty_ffi.Flow.Invariant.{Inv, Serves-elsewhere}

module _ {F : Flow} (inv : Inv F) (a : Ptr) (rc : ℤ) (buf : Ptr) (rsp : Option (List ℕ))
    (rsp_len : ℤ) {v : LuaValue} (held : has a F.held ≡ true) (room : Room F.store buf rsp)
    (stands : Payload
      (answered zero_ctx rc (request_ptr buf rsp) rsp_len)
      (with_request buf rsp F.store).bufs
      v) where
  abbrev mid : Store
  mid = with_request buf rsp F.store

  abbrev owner' : Ptr → Ptr
  owner' = set F.owner (request_ptr buf rsp) a

  abbrev ptr : Ptr
  ptr = request_ptr buf rsp

  in_hand : 0 < count a F.held
  in_hand = count-has a F.held held

  mid-each : (b : Ptr) → Out F b → (d : FfiTaskCtx) × Sound mid owner' (F.about b) b d
  mid-each b o = let (d, p) = inv.each b o in (d, Sound-with_request buf a rsp room p)

  mid-IsQueue : IsQueue mid.tasks mid.done F.done
  mid-IsQueue = rw (with_request-tasks buf rsp F.store, with_request-done buf rsp F.store) inv.done

  abbrev told : Request
  told = record (F.about a) { code = rc; value = v }

  abbrev after : Store → Flow
  after s = record F {
    store = s;
    held = drop_one a F.held;
    done = F.done ++ a ∷ [];
    replied = F.replied ++ a ∷ [];
    owner = owner';
    about = set F.about a told;
  }

  abbrev the_ctx : FfiTaskCtx
  the_ctx = (inv.each a (omega (arith, in_hand))).0

  abbrev own : Sound F.store F.owner (F.about a) a the_ctx
  own = (inv.each a (omega (arith, in_hand))).1

  own-mid : Sound mid owner' (F.about a) a the_ctx
  own-mid = Sound-with_request buf a rsp room own

  moves : (s : Store) (b : Ptr) → in_flight (after s) b ≡ in_flight F b
  moves s b = omega (arith, count-drop_one a b F.held held, count-append b F.done (a ∷ []))

  out : has a F.done ≡ false
  out = has-count a F.done (omega (arith, in_hand, inv.once a))

  apart :
      (b : Ptr)
      → b ≢ a
      → (0 < count b F.queued) ⊎ (ctx_at F.store.tasks b ≡ some null)
      → has b F.done ≡ false
  apart b ne (inl i) = has-count b F.done (omega (arith, inv.once b, i))
  apart b ne (inr e) = elim (Bool-cases (has b F.done)) [
    | inl i ↦
        let (_, o) = inv.each b (omega (arith, count-has b F.done i)) in
        absurd (ground (arith, o.task, o.ctx.ne_null))
    | inr out ↦ out
  ]

  -- The queues are apart.
  ctx_ats : (b : Ptr) → ctx_at mid.tasks b ≡ ctx_at F.store.tasks b
  ctx_ats b = ap (λ (m : Ptr → Option Task). ctx_at m b) (with_request-tasks buf rsp F.store)

  -- The memory after the response, by what `respond-append` says of it.
  module _ {s : Store} (queue : IsQueue s.tasks s.done (F.done ++ a ∷ []))
      (ctx : s.ctxs a ≡ some (answered the_ctx rc ptr rsp_len))
      (other_ctxs : (b : Ptr) → b ≢ a → s.ctxs b ≡ mid.ctxs b)
      (other_tasks : (b : Ptr) → b ≢ a → has b F.done ≡ false → s.tasks b ≡ mid.tasks b)
      (kept : (b : Ptr) → ctx_at s.tasks b ≡ ctx_at mid.tasks b)
      (events : (b : Ptr) → event_at s.tasks b ≡ event_at mid.tasks b)
      (rest : s ≡ record mid {
        tasks = s.tasks;
        ctxs = s.ctxs;
        done = s.done;
        calls = mid.calls ++ notify ∷ [];
      }) where
    bufs : s.bufs ≡ mid.bufs
    bufs = ap (λ (x : Store). x.bufs) rest

    coros : s.coros ≡ mid.coros
    coros = ap (λ (x : Store). x.coros) rest

    other-Sound :
        (b : Ptr) {d : FfiTaskCtx}
        → b ≢ a
        → Sound mid owner' (F.about b) b d
        → Sound s owner' (F.about b) b d
    other-Sound b {d} ne =
        Sound-frame (other_ctxs b ne) (kept b) (events b)
          (λ h. (ap (λ (m : Ptr → Option (List ℕ)). m d.req) bufs, refl))
          (λ h. (ap (λ (m : Ptr → Option (List ℕ)). m d.rsp) bufs, refl))
          (λ live. ap (λ (m : Ptr → Option CoCtx). m d.wait_co_ctx) coros)

    own-Sound : Sound s owner' told a (answered the_ctx rc ptr rsp_len)
    own-Sound =
        let p : Sound mid owner' (F.about a) a the_ctx = own-mid in
        record {
          ctx = record { ne_null = own.ctx.ne_null; holds = ctx };
          task = kept a ∙ p.task;
          event = events a ∙ p.event;
          asked = rw bufs p.asked;
          req = λ h. (rw bufs (p.req h).0, (p.req h).1);
          rsp = λ h. (rw bufs (with_request-buf buf rsp F.store h), ground arith);
          apart = λ h. request_ptr_apart buf rsp F.store the_ctx.req room h (own.req h).0;
          by = p.by;
          abort = p.abort;
          code = refl;
          payload = Payload-frame refl refl (λ h. rw bufs) stands;
          waits = λ live.
              let (co, l, f, e) = p.waits live in
              (co, record { ne_null = l.ne_null; holds = rw coros l.holds }, f, e);
        }

    own-each : (d : FfiTaskCtx) × Sound s owner' told a d
    own-each = (answered the_ctx rc ptr rsp_len, own-Sound)

    after-each : (b : Ptr) → Out F b → (d : FfiTaskCtx) × Sound s owner' (set F.about a told b) b d
    after-each b o = elim (Bool-cases (a == b)) [
      | inl same ↦ let eq : a ≡ b = ground arith in rw (← eq, ==_refl) own-each
      | inr ne ↦ let (d, p) = mid-each b o in rw ne (d, other-Sound b (ground arith) p)
    ]

    responded-Inv : Inv (after s)
    responded-Inv = record {
      serves =
          Serves-elsewhere inv (ap (λ (x : Store). x.tq) rest ∙ with_request-tq buf rsp F.store) a
            own.task own.ctx.ne_null
            (λ b ne w.
              other_tasks b ne (apart b ne w)
              ∙ ap (λ (m : Ptr → Option Task). m b) (with_request-tasks buf rsp F.store))
            (omega (arith, in_hand, inv.once a));
      done = queue;
      each = λ b o. after-each b (omega (arith, moves s b));
      once = λ b. omega (arith, moves s b, inv.once b);
      counted = λ b. omega (arith, moves s b, inv.counted b);
      fifo = inv.fifo;
      order =
          ap (λ xs. xs ++ a ∷ []) inv.order
          ∙ append_assoc F.handled (F.taken ++ F.done) (a ∷ [])
          ∙ ap (λ xs. F.handled ++ xs) (append_assoc F.taken F.done (a ∷ []));
      clean = λ b z.
          other_ctxs b (λ e. ground (arith, moves s b, in_hand))
          ∙ ap (λ (m : Ptr → Option FfiTaskCtx). m b) (with_request-ctxs buf rsp F.store)
          ∙ inv.clean b (omega (arith, moves s b));
    }

  -- A response returns, and the requests are as they should be.
  pub respond-returns : (s : Store) × (respond a rc ptr rsp_len mid ≡ ok tt s) × Inv (after s)
  respond-returns =
      let (t, l, e) = Live_of_ctx own.ctx.ne_null own-mid.task in
      let lc : Live mid.ctxs t.ctx the_ctx = rw e (record {
        ne_null = own.ctx.ne_null;
        holds =
            ap (λ (m : Ptr → Option FfiTaskCtx). m a) (with_request-ctxs buf rsp F.store)
            ∙ own.ctx.holds;
      }) in
      let (s, ran, queue, ctx, other_ctxs, tasks, kept, events, rest) =
        respond-append a rc ptr rsp_len mid l lc F.done mid-IsQueue out in
      (s, ran, responded-Inv queue (rw e at ctx) (rw e at other_ctxs) tasks kept events rest)

  pub responds-Inv : {s : Store} → respond a rc ptr rsp_len mid ≡ ok tt s → Inv (after s)
  responds-Inv ran =
      let (s', ran', inv') = respond-returns in
      let (_, stores) = ok_inj (sym ran ∙ ran') in rw stores inv'
