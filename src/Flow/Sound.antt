-- ===== src/Flow/Sound.antt =====
-- What holds of each request on its way, and what leaves it in place.
use lua_resty_ffi.Common.{ℕ, ◌≡◌, ◌≢◌, refl, sym, ◌∙◌, false, Option, none, some, List, arith}
use lua_resty_ffi.Common.Int.{ℤ}
use lua_resty_ffi.Store.{
  Ptr, null, Task, FfiTaskCtx, CoCtx, LuaValue, ffi_cleanup, ffi_event_handler, Store,
}
use lua_resty_ffi.Store.Commands.{Live}
use lua_resty_ffi.Queue.Laws.{ctx_at, event_at}
use lua_resty_ffi.Task.Free.{Owns}
use lua_resty_ffi.Flow.{Request, Asked}
use lua_resty_ffi.Event.Results.{Payload, missing, sized, c_string}

pub record Sound (s : Store) (owner : Ptr → Ptr) (q : Request) (a : Ptr) (c : FfiTaskCtx)
    : Type 0 where
  pub ctx : Live s.ctxs a c
  pub task : ctx_at s.tasks a ≡ some a
  pub event : event_at s.tasks a ≡ some (ffi_event_handler, a)
  pub req : c.req ≢ null → (s.bufs c.req ≢ none) × (owner c.req ≡ a)
  pub rsp : c.rsp ≢ null → (s.bufs c.rsp ≢ none) × (owner c.rsp ≡ a)
  pub asked : Asked c.req c.req_len s.bufs q.req
  pub apart : c.req ≢ null → c.req ≢ c.rsp
  pub by : c.wait_co_ctx ≡ q.by
  pub abort : c.is_abort ≡ q.torn
  pub code : c.rc ≡ q.code
  pub payload : Payload c s.bufs q.value
  pub waits :
      c.is_abort ≡ false
      → (co : CoCtx) × Live s.coros c.wait_co_ctx co
        × (co.cleanup ≡ ffi_cleanup)
        × (co.cleanup_data ≡ a)

-- A task by its context pointer is allocated.
pub some_task : (h : Ptr → Option Task) (a : Ptr) {c : Ptr} → ctx_at h a ≡ some c → h a ≢ none
some_task h a e gone = ground arith

pub Sound-Owns :
    {s : Store} {owner : Ptr → Ptr} {q : Request} {a : Ptr} {c : FfiTaskCtx}
    → Sound s owner q a c
    → Owns s a c
Sound-Owns {s} {owner} {q} {a} o = record {
  ctx = o.ctx;
  task = some_task s.tasks a o.task;
  req = λ h. (o.req h).0;
  rsp = λ h. (o.rsp h).0;
  apart = o.apart;
}

-- The value of a response, by its pointer, its length and its buffer.
pub Payload-frame :
    {c d : FfiTaskCtx} {h g : Ptr → Option (List ℕ)} {v : LuaValue}
    → d.rsp ≡ c.rsp
    → d.rsp_len ≡ c.rsp_len
    → (c.rsp ≢ null → g c.rsp ≡ h c.rsp)
    → Payload c h v
    → Payload d g v
Payload-frame p n same (missing e) = missing (p ∙ e)
Payload-frame {g = g} p n same (sized b k l e le) =
    sized b k (rw p (record { ne_null = l.ne_null; holds = same l.ne_null ∙ l.holds })) (n ∙ e) le
Payload-frame p n same (c_string xs rest l e no_nul) =
    c_string xs rest (rw p (record { ne_null = l.ne_null; holds = same l.ne_null ∙ l.holds }))
      (n ∙ e) no_nul

-- The bytes of a request, by the pointer, the length and the buffer.
pub Asked-frame :
    (p : Ptr) (n : ℤ) (h g : Ptr → Option (List ℕ)) (req : Option (List ℕ))
    → (p ≢ null → g p ≡ h p)
    → Asked p n h req
    → Asked p n g req
Asked-frame p n h g none same e = e
Asked-frame p n h g (some bytes) same (ne, here, len) = (ne, same ne ∙ here, len)

-- What leaves the context, the buffers and the waiting coroutine of a request leaves it sound.
pub Sound-frame :
    {s t : Store} {owner owner' : Ptr → Ptr} {q : Request} {a : Ptr} {c : FfiTaskCtx}
    → t.ctxs a ≡ s.ctxs a
    → ctx_at t.tasks a ≡ ctx_at s.tasks a
    → event_at t.tasks a ≡ event_at s.tasks a
    → (c.req ≢ null → (t.bufs c.req ≡ s.bufs c.req) × (owner' c.req ≡ owner c.req))
    → (c.rsp ≢ null → (t.bufs c.rsp ≡ s.bufs c.rsp) × (owner' c.rsp ≡ owner c.rsp))
    → (c.is_abort ≡ false → t.coros c.wait_co_ctx ≡ s.coros c.wait_co_ctx)
    → Sound s owner q a c
    → Sound t owner' q a c
Sound-frame {s} {t} {q = q} {c = c} ctxs tasks events req rsp coros o = record {
  ctx = record { ne_null = o.ctx.ne_null; holds = ctxs ∙ o.ctx.holds };
  task = tasks ∙ o.task;
  event = events ∙ o.event;
  req = λ h. (λ gone. (o.req h).0 (sym (req h).0 ∙ gone), (req h).1 ∙ (o.req h).1);
  rsp = λ h. (λ gone. (o.rsp h).0 (sym (rsp h).0 ∙ gone), (rsp h).1 ∙ (o.rsp h).1);
  asked = Asked-frame c.req c.req_len s.bufs t.bufs q.req (λ h. (req h).0) o.asked;
  apart = o.apart;
  by = o.by;
  abort = o.abort;
  code = o.code;
  payload = Payload-frame refl refl (λ h. (rsp h).0) o.payload;
  waits = λ live.
      let (co, l, f, e) = o.waits live in
      (co, record { ne_null = l.ne_null; holds = coros live ∙ l.holds }, f, e);
}
