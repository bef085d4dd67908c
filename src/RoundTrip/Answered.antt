-- ===== src/RoundTrip/Answered.antt =====
-- The event handler of ngx_http_lua_ffi.c on a request that a runtime has answered.
use lua_resty_ffi.Common.{
  ◌≡◌, ◌≢◌, refl, ap, ◌∙◌, true, false, Option, some, none, List, [], ◌∷◌, ◌++◌, arith,
}
use mathlib.Core.List.{append_assoc}
use lua_resty_ffi.Common.Int.{ℤ}
use lua_resty_ffi.Nginx.{Rc}
use lua_resty_ffi.Store.{
  Ptr, null, FfiTaskCtx, CoCtx, LuaCtx, LuaValue, FfiTaskQueue, Store, notify, run_posted_requests,
}
use lua_resty_ffi.Store.Commands.{ok, Live, write}
use lua_resty_ffi.Queue.Chain.{has}
use lua_resty_ffi.Task.Free.{Owns, without}
use lua_resty_ffi.TaskQueue.{empty_queue}
use lua_resty_ffi.TaskQueue.Post.{Posted}
use lua_resty_ffi.TaskQueue.TaskPost.{tied, readied}
use lua_resty_ffi.Event.{event_handler}
use lua_resty_ffi.Event.Results.{results}
use lua_resty_ffi.Event.Deliver.{Wanted, Delivered, handed_over, event_handler-delivers}
use lua_resty_ffi.RoundTrip.{Answer, answered_ctx, WellAnswered, Returned}
use lua_resty_ffi.TaskQueue.Queued.{seen-coro, seen-lua_ctxs, seen-stacks, seen-calls, seen-outside}

module _ (get_req_of : Ptr → Ptr) (run_rc posted_rc : Rc) (fresh req : Ptr) (req_len : ℤ)
    (a : Answer) {v : LuaValue} (ctx : LuaCtx) (co : CoCtx) (ys : List Ptr) (s : Store)
    (ne : fresh ≢ null) (unused : s.tasks fresh ≡ none) (request : get_req_of co.co ≢ null)
    (here : s.lua_ctxs (get_req_of co.co) ≡ some ctx)
    (ok_answer : WellAnswered ctx.cur_co_ctx req req_len a v) {s1 : Store} {tp tp1 : FfiTaskQueue}
    (p : Posted (readied (get_req_of co.co) fresh req req_len ctx co s) tp [] fresh true s1 tp1)
    (l : Live s.coros ctx.cur_co_ctx co) (tq : FfiTaskQueue) where
  abbrev r : Ptr
  r = get_req_of co.co

  abbrev c : FfiTaskCtx
  c = answered_ctx ctx.cur_co_ctx req req_len a

  -- The memory when the runtime answers.
  abbrev s2 : Store
  s2 = record s1 { tq = some tq; bufs = a.bufs }

  module _ {s3 : Store} (with_ctx : s3.ctxs fresh ≡ some c) (with_task : s3.tasks fresh ≢ none)
      (rest : s3 ≡ record s2 {
        tasks = s3.tasks;
        ctxs = s3.ctxs;
        done = s3.done;
        calls = s2.calls ++ notify ∷ [];
      })
      (outside : (b : Ptr) → b ≢ fresh → has b ys ≡ false → s3.tasks b ≡ s2.tasks b) where
    abbrev s3' : Store
    s3' = record s3 { done = empty_queue }

    answer-bufs : s3.bufs ≡ a.bufs
    answer-bufs = ap (λ (x : Store). x.bufs) rest

    answer-Owns : Owns s3' fresh c
    answer-Owns = record {
      ctx = record { ne_null = ne; holds = with_ctx };
      task = with_task;
      req = rw answer-bufs ok_answer.kept;
      rsp = rw answer-bufs ok_answer.rsp;
      apart = ok_answer.apart;
    }

    answer-Wanted : Wanted get_req_of s3' c (tied co fresh) ctx
    answer-Wanted = record {
      not_aborted = refl;
      co = record {
        ne_null = l.ne_null;
        holds =
            ap (λ (x : Store). x.coros ctx.cur_co_ctx) rest
            ∙ seen-coro r fresh req req_len ctx co s p;
      };
      request = request;
      module_ctx =
          ap (λ (x : Store). x.lua_ctxs r) rest
          ∙ ap (λ (m : Ptr → Option LuaCtx). m r) (seen-lua_ctxs r fresh req req_len ctx co s p)
          ∙ here;
    }

    answer-stacks : s3.stacks ≡ s.stacks
    answer-stacks = ap (λ (x : Store). x.stacks) rest ∙ seen-stacks r fresh req req_len ctx co s p

    answer-calls : s3.calls ≡ s.calls ++ notify ∷ []
    answer-calls =
        ap (λ (x : Store). x.calls) rest
        ∙ ap (λ calls. calls ++ notify ∷ []) (seen-calls r fresh req req_len ctx co s p)

    Delivered-Returned :
        {s4 : Store}
        → Delivered fresh c r (tied co fresh) ctx v run_rc s3' s4
        → Returned fresh req a r co ctx v run_rc ys s s4
    unfolding write
    Delivered-Returned d = record {
      stack = d.stack ∙ ap (λ (m : Ptr → List LuaValue). m co.co ++ results a.rc v) answer-stacks;
      calls =
          d.calls
          ∙ ap (λ calls. calls ++ (handed_over r ctx run_rc ++ run_posted_requests r ∷ []))
              answer-calls
          ∙ append_assoc s.calls (notify ∷ []) _;
      other_stacks =
          λ m ne_co. d.other_stacks m ne_co ∙ ap (λ (f : Ptr → List LuaValue). f m) answer-stacks;
      gone = ground (arith, d.ctxs);
      bufs = d.bufs ∙ ap (λ bufs. without a.rsp (without req bufs)) answer-bufs;
      tasks = λ b o. ground (
        arith,
        unused,
        d.task,
        outside b,
        λ (h : b ≢ fresh). seen-outside r fresh req req_len ctx co s p b h refl,
      );
    }

    pub answer-returns :
        (s4 : Store) × (event_handler get_req_of run_rc posted_rc fresh s3' ≡ ok tt s4)
        × Returned fresh req a r co ctx v run_rc ys s s4
    answer-returns =
        let (s4, e, d) =
          event_handler-delivers get_req_of run_rc posted_rc s3' answer-Owns answer-Wanted
            (rw answer-bufs ok_answer.payload) in
        (s4, e, Delivered-Returned d)
