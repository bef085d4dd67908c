-- ===== src/Flow/Posts.antt =====
-- The step of a coroutine that runs: a request, accepted or not.
use lua_resty_ffi.Common.{ℕ, ◌≡◌, sym, ◌∙◌, Bool-cases, inl, inr, false, Option, List}
use lua_resty_ffi.Common.Int.{ℤ}
use lua_resty_ffi.Nginx.{failed}
use lua_resty_ffi.Store.{Ptr, CoCtx, LuaCtx, FfiTaskQueue, Store}
use lua_resty_ffi.Store.Commands.{ok, ok_inj}
use lua_resty_ffi.TaskQueue.Post.{IsTaskQueue, accepts}
use lua_resty_ffi.TaskQueue.{PostCalls}
use lua_resty_ffi.TaskQueue.TaskPost.{new_task, task_post-Posted}
use lua_resty_ffi.Lua.{Reply, request_ptr, request_len, runtime_post}
use lua_resty_ffi.Lua.Life.{Given}
use lua_resty_ffi.Lua.Life.Steps.{post_finished}
use lua_resty_ffi.Lua.Life.Request.{
  with_request, with_request-tq, with_request-tasks, with_request-Given, runtime_post-task_post,
  runtime_post_refused,
}
use lua_resty_ffi.Flow.{Flow, after_post, Fresh}
use lua_resty_ffi.Flow.Serves.{serving_of}
use lua_resty_ffi.Flow.Invariant.{Inv}
use lua_resty_ffi.Flow.Accepted.{fresh-Given, posted-Inv}
use lua_resty_ffi.Flow.Refused.{refused-Inv}

module _ {F : Flow} (inv : Inv F) (calls : PostCalls) (r fresh buf : Ptr) (req : Option (List ℕ))
    {ctx : LuaCtx} {co : CoCtx} (n : Fresh F r fresh buf ctx co)
    (u : failed calls.mutex_unlock ≡ false) (go : F.runtime.finished ≡ false) {tp : FfiTaskQueue}
    (is : IsTaskQueue F.store tp F.queued) where
  abbrev w : Ptr
  w = ctx.cur_co_ctx

  abbrev mid : Store
  mid = with_request buf req F.store

  abbrev ptr : Ptr
  ptr = request_ptr buf req

  abbrev len : ℤ
  len = request_len req

  mid-Given : Given mid r fresh buf ctx co
  mid-Given = with_request-Given req F.store (fresh-Given inv r fresh buf req n)

  mid-IsTaskQueue : IsTaskQueue mid tp F.queued
  mid-IsTaskQueue = record {
    present = with_request-tq buf req F.store ∙ is.present;
    unlocked = is.unlocked;
    queue = rw (with_request-tasks buf req F.store) is.queue;
  }

  open_posts-Inv :
      {reply : Reply} {s : Store}
      → runtime_post calls r fresh buf req F.runtime F.store ≡ ok reply s
      → Inv (after_post F fresh ptr w req reply s)
  open_posts-Inv ran = elim (Bool-cases (accepts calls (new_task fresh) tp)) [
    | inl room ↦
        let (s', tp', posts, p) =
          task_post-Posted calls r fresh ptr len F.queued mid mid-Given.ctx_of mid-Given.co_of
            n.fresh_ne mid-Given.unused mid-IsTaskQueue u room in
        let ran' =
          runtime_post-task_post calls r fresh buf req F.runtime F.store n.buf_ne go posts in
        let (replies, stores) = ok_inj (sym ran ∙ ran') in
        rw (replies, stores) (posted-Inv inv r fresh buf req n p)
    | inr full ↦
        let (s', tp', refused, is', tasks, ctxs, bufs_back, coros, same_done) =
          runtime_post_refused calls r fresh buf req F.runtime F.queued F.store
            (fresh-Given inv r fresh buf req n) go is u full in
        let (replies, stores) = ok_inj (sym ran ∙ refused) in
        rw (replies, stores)
          (refused-Inv inv r fresh buf req n is' tasks ctxs bufs_back coros same_done)
  ]

-- A request leaves the requests as they should be, accepted or not.
pub posts-Inv :
    {F : Flow} (inv : Inv F) (calls : PostCalls) (r fresh buf : Ptr) (req : Option (List ℕ))
    {ctx : LuaCtx} {co : CoCtx} {reply : Reply} {s : Store}
    → Fresh F r fresh buf ctx co
    → failed calls.mutex_unlock ≡ false
    → runtime_post calls r fresh buf req F.runtime F.store ≡ ok reply s
    → Inv (after_post F fresh (request_ptr buf req) ctx.cur_co_ctx req reply s)
posts-Inv {F} inv calls r fresh buf req {ctx} n u ran = elim (Bool-cases F.runtime.finished) [
  | inl over ↦
      let (replies, stores) =
        ok_inj (sym ran ∙ post_finished calls r fresh buf req F.runtime F.store over) in
      rw (replies, stores) inv
  | inr go ↦
      let (tp, is) = serving_of go inv.serves in
      open_posts-Inv inv calls r fresh buf req n u go is ran
]
