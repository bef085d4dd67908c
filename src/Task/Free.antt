-- ===== src/Task/Free.antt =====
-- ngx_http_lua_ffi_task_free of ngx_http_lua_ffi.c: what is given back.
use lua_resty_ffi.Common.{◌≡◌, ◌≢◌, ℕ, Option, none, List, arith, ◌==◌, if◌then◌else◌}
use lua_resty_ffi.Store.{Ptr, null, FfiTaskCtx, Store}
use lua_resty_ffi.Store.Commands.{ok, write, deref, Live, load_ctx, free_buf, free_block}
use lua_resty_ffi.Task.{task_free}

-- The buffers without the one at `p`, if there is one.
abbrev pub without : Ptr → (Ptr → Option (List ℕ)) → Ptr → Option (List ℕ)
without p bufs = if p == null then bufs else write bufs p none

-- The memory without the task at `p`, its context `c`, and the buffers of `c`.
unfoldable pub freed : Ptr → FfiTaskCtx → Store → Store
freed p c s = record s {
  tasks = write s.tasks p none;
  ctxs = write s.ctxs p none;
  bufs = without c.rsp (without c.req s.bufs);
}

-- The block at `p` is allocated, and its context `c` owns its buffers.
pub record Owns (s : Store) (p : Ptr) (c : FfiTaskCtx) : Type 0 where
  pub ctx : Live s.ctxs p c
  pub task : s.tasks p ≢ none
  pub req : c.req ≢ null → s.bufs c.req ≢ none
  pub rsp : c.rsp ≢ null → s.bufs c.rsp ≢ none
  pub apart : c.req ≢ null → c.req ≢ c.rsp

-- No leak and no double free: where a task owns its context and its buffers, which are apart, all
-- of them are given back, once each, and no other memory changes.
pub task_free-freed :
    {p : Ptr} {c : FfiTaskCtx} (s : Store) → Owns s p c → task_free p s ≡ ok tt (freed p c s)
unfolding task_free freed load_ctx free_buf free_block deref write
task_free-freed s o = ground (arith, o.ctx.ne_null, o.ctx.holds, o.task, o.req, o.rsp, o.apart)
