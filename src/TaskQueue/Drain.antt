-- ===== src/TaskQueue/Drain.antt =====
-- A runtime's loop around ngx_http_lua_ffi_task_poll, as README.md shows it: it polls until NULL.
use lua_resty_ffi.Queue.Chain.{Tasks}
use lua_resty_ffi.Common.{
  ==_false, ℕ, zero, suc, ◌≡◌, ◌≢◌, refl, Bool, true, false, none, List, [], ◌∷◌, ◌++◌, ◌==◌,
  if◌then◌else◌, length,
}
use lua_resty_ffi.Nginx.{ngx_ok}
use lua_resty_ffi.Store.{Ptr, null, Task, FfiTaskQueue, Store}
use lua_resty_ffi.Store.Commands.{Cmd, ok, pure, ◌>>=◌, write, Live}
use lua_resty_ffi.TaskQueue.{returned, in_cond_wait}
use lua_resty_ffi.TaskQueue.Post.{IsTaskQueue}
use lua_resty_ffi.TaskQueue.Poll.{enters, poll, poll_first, poll_finish}

-- The tasks that the loop gets, and whether it left by NULL: `false` where it waits, or after `fuel`
-- rounds.
unfoldable pub drain : (fuel : ℕ) → Cmd (List Ptr × Bool)
drain zero = pure ([], false)
drain (suc fuel) = do
  answer ← poll (enters ngx_ok) ngx_ok
  elim answer [
    | in_cond_wait ↦ pure ([], false)
    | returned p ↦
        if p == null
        then pure ([], true)
        else (do (rest, ended) ← drain fuel; pure (p ∷ rest, ended))
  ]

-- Tasks that are handed out: they have a context.
abbrev pub Requests : Tasks → List Ptr → Type 0
Requests h [] = Unit
Requests h (x ∷ xs) = (t : Task) × Live h x t × (t.ctx ≢ null) × Requests h xs

-- A task that ends the queue.
pub record Finish (h : Tasks) (f : Ptr) : Type 0 where
  pub task : Task
  pub live : Live h f task
  pub no_ctx : task.ctx ≡ null

-- Where the calls of nginx succeed, all tasks that were queued before the finishing one are handed
-- out, in order and once each, and only then does the loop see NULL; the finishing task and the
-- queue are freed by then, and no other memory has changed.
pub drain_all :
    (f : Ptr) (xs : List Ptr) {tp : FfiTaskQueue} (s : Store)
    → IsTaskQueue s tp (xs ++ f ∷ [])
    → Requests s.tasks xs
    → Finish s.tasks f
    → drain (suc (length xs)) s
      ≡ ok
          (xs, true)
          (record s { tasks = write s.tasks f none; ctxs = write s.ctxs f none; tq = none })
unfolding drain
drain_all f [] s is rs fin =
    rw (poll_finish (enters ngx_ok) ngx_ok s is fin.live refl refl fin.no_ctx)
drain_all f (x ∷ xs) {tp} s is (t, l, c, rs) fin =
    let (q, e, is') = poll_first (enters ngx_ok) ngx_ok s is l refl refl c in
    rw (e, ==_false x null l.ne_null, drain_all f xs _ is' rs fin)
