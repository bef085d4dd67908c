-- ===== src/Lua/Life.antt =====
-- The whole life of a runtime: requests and the unload by Lua, in any order, while threads of the
-- runtime poll, up to the end of the task queue and beyond.
pub mod Complete
pub mod Phase
pub mod Request
pub mod Returns
pub mod Steps
pub mod Traces
use lua_resty_ffi.Common.{
  ◌≡◌, ◌≢◌, Bool, true, false, Option, none, some, List, [], ◌∷◌, ◌++◌, ◌==◌, if◌then◌else◌, ℕ,
}
use lua_resty_ffi.Common.Int.{ℤ}
use lua_resty_ffi.Nginx.{Rc, failed}
use lua_resty_ffi.Store.{Ptr, null, CoCtx, LuaCtx, FfiTaskQueue, Store}
use lua_resty_ffi.Store.Commands.{ok, Live}
use lua_resty_ffi.Queue.Chain.{has}
use lua_resty_ffi.TaskQueue.{PostCalls, PollResult, returned, in_cond_wait, zero_tq}
use lua_resty_ffi.TaskQueue.Post.{IsTaskQueue}
use lua_resty_ffi.TaskQueue.Poll.{Entry, entry_failed, poll}
use lua_resty_ffi.System.{tail}
use lua_resty_ffi.Lua.{
  Runtime, Reply, yields, queue_full, task_queue_is_finished, runtime_post, runtime_unload,
}
use lua_resty_ffi.Lua.Service.{
  Action, takes, refused, turned_down, unloaded_before, unload_lost, unloaded, hands_out, told_end,
  waits, other,
}

-- `pending` are the requests in the queue, `accepted` all requests that were ever queued, `delivered`
-- all that polls have returned, each oldest first.
pub record Life : Type 0 where
  pub store : Store
  pub runtime : Runtime
  pub pending : List Ptr
  pub accepted : List Ptr
  pub delivered : List Ptr

abbrev pub after_post : Life → Ptr → Reply → Store → Life
after_post L fresh yields s = record L {
  store = s;
  pending = L.pending ++ fresh ∷ [];
  accepted = L.accepted ++ fresh ∷ [];
}
after_post L fresh _ s = record L { store = s }

-- NULL is no request.
abbrev pub after_poll : Life → PollResult → Store → Life
after_poll L in_cond_wait s = record L { store = s }
after_poll L (returned p) s =
    if p == null
    then record L { store = s }
    else record L { store = s; pending = tail L.pending; delivered = L.delivered ++ p ∷ [] }

-- What is seen of the steps.
abbrev pub post_action : (fresh : Ptr) → Reply → Action
post_action fresh yields = takes fresh
post_action fresh queue_full = refused
post_action fresh task_queue_is_finished = turned_down

abbrev pub unload_action : Option Rc → Action
unload_action none = unloaded_before
unload_action (some rc) = if failed rc then unload_lost else unloaded

abbrev pub poll_action : PollResult → Action
poll_action in_cond_wait = waits
poll_action (returned p) = if p == null then told_end else hands_out p

-- What malloc and ngx_calloc give for a request, and what holds of its coroutine.
pub record Given (s : Store) (r fresh buf : Ptr) (ctx : LuaCtx) (co : CoCtx) : Type 0 where
  pub ctx_of : s.lua_ctxs r ≡ some ctx
  pub co_of : Live s.coros ctx.cur_co_ctx co
  pub fresh_ne : fresh ≢ null
  pub unused : s.tasks fresh ≡ none
  pub unused_ctx : s.ctxs fresh ≡ none
  pub buf_ne : buf ≢ null

-- The unlocks succeed; all other calls of nginx may fail.
pub data Step (L : Life) : Life → Type 0 where
  posts :
      (calls : PostCalls) (r fresh buf : Ptr) (req : Option (List ℕ)) {ctx : LuaCtx} {co : CoCtx}
      {reply : Reply} {s : Store}
      → Given L.store r fresh buf ctx co
      → failed calls.mutex_unlock ≡ false
      → runtime_post calls r fresh buf req L.runtime L.store ≡ ok reply s
      → Step L (after_post L fresh reply s)
  unloads :
      (calls : PostCalls) (fresh : Ptr) {runtime : Runtime} {rc : Option Rc} {s : Store}
      → fresh ≢ null
      → L.store.tasks fresh ≡ none
      → failed calls.mutex_unlock ≡ false
      → runtime_unload calls fresh L.runtime L.store ≡ ok (runtime, rc) s
      → Step L (record L { store = s; runtime = runtime })
  polls :
      (e : Entry) (unlocked : Rc) {answer : PollResult} {s : Store}
      → entry_failed e ≡ false
      → failed unlocked ≡ false
      → poll e unlocked L.store ≡ ok answer s
      → Step L (after_poll L answer s)
  elsewhere :
      (s : Store)
      → s.tq ≡ L.store.tq
      → ((tp : FfiTaskQueue) (xs : List Ptr)
          → IsTaskQueue L.store tp xs
          → (a : Ptr) → has a xs ≡ true
          → s.tasks a ≡ L.store.tasks a)
      → Step L (record L { store = s })

-- A runtime whose queue was just created, over the memory `s`.
abbrev pub loaded : Store → (max_queue : ℤ) → Life
loaded s max_queue = record {
  store = record s { tq = some (record zero_tq { max_queue = max_queue }) };
  runtime = record { finished = false; has_tq = true; cached = true };
  pending = [];
  accepted = [];
  delivered = [];
}

pub data Reach (s : Store) (max_queue : ℤ) : Life → Type 0 where
  start : Reach s max_queue (loaded s max_queue)
  later : {L M : Life} → Reach s max_queue L → Step L M → Reach s max_queue M

-- What is seen of a step.
abbrev pub action : {L M : Life} → Step L M → Action
action (posts calls r fresh buf req {reply = reply} g u e) = post_action fresh reply
action (unloads calls fresh {rc = rc} ne unused u e) = unload_action rc
action (polls e unlocked {answer = answer} a u polled) = poll_action answer
action (elsewhere s same_tq same) = other

-- What is seen on a way to a state, the first action first.
pub data Trace (s : Store) (max_queue : ℤ) : Life → List Action → Type 0 where
  nothing_yet : Trace s max_queue (loaded s max_queue) []
  then_seen :
      {L M : Life} {acts : List Action}
      → Trace s max_queue L acts
      → (step : Step L M) → Trace s max_queue M (acts ++ action step ∷ [])
