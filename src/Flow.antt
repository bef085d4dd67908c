-- ===== src/Flow.antt =====
-- All requests of a runtime at once, each on its way through resty_ffi.lua and ngx_http_lua_ffi.c:
-- posted by a coroutine, handed out by a poll, answered by a thread of the runtime, taken by nginx, and
-- handled in its event loop, while coroutines may be torn down and the runtime may be unloaded. Any
-- order of these steps is allowed. Of the tasks of other thread pools, which go through
-- ngx_thread_pool_done too, there are none.
pub mod Accepted
pub mod Answers
pub mod Buffers
pub mod Complete
pub mod Count
pub mod Invariant
pub mod Polls
pub mod Posts
pub mod Quiet
pub mod Drained
pub mod Gone
pub mod Handled
pub mod Refused
pub mod Returns
pub mod Safety
pub mod Serves
pub mod Sound
pub mod Steps
pub mod Unloads
use lua_resty_ffi.Common.{
  ℕ, ◌+◌, ◌≡◌, ◌≢◌, ◌<◌, ◌==◌, if◌then◌else◌, Bool, true, false, Option, none, some, List, [], ◌∷◌,
  ◌++◌, length,
}
use lua_resty_ffi.Common.Int.{ℤ, pos}
use lua_resty_ffi.Nginx.{Rc, failed}
use lua_resty_ffi.Store.{Ptr, null, FfiTaskCtx, CoCtx, LuaCtx, LuaValue, nil, ffi_cleanup, Store}
use lua_resty_ffi.Store.Commands.{ok, Live, write}
use lua_resty_ffi.Queue.Chain.{has, Chain}
use lua_resty_ffi.Queue.Laws.{ctx_at}
use lua_resty_ffi.Task.{zero_ctx}
use lua_resty_ffi.TaskQueue.{PostCalls, PollResult, returned, in_cond_wait, empty_queue, zero_tq}
use lua_resty_ffi.TaskQueue.Poll.{Entry, entry_failed, poll}
use lua_resty_ffi.System.{tail}
use lua_resty_ffi.Response.{respond}
use lua_resty_ffi.Response.Inject.{answered}
use lua_resty_ffi.Event.{run_event, cleanup}
use lua_resty_ffi.Event.Results.{Payload}
use lua_resty_ffi.Lua.{
  Runtime, Reply, yields, queue_full, task_queue_is_finished, request_ptr, runtime_post,
  runtime_unload,
}
use lua_resty_ffi.Lua.Life.Request.{with_request}

-- The coroutine that made a request, whether it was torn down since, the bytes of the request, and
-- the answer: the code, and the value that the response stands for.
pub record Request : Type 0 where
  pub by : Ptr
  pub torn : Bool
  pub req : Option (List ℕ)
  pub code : ℤ
  pub value : LuaValue

abbrev pub no_answer : Ptr → Option (List ℕ) → Request
no_answer w req = record { by = w; torn = false; req = req; code = pos 0; value = nil }

-- A pointer and a length as those of a request: NULL for none, or a buffer with its bytes and a 0.
abbrev pub Asked : Ptr → ℤ → (Ptr → Option (List ℕ)) → Option (List ℕ) → Type 0
Asked p n h none = (p ≡ null) × (n ≡ pos 0)
Asked p n h (some bytes) = (p ≢ null) × (h p ≡ some (bytes ++ 0 ∷ [])) × (n ≡ pos (length bytes))

-- Where the requests are: in the task queue, with the runtime, in the queue of the answered ones, and
-- taken from there by nginx. `owner` says which task a buffer belongs to, `about` what is known of a
-- request. The last four are what was ever accepted, polled, answered and handled, each oldest first.
pub record Flow : Type 0 where
  pub store : Store
  pub runtime : Runtime
  pub queued : List Ptr
  pub held : List Ptr
  pub done : List Ptr
  pub taken : List Ptr
  pub owner : Ptr → Ptr
  pub about : Ptr → Request
  pub accepted : List Ptr
  pub polled : List Ptr
  pub replied : List Ptr
  pub handled : List Ptr

-- How often an address is in a list, and in how many places a request is.
abbrev pub one : Bool → ℕ
one true = 1
one false = 0

abbrev pub count : Ptr → List Ptr → ℕ
count a [] = 0
count a (x ∷ xs) = one (x == a) + count a xs

abbrev pub drop_one : Ptr → List Ptr → List Ptr
drop_one a [] = []
drop_one a (x ∷ xs) = if x == a then xs else x ∷ drop_one a xs

abbrev pub in_flight : Flow → Ptr → ℕ
in_flight F a = count a F.queued + count a F.held + count a F.done + count a F.taken

abbrev pub Out : Flow → Ptr → Type 0
Out F a = 0 < in_flight F a

abbrev pub set : {A : Type 0} → (Ptr → A) → Ptr → A → Ptr → A
set m p x a = if p == a then x else m a

-- The coroutine at `w` waits for no request.
abbrev pub Runs : Flow → Ptr → Type 0
Runs F w =
    (a : Ptr) (c : FfiTaskCtx)
    → Out F a
    → F.store.ctxs a ≡ some c
    → c.is_abort ≡ false
    → c.wait_co_ctx ≢ w

-- The coroutine at `w` asked with the block `fresh` and the request at `ptr`.
abbrev pub after_post : Flow → (fresh ptr w : Ptr) → Option (List ℕ) → Reply → Store → Flow
after_post F fresh ptr w req yields s = record F {
  store = s;
  queued = F.queued ++ fresh ∷ [];
  accepted = F.accepted ++ fresh ∷ [];
  owner = set F.owner ptr fresh;
  about = set F.about fresh (no_answer w req);
}
after_post F fresh ptr w req queue_full s = record F { store = s }
after_post F fresh ptr w req task_queue_is_finished s = record F { store = s }

-- NULL is no request.
abbrev pub after_poll : Flow → PollResult → Store → Flow
after_poll F in_cond_wait s = record F { store = s }
after_poll F (returned p) s = if p == null then record F { store = s } else record F {
  store = s;
  queued = tail F.queued;
  held = F.held ++ p ∷ [];
  polled = F.polled ++ p ∷ [];
}

-- What the rest of the program must leave alone: the queues, the tasks, and the buffers and waiting
-- coroutines of the requests.
pub record Spares (F : Flow) (s : Store) : Type 0 where
  pub tq : s.tq ≡ F.store.tq
  pub done : s.done ≡ F.store.done
  pub tasks : (a : Ptr) → Out F a → s.tasks a ≡ F.store.tasks a
  pub finishing : (a : Ptr) → ctx_at F.store.tasks a ≡ some null → s.tasks a ≡ F.store.tasks a
  pub ctxs : s.ctxs ≡ F.store.ctxs
  pub bufs :
      (a : Ptr) (c : FfiTaskCtx)
      → Out F a
      → F.store.ctxs a ≡ some c
      → (s.bufs c.req ≡ F.store.bufs c.req) × (s.bufs c.rsp ≡ F.store.bufs c.rsp)
  pub coros :
      (a : Ptr) (c : FfiTaskCtx)
      → Out F a
      → F.store.ctxs a ≡ some c
      → c.is_abort ≡ false
      → s.coros c.wait_co_ctx ≡ F.store.coros c.wait_co_ctx

-- What malloc and ngx_calloc give for a request of a coroutine that runs.
pub record Fresh (F : Flow) (r fresh buf : Ptr) (ctx : LuaCtx) (co : CoCtx) : Type 0 where
  pub ctx_of : F.store.lua_ctxs r ≡ some ctx
  pub co_of : Live F.store.coros ctx.cur_co_ctx co
  pub runs : Runs F ctx.cur_co_ctx
  pub fresh_ne : fresh ≢ null
  pub unused : F.store.tasks fresh ≡ none
  pub buf_ne : buf ≢ null
  pub buf_unused : F.store.bufs buf ≡ none

-- A response that is not NULL is a new buffer.
abbrev pub Room : Store → (buf : Ptr) → Option (List ℕ) → Type 0
Room s buf none = Unit
Room s buf (some bytes) = (buf ≢ null) × (s.bufs buf ≡ none)

-- The unlocks succeed, and `unloads` has a block that malloc gives for the task that ends the queue.
-- A response is a new buffer or NULL, and stands for a value. `get_req`
-- is ngx_http_lua_get_req. nginx takes the answered tasks as the queue of ngx_thread_pool_done has
-- them in memory, from its `first` along `next`, and then calls the handler of the event of each.
pub data Step (get_req : Ptr → Ptr) (F : Flow) : Flow → Type 0 where
  posts :
      (calls : PostCalls) (r fresh buf : Ptr) (req : Option (List ℕ)) {ctx : LuaCtx} {co : CoCtx}
      {reply : Reply} {s : Store}
      → Fresh F r fresh buf ctx co
      → failed calls.mutex_unlock ≡ false
      → runtime_post calls r fresh buf req F.runtime F.store ≡ ok reply s
      → Step get_req F (after_post F fresh (request_ptr buf req) ctx.cur_co_ctx req reply s)
  unloads :
      (calls : PostCalls) (fresh : Ptr) {runtime : Runtime} {rc : Option Rc} {s : Store}
      → fresh ≢ null
      → F.store.tasks fresh ≡ none
      → failed calls.mutex_unlock ≡ false
      → runtime_unload calls fresh F.runtime F.store ≡ ok (runtime, rc) s
      → Step get_req F (record F { store = s; runtime = runtime })
  polls :
      (e : Entry) (unlocked : Rc) {answer : PollResult} {s : Store}
      → entry_failed e ≡ false
      → failed unlocked ≡ false
      → poll e unlocked F.store ≡ ok answer s
      → Step get_req F (after_poll F answer s)
  responds :
      (a : Ptr) (rc : ℤ) (buf : Ptr) (rsp : Option (List ℕ)) (rsp_len : ℤ) {v : LuaValue}
      {s : Store}
      → has a F.held ≡ true
      → Room F.store buf rsp
      → Payload
          (answered zero_ctx rc (request_ptr buf rsp) rsp_len)
          (with_request buf rsp F.store).bufs
          v
      → respond a rc (request_ptr buf rsp) rsp_len (with_request buf rsp F.store) ≡ ok tt s
      → Step get_req F (record F {
        store = s;
        held = drop_one a F.held;
        done = F.done ++ a ∷ [];
        replied = F.replied ++ a ∷ [];
        owner = set F.owner (request_ptr buf rsp) a;
        about = set F.about a (record (F.about a) { code = rc; value = v });
      })
  takes :
      (xs : List Ptr)
      → F.taken ≡ []
      → Chain F.store.tasks F.store.done.first xs
      → Step get_req F
          (record F { store = record F.store { done = empty_queue }; done = []; taken = xs })
  handles :
      (a : Ptr) (rest : List Ptr) (run_rc posted_rc : Rc) {s : Store}
      → F.taken ≡ a ∷ rest
      → run_event get_req run_rc posted_rc a F.store ≡ ok tt s
      → Step get_req F (record F { store = s; taken = rest; handled = F.handled ++ a ∷ [] })
  tears_down :
      (a : Ptr) {c : FfiTaskCtx} {s : Store}
      → Out F a
      → F.store.ctxs a ≡ some c
      → c.is_abort ≡ false
      → cleanup c.wait_co_ctx F.store ≡ ok tt s
      → Step get_req F (record F {
        store = record s { coros = write s.coros c.wait_co_ctx none };
        about = set F.about a (record (F.about a) { torn = true });
      })
  elsewhere : (s : Store) → Spares F s → Step get_req F (record F { store = s })

-- A runtime that was just loaded, over a memory without requests.
abbrev pub loaded : Store → (max_queue : ℤ) → Flow
loaded s max_queue = record {
  store = record s {
    tq = some (record zero_tq { max_queue = max_queue });
    done = empty_queue;
    ctxs = λ a. none;
  };
  runtime = record { finished = false; has_tq = true; cached = true };
  queued = [];
  held = [];
  done = [];
  taken = [];
  owner = λ p. null;
  about = λ p. no_answer null none;
  accepted = [];
  polled = [];
  replied = [];
  handled = [];
}

pub data Reach (get_req : Ptr → Ptr) (s : Store) (max_queue : ℤ) : Flow → Type 0 where
  start : Reach get_req s max_queue (loaded s max_queue)
  later :
      {F G : Flow} → Reach get_req s max_queue F → Step get_req F G → Reach get_req s max_queue G
