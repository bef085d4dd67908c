-- ===== src/TaskQueue.antt =====
-- ngx_http_lua_ffi.c, the task queue of a runtime. What a call of a mutex or condition variable
-- answers is an argument. A poll that waits is cut at ngx_thread_cond_wait, where the mutex is
-- released and other threads run.
pub mod Create
pub mod Drain
pub mod Finish
pub mod Poll
pub mod Post
pub mod Queued
pub mod TaskPost
use lua_resty_ffi.Common.{◌==◌, if◌then◌else◌, ◌&&◌, not, Bool, true, false, some, none, suc}
use lua_resty_ffi.Common.Int.{ℤ, pos, ◌+ℤ◌, ◌-ℤ◌, leb_ℤ}
use lua_resty_ffi.Nginx.{Rc, ngx_ok, ngx_error, failed}
use lua_resty_ffi.Store.{Ptr, null, queue_first, FfiTaskQueue, Queue}
use lua_resty_ffi.Store.Commands.{
  Cmd, ok, fault, pure, ◌>>=◌, ◌>>◌, load_task, load_tq, set_task, set_ctx, set_tq, free_block,
  write,
}
use lua_resty_ffi.Queue.{append, remove}
use lua_resty_ffi.Task.{task_free, create_task, zero_task}

abbrev pub empty_queue : Queue
empty_queue = record { first = null; last = queue_first }

-- What ngx_calloc leaves; `last` is NULL there and is set before it is used.
abbrev pub zero_tq : FfiTaskQueue
zero_tq = record {
  locked = false;
  queue = empty_queue;
  waiting = pos 0;
  signals = 0;
  max_queue = pos 0;
}

-- The mutex: a lock that succeeds takes it, an unlock that succeeds gives it back.
lock : Rc → Cmd Rc
lock rc = if failed rc then pure rc else do set_tq (λ q. record q { locked = true }); pure rc

unlock : Rc → Cmd Rc
unlock rc = if failed rc then pure rc else do set_tq (λ q. record q { locked = false }); pure rc

-- What the nginx calls of a post answer.
pub record PostCalls : Type 0 where
  pub mutex_lock : Rc
  pub cond_signal : Rc
  pub mutex_unlock : Rc

-- The part of ngx_task_post that runs under the mutex and below the check of the queue's length.
enqueue : PostCalls → Ptr → Cmd Rc
unfolding unlock
enqueue calls task = do
  set_task task (λ t. record t { active = true })
  set_task task (λ t. record t { id = 0; next = null })
  if failed calls.cond_signal then (do unlock calls.mutex_unlock; pure ngx_error) else do
    set_tq (λ tp. record tp { signals = suc tp.signals })
    tp ← load_tq
    q ← append tp.queue task
    set_tq (λ tp. record tp { queue = q })
    set_tq (λ tp. record tp { waiting = tp.waiting +ℤ pos 1 })
    unlock calls.mutex_unlock
    pure ngx_ok

unfoldable pub post : PostCalls → Ptr → Cmd Rc
unfolding lock unlock enqueue
post calls task = do
  t ← load_task task
  if t.active then pure ngx_error else do
    locked ← lock calls.mutex_lock
    if failed locked then pure ngx_error else do
      tp ← load_tq
      if not (t.ctx == null) && leb_ℤ tp.max_queue tp.waiting
          then (do unlock calls.mutex_unlock; pure ngx_error)
          else enqueue calls task

-- ngx_http_lua_ffi_task_post: `fresh` is what the allocation of the task returns.
unfoldable pub task_post : PostCalls → (r fresh : Ptr) → (req : Ptr) → (req_len : ℤ) → Cmd Rc
task_post calls r fresh req req_len = do
  task ← create_task r fresh
  t ← load_task task
  set_ctx t.ctx (λ c. record c { req = req; req_len = req_len })
  rc ← post calls task
  if failed rc then (do task_free t.ctx; pure ngx_error) else pure ngx_ok

-- ngx_calloc of a task alone, without a context behind it.
alloc_plain : Ptr → Cmd Ptr
alloc_plain fresh = if fresh == null then pure null else λ s.
    ok fresh (record s { tasks = write s.tasks fresh (some zero_task) })

-- ngx_http_lua_ffi_task_finish
unfoldable pub task_finish : PostCalls → (fresh : Ptr) → Cmd Rc
unfolding alloc_plain
task_finish calls fresh = do
  task ← alloc_plain fresh
  rc ← post calls task
  if failed rc then (do free_block task; pure ngx_error) else pure ngx_ok

free_tq : Cmd (Unit {0})
unfolding load_tq
free_tq = do load_tq; λ s. ok tt (record s { tq = none })

-- ngx_http_lua_ffi_free_task_queue: the mutex and the condition variable go with the queue.
unfoldable pub free_task_queue : Cmd (Unit {0})
unfolding free_tq
free_task_queue = free_tq

-- `allocated` says that ngx_calloc gave a block; through NULL the first write is a fault. The
-- result says whether a queue is returned.
unfoldable pub create_task_queue :
    (allocated : Bool) → (mutex_create cond_create : Rc) → (max_queue : ℤ) → Cmd Bool
unfolding free_tq
create_task_queue allocated mutex_create cond_create max_queue =
    if not allocated then (λ s. fault) else do
      λ s. ok tt (record s { tq = some zero_tq })
      set_tq (λ q. record q { queue = empty_queue })
      if failed mutex_create
          then (do free_tq; pure false)
          else if failed cond_create
          then (do free_tq; pure false)
          else do set_tq (λ q. record q { max_queue = max_queue }); pure true

-- Where a poll stands when it gives up control: it has returned a task or NULL, or it waits.
pub data PollResult : Type 0 where
  returned : Ptr → PollResult
  in_cond_wait : PollResult

-- From the end of the `while` loop on.
take_first : (mutex_unlock : Rc) → Cmd PollResult
unfolding unlock
take_first mutex_unlock = do
  tp ← load_tq
  t ← load_task tp.queue.first
  q ← remove tp.queue
  set_tq (λ tp. record tp { queue = q })
  unlocked ← unlock mutex_unlock
  if failed unlocked
      then pure (returned null)
      else if not (t.ctx == null)
      then pure (returned tp.queue.first)
      else do free_block tp.queue.first; free_task_queue; pure (returned null)

-- The test of the `while` loop; to wait is to release the mutex.
poll_check : (mutex_unlock : Rc) → Cmd PollResult
unfolding take_first
poll_check mutex_unlock = do
  tp ← load_tq
  if tp.queue.first == null
      then (do set_tq (λ q. record q { locked = false }); pure in_cond_wait)
      else take_first mutex_unlock

-- ngx_http_lua_ffi_task_poll, from the call to its return or its first wait.
unfoldable pub task_poll : (mutex_lock mutex_unlock : Rc) → Cmd PollResult
unfolding lock poll_check
task_poll mutex_lock mutex_unlock = do
  locked ← lock mutex_lock
  if failed locked
      then pure (returned null)
      else do set_tq (λ q. record q { waiting = q.waiting -ℤ pos 1 }); poll_check mutex_unlock

-- From the return of ngx_thread_cond_wait, which holds the mutex again, to the return of the poll or
-- its next wait.
unfoldable pub poll_wake : (cond_wait mutex_unlock : Rc) → Cmd PollResult
unfolding unlock poll_check
poll_wake cond_wait mutex_unlock = do
  set_tq (λ q. record q { locked = true })
  if failed cond_wait
      then (do unlock mutex_unlock; pure (returned null))
      else poll_check mutex_unlock
