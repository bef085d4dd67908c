-- ===== src/Queue.antt =====
-- The intrusive queue that ngx_http_lua_ffi.c writes out three times, for ngx_thread_pool_done and
-- for the task queue: `*q.last = task; q.last = &task->next;` and its removal from the front.
pub mod Chain
pub mod Laws
use lua_resty_ffi.Common.{some, none, ◌==◌, if◌then◌else◌}
use lua_resty_ffi.Store.{Ptr, null, Task, Slot, queue_first, next_of, Queue}
use lua_resty_ffi.Store.Commands.{Cmd, pure, ◌>>=◌, ◌>>◌, load_task, set_task}

-- `*slot = task`, where the slot is the queue's own `first` or the `next` of a task.
store_slot : Slot → Ptr → Queue → Cmd Queue
store_slot queue_first task q = pure (record q { first = task })
store_slot (next_of p) task q = do set_task p (λ t. record t { next = task }); pure q

-- `*q.last = task; q.last = &task->next;`
unfoldable pub append : Queue → Ptr → Cmd Queue
unfolding store_slot set_task
append q task = do q' ← store_slot q.last task q; pure (record q' { last = next_of task })

-- `task = q.first; q.first = task->next; if (q.first == NULL) q.last = &q.first;`
unfoldable pub remove : Queue → Cmd Queue
unfolding load_task
remove q = do
  t ← load_task q.first
  pure (record { first = t.next; last = if t.next == null then queue_first else q.last })
