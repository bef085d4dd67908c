-- ===== src/Examples/Queues.antt =====
-- The theorems on the task queue at the memories of Data.
use lua_resty_ffi.Common.{◌≡◌, ◌≢◌, refl, true, none, some, [], ◌∷◌, arith, ◌==◌, if◌then◌else◌}
use lua_resty_ffi.Common.Int.{pos, ◌+ℤ◌}
use lua_resty_ffi.Nginx.{ngx_ok, ngx_error}
use lua_resty_ffi.Store.{ffi_event_handler, Ptr, null, Task, FfiTaskQueue, Queue, Store, next_of}
use lua_resty_ffi.Store.Commands.{ok, fault, write, Live}
use lua_resty_ffi.Queue.Chain.{IsQueue}
use lua_resty_ffi.Event.{cleanup}
use lua_resty_ffi.Task.{zero_task, get_req}
use lua_resty_ffi.Task.Free.{without}
use lua_resty_ffi.TaskQueue.{returned, zero_tq, post, task_post}
use lua_resty_ffi.TaskQueue.Post.{IsTaskQueue, Posted, post_outcome}
use lua_resty_ffi.TaskQueue.Poll.{enters, poll, polled, poll_first, poll_lost}
use lua_resty_ffi.Queue.Laws.{event_at}
use lua_resty_ffi.TaskQueue.TaskPost.{new_ctx, tied, task_post_queued, task_post_refused}
use lua_resty_ffi.TaskQueue.Drain.{drain, drain_all}
use lua_resty_ffi.Examples.Data.{
  idle, busy, tq, co, calls, in_queue, live_10, live_20, live_co, busy-IsQueue, busy-IsTaskQueue,
}

post_outcome_example :
    (s' : Store) × (tp' : FfiTaskQueue) × (post calls 10 busy ≡ ok ngx_ok s')
    × Posted busy tq (20 ∷ 30 ∷ []) 10 true s' tp'
post_outcome_example = post_outcome calls 10 (20 ∷ 30 ∷ []) busy busy-IsTaskQueue live_10 refl refl

task_post_queued_example :
    (s' : Store) × (tp' : FfiTaskQueue) × (task_post calls 3 40 100 (pos 2) busy ≡ ok ngx_ok s')
    × IsTaskQueue s' tp' (20 ∷ 30 ∷ 40 ∷ [])
    × (tp'.waiting ≡ tq.waiting +ℤ pos 1)
    × (s'.ctxs 40 ≡ some (new_ctx 5 100 (pos 2)))
    × (s'.coros 5 ≡ some (tied co 40))
    × (event_at s'.tasks 40 ≡ some (ffi_event_handler, 40))
    × (get_req 40 true s' ≡ ok (100, some (pos 2)) s')
task_post_queued_example =
    task_post_queued calls 3 40 100 (pos 2) (20 ∷ 30 ∷ []) busy refl live_co (omega arith) refl
      busy-IsTaskQueue refl refl

-- The queue with one task more than its limit lets in.
abbrev full_tq : FfiTaskQueue
full_tq = record tq { max_queue = pos 2 }

abbrev full : Store
full = record busy { tq = some full_tq }

full-IsTaskQueue : IsTaskQueue full full_tq (20 ∷ 30 ∷ [])
full-IsTaskQueue = record { present = refl; unlocked = refl; queue = busy-IsQueue }

task_post_refused_example :
    (s' : Store) × (tp' : FfiTaskQueue) × (task_post calls 3 40 100 (pos 2) full ≡ ok ngx_error s')
    × IsTaskQueue s' tp' (20 ∷ 30 ∷ [])
    × (tp'.waiting ≡ full_tq.waiting)
    × ((a : Ptr) → s'.tasks a ≡ full.tasks a)
    × ((a : Ptr) → s'.ctxs a ≡ full.ctxs a)
    × (s'.bufs ≡ without 100 full.bufs)
    × ((p : Ptr) → 5 ≢ p → s'.coros p ≡ full.coros p)
    × (s'.done ≡ full.done)
    × (cleanup 5 s' ≡ fault)
task_post_refused_example =
    task_post_refused calls 3 40 100 (pos 2) (20 ∷ 30 ∷ []) full refl live_co (omega arith) refl
      full-IsTaskQueue refl refl (λ h e. cc) refl

poll_first_example :
    (q : Queue) × (poll (enters ngx_ok) ngx_ok busy
      ≡ ok (returned 20) (record busy { tq = some (polled (enters ngx_ok) tq q) }))
    × IsTaskQueue
        (record busy { tq = some (polled (enters ngx_ok) tq q) })
        (polled (enters ngx_ok) tq q)
        (30 ∷ [])
poll_first_example =
    poll_first (enters ngx_ok) ngx_ok busy busy-IsTaskQueue live_20 refl refl (omega arith)

poll_lost_example :
    (q : Queue) × (poll (enters ngx_ok) ngx_error busy
      ≡ ok
          (returned null)
          (record busy { tq = some (record (polled (enters ngx_ok) tq q) { locked = true }) }))
    × IsQueue busy.tasks q (30 ∷ [])
poll_lost_example = poll_lost (enters ngx_ok) ngx_error busy busy-IsTaskQueue live_20 refl refl

abbrev empty : Store
empty = record idle { tq = some zero_tq }

-- Two requests and the task at 50, which ends the queue.
abbrev last_task : Task
last_task = record zero_task { active = true }

abbrev closing_tq : FfiTaskQueue
closing_tq = record tq { queue = record { first = 20; last = next_of 50 }; waiting = pos 3 }

abbrev closing : Store
closing = record busy {
  tasks = λ a.
      if a == 20
      then some (in_queue 20 30)
      else if a == 30
      then some (in_queue 30 50)
      else if a == 50
      then some last_task
      else none;
  tq = some closing_tq;
}

closing_20 : Live closing.tasks 20 (in_queue 20 30)
closing_20 = record { ne_null = omega arith; holds = refl }

closing_30 : Live closing.tasks 30 (in_queue 30 50)
closing_30 = record { ne_null = omega arith; holds = refl }

closing_50 : Live closing.tasks 50 last_task
closing_50 = record { ne_null = omega arith; holds = refl }

closing-IsTaskQueue : IsTaskQueue closing closing_tq (20 ∷ 30 ∷ 50 ∷ [])
closing-IsTaskQueue = record {
  present = refl;
  unlocked = refl;
  queue = record {
    chain = (
      in_queue 20 30,
      refl,
      closing_20,
      (in_queue 30 50, refl, closing_30, (last_task, refl, closing_50, refl)),
    );
    last = refl;
    distinct = (refl, (refl, (refl, tt)));
  };
}

drain_all_example :
    drain 3 closing
    ≡ ok
        (20 ∷ 30 ∷ [], true)
        (record closing {
          tasks = write closing.tasks 50 none;
          ctxs = write closing.ctxs 50 none;
          tq = none;
        })
drain_all_example =
    drain_all 50 (20 ∷ 30 ∷ []) closing closing-IsTaskQueue
      (in_queue 20 30, closing_20, omega arith, (in_queue 30 50, closing_30, omega arith, tt))
      (record { task = last_task; live = closing_50; no_ctx = refl })
