-- ===== src/Examples/Schedule.antt =====
-- Two pollers go to sleep, a task is posted, which wakes one of them, and that one takes it.
use lua_resty_ffi.Common.{◌+◌, ◌<◌, ◌≡◌, refl, some, ◌++◌, arith, length}
use lua_resty_ffi.Common.Int.{pos, sub_ℕ, ◌≤ℤ◌, ◌+ℤ◌, ◌-ℤ◌}
use lua_resty_ffi.Nginx.{ngx_ok}
use lua_resty_ffi.Store.{FfiTaskQueue}
use lua_resty_ffi.Store.Commands.{deref, write, load_task, load_tq, set_task, set_tq}
use lua_resty_ffi.Queue.{append, remove}
use lua_resty_ffi.TaskQueue.{post, task_poll, poll_wake}
use lua_resty_ffi.TaskQueue.Post.{IsTaskQueue}
use lua_resty_ffi.TaskQueue.Poll.{enters, poll}
use lua_resty_ffi.System.{System, Reach, start, later, posts, polls}
use lua_resty_ffi.System.Safety.{delivered_in_order, waiting_counts, awake_poller}
use lua_resty_ffi.Examples.Data.{idle, calls}

-- Two pollers sleep, the task at 10 is posted, and one poller is awake.
woken : (S : System) × Reach idle (pos 3) S
unfolding post poll append remove task_poll poll_wake deref write load_task load_tq set_task set_tq
    ◌+ℤ◌ ◌-ℤ◌
woken = (
  _,
  later
      (later (later start (polls (enters ngx_ok) ngx_ok (omega arith) refl refl refl))
        (polls (enters ngx_ok) ngx_ok (omega arith) refl refl refl))
      (posts calls 10 (record { ne_null = omega arith; holds = refl }) (omega arith) refl refl
        refl),
)

delivered_in_order_example :
    (tp : FfiTaskQueue) × IsTaskQueue woken.0.store tp woken.0.pending
    × (woken.0.delivered ++ woken.0.pending ≡ woken.0.accepted)
delivered_in_order_example = delivered_in_order (omega arith) woken.1

waiting_counts_example :
    (tp : FfiTaskQueue) × (woken.0.store.tq ≡ some tp)
    × (tp.waiting ≡ sub_ℕ (length woken.0.pending) (woken.0.asleep + woken.0.awake))
    × (pos (length woken.0.pending) ≤ℤ pos 3 +ℤ pos (woken.0.asleep + woken.0.awake))
waiting_counts_example = waiting_counts (omega arith) woken.1

awake_poller_example : 0 < woken.0.awake
unfolding woken
awake_poller_example = awake_poller (omega arith) woken.1 (λ h. cc) (omega arith)
