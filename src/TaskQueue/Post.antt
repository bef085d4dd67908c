-- ===== src/TaskQueue/Post.antt =====
-- ngx_task_post of ngx_http_lua_ffi.c against the list of tasks that the queue stands for.
use lua_resty_ffi.Common.{
  Bool-cases, ◌≡◌, ◌≢◌, refl, ◌∙◌, Bool, true, false, not, ◌&&◌, some, List, [], ◌∷◌, ◌++◌, arith,
  suc, ◌==◌, if◌then◌else◌, inl, inr,
}
use lua_resty_ffi.Common.Int.{pos, ◌+ℤ◌, leb_ℤ}
use lua_resty_ffi.Nginx.{Rc, ngx_ok, ngx_error, failed}
use lua_resty_ffi.Store.{Ptr, null, Task, FfiTaskQueue, Queue, Store}
use lua_resty_ffi.Store.Commands.{
  ok, write, deref, Live, deref-Live, write-Live, load_task, load_tq, set_task, set_tq,
}
use lua_resty_ffi.Queue.{append}
use lua_resty_ffi.Queue.Chain.{Tasks, ne_of_has, has, last_slot, IsQueue, Chain-frame}
use lua_resty_ffi.Queue.Laws.{
  linked, appended, append_lem, ctx_at, ctx_at-linked, event_at, event_at-linked, linked_outside,
}
use lua_resty_ffi.TaskQueue.{PostCalls, lock, post}

-- The queue is allocated, its mutex is free, and it holds the tasks `xs`.
pub record IsTaskQueue (s : Store) (tp : FfiTaskQueue) (xs : List Ptr) : Type 0 where
  pub present : s.tq ≡ some tp
  pub unlocked : tp.locked ≡ false
  pub queue : IsQueue s.tasks tp.queue xs

-- The calls of nginx all succeed.
pub record Succeed (calls : PostCalls) : Type 0 where
  pub mutex_lock : failed calls.mutex_lock ≡ false
  pub cond_signal : failed calls.cond_signal ≡ false
  pub mutex_unlock : failed calls.mutex_unlock ≡ false

-- `task->ctx && tp->waiting >= tp->max_queue`
abbrev pub is_full : Task → FfiTaskQueue → Bool
is_full t tp = not (t.ctx == null) && leb_ℤ tp.max_queue tp.waiting

-- The task as it stands in the queue.
abbrev pub queued : Task → Task
queued t = record t { active = true; id = 0; next = null }

-- The queue with the mutex taken and the signal sent.
abbrev sent : FfiTaskQueue → FfiTaskQueue
sent tp = record tp { locked = true; signals = suc tp.signals }

-- The memory after the two writes to the task.
marked : Tasks → Ptr → Task → Tasks
marked h task t = write (write h task (some (record t { active = true }))) task (some (queued t))

module _ (calls : PostCalls) (task : Ptr) {t : Task} {tp : FfiTaskQueue} (s : Store)
    (here : s.tq ≡ some tp) (l : Live s.tasks task t) where
  post_active : t.active ≡ true → post calls task s ≡ ok ngx_error s
  unfolding post load_task
  post_active busy = rw (deref-Live l, busy)

  post_lock : failed calls.mutex_lock ≡ true → t.active ≡ false → post calls task s ≡ ok ngx_error s
  unfolding post load_task deref
  post_lock a idle = ground (arith, l.ne_null, l.holds)

  post_full :
      failed calls.mutex_lock ≡ false
      → failed calls.mutex_unlock ≡ false
      → t.active ≡ false
      → is_full t tp ≡ true
      → post calls task s ≡ ok ngx_error (record s { tq = some (record tp { locked = false }) })
  unfolding post load_task set_tq load_tq deref
  post_full a b idle full = ground (arith, l.ne_null, l.holds)

  post_signal :
      failed calls.mutex_lock ≡ false
      → failed calls.cond_signal ≡ true
      → failed calls.mutex_unlock ≡ false
      → t.active ≡ false
      → is_full t tp ≡ false
      → post calls task s
        ≡ ok ngx_error
            (record s { tasks = marked s.tasks task t; tq = some (record tp { locked = false }) })
  unfolding post load_task set_task set_tq load_tq deref write marked
  post_signal a b c idle room = ground (arith, l.ne_null, l.holds)

  -- A post that goes through, up to the memory that `append` leaves.
  post-ok :
      (g : Tasks) (q : Queue)
      → Succeed calls
      → t.active ≡ false
      → is_full t tp ≡ false
      → append tp.queue task (record s { tasks = marked s.tasks task t; tq = some (sent tp) })
        ≡ ok q (record s { tasks = g; tq = some (sent tp) })
      → post calls task s
        ≡ ok ngx_ok (record s {
          tasks = g;
          tq = some (record (sent tp) { locked = false; queue = q; waiting = tp.waiting +ℤ pos 1 });
        })
  unfolding post load_task set_task set_tq load_tq deref write marked
  post-ok g q v idle room e =
      ground (arith, l.ne_null, l.holds, v.mutex_lock, v.cond_signal, v.mutex_unlock)

-- What a post needs in order to go through.
abbrev pub accepts : PostCalls → Task → FfiTaskQueue → Bool
accepts calls t tp =
    not t.active
    && not (failed calls.mutex_lock)
    && not (is_full t tp)
    && not (failed calls.cond_signal)

-- The outcome of a post of `task` on a queue of the tasks `xs`.
pub record Posted (s : Store) (tp : FfiTaskQueue) (xs : List Ptr) (task : Ptr) (accepted : Bool)
    (s' : Store) (tp' : FfiTaskQueue) : Type 0 where
  pub tq : IsTaskQueue s' tp' (if accepted then xs ++ task ∷ [] else xs)
  pub waiting : tp'.waiting ≡ (if accepted then tp.waiting +ℤ pos 1 else tp.waiting)
  pub signals : tp'.signals ≡ (if accepted then suc tp.signals else tp.signals)
  pub max_queue : tp'.max_queue ≡ tp.max_queue
  pub rest : s' ≡ record s { tasks = s'.tasks; tq = s'.tq }
  pub outside : (a : Ptr) → a ≢ task → (accepted && has a xs) ≡ false → s'.tasks a ≡ s.tasks a
  pub ctxs : (a : Ptr) → ctx_at s'.tasks a ≡ ctx_at s.tasks a
  pub events : (a : Ptr) → event_at s'.tasks a ≡ event_at s.tasks a

module _ {h : Tasks} (task : Ptr) {t : Task} (l : Live h task t) where
  marked-Live : Live (marked h task t) task (queued t)
  unfolding marked
  marked-Live = write-Live _ (write-Live _ l)

  marked_outside : (a : Ptr) → a ≢ task → marked h task t a ≡ h a
  unfolding marked write
  marked_outside a ne = ground arith

  ctx_at-marked : (a : Ptr) → ctx_at (marked h task t) a ≡ ctx_at h a
  unfolding marked write
  ctx_at-marked a = ground (arith, l.holds)

  event_at-marked : (a : Ptr) → event_at (marked h task t) a ≡ event_at h a
  unfolding marked write
  event_at-marked a = ground (arith, l.holds)

  marked-IsQueue :
      {q : Queue} (xs : List Ptr)
      → has task xs ≡ false
      → IsQueue h q xs
      → IsQueue (marked h task t) q xs
  marked-IsQueue {q} xs out is = record {
    chain = Chain-frame xs q.first (λ a i. marked_outside a (ne_of_has a task xs i out)) is.chain;
    last = is.last;
    distinct = is.distinct;
  }

module _ (calls : PostCalls) (task : Ptr) {t : Task} {tp : FfiTaskQueue} (xs : List Ptr) (s : Store)
    (is : IsTaskQueue s tp xs) (l : Live s.tasks task t) (out : has task xs ≡ false)
    (u : failed calls.mutex_unlock ≡ false) where
  abbrev Outcome : Bool → Rc → Type 0
  Outcome accepted rc =
      (s' : Store) × (tp' : FfiTaskQueue) × (post calls task s ≡ ok rc s')
      × Posted s tp xs task accepted s' tp'

  unchanged : post calls task s ≡ ok ngx_error s → Outcome false ngx_error
  unchanged e = (
    s,
    tp,
    e,
    record {
      tq = is;
      waiting = refl;
      signals = refl;
      max_queue = refl;
      rest = refl;
      outside = λ a ne o. refl;
      ctxs = λ a. refl;
      events = λ a. refl;
    },
  )

  rejected_full :
      post calls task s ≡ ok ngx_error (record s { tq = some (record tp { locked = false }) })
      → Outcome false ngx_error
  rejected_full e = (
    _,
    record tp { locked = false },
    e,
    record {
      tq = record { present = refl; unlocked = refl; queue = is.queue };
      waiting = refl;
      signals = refl;
      max_queue = refl;
      rest = refl;
      outside = λ a ne o. refl;
      ctxs = λ a. refl;
      events = λ a. refl;
    },
  )

  rejected_signal :
      post calls task s
        ≡ ok ngx_error
            (record s { tasks = marked s.tasks task t; tq = some (record tp { locked = false }) })
      → Outcome false ngx_error
  rejected_signal e = (
    _,
    record tp { locked = false },
    e,
    record {
      tq = record {
        present = refl;
        unlocked = refl;
        queue = marked-IsQueue task l xs out is.queue;
      };
      waiting = refl;
      signals = refl;
      max_queue = refl;
      rest = refl;
      outside = λ a ne o. marked_outside task l a ne;
      ctxs = ctx_at-marked task l;
      events = event_at-marked task l;
    },
  )

  accepted : Succeed calls → t.active ≡ false → is_full t tp ≡ false → Outcome true ngx_ok
  accepted v idle room =
      let g : Tasks = linked (marked s.tasks task t) (last_slot xs) task in
      let mid : Store = record s { tasks = marked s.tasks task t; tq = some (sent tp) } in
      let (e, q) =
        append_lem task xs mid (marked-IsQueue task l xs out is.queue) (marked-Live task l) refl
          out in
      (
        _,
        _,
        post-ok calls task s is.present l g (appended tp.queue task) v idle room e,
        record {
          tq = record { present = refl; unlocked = refl; queue = q };
          waiting = refl;
          signals = refl;
          max_queue = refl;
          rest = refl;
          outside = λ a ne o.
              linked_outside (marked s.tasks task t) xs task a o ∙ marked_outside task l a ne;
          ctxs = λ a.
              ctx_at-linked (marked s.tasks task t) (last_slot xs) task a ∙ ctx_at-marked task l a;
          events = λ a.
              event_at-linked (marked s.tasks task t) (last_slot xs) task a
              ∙ event_at-marked task l a;
        },
      )

  -- A post on a well-formed queue, of a live task that is not in it, returns with the mutex free,
  -- where the unlock succeeds. It answers NGX_OK and puts the task last, counting it, if the task
  -- was not active, the mutex could be locked, there was room (or the task has no context) and the
  -- signal was sent, once. Otherwise it answers NGX_ERROR, no signal is sent, and the tasks of the queue
  -- and its count stay.
  -- No task outside the queue but the posted one changes, no task's context pointer or event does, and no
  -- other memory.
  pub post_outcome : Outcome (accepts calls t tp) (if accepts calls t tp then ngx_ok else ngx_error)
  post_outcome = elim (Bool-cases t.active) [
    | inl busy ↦ rw busy (unchanged (post_active calls task s is.present l busy))
    | inr idle ↦ elim (Bool-cases (failed calls.mutex_lock)) [
      | inl no_lock ↦
          rw (idle, no_lock) (unchanged (post_lock calls task s is.present l no_lock idle))
      | inr lock ↦ elim (Bool-cases (is_full t tp)) [
        | inl full ↦
            rw (idle, lock, full)
              (rejected_full (post_full calls task s is.present l lock u idle full))
        | inr room ↦ elim (Bool-cases (failed calls.cond_signal)) [
          | inl no_signal ↦
              rw (idle, lock, room, no_signal)
                (rejected_signal (post_signal calls task s is.present l lock no_signal u idle room))
          | inr signal ↦
              rw (idle, lock, room, signal)
                (accepted (record { mutex_lock = lock; cond_signal = signal; mutex_unlock = u })
                  idle room)
        ]
      ]
    ]
  ]
