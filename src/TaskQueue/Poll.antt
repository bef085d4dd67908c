-- ===== src/TaskQueue/Poll.antt =====
-- ngx_http_lua_ffi_task_poll of ngx_http_lua_ffi.c against the list of tasks of the queue.
use lua_resty_ffi.Common.{
  ◌≡◌, ◌≢◌, refl, ◌∙◌, Bool, true, false, some, none, List, [], ◌∷◌, arith, ◌==◌,
}
use lua_resty_ffi.Common.Int.{ℤ, pos, ◌-ℤ◌}
use lua_resty_ffi.Nginx.{Rc, failed}
use lua_resty_ffi.Store.{Ptr, null, Task, FfiTaskQueue, Queue, Store}
use lua_resty_ffi.Store.Commands.{
  Cmd, ok, write, deref, Live, load_task, load_tq, set_tq, free_block,
}
use lua_resty_ffi.Queue.{remove}
use lua_resty_ffi.Queue.Chain.{IsQueue}
use lua_resty_ffi.Queue.Laws.{remove_lem}
use lua_resty_ffi.TaskQueue.{
  PollResult, returned, in_cond_wait, task_poll, poll_wake, poll_check, free_task_queue,
}
use lua_resty_ffi.TaskQueue.Post.{IsTaskQueue}

-- The test of the loop, reached with the mutex held.
module _ (unlocked : Rc) {tp : FfiTaskQueue} (s : Store) (here : s.tq ≡ some tp) where
  check_empty :
      tp.queue.first ≡ null
      → poll_check unlocked s
        ≡ ok in_cond_wait (record s { tq = some (record tp { locked = false }) })
  unfolding poll_check load_tq set_tq
  check_empty e = ground arith

  module _ {x : Ptr} {t : Task} {q : Queue} (first : tp.queue.first ≡ x) (l : Live s.tasks x t)
      (e : remove tp.queue s ≡ ok q s) where
    -- A task with a context is handed out; the mutex is given back if the unlock succeeds.
    check_task :
        failed unlocked ≡ false
        → (t.ctx == null) ≡ false
        → poll_check unlocked s
          ≡ ok (returned x) (record s { tq = some (record tp { locked = false; queue = q }) })
    unfolding poll_check load_task load_tq set_tq deref
    check_task u c = ground (arith, l.ne_null, l.holds)

    -- The task that ends the queue is freed with it.
    check_finish :
        failed unlocked ≡ false
        → (t.ctx == null) ≡ true
        → poll_check unlocked s
          ≡ ok
              (returned null)
              (record s { tasks = write s.tasks x none; ctxs = write s.ctxs x none; tq = none })
    unfolding poll_check load_task load_tq set_tq deref free_block free_task_queue
    check_finish u c = ground (arith, l.ne_null, l.holds)

    -- An unlock that fails loses the task: it is off the queue, and NULL is returned.
    check_lost :
        failed unlocked ≡ true
        → poll_check unlocked s
          ≡ ok (returned null) (record s { tq = some (record tp { queue = q }) })
    unfolding poll_check load_task load_tq set_tq deref
    check_lost u = ground (arith, l.ne_null, l.holds)

-- How a poll comes to the test of the loop: by a call, with what the lock answers, or back from
-- ngx_thread_cond_wait, with what that answered.
pub data Entry : Type 0 where
  enters : Rc → Entry
  wakes : Rc → Entry

unfoldable pub poll : Entry → (mutex_unlock : Rc) → Cmd PollResult
poll (enters mutex_lock) mutex_unlock = task_poll mutex_lock mutex_unlock
poll (wakes cond_wait) mutex_unlock = poll_wake cond_wait mutex_unlock

abbrev pub entry_failed : Entry → Bool
entry_failed (enters rc) = failed rc
entry_failed (wakes rc) = failed rc

-- The count goes down once for each call of the poll, before the wait.
abbrev pub counted : Entry → ℤ → ℤ
counted (enters _) n = n -ℤ pos 1
counted (wakes _) n = n

-- The queue after a poll that got the mutex, with the tasks `q`.
abbrev pub polled : Entry → FfiTaskQueue → Queue → FfiTaskQueue
polled e tp q = record tp { queue = q; waiting = counted e tp.waiting }

abbrev held : Entry → FfiTaskQueue → FfiTaskQueue
held e tp = record tp { locked = true; waiting = counted e tp.waiting }

poll-check :
    (e : Entry) (unlocked : Rc) {tp : FfiTaskQueue} (s : Store)
    → s.tq ≡ some tp
    → entry_failed e ≡ false
    → poll e unlocked s ≡ poll_check unlocked (record s { tq = some (held e tp) })
unfolding poll task_poll poll_wake set_tq load_tq
poll-check (enters rc) unlocked s here a = ground arith
poll-check (wakes rc) unlocked s here a = ground arith

module _ (e : Entry) (unlocked : Rc) {tp : FfiTaskQueue} (s : Store) where
  -- On an empty queue a poll that gets the mutex waits, with the mutex given back; a call of it is
  -- counted before it waits.
  pub poll_empty :
      IsTaskQueue s tp []
      → entry_failed e ≡ false
      → (poll e unlocked s ≡ ok in_cond_wait (record s { tq = some (polled e tp tp.queue) }))
        × IsTaskQueue (record s { tq = some (polled e tp tp.queue) }) (polled e tp tp.queue) []
  poll_empty is a = (
    poll-check e unlocked s is.present a
        ∙ check_empty unlocked _ refl is.queue.chain
        ∙ (rw is.unlocked),
    record { present = refl; unlocked = is.unlocked; queue = is.queue },
  )

  module _ {x : Ptr} {xs : List Ptr} (is : IsTaskQueue s tp (x ∷ xs)) {t : Task}
      (l : Live s.tasks x t) (a : entry_failed e ≡ false) where
    -- A poll that gets the mutex and can give it back takes the oldest task off the queue and
    -- returns it, if it has a context; the other tasks stay in their order, and nothing else changes
    -- but the count.
    pub poll_first :
        failed unlocked ≡ false
        → t.ctx ≢ null
        → (q : Queue) × (poll e unlocked s
            ≡ ok (returned x) (record s { tq = some (polled e tp q) }))
          × IsTaskQueue (record s { tq = some (polled e tp q) }) (polled e tp q) xs
    poll_first u c =
        let mid : Store = record s { tq = some (held e tp) } in
        let (t', q, first, l', r, rest) = remove_lem x xs mid is.queue in
        (
          q,
          poll-check e unlocked s is.present a
              ∙ check_task unlocked mid refl first l r u (ground (arith, c))
              ∙ (rw is.unlocked),
          record { present = refl; unlocked = is.unlocked; queue = rest },
        )

    -- Where the oldest task has no context, a poll that gets the mutex and can give it back frees
    -- the task and the queue, and returns NULL. No other memory changes.
    pub poll_finish :
        failed unlocked ≡ false
        → t.ctx ≡ null
        → poll e unlocked s
          ≡ ok
              (returned null)
              (record s { tasks = write s.tasks x none; ctxs = write s.ctxs x none; tq = none })
    poll_finish u c =
        let mid : Store = record s { tq = some (held e tp) } in
        let (t', q, first, l', r, rest) = remove_lem x xs mid is.queue in
        poll-check e unlocked s is.present a
        ∙ check_finish unlocked mid refl first l r u (ground (arith, c))

    -- A poll that gets the mutex and whose unlock fails returns NULL with the mutex still held, and
    -- the oldest task, which it took off the queue, is lost.
    pub poll_lost :
        failed unlocked ≡ true
        → (q : Queue) × (poll e unlocked s
            ≡ ok
                (returned null)
                (record s { tq = some (record (polled e tp q) { locked = true }) }))
          × IsQueue s.tasks q xs
    poll_lost u =
        let mid : Store = record s { tq = some (held e tp) } in
        let (t', q, first, l', r, rest) = remove_lem x xs mid is.queue in
        (q, poll-check e unlocked s is.present a ∙ check_lost unlocked mid refl first l r u, rest)
