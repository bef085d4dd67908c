-- ===== src/System/Safety.antt =====
-- What holds in every reachable state of the task queue, however posts and polls interleave.
use lua_resty_ffi.Common.{ℕ, ◌+◌, ◌<◌, ◌≡◌, ◌≢◌, false, some, List, [], ◌∷◌, ◌++◌, arith, length}
use lua_resty_ffi.Common.Int.{ℤ, pos, negsuc, sub_ℕ, ◌≤ℤ◌, ◌+ℤ◌}
use lua_resty_ffi.Nginx.{Rc, failed}
use lua_resty_ffi.Store.{Ptr, FfiTaskQueue, Store}
use lua_resty_ffi.Store.Commands.{ok}
use lua_resty_ffi.TaskQueue.{PollResult, returned, in_cond_wait}
use lua_resty_ffi.TaskQueue.Post.{IsTaskQueue}
use lua_resty_ffi.TaskQueue.Poll.{Entry, entry_failed, poll, poll_empty, poll_first}
use lua_resty_ffi.System.{System, Reach}
use lua_resty_ffi.System.Invariant.{Inv, Reach-Inv}

-- What the oldest task is, or that there is none.
abbrev pub expected : List Ptr → PollResult
expected [] = in_cond_wait
expected (x ∷ xs) = returned x

queue_bound : (p n : ℕ) (m : ℤ) → pos 0 ≤ℤ m → sub_ℕ p n ≤ℤ m → pos p ≤ℤ m +ℤ pos n
unfolding ◌+ℤ◌
queue_bound p n (pos k) h le = ground arith
queue_bound p n (negsuc k) h le = ground arith

poll-expected :
    (e : Entry) (unlocked : Rc) {m : ℤ} (S : System)
    → entry_failed e ≡ false
    → failed unlocked ≡ false
    → (ps : List Ptr) → Inv m (record S { pending = ps })
    → (s' : Store) × (poll e unlocked S.store ≡ ok (expected ps) s')
poll-expected e unlocked S a u [] inv =
    let (eq, _) = poll_empty e unlocked S.store inv.tq a in (_, eq)
poll-expected e unlocked S a u (x ∷ xs) inv =
    let (t, _, l, _) = inv.tq.queue.chain in
    let (_, eq, _) =
      poll_first e unlocked S.store inv.tq l a u (ground (arith, l.holds, inv.requests x)) in
    (_, eq)

module _ {s : Store} {m : ℤ} {S : System} (h : pos 0 ≤ℤ m) (r : Reach s m S) where
  -- In every reachable state of a queue whose limit is at least 0: first in, first out, with
  -- nothing lost, doubled or reordered. What polls have returned, followed by what the queue holds
  -- in memory, is what posts have accepted, and the mutex is free.
  pub delivered_in_order :
      (tp : FfiTaskQueue) × IsTaskQueue S.store tp S.pending
      × (S.delivered ++ S.pending ≡ S.accepted)
  delivered_in_order = (tp, tq, fifo)
    where
      open (Reach-Inv h r) use {tp, tq, fifo}

  -- In every reachable state of a queue whose limit is at least 0, `waiting` is the number of
  -- queued tasks less the number of waiting pollers, and the queue holds at most `max_queue` tasks
  -- more than pollers wait.
  pub waiting_counts :
      (tp : FfiTaskQueue) × (S.store.tq ≡ some tp)
      × (tp.waiting ≡ sub_ℕ (length S.pending) (S.asleep + S.awake))
      × (pos (length S.pending) ≤ℤ m +ℤ pos (S.asleep + S.awake))
  waiting_counts = (
    tp,
    tq.present,
    counted,
    queue_bound (length S.pending) (S.asleep + S.awake) m h (rw (← counted) bounded),
  )
    where
      open (Reach-Inv h r) use {tp, tq, counted, bounded}

  -- No lost wake-up: in every reachable state of a queue whose limit is at least 0, while tasks are
  -- queued and a poller sleeps, another poller is awake.
  pub awake_poller : S.pending ≢ [] → 0 < S.asleep → 0 < S.awake
  awake_poller some_left sleeper = grind (arith, no_lost_wakeup)
    where
      open (Reach-Inv h r) use {no_lost_wakeup}

  -- In every reachable state of a queue whose limit is at least 0, a poll that gets the mutex and
  -- can give it back comes to an answer: the oldest queued task, or a wait if there is none. It
  -- never reads through a pointer that is not valid.
  pub poll_answers :
      (e : Entry) (unlocked : Rc)
      → entry_failed e ≡ false
      → failed unlocked ≡ false
      → (s' : Store) × (poll e unlocked S.store ≡ ok (expected S.pending) s')
  poll_answers e unlocked a u = poll-expected e unlocked S a u S.pending (Reach-Inv h r)
