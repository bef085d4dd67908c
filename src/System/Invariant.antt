-- ===== src/System/Invariant.antt =====
-- What holds between any two critical sections of the task queue.
use lua_resty_ffi.Common.{
  ℕ, suc, ◌+◌, ◌-◌, ◌≤◌, ◌≡◌, ◌≢◌, refl, sym, ap, ◌∙◌, ◌⊎◌, inl, inr, Bool, true, false, some, List,
  [], ◌∷◌, ◌++◌, arith, if◌then◌else◌, length, length-append,
}
use mathlib.Core.List.{append_assoc}
use lua_resty_ffi.Common.Int.{ℤ, pos, sub_ℕ, ◌+ℤ◌, ◌-ℤ◌, ◌≤ℤ◌}
use lua_resty_ffi.Nginx.{Rc, ngx_ok, ngx_error, failed}
use lua_resty_ffi.Store.{Ptr, null, Task, FfiTaskQueue, Store}
use lua_resty_ffi.Store.Commands.{ok, ok_inj, Live}
use lua_resty_ffi.Queue.Chain.{has, has-append, Chain-frame}
use lua_resty_ffi.Queue.Laws.{ctx_at}
use lua_resty_ffi.TaskQueue.{PostCalls, post, PollResult, zero_tq}
use lua_resty_ffi.TaskQueue.Post.{IsTaskQueue, Posted, accepts, post_outcome, is_full}
use lua_resty_ffi.TaskQueue.Poll.{
  Entry, enters, wakes, entry_failed, counted, poll, polled, poll_empty, poll_first,
}
use lua_resty_ffi.System.{
  System, Step, sent, woken, after_post, after_poll, taken, Ready, leave, Step, posts, polls,
  spurious, elsewhere, init, Reach, start, later,
}

pub record Inv (m : ℤ) (S : System) : Type 0 where
  pub tp : FfiTaskQueue
  pub tq : IsTaskQueue S.store tp S.pending
  pub requests : (a : Ptr) → has a S.pending ≡ true → ctx_at S.store.tasks a ≢ some null
  pub fifo : S.delivered ++ S.pending ≡ S.accepted
  pub counted : tp.waiting ≡ sub_ℕ (length S.pending) (S.asleep + S.awake)
  pub max_queue : tp.max_queue ≡ m
  pub bounded : tp.waiting ≤ℤ m
  pub no_lost_wakeup : (S.asleep ≡ 0) ⊎ (length S.pending ≤ S.awake)

module _ {m : ℤ} {S : System} (inv : Inv m S) where
  open inv use {tp, tq, requests, fifo, counted, max_queue, bounded, no_lost_wakeup}

  sent_lem :
      {task : Ptr} {b : Bool} {s : Store} {tp' : FfiTaskQueue}
      → Posted S.store tp S.pending task b s tp'
      → sent S s ≡ (if b then 1 else 0)
  sent_lem {b = true} p = rw (p.tq.present, tq.present, p.signals) (omega arith)
  sent_lem {b = false} p = rw (p.tq.present, tq.present, p.signals) (omega arith)

  refused-Inv :
      {task : Ptr} {s : Store} {tp' : FfiTaskQueue}
      → Posted S.store tp S.pending task false s tp'
      → Inv m (after_post S task true s)
  refused-Inv {tp'} p = rw (sent_lem p) (record {
    tp = tp';
    tq = p.tq;
    requests = λ a i. rw (p.ctxs a) (requests a i);
    fifo = fifo;
    counted = p.waiting ∙ counted ∙ ap (sub_ℕ (length S.pending)) (ground arith);
    max_queue = p.max_queue ∙ max_queue;
    bounded = rw p.waiting bounded;
    no_lost_wakeup = ground (arith, no_lost_wakeup);
  })

  queued-request :
      {task : Ptr} {t : Task}
      → Live S.store.tasks task t
      → t.ctx ≢ null
      → (a : Ptr) → has a (S.pending ++ task ∷ []) ≡ true
      → ctx_at S.store.tasks a ≢ some null
  queued-request {task} l c a i =
      ground (arith, l.holds, has-append a S.pending (task ∷ []), requests a)

  queued-counted :
      (task : Ptr)
      → sub_ℕ (length S.pending) (S.asleep + S.awake) +ℤ pos 1
        ≡ sub_ℕ
            (length (S.pending ++ task ∷ []))
            (S.asleep - woken 1 S.asleep + (S.awake + woken 1 S.asleep))
  unfolding ◌+ℤ◌
  queued-counted task = ground (arith, length-append S.pending (task ∷ []))

  room_for_one : (t : Task) → t.ctx ≢ null → is_full t tp ≡ false → tp.waiting +ℤ pos 1 ≤ℤ m
  unfolding ◌+ℤ◌
  room_for_one t c room = ground arith

  queued-no_lost_wakeup :
      (task : Ptr)
      → (S.asleep - woken 1 S.asleep ≡ 0)
        ⊎ (length (S.pending ++ task ∷ []) ≤ S.awake + woken 1 S.asleep)
  queued-no_lost_wakeup task = ground (arith, length-append S.pending (task ∷ []))

  queued-Inv :
      {task : Ptr} {t : Task} {s : Store} {tp' : FfiTaskQueue}
      → Live S.store.tasks task t
      → t.ctx ≢ null
      → is_full t tp ≡ false
      → Posted S.store tp S.pending task true s tp'
      → Inv m (after_post S task false s)
  queued-Inv {task} {t} {tp'} l c room p = rw (sent_lem p) (record {
    tp = tp';
    tq = p.tq;
    requests = λ a i. rw (p.ctxs a) (queued-request l c a i);
    fifo = sym (append_assoc S.delivered S.pending (task ∷ [])) ∙ ap (λ xs. xs ++ task ∷ []) fifo;
    counted = p.waiting ∙ ap (λ (n : ℤ). n +ℤ pos 1) counted ∙ queued-counted task;
    max_queue = p.max_queue ∙ max_queue;
    bounded = rw p.waiting (room_for_one t c room);
    no_lost_wakeup = queued-no_lost_wakeup task;
  })

  post-Inv :
      (calls : PostCalls) (task : Ptr) {t : Task} {rc : Rc} {s : Store}
      → Live S.store.tasks task t
      → t.ctx ≢ null
      → has task S.pending ≡ false
      → failed calls.mutex_unlock ≡ false
      → post calls task S.store ≡ ok rc s
      → Inv m (after_post S task (failed rc) s)
  post-Inv calls task {t} l c out u e =
      let (s', tp', e', p) = post_outcome calls task S.pending S.store tq l out u in
      let (rcs, stores) = ok_inj (sym e ∙ e') in
      rw (rcs, stores) (by_answer (accepts calls t tp) refl p)
    where
      by_answer :
          {s' : Store} {tp' : FfiTaskQueue} (b : Bool)
          → accepts calls t tp ≡ b
          → Posted S.store tp S.pending task b s' tp'
          → Inv m (after_post S task (failed (if b then ngx_ok else ngx_error)) s')
      by_answer true e p = queued-Inv l c (ground arith) p
      by_answer false e p = refused-Inv p

-- How the count follows the pollers.
counted-wait :
    (e : Entry) (w : ℤ) (n asleep awake : ℕ)
    → taken e ≤ awake
    → w ≡ sub_ℕ n (asleep + awake)
    → counted e w ≡ sub_ℕ n (asleep + 1 + (awake - taken e))
unfolding ◌-ℤ◌
counted-wait (enters _) w n asleep awake ready h = ground arith
counted-wait (wakes _) w n asleep awake ready h = ground arith

counted-first :
    (e : Entry) (w : ℤ) (n asleep awake : ℕ)
    → taken e ≤ awake
    → w ≡ sub_ℕ (suc n) (asleep + awake)
    → counted e w ≡ sub_ℕ n (asleep + (awake - taken e))
unfolding ◌-ℤ◌
counted-first (enters _) w n asleep awake ready h = ground arith
counted-first (wakes _) w n asleep awake ready h = ground arith

counted-le : (e : Entry) (w m : ℤ) → w ≤ℤ m → counted e w ≤ℤ m
unfolding ◌-ℤ◌
counted-le (enters _) w m h = ground arith
counted-le (wakes _) w m h = h

taken-le : (e : Entry) → taken e ≤ 1
taken-le (enters _) = omega arith
taken-le (wakes _) = omega arith

abbrev with_pending : System → List Ptr → System
with_pending S ps = record S { pending = ps }

module _ {m : ℤ} (e : Entry) (unlocked : Rc) {answer : PollResult} {s : Store} (S : System)
    (ready : Ready e S) (a : entry_failed e ≡ false) (u : failed unlocked ≡ false)
    (polled-s : poll e unlocked S.store ≡ ok answer s) where
  poll-Inv_at :
      (ps : List Ptr)
      → Inv m (with_pending S ps)
      → Inv m (after_poll (leave e (with_pending S ps)) answer s)
  poll-Inv_at [] inv =
      let (eq, is) = poll_empty e unlocked S.store inv.tq a in
      let (answers, stores) = ok_inj (sym polled-s ∙ eq) in
      rw (answers, stores)
        (record {
          tp = polled e inv.tp inv.tp.queue;
          tq = is;
          requests = inv.requests;
          fifo = inv.fifo;
          counted = counted-wait e inv.tp.waiting 0 S.asleep S.awake ready inv.counted;
          max_queue = inv.max_queue;
          bounded = counted-le e inv.tp.waiting m inv.bounded;
          no_lost_wakeup = inr (omega arith);
        })
  poll-Inv_at (x ∷ xs) inv =
      let (t, _, l, _) = inv.tq.queue.chain in
      let (q, eq, is) =
        poll_first e unlocked S.store inv.tq l a u (ground (arith, l.holds, inv.requests x)) in
      let (answers, stores) = ok_inj (sym polled-s ∙ eq) in
      rw (answers, stores)
        (record {
          tp = polled e inv.tp q;
          tq = is;
          requests = λ b i. inv.requests b (ground arith);
          fifo = append_assoc S.delivered (x ∷ []) xs ∙ inv.fifo;
          counted = counted-first e inv.tp.waiting (length xs) S.asleep S.awake ready inv.counted;
          max_queue = inv.max_queue;
          bounded = counted-le e inv.tp.waiting m inv.bounded;
          no_lost_wakeup = ground (arith, inv.no_lost_wakeup, taken-le e);
        })

-- Every step keeps the invariant.
pub Step-Inv : {m : ℤ} {S T : System} → Step S T → Inv m S → Inv m T
Step-Inv (posts calls task l c out u eq) inv = post-Inv inv calls task l c out u eq
Step-Inv {S} (polls e unlocked ready a u eq) inv =
    poll-Inv_at e unlocked S ready a u eq S.pending inv
Step-Inv {S} (spurious asleep) inv = record {
  tp = inv.tp;
  tq = inv.tq;
  requests = inv.requests;
  fifo = inv.fifo;
  counted = inv.counted ∙ ap (sub_ℕ (length S.pending)) (omega arith);
  max_queue = inv.max_queue;
  bounded = inv.bounded;
  no_lost_wakeup = ground (arith, inv.no_lost_wakeup);
}
Step-Inv {S} (elsewhere s same_tq same) inv = record {
  tp = inv.tp;
  tq = record {
    present = same_tq ∙ inv.tq.present;
    unlocked = inv.tq.unlocked;
    queue = record {
      chain = Chain-frame S.pending inv.tp.queue.first same inv.tq.queue.chain;
      last = inv.tq.queue.last;
      distinct = inv.tq.queue.distinct;
    };
  };
  requests = λ a i. ground (arith, same a i, inv.requests a i);
  fifo = inv.fifo;
  counted = inv.counted;
  max_queue = inv.max_queue;
  bounded = inv.bounded;
  no_lost_wakeup = inv.no_lost_wakeup;
}

Inv-init : (s : Store) (m : ℤ) → pos 0 ≤ℤ m → Inv m (init s m)
Inv-init s m h = record {
  tp = record zero_tq { max_queue = m };
  tq = record {
    present = refl;
    unlocked = refl;
    queue = record { chain = refl; last = refl; distinct = tt };
  };
  requests = λ a i. cc;
  fifo = refl;
  counted = refl;
  max_queue = refl;
  bounded = h;
  no_lost_wakeup = inl refl;
}

pub Reach-Inv : {s : Store} {m : ℤ} {S : System} → pos 0 ≤ℤ m → Reach s m S → Inv m S
Reach-Inv {s} {m} h start = Inv-init s m h
Reach-Inv h (later r st) = Step-Inv st (Reach-Inv h r)
